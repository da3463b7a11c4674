-- ===== src/Connect/Reconnect/Tests.antt =====
-- A connection lost after two seconds, replaced at the third attempt; and a handshake.
use go_ha.Prelude.{
  ◌+◌, All, arith, String, str_eq, ◌≡◌, refl, true, false, Option, none, some, List, [], ◌∷◌,
  if◌then◌else◌, leb,
}
use Prim.Native.String.{◌++◌ as ◌<>◌}
use mathlib.Core.Option as Option
use go_ha.Json.{text, Fields, empty, field, member}
use go_ha.Connect.Message.{Envelope}
use go_ha.Connect.Backoff.{new_backoff}
use go_ha.Connect.Reconnect.{connected, auth_failed, failed, auth_message, Round, recover}
use go_ha.Connect.Reconnect.Delays.{Follows, recover-Follows}
use go_ha.Connect.Reconnect.Handshake.{frames, KeepsType, KeepsToken, answered, meet, meet-token}
use go_ha.TestServer as Server
use go_ha.TestServer.Protocol

abbrev rounds : List Round
rounds =
    record { jitter = λ d. d + 7; woken = true; attempt = failed; cancelled = false }
    ∷ record { jitter = λ d. d; woken = true; attempt = failed; cancelled = false }
    ∷ record { jitter = λ d. d + 3; woken = true; attempt = connected; cancelled = false }
    ∷ []

recover-Follows_example :
    Follows new_backoff
      (if leb 60000000000 2000000000 then 0 else new_backoff.attempt)
      rounds
      (recover 60000000000 2000000000 rounds new_backoff)
unfolding new_backoff
recover-Follows_example =
    recover-Follows 60000000000 2000000000 rounds new_backoff (omega arith) (omega arith)
      (omega arith)

-- The JSON of an object of texts, whose names are given in the opposite of their order.
abbrev quoted : String → String
quoted s = "\"" <> s <> "\""

abbrev members : Fields → String
members empty = ""
members (field key (text value) empty) = quoted key <> ":" <> quoted value
members (field key (text value) rest) = members rest <> "," <> quoted key <> ":" <> quoted value
members (field key value rest) = members rest

abbrev marshal : Fields → String
marshal f = "{" <> members f <> "}"

abbrev typed : String → Envelope
typed type = record { id = 0; type = type; success = none; error = none }

-- `encoding/json` on the frames of the handshake.
abbrev decode : String → Option Envelope
decode raw =
    if str_eq raw "{\"ha_version\":\"2026.7.0\",\"type\":\"auth_required\"}"
    then some (typed "auth_required")
    else if str_eq raw "{\"ha_version\":\"2026.7.0\",\"type\":\"auth_ok\"}"
    then some (typed "auth_ok")
    else if str_eq raw "{\"message\":\"Invalid access token\",\"type\":\"auth_invalid\"}"
    then some (typed "auth_invalid")
    else none

decode-KeepsType : All (KeepsType marshal decode) frames
unfolding auth_message member Protocol.greeting Protocol.authenticate
decode-KeepsType = (
  (typed "auth_required", refl, refl),
  ((typed "auth_ok", refl, refl), ((typed "auth_invalid", refl, refl), tt)),
)

-- An object of texts is read back as it was written.
some-KeepsToken : KeepsToken some
unfolding auth_message member
some-KeepsToken token = (auth_message token, refl, refl, refl)

meet-token_example :
    (meet some marshal decode some-KeepsToken decode-KeepsType "hatest-token"
      ≡ (if str_eq "hatest-token" Server.token then connected else auth_failed))
    × (Option.map
          (λ r. r.1)
          (answered some marshal decode some-KeepsToken decode-KeepsType "hatest-token")
        ≡ some (str_eq "hatest-token" Server.token))
meet-token_example = meet-token some marshal decode some-KeepsToken decode-KeepsType "hatest-token"
