-- ===== src/Connect/Reconnect.antt =====
-- internal/connect/client.go: the handshake of a new connection, and the loop of `run` that replaces a
-- lost one. What a dial, a read or a write of the transport gives is an argument, as is whether the
-- client's context was cancelled meanwhile.
pub mod Delays
pub mod Handshake
mod Tests
use go_ha.Prelude.{
  ℕ, String, str_eq, Bool, true, false, not, Option, none, some, List, [], ◌∷◌, leb, if◌then◌else◌,
}
use go_ha.Json.{text, Fields, empty, field}
use go_ha.Connect.Message.{Message, Envelope, parse_message}
use go_ha.Connect.Backoff.{Backoff, next, reset}

-- What `connectOnce` ends with: a connection, `ErrAuthFailed`, or another error.
pub data Attempt : Type 0 where
  connected : Attempt
  auth_failed : Attempt
  failed : Attempt

-- `readOne`.
abbrev pub read_one : (String → Option Envelope) → Option String → Option Message
read_one decode none = none
read_one decode (some raw) = parse_message decode raw

-- The message that carries the token.
unfoldable pub auth_message : String → Fields
auth_message token = field "type" (text "auth") (field "access_token" (text token) empty)

-- The end of `authenticate`, by the answer to the token.
abbrev pub auth_answer : Option Message → Attempt
auth_answer none = failed
auth_answer (some msg) =
    if str_eq msg.type "auth_ok"
    then connected
    else if str_eq msg.type "auth_invalid"
    then auth_failed
    else failed

-- `authenticate`: the first message, the write of the token, and the answer. The token is not sent to a
-- server that does not ask for it.
unfoldable pub authenticate : Option Message → Bool → Option Message → Attempt
authenticate none wrote answer = failed
authenticate (some msg) wrote answer =
    if not (str_eq msg.type "auth_required")
    then failed
    else if not wrote
    then failed
    else auth_answer answer

-- `connectOnce`: whether the dial succeeded, and the handshake.
unfoldable pub connect_once : Bool → Attempt → Attempt
connect_once dialled handshake = if dialled then handshake else failed

-- One round of `reconnect`: the jitter drawn for its delay, whether the timer fired before the context
-- ended, what the attempt gave, and whether the context had ended by then.
pub record Round : Type 0 where
  pub jitter : ℕ → ℕ
  pub woken : Bool
  pub attempt : Attempt
  pub cancelled : Bool

-- A usable connection; the client stops, for its context ended; it stops, for the token was refused; or it
-- still tries.
pub data Verdict : Type 0 where
  usable : Verdict
  stopped : Verdict
  refused : Verdict
  trying : Verdict

pub record Reconnection : Type 0 where
  pub verdict : Verdict
  pub backoff : Backoff
  pub delays : List ℕ

abbrev pub after_round : Round → Verdict
after_round r = if r.woken then decide r.attempt else stopped
  where
    decide : Attempt → Verdict
    decide connected = usable
    decide auth_failed = refused
    decide failed = if r.cancelled then stopped else trying

-- The loop goes on only where a round decided nothing.
abbrev pub go_on : Verdict → ℕ → Backoff → Reconnection → Reconnection
go_on usable delay b rest = record { verdict = usable; backoff = b; delays = delay ∷ [] }
go_on stopped delay b rest = record { verdict = stopped; backoff = b; delays = delay ∷ [] }
go_on refused delay b rest = record { verdict = refused; backoff = b; delays = delay ∷ [] }
go_on trying delay b rest = record rest { delays = delay ∷ rest.delays }

-- `reconnect`, over the rounds that there are.
unfoldable pub reconnect : List Round → Backoff → Reconnection
reconnect [] b = record { verdict = trying; backoff = b; delays = [] }
reconnect (r ∷ rest) b =
    let (delay, c) = next r.jitter b in go_on (after_round r) delay c (reconnect rest c)

-- What `run` does when a connection that lived so long is lost, unless the context has ended.
unfoldable pub recover : ℕ → ℕ → List Round → Backoff → Reconnection
recover healthy_after lived rounds b =
    reconnect rounds (if leb healthy_after lived then reset b else b)
