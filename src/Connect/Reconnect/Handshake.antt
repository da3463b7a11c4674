-- ===== src/Connect/Reconnect/Handshake.antt =====
-- The handshake of internal/connect/client.go with the server of hatest/server.go.
use go_ha.Prelude.{
  String, str_eq, ◌≡◌, refl, ap, ◌∙◌, Bool, true, false, Option, none, some, List, [], ◌∷◌, All,
  if◌then◌else◌,
}
use mathlib.Core.Option as Option
use go_ha.Json.{text, Fields, member, as_text}
use go_ha.Connect.Message.{Message, Envelope, succeeded, opened, parse_message}
use go_ha.Connect.Reconnect.{
  Attempt, connected, auth_failed, read_one, auth_answer, auth_message, authenticate,
}
use go_ha.TestServer as Server
use go_ha.TestServer.Protocol

-- The frames that the server may send during the handshake.
abbrev pub frames : List Fields
frames =
    Protocol.greeting
    ∷ (Protocol.authenticate (auth_message Server.token)).0
    ∷ (Protocol.authenticate (auth_message "")).0
    ∷ []

-- The client reads the type of the frame.
abbrev pub KeepsType : (Fields → String) → (String → Option Envelope) → Fields → Type 0
KeepsType marshal decode f =
    (e : Envelope) × (decode (marshal f) ≡ some e) × (e.type ≡ as_text (member "type" f))

-- The server reads the client's message, with the type and the token that were written.
abbrev pub KeepsToken : (Fields → Option Fields) → Type 0
KeepsToken carry =
    (token : String)
    → (f : Fields) × (carry (auth_message token) ≡ some f)
      × (member "type" f ≡ some (text "auth"))
      × (member "access_token" f ≡ some (text token))

module _ (carry : Fields → Option Fields) (marshal : Fields → String)
    (decode : String → Option Envelope) (carries : KeepsToken carry)
    (k : All (KeepsType marshal decode) frames) where
  read_type :
      (f : Fields)
      → KeepsType marshal decode f
      → (msg : Message) × (read_one decode (some (marshal f)) ≡ some msg)
        × (msg.type ≡ as_text (member "type" f))
  unfolding parse_message
  read_type f (e, d, t) = (
    record {
      id = e.id;
      type = e.type;
      success = succeeded e.success;
      raw = marshal f;
      error = e.error;
    },
    ap (opened (marshal f)) d,
    t,
  )

  -- The server's answer, and whether it goes on; it answers only what it can read.
  abbrev pub answered : String → Option (Fields × Bool)
  answered token = Option.map Protocol.authenticate (carry (auth_message token))

  abbrev answer_text : Option (Fields × Bool) → Option String
  answer_text none = none
  answer_text (some (f, b)) = some (marshal f)

  -- What the client makes of the server's frames.
  abbrev pub meet : String → Attempt
  meet token =
      authenticate (read_one decode (some (marshal Protocol.greeting))) true
        (read_one decode (answer_text (answered token)))

  meet-types :
      (first answer : Option Message) (m n : Message)
      → first ≡ some m
      → answer ≡ some n
      → m.type ≡ "auth_required"
      → authenticate first true answer ≡ auth_answer (some n)
  unfolding authenticate
  meet-types first answer m n e f h = rw (e, f, h) refl

  greets : as_text (member "type" Protocol.greeting) ≡ "auth_required"
  unfolding member Protocol.greeting
  greets = refl

  abbrev reply : Bool → Fields × Bool
  reply true = Protocol.authenticate (auth_message Server.token)
  reply false = Protocol.authenticate (auth_message "")

  reply-KeepsType : (b : Bool) → KeepsType marshal decode (reply b).0
  reply-KeepsType true = k.1.0
  reply-KeepsType false = k.1.1.0

  reply-type :
      (b : Bool)
      → (as_text (member "type" (reply b).0) ≡ (if b then "auth_ok" else "auth_invalid"))
        × ((reply b).1 ≡ b)
  unfolding Protocol.authenticate auth_message member
  reply-type true = (refl, refl)
  reply-type false = (refl, refl)

  authenticate-reply :
      (f : Fields) (token : String) (b : Bool)
      → member "type" f ≡ some (text "auth")
      → member "access_token" f ≡ some (text token)
      → str_eq token Server.token ≡ b
      → Protocol.authenticate f ≡ reply b
  unfolding Protocol.authenticate auth_message member
  authenticate-reply f token true t a h = rw (t, a, h) refl
  authenticate-reply f token false t a h = rw (t, a, h) refl

  auth_answer-type :
      (n : Message) (b : Bool)
      → n.type ≡ (if b then "auth_ok" else "auth_invalid")
      → auth_answer (some n) ≡ (if b then connected else auth_failed)
  auth_answer-type n true h = rw h refl
  auth_answer-type n false h = rw h refl

  -- Where JSON carries the client's token to the server and the types of the server's frames back, for any
  -- token: the client's handshake with the test server gives a connection where the token is the one that
  -- the server accepts, and otherwise the error that the token was refused, and the server goes on in just
  -- the first case.
  pub meet-token :
      (token : String)
      → (meet token ≡ (if str_eq token Server.token then connected else auth_failed))
        × (Option.map (λ r. r.1) (answered token) ≡ some (str_eq token Server.token))
  meet-token token =
      let b = str_eq token Server.token in
      let (f, c, t, a) = carries token in
      let answer : answered token ≡ some (reply b) =
        ap (Option.map Protocol.authenticate) c ∙ ap some (authenticate-reply f token b t a refl) in
      let (m, e, h) = read_type Protocol.greeting k.0 in
      let (n, g, i) = read_type (reply b).0 (reply-KeepsType b) in
      (
        meet-types _ _ m n e (ap (λ o. read_one decode (answer_text o)) answer ∙ g) (h ∙ greets)
            ∙ auth_answer-type n b (i ∙ (reply-type b).0),
        ap (Option.map (λ r. r.1)) answer ∙ ap some (reply-type b).1,
      )
