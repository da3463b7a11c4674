-- ===== src/Connect/Message.antt =====
-- internal/connect/message.go. Decoding the JSON of a frame is the standard library's, a parameter. An
-- id that the server sends is not negative: a negative one would answer nothing.
use go_ha.Prelude.{ℕ, String, str_eq, Bool, true, ◌||◌, Option, none, some, if◌then◌else◌}

pub record MessageError : Type 0 where
  pub code : String
  pub message : String

pub record Message : Type 0 where
  pub id : ℕ
  pub type : String
  pub success : Bool
  pub raw : String
  pub error : Option MessageError

-- `envelope`; `success` is absent from all but results.
pub record Envelope : Type 0 where
  pub id : ℕ
  pub type : String
  pub success : Option Bool
  pub error : Option MessageError

abbrev pub succeeded : Option Bool → Bool
succeeded none = true
succeeded (some b) = b

abbrev pub opened : String → Option Envelope → Option Message
opened raw none = none
opened raw (some e) =
    some (record {
      id = e.id;
      type = e.type;
      success = succeeded e.success;
      raw = raw;
      error = e.error;
    })

-- `parseMessage`.
unfoldable pub parse_message : (String → Option Envelope) → String → Option Message
parse_message decode raw = opened raw (decode raw)

-- `isResult`.
abbrev pub is_result : Message → Bool
is_result m = str_eq m.type "result" || str_eq m.type "pong"

-- `err`: nothing, or the failure with the error object that came with it.
pub data Outcome : Type 0 where
  fine : Outcome
  call_failed : Option MessageError → Outcome

unfoldable pub outcome : Message → Outcome
outcome m = if m.success then fine else call_failed m.error
