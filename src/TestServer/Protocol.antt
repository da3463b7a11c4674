-- ===== src/TestServer/Protocol.antt =====
-- hatest/server.go: what the server does with a websocket. A write that fails, on a socket that is about
-- to be closed, is not modelled.
use go_ha.Prelude.{
  ℕ, String, str_eq, Bool, true, false, not, ◌||◌, Option, none, some, List, [], ◌∷◌, ◌++◌,
  if◌then◌else◌,
}
use go_ha.Prelude.Table.{find, put, drop}
use go_ha.Json.{
  Any, text, flag, integer, float, null, object, Fields, empty, field, Data, member, as_text,
  as_data,
}
use go_ha.TestServer.{token, ServiceCall, Connection, Server}

-- The entity of a call, which its target names.
abbrev pub target_entity : Data → String
target_entity none = ""
target_entity (some target) = as_text (member "entity_id" target)

-- `recordCall`, before the call is appended.
unfoldable pub read_call : Fields → ServiceCall
read_call msg = record {
  domain = as_text (member "domain" msg);
  service = as_text (member "service" msg);
  entity_id = target_entity (as_data (member "target" msg));
  service_data = as_data (member "service_data" msg);
}

unfoldable pub record_call : Fields → Server → Server
record_call msg s = record s { calls = s.calls ++ read_call msg ∷ [] }

-- The subscription on a connection that is still registered.
abbrev pub subscribed :
    Option Connection → ℕ → ℕ → String → List (ℕ × Connection) → List (ℕ × Connection)
subscribed none to id event_type conns = conns
subscribed (some c) to id event_type conns =
    put to (record { subs = put id event_type c.subs }) conns

unfoldable pub subscribe : ℕ → ℕ → String → Server → Server
subscribe to id event_type s = record s {
  conns = subscribed (find to s.conns) to id event_type s.conns;
}

abbrev pub success : ℕ → Fields
success id =
    field "id" (integer id) (field "type" (text "result") (field "success" (flag true) empty))

abbrev pub pong : ℕ → Fields
pong id = field "id" (integer id) (field "type" (text "pong") empty)

-- `websocket.Accept`, once it has succeeded: the connection is registered.
unfoldable pub accept : ℕ → Server → Server
accept to s = record s { conns = put to (record { subs = [] }) s.conns }

-- What `serveWebsocket` leaves behind.
unfoldable pub hang_up : ℕ → Server → Server
hang_up to s = record s { conns = drop to s.conns }

-- `Close`, which closes every connection that it finds; each then hangs up.
unfoldable pub close : Server → Server × List ℕ
close s = if s.closed then (s, []) else (record s { closed = true }, numbers s.conns)
  where
    numbers : List (ℕ × Connection) → List ℕ
    numbers [] = []
    numbers ((to, c) ∷ rest) = to ∷ numbers rest

-- What `authenticate` writes first.
unfoldable pub greeting : Fields
greeting = field "type" (text "auth_required") (field "ha_version" (text "2026.7.0") empty)

-- `authenticate`, once a message has been read: what is written, and whether the connection may go on.
unfoldable pub authenticate : Fields → Fields × Bool
authenticate msg =
    if not (str_eq (as_text (member "type" msg)) "auth")
      || not (str_eq (as_text (member "access_token" msg)) token)
    then (
      field "type" (text "auth_invalid") (field "message" (text "Invalid access token") empty),
      false,
    )
    else (field "type" (text "auth_ok") (field "ha_version" (text "2026.7.0") empty), true)

-- `truncate` is the conversion of a float64, given by its bits, to an int64. A message that was read from
-- JSON has no other numbers; only one that the server writes holds an integer.
module _ (truncate : ℕ → ℕ) where
  -- `int64(id)`, and 0 where the message has no number there.
  abbrev pub as_id : Option Any → ℕ
  as_id none = 0
  as_id (some (text s)) = 0
  as_id (some (flag b)) = 0
  as_id (some (integer n)) = n
  as_id (some (float bits)) = truncate bits
  as_id (some null) = 0
  as_id (some (object fields)) = 0

  -- `readLoop`, once around: the reply goes to the sender.
  unfoldable pub serve_message : ℕ → Fields → Server → Server × Fields
  unfolding subscribe record_call
  serve_message to msg s =
      let id = as_id (member "id" msg) in
      let type = as_text (member "type" msg) in
      if str_eq type "subscribe_events"
      then (subscribe to id (as_text (member "event_type" msg)) s, success id)
      else if str_eq type "call_service"
      then (record_call msg s, success id)
      else if str_eq type "ping"
      then (s, pong id)
      else (s, success id)

  -- `readLoop` over the messages of a connection, as they were read from JSON, with the replies.
  unfoldable pub read_loop : ℕ → List Fields → Server → Server × List Fields
  unfolding serve_message
  read_loop to [] s = (s, [])
  read_loop to (msg ∷ rest) s =
      let (d, reply) = serve_message to msg s in
      let (e, replies) = read_loop to rest d in (e, reply ∷ replies)
