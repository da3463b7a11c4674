-- ===== src/TestServer/Tests.antt =====
-- A server of hatest with a connection that subscribes, and service calls.
use go_ha.Prelude.{ℕ, ◌≤◌, ◌^◌, ◌≡◌, refl, none, some, List, [], ◌∷◌, ◌++◌, map, arith}
use go_ha.TestServer.Replica.{Announced, changes, removes}
use go_ha.Prelude.Table.{entries}
use go_ha.Json.{Fields, text, integer, empty, field}
use go_ha.Services.{Request, set_id, new_base_service_request}
use go_ha.Services.Light
use go_ha.Services.Timer
use go_ha.Services.Event
use go_ha.TestServer.{Server, new_server, set_state, fire}
use go_ha.TestServer.Protocol.{success, read_loop, accept}
use go_ha.TestServer.Calls.{all_asked, id_of, sent, read_loop-asked}
use go_ha.TestServer.Delivery.{frames_for, served_by, last_wanted, fire-frames}

abbrev calls : List Request
calls =
    set_id 1 (
      Light.turn_on (λ r. r) (record { value = "light.hall" })
        (some (field "brightness" (integer 9) empty) ∷ []))
    ∷ set_id 2 (Event.fire (λ r. r) "doorbell" [])
    ∷ set_id 3 (Timer.start (λ r. r) (record { value = "timer.tea" }) "00:03:00")
    ∷ []

-- The float64 of an integer of at most 2^53, known here by its value.
exact_to_53 : (n : ℕ) → n ≤ 2 ^ 53 → n ≡ n
exact_to_53 n h = refl

read_loop-asked_example :
    ((read_loop (λ n. n) 4 (map (sent (λ n. n)) calls) new_server).0.calls
      ≡ new_server.calls ++ all_asked (λ n. n) calls)
    × ((read_loop (λ n. n) 4 (map (sent (λ n. n)) calls) new_server).1
        ≡ map (λ r. success (id_of r)) calls)
unfolding set_id new_base_service_request
read_loop-asked_example =
    read_loop-asked (λ n. n) (λ n. n) exact_to_53 4 calls new_server
      ((refl, omega arith), ((refl, omega arith), ((refl, omega arith), tt)))

abbrev home : Server
home = set_state 3 "light.hall" "on" [] new_server

abbrev messages : List Fields
messages =
    field "id" (integer 1)
      (field "type" (text "subscribe_events") (field "event_type" (text "doorbell") empty))
    ∷ field "id" (integer 2) (field "type" (text "subscribe_events") empty)
    ∷ []

fire-frames_example :
    frames_for
      (λ n. n)
      4
      1
      (fire (λ n. "") 8 "doorbell" (text "front") (read_loop (λ n. n) 4 messages (accept 4 home)).0)
    ≡ served_by "doorbell" (last_wanted (λ n. n) 1 none messages)
unfolding set_state new_server entries
fire-frames_example =
    fire-frames (λ n. n) 4 (λ n. "") 8 "doorbell" (text "front") 1 messages home (omega arith)

-- Two changes of one entity, one of another, and its removal.
abbrev evening : List Announced
evening =
    changes 8 "light.hall" "off" []
    ∷ changes 9 "door.front" "open" (some (field "battery" (integer 80) empty) ∷ [])
    ∷ changes 9 "light.hall" "on" []
    ∷ removes 10 "light.hall"
    ∷ []

-- A subscription to every event, on the one connection.
abbrev subscribed : Server
subscribed = record home { conns = (4, record { subs = (1, "") ∷ [] }) ∷ [] }
