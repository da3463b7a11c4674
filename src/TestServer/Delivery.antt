-- ===== src/TestServer/Delivery.antt =====
-- hatest/server.go: which events reach which subscriptions.
use go_ha.Prelude.{
  ℕ, ◌≤◌, String, str_eq, ◌≡◌, refl, ap, ◌∙◌, Bool, true, false, ◌&&◌, inl, inr, Option, none, some,
  List, [], ◌∷◌, map, arith, weigh, weigh-append, Bool-cases, ◌==◌, if◌then◌else◌,
}
use go_ha.Prelude.Table.{find, put, entries, find-put, find-empty, put-entries}
use go_ha.Json.{Any, Fields, member, as_text}
use go_ha.TestServer.{
  wants, wanted_ids, Connection, Frame, Server, event_frame, event_payload, broadcast, fire,
}
use go_ha.TestServer.Protocol.{
  as_id, subscribe, subscribed, record_call, serve_message, read_loop, accept,
}

-- How often an id is among those of a list.
abbrev pub tally : ℕ → List ℕ → ℕ
tally id ids = weigh (λ x. if x == id then 1 else 0) ids

abbrev pub served_by : String → Option String → ℕ
served_by type none = 0
served_by type (some want) = if wants type want then 1 else 0

wanted_ids-absent :
    (type : String) (id : ℕ) (subs : List (ℕ × String))
    → entries id subs ≡ 0
    → tally id (wanted_ids type subs) ≡ 0
unfolding wanted_ids entries
wanted_ids-absent type id [] h = refl
wanted_ids-absent type id ((k, want) ∷ rest) h = ground (arith, wanted_ids-absent type id rest)

pub wanted_ids-tally :
    (type : String) (id : ℕ) (subs : List (ℕ × String))
    → entries id subs ≤ 1
    → tally id (wanted_ids type subs) ≡ served_by type (find id subs)
unfolding wanted_ids entries find
wanted_ids-tally type id [] h = refl
wanted_ids-tally type id ((k, want) ∷ rest) h =
    ground (arith, wanted_ids-absent type id rest, wanted_ids-tally type id rest)

-- Whether a frame is an event for a subscription of a connection.
abbrev pub is_for : (ℕ → ℕ) → ℕ → ℕ → Frame → ℕ
is_for truncate to id f =
    if f.to == to && as_id truncate (member "id" f.message) == id then 1 else 0

abbrev pub frames_for : (ℕ → ℕ) → ℕ → ℕ → List Frame → ℕ
frames_for truncate to id frames = weigh (is_for truncate to id) frames

abbrev is_request : (ℕ → ℕ) → ℕ → Fields → Bool
is_request truncate id msg =
    str_eq (as_text (member "type" msg)) "subscribe_events"
    && as_id truncate (member "id" msg) == id

-- The event type that the last `subscribe_events` with an id asked for, if any, after an earlier one.
abbrev pub last_wanted : (ℕ → ℕ) → ℕ → Option String → List Fields → Option String
last_wanted truncate id before [] = before
last_wanted truncate id before (msg ∷ rest) =
    last_wanted truncate id
      (if is_request truncate id msg then some (as_text (member "event_type" msg)) else before) rest

module _ (truncate : ℕ → ℕ) (to : ℕ) where
  map-frames :
      (payload : Any) (k id : ℕ) (ids : List ℕ)
      → frames_for truncate to id (map (event_frame payload k) ids)
        ≡ (if k == to then tally id ids else 0)
  unfolding member
  map-frames payload k id [] = ground arith
  map-frames payload k id (x ∷ ids) = ground (arith, map-frames payload k id ids)

  broadcast-absent :
      (time type : String) (v : Any) (id : ℕ) (conns : List (ℕ × Connection))
      → entries to conns ≡ 0
      → frames_for truncate to id (broadcast time conns type v) ≡ 0
  unfolding broadcast entries
  broadcast-absent time type v id [] h = refl
  broadcast-absent time type v id ((k, c) ∷ rest) h =
      rw
        (weigh-append (is_for truncate to id)
          (map (event_frame (event_payload time type v) k) (wanted_ids type c.subs))
          (broadcast time rest type v))
        (ground (
          arith,
          map-frames (event_payload time type v) k id (wanted_ids type c.subs),
          broadcast-absent time type v id rest,
          h,
        ))

  pub broadcast-frames :
      (time type : String) (v : Any) (id : ℕ) (c : Connection) (conns : List (ℕ × Connection))
      → entries to conns ≤ 1
      → find to conns ≡ some c
      → frames_for truncate to id (broadcast time conns type v) ≡ tally id (wanted_ids type c.subs)
  unfolding broadcast entries find
  broadcast-frames time type v id c [] l e = cc
  broadcast-frames time type v id c ((k, d) ∷ rest) l e =
      rw
        (weigh-append (is_for truncate to id)
          (map (event_frame (event_payload time type v) k) (wanted_ids type d.subs))
          (broadcast time rest type v))
        (ground (
          arith,
          map-frames (event_payload time type v) k id (wanted_ids type d.subs),
          broadcast-absent time type v id rest,
          broadcast-frames time type v id c rest,
          l,
          e,
        ))

  -- The connection is registered once, and for each id holds what was asked for, once.
  record Serves (w : ℕ → Option String) (conns : List (ℕ × Connection)) : Type 0 where
    conn : Connection
    there : find to conns ≡ some conn
    alone : entries to conns ≤ 1
    once : (id : ℕ) → entries id conn.subs ≤ 1
    asked : (id : ℕ) → find id conn.subs ≡ w id

  -- Only the first of four branches changes the connections.
  conns_if :
      {x y : List (ℕ × Connection)} (a b c : Bool) (p q r t : Server × Fields)
      → p.0.conns ≡ x
      → q.0.conns ≡ y
      → r.0.conns ≡ y
      → t.0.conns ≡ y
      → (if a then p else if b then q else if c then r else t).0.conns ≡ (if a then x else y)
  conns_if true b c p q r t e f g h = e
  conns_if false true c p q r t e f g h = f
  conns_if false false true p q r t e f g h = g
  conns_if false false false p q r t e f g h = h

  serve_message-conns :
      (msg : Fields) (s : Server)
      → (serve_message truncate to msg s).0.conns ≡ (
          if str_eq (as_text (member "type" msg)) "subscribe_events"
          then subscribed
              (find to s.conns)
              to
              (as_id truncate (member "id" msg))
              (as_text (member "event_type" msg))
              s.conns
          else s.conns)
  unfolding serve_message subscribe record_call
  serve_message-conns msg s =
      let type = as_text (member "type" msg) in
      conns_if (str_eq type "subscribe_events") (str_eq type "call_service") (str_eq type "ping") _
        _ _ _ refl refl refl refl

  add-Serves :
      (w : ℕ → Option String) (n : ℕ) (want : String) (conns : List (ℕ × Connection))
      → Serves w conns
      → Serves
          (λ id. if n == id then some want else w id)
          (subscribed (find to conns) to n want conns)
  add-Serves w n want conns v = rw v.there (record {
    conn = record { subs = put n want v.conn.subs };
    there = rw (find-put to to (record { subs = put n want v.conn.subs }) conns) (ground arith);
    alone = put-entries to to (record { subs = put n want v.conn.subs }) conns v.alone;
    once = λ id. put-entries n id want v.conn.subs (v.once id);
    asked = λ id.
        find-put n id want v.conn.subs ∙ ap (λ x. if n == id then some want else x) (v.asked id);
  })

  serve_message-Serves :
      (w : ℕ → Option String) (msg : Fields) (s : Server)
      → Serves w s.conns
      → Serves
          (λ id.
            if is_request truncate id msg then some (as_text (member "event_type" msg)) else w id)
          (serve_message truncate to msg s).0.conns
  serve_message-Serves w msg s v =
      rw (serve_message-conns msg s)
        (elim (Bool-cases (str_eq (as_text (member "type" msg)) "subscribe_events")) [
          | inl h ↦ rw h (
              add-Serves w (as_id truncate (member "id" msg)) (as_text (member "event_type" msg))
                s.conns v)
          | inr h ↦ rw h v
        ])

  read_loop-Serves :
      (msgs : List Fields) (w : ℕ → Option String) (s : Server)
      → Serves w s.conns
      → Serves (λ id. last_wanted truncate id (w id) msgs) (read_loop truncate to msgs s).0.conns
  unfolding read_loop
  read_loop-Serves [] w s v = v
  read_loop-Serves (msg ∷ rest) w s v = read_loop-Serves rest _ _ (serve_message-Serves w msg s v)

  accept-Serves : (s : Server) → entries to s.conns ≤ 1 → Serves (λ id. none) (accept to s).conns
  unfolding accept entries
  accept-Serves s l = record {
    conn = record { subs = [] };
    there = rw (find-put to to (record { subs = [] }) s.conns) (ground arith);
    alone = put-entries to to (record { subs = [] }) s.conns l;
    once = λ id. omega arith;
    asked = λ id. find-empty id;
  }

  -- For a connection that has just been accepted, under a number that is registered at most once, and
  -- whatever messages it sends after that: an event that is then announced is written to it exactly once
  -- for each id whose last `subscribe_events` asked for every event or for this type, and for no other.
  pub fire-frames :
      (format : ℕ → String) (now : ℕ) (type : String) (v : Any) (id : ℕ) (msgs : List Fields)
      (s : Server)
      → entries to s.conns ≤ 1
      → frames_for truncate to id
          (fire format now type v (read_loop truncate to msgs (accept to s)).0)
        ≡ served_by type (last_wanted truncate id none msgs)
  unfolding fire
  fire-frames format now type v id msgs s l =
      let r = read_loop-Serves msgs (λ x. none) (accept to s) (accept-Serves s l) in
      let d = (read_loop truncate to msgs (accept to s)).0 in
      broadcast-frames (format now) type v id r.conn d.conns r.alone r.there
      ∙ wanted_ids-tally type id r.conn.subs (r.once id)
      ∙ ap (served_by type) (r.asked id)
