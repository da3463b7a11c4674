-- ===== src/Connect/Client.antt =====
-- internal/connect/client.go and send.go: the shared state of the client, and what changes it. Each
-- critical section of `mu` is one step, and the steps of all goroutines interleave in any order.
-- `writeMu` is held from taking an id until the write returns; `writer` is what its holder is writing.
-- A connection is named by the generation that `setConn` gave it, and a subscription by its place in
-- `subs`. The transport decides whether a write succeeds, so that is part of the step. An id is an
-- int64 and a generation a uint64: the model ends where one would overflow.
pub mod Steps
pub mod Tidiness
pub mod Wire
pub mod Answers
pub mod Routes
pub mod Queue
pub mod Replay
pub mod Established
mod Tests
use go_ha.Prelude.{
  ℕ, zero, suc, ◌+◌, ◌-◌, ◌*◌, ◌/◌, ◌%◌, ◌^◌, ◌≤◌, ◌<◌, String, str_eq, eq_iff, eq_refl, ◌≡◌, refl,
  sym, ap, ◌∙◌, fun_ext, ◌≢◌, ◌↔◌, ◌⊎◌, inl, inr, Bool, true, false, not, ◌&&◌, ◌||◌, Option, none,
  some, List, [], ◌∷◌, ◌++◌, map, arith, ltb, leb, ◌==◌, if◌then◌else◌, Bool-cases, Option-cases,
  length, length-append, All, All-map, All-append, contains, is_empty, ltb→lt, ltb→le,
}
use go_ha.Prelude.{get_elem?, set}
use go_ha.Prelude.Table.{find, put, drop}
use go_ha.Connect.Message.{Message, MessageError, is_result}
use go_ha.Connect.Options.{Options, with_defaults}

-- Who gets the answer to a request: a caller of `Call`, by its number, or `logFailure`.
pub data Waiter : Type 0 where
  log_failure : Waiter
  caller : ℕ → Waiter

pub record Subscription : Type 0 where
  pub event_type : String
  pub handler : ℕ
  pub gen : ℕ

-- A request, or the one that establishes a subscription.
pub data Kind : Type 0 where
  request : Kind
  stream : ℕ → Kind

-- A message handed to a connection.
pub record Sent : Type 0 where
  pub conn : ℕ
  pub id : ℕ
  pub kind : Kind

-- An event that a worker took from the queue, and where the worker found it to go, once it has looked.
pub record Taken : Type 0 where
  pub msg : Message
  pub looked : Option (Option ℕ)

-- `Client`, with the history of what was written (newest first), of the answers given out (newest
-- first), of the events that arrived (oldest first) and of those that workers took (oldest first).
pub record Client : Type 0 where
  pub capacity : ℕ
  pub next_id : ℕ
  pub conn : Option ℕ
  pub pending : List (ℕ × Waiter)
  pub routes : List (ℕ × ℕ)
  pub subs : List Subscription
  pub gen : ℕ
  pub events : List Message
  pub dropped : ℕ
  pub writer : Option Sent
  pub wire : List Sent
  pub answers : List (ℕ × Waiter)
  pub arrived : List Message
  pub taken : List Taken

-- `newClientWithDialer`.
unfoldable pub new_client : Options → Client
new_client o = record {
  capacity = (with_defaults o).queue_size;
  next_id = 0;
  conn = none;
  pending = [];
  routes = [];
  subs = [];
  gen = 1;
  events = [];
  dropped = 0;
  writer = none;
  wire = [];
  answers = [];
  arrived = [];
  taken = [];
}

abbrev pub id_end : ℕ
id_end = 2 ^ 63

abbrev pub gen_end : ℕ
gen_end = 2 ^ 64

-- `dispatch` up to the write: the id is taken even when there is no connection.
pub begin_on : Option ℕ → Waiter → Client → Client
begin_on none who c = record c { next_id = c.next_id + 1 }
begin_on (some k) who c = record c {
  next_id = c.next_id + 1;
  pending = put (c.next_id + 1) who c.pending;
  writer = some (record { conn = k; id = c.next_id + 1; kind = request });
}

-- `writeMu` is free and an id is left.
abbrev pub may_write : Option Sent → ℕ → Bool
may_write none n = ltb (n + 1) id_end
may_write (some s) n = false

unfoldable pub dispatch : Waiter → Client → Option Client
unfolding begin_on
dispatch who c = if may_write c.writer c.next_id then some (begin_on c.conn who c) else none

-- The append of `Subscribe`.
unfoldable pub add_subscription : String → ℕ → Client → Client
add_subscription type handler c = record c {
  subs = c.subs ++ record { event_type = type; handler = handler; gen = 0 } ∷ [];
}

-- `establish` up to the write.
pub establish_on : Option ℕ → ℕ → Subscription → Client → Client
establish_on none i s c = c
establish_on (some k) i s c = if s.gen == c.gen then c else record c {
  next_id = c.next_id + 1;
  pending = put (c.next_id + 1) log_failure c.pending;
  routes = put (c.next_id + 1) i c.routes;
  subs = set c.subs i (record s { gen = c.gen });
  writer = some (record { conn = k; id = c.next_id + 1; kind = stream i });
}

pub establish_sub : Option Subscription → ℕ → Client → Option Client
unfolding establish_on
establish_sub none i c = none
establish_sub (some s) i c =
    if may_write c.writer c.next_id then some (establish_on c.conn i s c) else none

unfoldable pub establish : ℕ → Client → Option Client
unfolding establish_sub
establish i c = establish_sub (get_elem? c.subs i) i c

-- `s.gen = 0`.
abbrev pub forget : Option Subscription → ℕ → List Subscription → List Subscription
forget none i subs = subs
forget (some s) i subs = set subs i (record s { gen = 0 })

-- What a failed write undoes.
pub undo : Kind → ℕ → Client → Client
undo request id c = record c { pending = drop id c.pending; writer = none }
undo (stream i) id c = record c {
  pending = drop id c.pending;
  routes = drop id c.routes;
  subs = forget (get_elem? c.subs i) i c.subs;
  writer = none;
}

-- The write returns, with or without an error, and `writeMu` is released.
pub written : Bool → Option Sent → Client → Option Client
unfolding undo
written b none c = none
written true (some s) c = some (record c { writer = none; wire = s ∷ c.wire })
written false (some s) c = some (undo s.kind s.id c)

-- `setConn`, which the goroutine of `run` calls only after `teardown`.
pub set_conn : Option ℕ → Client → Option Client
set_conn none c =
    if ltb (c.gen + 1) gen_end
    then some (record c { conn = some (c.gen + 1); gen = c.gen + 1 })
    else none
set_conn (some k) c = none

-- `teardown`: what was pending is told that the connection was lost.
pub teardown : Option ℕ → Client → Option Client
teardown none c = none
teardown (some k) c =
    some (record c { conn = none; pending = []; routes = []; answers = c.pending ++ c.answers })

-- `deliverResult`.
pub deliver : Option Waiter → ℕ → Client → Client
deliver none id c = c
deliver (some who) id c = record c { pending = drop id c.pending; answers = (id, who) ∷ c.answers }

-- The event queue takes a message unless it is full.
abbrev pub offer : Message → Client → Client
offer m c =
    if ltb (length c.events) c.capacity
    then record c { events = c.events ++ m ∷ [] }
    else record c { dropped = c.dropped + 1 }

-- `route`; the hook `OnEvent` sees every event, in the order of arrival.
unfoldable pub route : Message → Client → Client
unfolding deliver
route m c =
    if is_result m
    then deliver (find m.id c.pending) m.id c
    else if not (str_eq m.type "event")
    then c
    else offer m (record c { arrived = c.arrived ++ m ∷ [] })

-- `route` is called while the connection is there.
abbrev pub receive : Option ℕ → Message → Client → Option Client
receive none m c = none
receive (some k) m c = some (route m c)

-- `worker` takes the oldest event.
pub take : List Message → Client → Option Client
take [] c = none
take (m ∷ rest) c =
    some (record c { events = rest; taken = c.taken ++ record { msg = m; looked = none } ∷ [] })

abbrev pub seek : Option (Option ℕ) → Taken → ℕ → Client → Option Client
seek none t j c =
    some (record c { taken = set c.taken j (record t { looked = some (find t.msg.id c.routes) }) })
seek (some r) t j c = none

-- `worker` looks up the subscription of an event that it took.
pub look_up : Option Taken → ℕ → Client → Option Client
look_up none j c = none
look_up (some t) j c = seek t.looked t j c

-- `cancelPending`.
unfoldable pub cancel_pending : ℕ → Client → Client
cancel_pending id c = record c { pending = drop id c.pending }

-- A write that succeeds at once.
abbrev pub settle : Option Sent → Client → Client
settle none c = c
settle (some s) c = record c { writer = none; wire = s ∷ c.wire }

abbrev pub settled : Option Client → Option Client
settled none = none
settled (some c) = some (settle c.writer c)

abbrev pub replay : ℕ → Option Client → Option Client
replay n none = none
replay n (some d) = settled (establish n d)

-- `resubscribe` on the first `n` subscriptions, where every write succeeds and no other goroutine
-- takes `writeMu` meanwhile.
unfoldable pub resubscribe : ℕ → Client → Option Client
unfolding establish
resubscribe zero c = some c
resubscribe (suc n) c = replay n (resubscribe n c)

-- Whatever may happen next.
pub data Action : Type 0 where
  sends : Waiter → Action
  subscribes : String → ℕ → Action
  establishes : ℕ → Action
  writes : Bool → Action
  connects tears : Action
  receives : Message → Action
  takes : Action
  looks : ℕ → Action
  cancels : ℕ → Action

unfoldable pub step : Client → Action → Option Client
unfolding dispatch add_subscription establish written set_conn teardown route take look_up
    cancel_pending
step c (sends who) = dispatch who c
step c (subscribes type handler) = some (add_subscription type handler c)
step c (establishes i) = establish i c
step c (writes b) = written b c.writer c
step c connects = set_conn c.conn c
step c tears = teardown c.conn c
step c (receives m) = receive c.conn m c
step c takes = take c.events c
step c (looks j) = look_up (get_elem? c.taken j) j c
step c (cancels id) = some (cancel_pending id c)

pub data Reach (o : Options) : Client → Type 0 where
  start : Reach o (new_client o)
  later : {c d : Client} (a : Action) → Reach o c → step c a ≡ some d → Reach o d
