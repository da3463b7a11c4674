-- ===== src/Core/Scheduler.antt =====
-- core/scheduler.go: triggers ordered by their next fire time. The priority queue is
-- Workiva/go-datastructures', a parameter with the laws it documents. A trigger's NextTime may read
-- the entity cache, so what the triggers answer is an argument of every operation; it stays the same
-- during one operation. What an entry runs is left to the caller: the log says what was run.
pub mod Contents
pub mod Queueing
pub mod Samples
mod Tests
pub mod Refresh
pub mod Fired
pub mod CatchUp
use mathlib.Core.List.{Permᴰ}
use go_ha.Prelude.{
  ℕ, zero, suc, ◌+◌, ◌-◌, ◌*◌, ◌/◌, ◌%◌, ◌^◌, ◌≤◌, ◌<◌, String, str_eq, eq_iff, eq_refl, ◌≡◌, refl,
  sym, ap, ◌∙◌, fun_ext, ◌≢◌, ◌↔◌, ◌⊎◌, inl, inr, Bool, true, false, not, ◌&&◌, ◌||◌, Option, none,
  some, List, [], ◌∷◌, ◌++◌, map, arith, ltb, leb, ◌==◌, if◌then◌else◌, Bool-cases, Option-cases,
  length, length-append, All, All-map, All-append, contains, is_empty, ltb→lt, ltb→le,
}
use go_ha.Prelude.{weigh}

-- `scheduledEntry`; `id` stands for its address, and for its trigger.
pub record Entry : Type 0 where
  pub id : ℕ
  pub dynamic : Bool
  pub fire_at : ℕ

-- `float64(entry.fireAt.Unix())`: whole seconds, counted from Go's zero time here, which gives the
-- same order.
abbrev pub priority : Entry → ℕ
priority e = e.fire_at / 1000000000

abbrev pub is_entry : ℕ → Entry → ℕ
is_entry id e = if e.id == id then 1 else 0

-- How often an entry stands in a list.
abbrev pub copies : ℕ → List Entry → ℕ
copies id entries = weigh (is_entry id) entries

-- The entry that a `Get` would return.
abbrev pub front {ℓ} : {A : Type ℓ} → Option (Entry × A) → Option Entry
front none = none
front (some (e, rest)) = some e

abbrev pub entry_time : Option Entry → Option ℕ
entry_time none = none
entry_time (some e) = some e.fire_at

-- The priority queue, which takes no item that it already holds: `Put`, `Get(1)` behind the test
-- of `Empty`, `Peek`, and `Get(Len())`, which leaves it empty.
pub record PriorityQueue : Type 1 where
  pub Queue : Type 0
  pub empty : Queue
  pub contents : Queue → List Entry
  pub put : Entry → Queue → Queue
  pub get : Queue → Option (Entry × Queue)
  pub peek : Queue → Option Entry
  pub get_all : Queue → List Entry
  pub contents-empty : contents empty ≡ []
  pub put-Perm :
      (e : Entry) (q : Queue)
      → copies e.id (contents q) ≡ 0
      → Permᴰ (contents (put e q)) (e ∷ contents q)
  pub get-none : (q : Queue) → get q ≡ none → contents q ≡ []
  pub get-Perm :
      {q rest : Queue} {e : Entry} → get q ≡ some (e, rest) → Permᴰ (contents q) (e ∷ contents rest)
  pub get-least :
      {q rest : Queue} {e : Entry}
      → get q ≡ some (e, rest)
      → All (λ x. priority e ≤ priority x) (contents rest)
  pub peek-get : (q : Queue) → peek q ≡ front (get q)
  pub get_all-Perm : (q : Queue) → Permᴰ (get_all q) (contents q)

-- What each trigger's NextTime answers: the next instant after the one given, if there is one.
abbrev pub Triggers : Type 0
Triggers = ℕ → ℕ → Option ℕ

-- What `runDue` has run, oldest first: the entry, and the instant it was queued for.
abbrev pub Log : Type 0
Log = List (ℕ × ℕ)

-- The body of the loop of `refresh`: the new instant of a dynamic entry that is not yet due.
abbrev pub rederived : Entry → Option ℕ → Entry
rederived e none = e
rederived e (some next) = record e { fire_at = next }

abbrev pub rederive : Triggers → ℕ → Entry → Entry
rederive env now e = if ltb now e.fire_at && e.dynamic then rederived e (env e.id now) else e

abbrev pub count_moved : Triggers → ℕ → List Entry → ℕ
count_moved env now entries =
    weigh (λ e. if (rederive env now e).fire_at == e.fire_at then 0 else 1) entries

module _ (w : PriorityQueue) where
  -- `scheduler`; `next_id` is an address not yet used.
  pub record Scheduler : Type 0 where
    pub queue : w.Queue
    pub next_id : ℕ

  unfoldable pub new_scheduler : Scheduler
  new_scheduler = record { queue = w.empty; next_id = 0 }

  -- `add` once the new trigger has answered.
  abbrev pub enqueue : Option ℕ → Bool → Scheduler → Scheduler × Bool
  enqueue none dynamic s = (s, false)
  enqueue (some next) dynamic s = (
    record {
      queue = w.put (record { id = s.next_id; dynamic = dynamic; fire_at = next }) s.queue;
      next_id = s.next_id + 1;
    },
    true,
  )

  -- `add`, of a trigger that moves on its own or not.
  unfoldable pub add : Triggers → ℕ → Bool → Scheduler → Scheduler × Bool
  add env now dynamic s = enqueue (env s.next_id now) dynamic s

  -- `requeue`.
  abbrev pub requeue : Entry → Option ℕ → w.Queue → w.Queue
  requeue e none q = q
  requeue e (some next) q = w.put (record e { fire_at = next }) q

  abbrev pub logged : Entry → Option (Log × w.Queue) → Option (Log × w.Queue)
  logged e none = none
  logged e (some (log, q)) = some ((e.id, e.fire_at) ∷ log, q)

  -- The body of the loop of `runDue` on what `pop` returned.
  pub run_popped :
      (w.Queue → Option (Log × w.Queue))
      → Triggers
      → ℕ
      → w.Queue
      → Option (Entry × w.Queue)
      → Option (Log × w.Queue)
  run_popped again env now q none = some ([], q)
  run_popped again env now q (some (e, rest)) =
      if ltb now e.fire_at
      then some ([], w.put e rest)
      else logged e (again (requeue e (env e.id e.fire_at) rest))

  -- `runDue`, on fuel; `none` is out of fuel.
  pub run_due : ℕ → Triggers → ℕ → w.Queue → Option (Log × w.Queue)
  unfolding run_popped
  run_due zero env now q = none
  run_due (suc fuel) env now q = run_popped (λ rest. run_due fuel env now rest) env now q (w.get q)

  pub push_all : List Entry → w.Queue → w.Queue
  push_all [] q = q
  push_all (e ∷ entries) q = push_all entries (w.put e q)

  -- `refresh`, and how many entries moved.
  unfoldable pub refresh : Triggers → ℕ → Scheduler → Scheduler × ℕ
  unfolding push_all
  refresh env now s = (
    record s { queue = push_all (map (rederive env now) (w.get_all s.queue)) w.empty },
    count_moved env now (w.get_all s.queue),
  )

  -- `nextFireAt`.
  unfoldable pub next_fire_at : Scheduler → Option ℕ
  next_fire_at s = entry_time (w.peek s.queue)
