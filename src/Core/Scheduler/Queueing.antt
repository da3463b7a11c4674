-- ===== src/Core/Scheduler/Queueing.antt =====
-- `add` and `nextFireAt` of core/scheduler.go.
use mathlib.Core.Path.{subst}
use go_ha.Prelude.{
  ℕ, ◌+◌, ◌≤◌, ◌<◌, ◌≡◌, refl, sym, ap, Bool, true, false, Option, none, some, List, [], ◌∷◌, arith,
  ◌==◌, if◌then◌else◌, All,
}
use go_ha.Core.Scheduler.{
  Entry, priority, copies, PriorityQueue, Triggers, Scheduler, new_scheduler, add, enqueue,
  entry_time, front, next_fire_at,
}
use go_ha.Core.Scheduler.Contents.{Unique, put-Unique, time_in, time_in-put, All-Perm}
use go_ha.Core.Scheduler.Fired.{NotBefore, second}

copies-below :
    (id n : ℕ) (entries : List Entry) → All (λ x. x.id < n) entries → n ≤ id → copies id entries ≡ 0
copies-below id n [] b h = refl
copies-below id n (e ∷ entries) (l, b) h = ground (arith, copies-below id n entries b h)

below-suc :
    (n : ℕ) (entries : List Entry) → All (λ x. x.id < n) entries → All (λ x. x.id < n + 1) entries
below-suc n [] b = tt
below-suc n (e ∷ entries) (l, b) = (omega arith, below-suc n entries b)

module _ (w : PriorityQueue) where
  -- No entry stands twice, and every address in use was given out.
  pub record IsValid (s : Scheduler w) : Type 0 where
    pub unique : Unique (w.contents s.queue)
    pub given : All (λ x. x.id < s.next_id) (w.contents s.queue)

  pub new_scheduler-IsValid : IsValid (new_scheduler w)
  unfolding new_scheduler
  new_scheduler-IsValid = record {
    unique = λ id. omega (arith, ap (λ es. copies id es) w.contents-empty);
    given = subst (λ es. All (λ x. x.id < 0) es) (sym w.contents-empty) tt;
  }

  -- What `add` promises, by what the trigger answered.
  abbrev pub Added : Option ℕ → Scheduler w → Scheduler w × Bool → Type 0
  Added none s (t, accepted) = (t ≡ s) × (accepted ≡ false)
  Added (some next) s (t, accepted) =
      IsValid t
      × (accepted ≡ true)
      × ((id : ℕ)
          → time_in id (w.contents t.queue)
            ≡ (if s.next_id == id then some next else time_in id (w.contents s.queue)))

  enqueue-Added :
      (o : Option ℕ) (dynamic : Bool) (s : Scheduler w)
      → IsValid s
      → Added o s (enqueue w o dynamic s)
  enqueue-Added none dynamic s v = (refl, refl)
  enqueue-Added (some next) dynamic s v =
      let e : Entry = record { id = s.next_id; dynamic = dynamic; fire_at = next } in
      let absent = copies-below s.next_id s.next_id (w.contents s.queue) v.given (omega arith) in
      (
        record {
          unique = put-Unique w e s.queue v.unique absent;
          given =
              All-Perm (λ x. x.id < s.next_id + 1) (w.put-Perm e s.queue absent)
                (omega arith, below-suc s.next_id (w.contents s.queue) v.given);
        },
        refl,
        λ id. time_in-put w id e s.queue v.unique absent,
      )

  -- On a valid scheduler `add` refuses a trigger with no next instant and leaves the queue alone;
  -- otherwise the scheduler stays valid, and the new entry waits for that instant, every other entry
  -- as before.
  pub add-Added :
      (env : Triggers) (now : ℕ) (dynamic : Bool) (s : Scheduler w)
      → IsValid s
      → Added (env s.next_id now) s (add w env now dynamic s)
  unfolding add
  add-Added env now dynamic s v = enqueue-Added (env s.next_id now) dynamic s v

  -- When the run loop may sleep until: no queued entry is due in an earlier second.
  abbrev pub Wakes : Option ℕ → List Entry → Type 0
  Wakes none entries = entries ≡ []
  Wakes (some t) entries = NotBefore (second t) entries

  front-Wakes :
      (q : w.Queue) (o : Option (Entry × w.Queue))
      → w.get q ≡ o
      → Wakes (entry_time (front o)) (w.contents q)
  front-Wakes q none h = w.get-none q h
  front-Wakes q (some (e, rest)) h =
      All-Perm (λ x. priority e ≤ priority x) (w.get-Perm h) (omega arith, w.get-least h)

  -- `nextFireAt` has no answer only when nothing is queued, and otherwise no entry is due in a second
  -- before that of its answer.
  pub next_fire_at-Wakes : (s : Scheduler w) → Wakes (next_fire_at w s) (w.contents s.queue)
  unfolding next_fire_at
  next_fire_at-Wakes s =
      subst (λ o. Wakes (entry_time o) (w.contents s.queue)) (sym (w.peek-get s.queue))
        (front-Wakes s.queue (w.get s.queue) refl)
