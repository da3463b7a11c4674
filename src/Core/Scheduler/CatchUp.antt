-- ===== src/Core/Scheduler/CatchUp.antt =====
-- What `runDue` of core/scheduler.go fires, and that it ends.
use go_ha.Prelude.{
  ℕ, zero, suc, ◌+◌, ◌-◌, ◌≤◌, ◌<◌, ◌≡◌, refl, ap, inl, inr, Option, none, some, [], ◌∷◌, arith,
  ltb, Bool-cases, ltb→le,
}
use go_ha.Prelude.{weigh}
use go_ha.Core.Scheduler.{
  Entry, copies, PriorityQueue, Triggers, Log, requeue, logged, run_popped, run_due,
}
use go_ha.Core.Scheduler.Contents.{
  Unique, weigh-put, weigh-get, get-absent, get-Unique, requeue-Unique,
}

-- Every trigger answers with an instant after the one it is asked about.
abbrev pub Advances : Triggers → Type 0
Advances env = (id t n : ℕ) → env id t ≡ some n → t < n

-- How far an entry is behind, which bounds how often it can fire.
abbrev pub overdue : ℕ → Entry → ℕ
overdue now e = now + 1 - e.fire_at

module _ (w : PriorityQueue) where
  abbrev pub backlog : ℕ → w.Queue → ℕ
  backlog now q = weigh (overdue now) (w.contents q)

  abbrev Ends : Option (Log × w.Queue) → Type 0
  Ends o = (log : Log) × (rest : w.Queue) × (o ≡ some (log, rest))

  logged-Ends : (e : Entry) (o : Option (Log × w.Queue)) → Ends o → Ends (logged w e o)
  logged-Ends e o (log, rest, h) = ((e.id, e.fire_at) ∷ log, rest, ap (logged w e) h)

  requeue-backlog :
      (now : ℕ) (e : Entry) (o : Option ℕ) (rest : w.Queue)
      → copies e.id (w.contents rest) ≡ 0
      → ((n : ℕ) → o ≡ some n → e.fire_at < n)
      → e.fire_at ≤ now
      → backlog now (requeue w e o rest) < overdue now e + backlog now rest
  requeue-backlog now e none rest h a d = omega arith
  requeue-backlog now e (some n) rest h a d =
      omega (arith, weigh-put w (overdue now) (record e { fire_at = n }) rest h, a n refl)

  -- One round of the loop, the rounds after it being `again`.
  round-Ends :
      (again : w.Queue → Option (Log × w.Queue)) (env : Triggers) (now : ℕ) (q : w.Queue)
      → Advances env
      → Unique (w.contents q)
      → ((r : w.Queue) → Unique (w.contents r) → backlog now r < backlog now q → Ends (again r))
      → (o : Option (Entry × w.Queue)) → w.get q ≡ o
      → Ends (run_popped w again env now q o)
  unfolding run_popped
  round-Ends again env now q a u ih none e = ([], q, refl)
  round-Ends again env now q a u ih (some (x, rest)) e = elim (Bool-cases (ltb now x.fire_at)) [
    | inl t ↦ rw t ([], w.put x rest, refl)
    | inr f ↦
        let absent = get-absent w u e in
        let behind =
          requeue-backlog now x (env x.id x.fire_at) rest absent (λ n. a x.id x.fire_at n)
            (ltb→le now x.fire_at f) in
        rw f (
          logged-Ends x _ (
            ih (requeue w x (env x.id x.fire_at) rest)
              (requeue-Unique w x (env x.id x.fire_at) rest (get-Unique w u e) absent)
              (omega (arith, weigh-get w (overdue now) e, behind))))
  ]

  -- With triggers that advance and no entry queued twice, fuel beyond the backlog is enough: the loop of `runDue` ends.
  pub run_due-Ends :
      (fuel : ℕ) (env : Triggers) (now : ℕ) (q : w.Queue)
      → Advances env
      → Unique (w.contents q)
      → backlog now q < fuel
      → (log : Log) × (rest : w.Queue) × (run_due w fuel env now q ≡ some (log, rest))
  unfolding run_due
  run_due-Ends zero env now q a u h = absurd (omega arith)
  run_due-Ends (suc fuel) env now q a u h =
      round-Ends (λ r. run_due w fuel env now r) env now q a u
        (λ r v less. run_due-Ends fuel env now r a v (omega arith)) (w.get q) refl
