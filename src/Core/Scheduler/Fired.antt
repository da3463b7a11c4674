-- ===== src/Core/Scheduler/Fired.antt =====
-- What a call of `runDue` of core/scheduler.go has fired when it returns.
use mathlib.Core.List.Permᴰ
use mathlib.Core.Path.{subst}
use go_ha.Prelude.{
  ℕ, zero, suc, ◌/◌, ◌≤◌, ◌<◌, ◌≡◌, refl, sym, ◌∙◌, inl, inr, Option, none, some, List, [], ◌∷◌,
  arith, ltb, ◌==◌, if◌then◌else◌, Bool-cases, All, ltb→lt, ltb→le,
}
use go_ha.Core.Scheduler.{
  Entry, priority, copies, PriorityQueue, Triggers, Log, requeue, logged, run_popped, run_due,
}
use go_ha.Core.Scheduler.Contents.{
  Unique, get-absent, get-Unique, requeue-Unique, time_in, All-Perm, time_in-put, time_in-get,
  time_in-requeue,
}
use go_ha.Core.Scheduler.CatchUp.{Advances}

abbrev pub second : ℕ → ℕ
second t = t / 1000000000

-- The entry's log is what it was queued for and then its trigger's answers in turn, without a gap;
-- at the end it waits for `last`.
abbrev pub Occurs : Triggers → ℕ → Option ℕ → Log → Option ℕ → Type 0
Occurs env id o [] last = o ≡ last
Occurs env id o ((i, t) ∷ log) last =
    (i ≡ id → o ≡ some t) × Occurs env id (if i == id then env id t else o) log last

-- Seconds that never fall, from `s` on.
abbrev pub Ascending : ℕ → Log → Type 0
Ascending s [] = Unit {0}
Ascending s ((i, t) ∷ log) = (s ≤ second t) × Ascending (second t) log

abbrev pub NotBefore : ℕ → List Entry → Type 0
NotBefore s entries = All (λ x. s ≤ priority x) entries

NotBefore-mono :
    (s t : ℕ) (entries : List Entry) → s ≤ t → NotBefore t entries → NotBefore s entries
NotBefore-mono s t [] h n = n
NotBefore-mono s t (x ∷ entries) h (l, n) = (omega arith, NotBefore-mono s t entries h n)

module _ (w : PriorityQueue) where
  -- A call of `runDue` that returned, round by round.
  data Ran (env : Triggers) (now : ℕ) : w.Queue → Log → w.Queue → Type 0 where
    empties : {q : w.Queue} → w.get q ≡ none → Ran env now q [] q
    waits :
        {q rest : w.Queue} {e : Entry}
        → w.get q ≡ some (e, rest)
        → now < e.fire_at
        → Ran env now q [] (w.put e rest)
    fires :
        {q rest last : w.Queue} {e : Entry} {log : Log}
        → w.get q ≡ some (e, rest)
        → e.fire_at ≤ now
        → Ran env now (requeue w e (env e.id e.fire_at) rest) log last
        → Ran env now q ((e.id, e.fire_at) ∷ log) last

  RanOf : Triggers → ℕ → w.Queue → Option (Log × w.Queue) → Type 0
  RanOf env now q none = Unit {0}
  RanOf env now q (some (log, last)) = Ran env now q log last

  logged-Ran :
      (env : Triggers) (now : ℕ) {q rest : w.Queue} {e : Entry} (o : Option (Log × w.Queue))
      → w.get q ≡ some (e, rest)
      → e.fire_at ≤ now
      → RanOf env now (requeue w e (env e.id e.fire_at) rest) o
      → RanOf env now q (logged w e o)
  unfolding RanOf
  logged-Ran env now none h d r = tt
  logged-Ran env now (some (log, last)) h d r = fires h d r

  round-Ran :
      (again : w.Queue → Option (Log × w.Queue)) (env : Triggers) (now : ℕ) (q : w.Queue)
      → ((r : w.Queue) → RanOf env now r (again r))
      → (o : Option (Entry × w.Queue)) → w.get q ≡ o
      → RanOf env now q (run_popped w again env now q o)
  unfolding run_popped RanOf
  round-Ran again env now q ih none h = empties h
  round-Ran again env now q ih (some (e, rest)) h = elim (Bool-cases (ltb now e.fire_at)) [
    | inl t ↦ rw t (waits h (ltb→lt now e.fire_at t))
    | inr f ↦ rw f (
        logged-Ran env now _ h (ltb→le now e.fire_at f)
          (ih (requeue w e (env e.id e.fire_at) rest)))
  ]

  run_due-Ran :
      (fuel : ℕ) (env : Triggers) (now : ℕ) (q : w.Queue)
      → RanOf env now q (run_due w fuel env now q)
  unfolding run_due RanOf
  run_due-Ran zero env now q = tt
  run_due-Ran (suc fuel) env now q =
      round-Ran (λ r. run_due w fuel env now r) env now q (λ r. run_due-Ran fuel env now r)
        (w.get q) refl

  returned :
      (fuel : ℕ) (env : Triggers) (now : ℕ) (q : w.Queue) {log : Log} {last : w.Queue}
      → run_due w fuel env now q ≡ some (log, last)
      → Ran env now q log last
  unfolding RanOf
  returned fuel env now q h = subst (RanOf env now q) h (run_due-Ran fuel env now q)

  Ran-fired :
      {env : Triggers} {now : ℕ} {q last : w.Queue} {log : Log}
      → Ran env now q log last
      → Unique (w.contents q)
      → All (λ p. p.1 ≤ now) log × NotBefore (second now) (w.contents last)
  Ran-fired {now = now} (empties {q = q} h) u =
      (tt, subst (NotBefore (second now)) (sym (w.get-none q h)) tt)
  Ran-fired {now = now} (waits {rest = rest} {e = e} h d) u = (
    tt,
    All-Perm (λ x. second now ≤ priority x) (w.put-Perm e rest (get-absent w u h))
        (
          omega arith,
          NotBefore-mono (second now) (priority e) (w.contents rest) (omega arith) (w.get-least h),
        ),
  )
  Ran-fired {env} (fires {e = e} h d r) u =
      let (f, n) =
        Ran-fired r
          (requeue-Unique w e (env e.id e.fire_at) _ (get-Unique w u h) (get-absent w u h)) in
      ((d, f), n)

  -- When `runDue` returns from a queue with no entry twice, whatever fired was due, and what stays queued is not due in any second
  -- before that of `now`.
  pub run_due-fired :
      (fuel : ℕ) (env : Triggers) (now : ℕ) (q : w.Queue) {log : Log} {last : w.Queue}
      → Unique (w.contents q)
      → run_due w fuel env now q ≡ some (log, last)
      → All (λ p. p.1 ≤ now) log × NotBefore (second now) (w.contents last)
  run_due-fired fuel env now q u h = Ran-fired (returned fuel env now q h) u

  Ran-Occurs :
      {env : Triggers} {now : ℕ} {q last : w.Queue} {log : Log} (id : ℕ)
      → Ran env now q log last
      → Unique (w.contents q)
      → Occurs env id (time_in id (w.contents q)) log (time_in id (w.contents last))
  Ran-Occurs id (empties h) u = refl
  Ran-Occurs id (waits {rest = rest} {e = e} h d) u =
      time_in-get w id u h ∙ sym (time_in-put w id e rest (get-Unique w u h) (get-absent w u h))
  Ran-Occurs {env} {last = last} id (fires {rest = rest} {e = e} {log = log} h d r) u =
      let now_at = time_in-get w id u h in
      let next_at = time_in-requeue w id (env e.id e.fire_at) u h in
      let more =
        Ran-Occurs id r
          (requeue-Unique w e (env e.id e.fire_at) rest (get-Unique w u h) (get-absent w u h)) in
      (
        λ same. ground (arith, now_at),
        subst (λ o. Occurs env id o log (time_in id (w.contents last)))
            (elim (Bool-cases (e.id == id)) [
              | inl t ↦ ground (arith, now_at, next_at)
              | inr f ↦ ground (arith, now_at, next_at)
            ])
            more,
      )

  -- With no entry queued twice, no occurrence is lost or repeated: what `runDue` fires of an entry is the instant it was queued
  -- for, then each answer of its trigger in turn, and the next answer is what it waits for afterwards.
  pub run_due-Occurs :
      (fuel : ℕ) (env : Triggers) (now id : ℕ) (q : w.Queue) {log : Log} {last : w.Queue}
      → Unique (w.contents q)
      → run_due w fuel env now q ≡ some (log, last)
      → Occurs env id (time_in id (w.contents q)) log (time_in id (w.contents last))
  run_due-Occurs fuel env now id q u h = Ran-Occurs id (returned fuel env now q h) u

  requeue-NotBefore :
      (s : ℕ) (e : Entry) (o : Option ℕ) (rest : w.Queue)
      → copies e.id (w.contents rest) ≡ 0
      → s ≤ priority e
      → ((n : ℕ) → o ≡ some n → e.fire_at < n)
      → NotBefore s (w.contents rest)
      → NotBefore s (w.contents (requeue w e o rest))
  requeue-NotBefore s e none rest c l a n = n
  requeue-NotBefore s e (some next) rest c l a n =
      All-Perm (λ x. s ≤ priority x) (w.put-Perm (record e { fire_at = next }) rest c)
        (omega (arith, a next refl), n)

  Ran-Ascending :
      {env : Triggers} {now : ℕ} {q last : w.Queue} {log : Log} (s : ℕ)
      → Advances env
      → Ran env now q log last
      → Unique (w.contents q)
      → NotBefore s (w.contents q)
      → Ascending s log
  Ran-Ascending s a (empties h) u n = tt
  Ran-Ascending s a (waits h d) u n = tt
  Ran-Ascending {env} s a (fires {rest = rest} {e = e} h d r) u n =
      let absent = get-absent w u h in
      (
        (All-Perm (λ x. s ≤ priority x) (Permᴰ.symm (w.get-Perm h)) n).0,
        Ran-Ascending (second e.fire_at) a r
            (requeue-Unique w e (env e.id e.fire_at) rest (get-Unique w u h) absent)
            (requeue-NotBefore (second e.fire_at) e (env e.id e.fire_at) rest absent (omega arith)
              (λ m. a e.id e.fire_at m) (w.get-least h)),
      )

  -- With triggers that advance and no entry queued twice, `runDue` fires in the order of the seconds in which the entries are
  -- due, those queued again meanwhile included.
  pub run_due-Ascending :
      (fuel : ℕ) (env : Triggers) (now s : ℕ) (q : w.Queue) {log : Log} {last : w.Queue}
      → Advances env
      → Unique (w.contents q)
      → NotBefore s (w.contents q)
      → run_due w fuel env now q ≡ some (log, last)
      → Ascending s log
  run_due-Ascending fuel env now s q a u n h = Ran-Ascending s a (returned fuel env now q h) u n
