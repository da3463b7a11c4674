-- ===== src/Core/Policy/Progress.antt =====
-- Runs of core/policy.go end: what lets `wait` return.
use go_ha.Prelude.{
  ℕ, zero, suc, ◌+◌, ◌-◌, ◌≤◌, ◌<◌, ◌≡◌, refl, ap, ◌≢◌, inl, inr, true, Option, none, some, arith,
  Option-cases,
}
use mathlib.Core.Path.{subst, ap₂}
use native.Mathlib.Decide.{dec_lt}
use go_ha.Prelude.{get_elem?, set, weigh, weigh-set, weigh-find}
use go_ha.Core.Policy.{
  Mode, Policy, Phase, blocked, holding, running, leaving, ended, Run, Runner, Action, trigger,
  locks, unwaits, finishes, leaves, take_lock, stop_waiting, finish, leave, at_run, step, Reach,
  later, unlocked, move,
}
use go_ha.Core.Policy.Counts.{holds, is_set, Inv}
use go_ha.Core.Policy.Invariant.{Reach-Inv, holds_blocked, holds_ended}

-- The steps that a goroutine has left.
abbrev pub left : Phase → ℕ
left blocked = 4
left holding = 3
left running = 2
left leaving = 1
left ended = 0

abbrev pub work : Runner → ℕ
work r = weigh (λ run. left run.phase) r.runs

abbrev pub IsGoroutine : Action → Type 0
IsGoroutine (trigger now key) = ⊥
IsGoroutine _ = Unit {0}

-- A step that some goroutine of the runner can take.
abbrev pub CanStep : Runner → Type 0
CanStep r = (a : Action) × (s : Runner) × (step r a ≡ some s) × IsGoroutine a

module _ (r : Runner) (v : Inv r) (i : ℕ) (x : Run) (e : get_elem? r.runs i ≡ some x) where
  -- A run past the lock can always go on.
  go_on : (p : Phase) → x.phase ≡ p → p ≢ blocked → p ≢ ended → CanStep r
  unfolding step
  go_on blocked ep nb ne = absurd (nb refl)
  go_on holding ep nb ne = (
    unwaits i,
    record (move r i x running) { waiting = r.waiting - 1 },
    rw (e, at_run) (ap (stop_waiting r i x) ep),
    tt,
  )
  go_on running ep nb ne = (
    finishes i,
    record (move r i x leaving) { active = r.active - 1 },
    rw (e, at_run) (ap (finish r i x) ep),
    tt,
  )
  go_on leaving ep nb ne = (
    leaves i,
    record r {
      runs = set r.runs i (record { phase = ended; cancelled = true });
      serial = unlocked r.policy.mode r.serial;
    },
    rw (e, at_run) (ap (leave r i x) ep),
    tt,
  )
  go_on ended ep nb ne = absurd (ne refl)

  -- A blocked run takes the lock if it is free.
  lock_free : r.serial ≡ none → x.phase ≡ blocked → CanStep r
  unfolding step
  lock_free es ep = (
    locks i,
    record (move r i x holding) { serial = some i },
    rw (e, at_run) (ap₂ (take_lock r i x) es ep),
    tt,
  )

holds-phase : (m : Mode) (p : Phase) → 0 < holds m p → (p ≢ blocked) × (p ≢ ended)
holds-phase m p h = (
  λ e. absurd (omega (arith, ap (holds m) e, holds_blocked m)),
  λ e. absurd (omega (arith, ap (holds m) e, holds_ended m)),
)

-- If the lock is taken, its holder is past it and can go on.
lock_held : (r : Runner) → Inv r → (j : ℕ) → r.serial ≡ some j → CanStep r
lock_held r v j es =
    let (i, x, e, h) =
      weigh-find (λ run. holds r.policy.mode run.phase) r.runs
        (omega (arith, v.locked, ap is_set es)) in
    let (nb, ne) = holds-phase r.policy.mode x.phase h in go_on r v i x e x.phase refl nb ne

can_step :
    (r : Runner) (v : Inv r) (i : ℕ) (x : Run) (p : Phase)
    → get_elem? r.runs i ≡ some x
    → x.phase ≡ p
    → 0 < left p
    → CanStep r
can_step r v i x blocked e ep h = elim (Option-cases r.serial) [
  | inl es ↦ lock_free r v i x e es ep
  | inr (j, es) ↦ lock_held r v j es
]
can_step r v i x holding e ep h = go_on r v i x e holding ep (λ q. cc) (λ q. cc)
can_step r v i x running e ep h = go_on r v i x e running ep (λ q. cc) (λ q. cc)
can_step r v i x leaving e ep h = go_on r v i x e leaving ep (λ q. cc) (λ q. cc)
can_step r v i x ended e ep h = absurd (omega arith)

-- No deadlock: while any admitted run has not returned, some goroutine can take a step.
pub progress : {p : Policy} {r : Runner} → Reach p r → 0 < work r → CanStep r
progress {r = r} h w =
    let (i, x, e, l) = weigh-find (λ run. left run.phase) r.runs w in
    can_step r (Reach-Inv h) i x x.phase e refl l

abbrev Lowers : ℕ → Option Runner → Type 0
Lowers n none = Unit {0}
Lowers n (some s) = work s < n

module _ (r : Runner) (i : ℕ) (x : Run) (e : get_elem? r.runs i ≡ some x) where
  lowered :
      (y : Run) (p : Phase)
      → x.phase ≡ p
      → left y.phase < left p
      → weigh (λ z. left z.phase) (set r.runs i y) < work r
  lowered y p ep h = omega (arith, weigh-set (λ z. left z.phase) r.runs i y x e, ap left ep)

  take_lock-Lowers :
      (o : Option ℕ) (p : Phase) → x.phase ≡ p → Lowers (work r) (take_lock r i x o p)
  unfolding take_lock
  take_lock-Lowers none blocked ep = lowered _ blocked ep (omega arith)
  take_lock-Lowers none holding ep = tt
  take_lock-Lowers none running ep = tt
  take_lock-Lowers none leaving ep = tt
  take_lock-Lowers none ended ep = tt
  take_lock-Lowers (some j) p ep = tt

  stop_waiting-Lowers : (p : Phase) → x.phase ≡ p → Lowers (work r) (stop_waiting r i x p)
  unfolding stop_waiting
  stop_waiting-Lowers holding ep = lowered _ holding ep (omega arith)
  stop_waiting-Lowers _ ep = tt

  finish-Lowers : (p : Phase) → x.phase ≡ p → Lowers (work r) (finish r i x p)
  unfolding finish
  finish-Lowers running ep = lowered _ running ep (omega arith)
  finish-Lowers _ ep = tt

  leave-Lowers : (p : Phase) → x.phase ≡ p → Lowers (work r) (leave r i x p)
  unfolding leave
  leave-Lowers leaving ep = lowered _ leaving ep (omega arith)
  leave-Lowers _ ep = tt

step-Lowers : (r : Runner) (a : Action) → IsGoroutine a → Lowers (work r) (step r a)
unfolding step
step-Lowers r (trigger now key) g = absurd g
step-Lowers r (locks i) g = elim (Option-cases (get_elem? r.runs i)) [
  | inl e ↦ rw (e, at_run) tt
  | inr (x, e) ↦ rw (e, at_run) (take_lock-Lowers r i x e r.serial x.phase refl)
]
step-Lowers r (unwaits i) g = elim (Option-cases (get_elem? r.runs i)) [
  | inl e ↦ rw (e, at_run) tt
  | inr (x, e) ↦ rw (e, at_run) (stop_waiting-Lowers r i x e x.phase refl)
]
step-Lowers r (finishes i) g = elim (Option-cases (get_elem? r.runs i)) [
  | inl e ↦ rw (e, at_run) tt
  | inr (x, e) ↦ rw (e, at_run) (finish-Lowers r i x e x.phase refl)
]
step-Lowers r (leaves i) g = elim (Option-cases (get_elem? r.runs i)) [
  | inl e ↦ rw (e, at_run) tt
  | inr (x, e) ↦ rw (e, at_run) (leave-Lowers r i x e x.phase refl)
]

-- Steps of goroutines alone, with no further trigger.
pub data Drains : Runner → Runner → ℕ → Type 0 where
  drained : (r : Runner) → Drains r r 0
  drains :
      {r s t : Runner} {n : ℕ} (a : Action)
      → step r a ≡ some s
      → IsGoroutine a
      → Drains s t n
      → Drains r t (suc n)

-- However the goroutines interleave, they take at most `work` steps.
pub drain_bounded : {r s : Runner} {n : ℕ} → Drains r s n → n + work s ≤ work r
drain_bounded (drained r) = omega arith
drain_bounded (drains {r = r} a e g d) =
    omega (arith, subst (Lowers (work r)) e (step-Lowers r a g), drain_bounded d)

drain_from :
    {p : Policy} (n : ℕ) (r : Runner)
    → Reach p r
    → work r ≤ n
    → (s : Runner) × (k : ℕ) × Drains r s k × (work s ≡ 0)
drain_from zero r h w = (r, 0, drained r, omega arith)
drain_from (suc n) r h w = elim (dec_lt 0 (work r)) [
  | yes more ↦
      let (a, s, e, g) = progress h more in
      let (t, k, d, z) =
        drain_from n s (later a h e)
          (omega (arith, subst (Lowers (work r)) e (step-Lowers r a g))) in
      (t, suc k, drains a e g d, z)
  | no done ↦ (r, 0, drained r, omega arith)
]

-- Once triggers stop, the goroutines of every admitted run can all return, so `wait` can.
pub wait_returns :
    {p : Policy} {r : Runner} → Reach p r → (s : Runner) × (k : ℕ) × Drains r s k × (work s ≡ 0)
wait_returns {r = r} h = drain_from (work r) r h (omega arith)
