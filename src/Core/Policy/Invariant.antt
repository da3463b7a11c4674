-- ===== src/Core/Policy/Invariant.antt =====
-- What holds of a runner of core/policy.go between any two steps of its goroutines.
use mathlib.Core.Path.{subst}
use go_ha.Prelude.{
  ℕ, ◌+◌, ◌≤◌, ◌<◌, ◌≡◌, refl, ap, inl, inr, true, Option, none, some, arith, Option-cases,
}
use go_ha.Prelude.{get_elem?, set, weigh, weigh-set, weigh-get}
use go_ha.Core.Policy.{
  Mode, single, restart, queued, parallel, Policy, Phase, blocked, holding, running, leaving, ended,
  Run, Runner, Action, trigger, locks, unwaits, finishes, leaves, take_lock, stop_waiting, finish,
  leave, at_run, step, Reach, start, later, unlocked,
}
use go_ha.Core.Policy.Counts.{live, waits, holds, is_set, Capped, Inv, new_runner-Inv}
use go_ha.Core.Policy.Admission.{run-Inv}

Capped-mono : (m : Mode) (cap a b w x : ℕ) → Capped m cap a w → b ≤ a → x ≤ w → Capped m cap b x
Capped-mono single cap a b w x c h k = (omega arith, omega arith)
Capped-mono restart cap a b w x c h k = omega arith
Capped-mono queued cap a b w x c h k = omega arith
Capped-mono parallel cap a b w x c h k = (omega arith, omega arith)

-- Only a queued run ever waits.
holds-holding : (m : Mode) (cap a w : ℕ) → Capped m cap a w → 0 < w → holds m holding ≡ 1
holds-holding single cap a w c h = absurd (omega arith)
holds-holding restart cap a w c h = absurd (omega arith)
holds-holding queued cap a w c h = refl
holds-holding parallel cap a w c h = absurd (omega arith)

holds-running :
    (m : Mode) → (holds m holding ≡ holds m running) × (holds m running ≡ holds m leaving)
holds-running single = (refl, refl)
holds-running restart = (refl, refl)
holds-running queued = (refl, refl)
holds-running parallel = (refl, refl)

pub is_set_le : (o : Option ℕ) → is_set o ≤ 1
is_set_le none = omega arith
is_set_le (some i) = omega arith

-- Unlocking gives up the hold that a queued run has at its end.
unlocked_hold :
    (m : Mode) (o : Option ℕ)
    → holds m leaving ≤ is_set o
    → is_set (unlocked m o) + holds m leaving ≡ is_set o
unlocked_hold single o h = omega arith
unlocked_hold restart o h = omega arith
unlocked_hold queued o h = omega (arith, is_set_le o)
unlocked_hold parallel o h = omega arith

pub holds_blocked : (m : Mode) → holds m blocked ≡ 0
holds_blocked single = refl
holds_blocked restart = refl
holds_blocked queued = refl
holds_blocked parallel = refl

pub holds_ended : (m : Mode) → holds m ended ≡ 0
holds_ended single = refl
holds_ended restart = refl
holds_ended queued = refl
holds_ended parallel = refl

-- A step that can be taken keeps the invariant.
abbrev pub Kept : Option Runner → Type 0
Kept none = Unit {0}
Kept (some s) = Inv s

module _ (r : Runner) (i : ℕ) (run : Run) (v : Inv r) (e : get_elem? r.runs i ≡ some run) where
  -- The counts when run `i` is replaced.
  replaced :
      (new : Run) (w : Phase → ℕ)
      → weigh (λ x. w x.phase) (set r.runs i new) + w run.phase
        ≡ weigh (λ x. w x.phase) r.runs + w new.phase
  replaced new w = weigh-set (λ x. w x.phase) r.runs i new run e

  at_most : (w : Phase → ℕ) → w run.phase ≤ weigh (λ x. w x.phase) r.runs
  at_most w = weigh-get (λ x. w x.phase) r.runs i run e

  take_lock-Kept :
      (o : Option ℕ) (p : Phase) → r.serial ≡ o → run.phase ≡ p → Kept (take_lock r i run o p)
  unfolding take_lock
  take_lock-Kept none blocked eo ep =
      let new : Run = record run { phase = holding } in
      let some_wait : 0 < r.waiting = omega (arith, v.queued_up, at_most waits, ap waits ep) in
      record {
        counted = omega (arith, v.counted, replaced new live, ap live ep);
        queued_up = omega (arith, v.queued_up, replaced new waits, ap waits ep);
        locked = omega (
          arith,
          v.locked,
          replaced new (holds r.policy.mode),
          ap (holds r.policy.mode) ep,
          ap is_set eo,
          holds-holding r.policy.mode _ _ _ v.capped some_wait,
          holds_blocked r.policy.mode,
        );
        capped = v.capped;
      }
  take_lock-Kept none holding eo ep = tt
  take_lock-Kept none running eo ep = tt
  take_lock-Kept none leaving eo ep = tt
  take_lock-Kept none ended eo ep = tt
  take_lock-Kept (some j) p eo ep = tt

  stop_waiting-Kept : (p : Phase) → run.phase ≡ p → Kept (stop_waiting r i run p)
  unfolding stop_waiting
  stop_waiting-Kept holding ep =
      let new : Run = record run { phase = running } in
      record {
        counted = omega (arith, v.counted, replaced new live, ap live ep);
        queued_up = omega (arith, v.queued_up, replaced new waits, ap waits ep, at_most waits);
        locked = omega (
          arith,
          v.locked,
          replaced new (holds r.policy.mode),
          ap (holds r.policy.mode) ep,
          (holds-running r.policy.mode).0,
        );
        capped =
            Capped-mono r.policy.mode _ r.active _ r.waiting _ v.capped (omega arith) (omega arith);
      }
  stop_waiting-Kept _ ep = tt

  finish-Kept : (p : Phase) → run.phase ≡ p → Kept (finish r i run p)
  unfolding finish
  finish-Kept running ep =
      let new : Run = record run { phase = leaving } in
      record {
        counted = omega (arith, v.counted, replaced new live, ap live ep, at_most live);
        queued_up = omega (arith, v.queued_up, replaced new waits, ap waits ep);
        locked = omega (
          arith,
          v.locked,
          replaced new (holds r.policy.mode),
          ap (holds r.policy.mode) ep,
          (holds-running r.policy.mode).1,
        );
        capped =
            Capped-mono r.policy.mode _ r.active _ r.waiting _ v.capped (omega arith) (omega arith);
      }
  finish-Kept _ ep = tt

  leave-Kept : (p : Phase) → run.phase ≡ p → Kept (leave r i run p)
  unfolding leave
  leave-Kept leaving ep =
      let new : Run = record { phase = ended; cancelled = true } in
      let held : holds r.policy.mode leaving ≤ is_set r.serial =
        omega (arith, v.locked, at_most (holds r.policy.mode), ap (holds r.policy.mode) ep) in
      record {
        counted = omega (arith, v.counted, replaced new live, ap live ep);
        queued_up = omega (arith, v.queued_up, replaced new waits, ap waits ep);
        locked = omega (
          arith,
          v.locked,
          replaced new (holds r.policy.mode),
          ap (holds r.policy.mode) ep,
          unlocked_hold r.policy.mode r.serial held,
          holds_ended r.policy.mode,
        );
        capped = v.capped;
      }
  leave-Kept _ ep = tt

-- Every step keeps the counters equal to what the goroutines are doing, and each mode's promise.
pub step-Kept : (r : Runner) (a : Action) → Inv r → Kept (step r a)
unfolding step
step-Kept r (trigger now key) v = run-Inv now key r v
step-Kept r (locks i) v = elim (Option-cases (get_elem? r.runs i)) [
  | inl e ↦ rw (e, at_run) tt
  | inr (x, e) ↦ rw (e, at_run) (take_lock-Kept r i x v e r.serial x.phase refl refl)
]
step-Kept r (unwaits i) v = elim (Option-cases (get_elem? r.runs i)) [
  | inl e ↦ rw (e, at_run) tt
  | inr (x, e) ↦ rw (e, at_run) (stop_waiting-Kept r i x v e x.phase refl)
]
step-Kept r (finishes i) v = elim (Option-cases (get_elem? r.runs i)) [
  | inl e ↦ rw (e, at_run) tt
  | inr (x, e) ↦ rw (e, at_run) (finish-Kept r i x v e x.phase refl)
]
step-Kept r (leaves i) v = elim (Option-cases (get_elem? r.runs i)) [
  | inl e ↦ rw (e, at_run) tt
  | inr (x, e) ↦ rw (e, at_run) (leave-Kept r i x v e x.phase refl)
]

pub Reach-Inv : {p : Policy} {r : Runner} → Reach p r → Inv r
Reach-Inv {p} start = new_runner-Inv p
Reach-Inv (later {r = r} a h e) = subst Kept e (step-Kept r a (Reach-Inv h))
