-- ===== src/Core/Policy/Bounds.antt =====
-- How many runs of an automation core/policy.go lets overlap.
use go_ha.Prelude.{ℕ, ◌+◌, ◌≤◌, ◌≡◌, refl, ◌∙◌, Option, none, some, List, [], ◌∷◌, arith}
use mathlib.Core.Path.{subst}
use go_ha.Prelude.{weigh}
use go_ha.Core.Policy.{
  Mode, single, restart, queued, parallel, Policy, limit, Phase, running, Run, Runner, new_runner,
  Action, trigger, locks, unwaits, finishes, leaves, step, Reach, start, later,
}
use go_ha.Core.Policy.Counts.{live, waits, holds, lives, waiters, is_set, Capped}
use go_ha.Core.Policy.Invariant.{Reach-Inv, is_set_le}

abbrev SamePolicy : Policy → Option Runner → Type 0
SamePolicy p none = Unit {0}
SamePolicy p (some s) = s.policy ≡ p

step-policy : (r : Runner) (a : Action) → SamePolicy r.policy (step r a)
unfolding step
step-policy r (trigger now key) = ground arith
step-policy r (locks i) = ground arith
step-policy r (unwaits i) = ground arith
step-policy r (finishes i) = ground arith
step-policy r (leaves i) = ground arith

pub Reach-policy : {p : Policy} {r : Runner} → Reach p r → r.policy ≡ p
unfolding new_runner
Reach-policy start = refl
Reach-policy (later {r = r} a h e) =
    subst (SamePolicy r.policy) e (step-policy r a) ∙ Reach-policy h

abbrev executes : Phase → ℕ
executes running = 1
executes _ = 0

-- Runs whose action is going on.
abbrev pub executing : Runner → ℕ
executing r = weigh (λ run. executes run.phase) r.runs

executing-le-live :
    (runs : List Run) → weigh (λ run. executes run.phase) runs ≤ weigh (λ run. live run.phase) runs
executing-le-live [] = omega arith
executing-le-live (x ∷ runs) = ground (arith, executing-le-live runs)

executing-le-holds :
    (runs : List Run)
    → weigh (λ run. executes run.phase) runs ≤ weigh (λ run. holds queued run.phase) runs
executing-le-holds [] = omega arith
executing-le-holds (x ∷ runs) = ground (arith, executing-le-holds runs)

-- How many actions a mode lets go on at once, and how many admitted runs it lets be unfinished.
abbrev pub Overlap : Mode → ℕ → ℕ → ℕ → Type 0
Overlap single cap going unfinished = unfinished ≤ 1
Overlap restart cap going unfinished = Unit {0}
Overlap queued cap going unfinished = (going ≤ 1) × (unfinished ≤ cap + 1)
Overlap parallel cap going unfinished = unfinished ≤ cap

live_split :
    (runs : List Run)
    → weigh (λ run. live run.phase) runs
      ≤ weigh (λ run. waits run.phase) runs + weigh (λ run. holds queued run.phase) runs
live_split [] = omega arith
live_split (x ∷ runs) = ground (arith, live_split runs)

Overlap-of :
    (m : Mode) (r : Runner)
    → r.active ≡ lives r
    → r.waiting ≡ waiters r
    → weigh (λ run. holds m run.phase) r.runs ≡ is_set r.serial
    → Capped m (limit r.policy) r.active r.waiting
    → Overlap m (limit r.policy) (executing r) (lives r)
Overlap-of single r a w h c = omega arith
Overlap-of restart r a w h c = tt
Overlap-of queued r a w h c = (
  omega (arith, executing-le-holds r.runs, is_set_le r.serial),
  omega (arith, live_split r.runs, is_set_le r.serial),
)
Overlap-of parallel r a w h c = omega arith

-- Whatever triggers arrive and however the goroutines interleave: in single mode at most one
-- admitted run is unfinished; in queued mode at most one action goes on, and at most the limit wait
-- behind it; in parallel mode at most the limit are unfinished.
pub Reach-Overlap :
    {p : Policy} {r : Runner} → Reach p r → Overlap p.mode (limit p) (executing r) (lives r)
Reach-Overlap {p} {r} h =
    let v = Reach-Inv h in
    subst (λ q. Overlap q.mode (limit q) (executing r) (lives r)) (Reach-policy h)
      (Overlap-of r.policy.mode r v.counted v.queued_up v.locked v.capped)
