-- ===== src/Core/Policy/Tests.antt =====
-- Runs of the runner of core/policy.go.
use go_ha.Prelude.{ℕ, ◌<◌, ◌≡◌, refl, false, Option, none, some, List, [], ◌∷◌, arith}
use go_ha.Prelude.{get_elem?}
use go_ha.Prelude.Dict.{lookup, insert}
use go_ha.Core.Policy.{
  single, restart, queued, Policy, running, Run, Runner, new_runner, run, Action, trigger, locks,
  unwaits, finishes, leaves, step, Reach, start, later,
}
use go_ha.Core.Policy.Counts.{lives}
use go_ha.Core.Policy.Bounds.{executing, Overlap, Reach-Overlap}
use go_ha.Core.Policy.Restart.{restart_exclusive}
use go_ha.Core.Policy.Progress.{work, CanStep, progress, Drains, drained, drains}
use go_ha.Core.Policy.Throttle.{trace, Gaps, trace-Gaps}

abbrev in_turn : Policy
in_turn = record { mode = queued; throttle = 0; max_runs = 2 }

abbrev or_new : Option Runner → Runner
or_new none = new_runner in_turn
or_new (some r) = r

-- Two runs of a queued automation, the first of which has taken the lock.
abbrev pair : Runner
pair = or_new (
    step (or_new (step (or_new (step (new_runner in_turn) (trigger 3 ""))) (trigger 5 "")))
      (locks 0))

pair-Reach : Reach in_turn pair
unfolding step new_runner run lookup insert
pair-Reach = later (locks 0) (later (trigger 5 "") (later (trigger 3 "") start refl) refl) refl

Reach-Overlap_example : Overlap queued 2 (executing pair) (lives pair)
Reach-Overlap_example = Reach-Overlap pair-Reach

pair-work : 0 < work pair
unfolding step new_runner run lookup insert
pair-work = omega arith

progress_example : CanStep pair
progress_example = progress pair-Reach pair-work

pair-Drains : Drains pair (or_new (step pair (unwaits 0))) 1
unfolding step new_runner run lookup insert
pair-Drains = drains (unwaits 0) refl tt (drained (or_new (step pair (unwaits 0))))

abbrev afresh : Policy
afresh = record { mode = restart; throttle = 0; max_runs = 0 }

abbrev restarted : Runner
restarted = or_new (step (or_new (step (new_runner afresh) (trigger 3 ""))) (trigger 5 ""))

restarted-Reach : Reach afresh restarted
unfolding step new_runner run lookup insert
restarted-Reach = later (trigger 5 "") (later (trigger 3 "") start refl) refl

abbrev fresh_run : Run
fresh_run = record { phase = running; cancelled = false }

restarted_second : get_elem? restarted.runs 1 ≡ some fresh_run
unfolding step new_runner run lookup insert
restarted_second = refl

restart_exclusive_example : ◌≡◌ {A = ℕ} 1 1
restart_exclusive_example =
    restart_exclusive refl restarted-Reach 1 1 fresh_run fresh_run restarted_second restarted_second
      (refl, refl) (refl, refl)

abbrev calm : Policy
calm = record { mode = single; throttle = 10; max_runs = 0 }

abbrev busy : List Action
busy = trigger 3 "a" ∷ trigger 5 "a" ∷ finishes 0 ∷ leaves 0 ∷ trigger 14 "a" ∷ []

trace-Gaps_example : Gaps 10 "a" none (trace (new_runner calm) busy)
unfolding new_runner lookup
trace-Gaps_example = trace-Gaps (new_runner calm) busy "a"
