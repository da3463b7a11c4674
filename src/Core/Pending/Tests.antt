-- ===== src/Core/Pending/Tests.antt =====
-- Runs of the pending runs of core/pending.go.
use go_ha.Prelude.{◌≡◌, refl, some, List, [], ◌∷◌, ◌++◌, arith, All}
use go_ha.Prelude.{get_elem?}
use go_ha.Prelude.Dict.{lookup, insert, erase}
use go_ha.Core.Pending.{
  armed, ran, Wait, new_pending_runs, gen_of, Action, arms, disarms, elapses, calls, act, act_all,
}
use go_ha.Core.Pending.Tracking.{armed_tracked}
use go_ha.Core.Pending.Silence.{HasRun}
use go_ha.Core.Pending.Undisturbed.{Spares, runs_undisturbed}

-- The second arming supersedes the first.
abbrev twice : List Action
twice = arms "light.hall" ∷ arms "light.hall" ∷ []

abbrev second : Wait
second = record { entity = "light.hall"; mine = 2; status = armed }

twice-second : get_elem? (act_all twice new_pending_runs).waits 1 ≡ some second
unfolding act_all act new_pending_runs lookup insert
twice-second = refl

armed_tracked_example :
    (lookup "light.hall" (act_all twice new_pending_runs).timers ≡ some 1)
    × (2 ≡ gen_of "light.hall" (act_all twice new_pending_runs))
armed_tracked_example = armed_tracked twice 1 second (omega arith) twice-second refl

-- One wait ran before the runs were stopped.
abbrev once : List Action
once = arms "light.hall" ∷ elapses 0 ∷ calls 0 ∷ arms "door.front" ∷ elapses 1 ∷ []

abbrev late : List Action
late = calls 1 ∷ arms "light.hall" ∷ []

-- The second wait runs, and then its entity is disarmed.
abbrev others : List Action
others = arms "door.front" ∷ elapses 1 ∷ calls 1 ∷ disarms "light.hall" ∷ []

others-HasRun : HasRun (act_all others (act_all twice new_pending_runs)).waits 1
unfolding act_all act new_pending_runs lookup insert erase
others-HasRun = (record { entity = "light.hall"; mine = 2; status = ran }, refl, refl)

runs_undisturbed_example :
    (mid : List Action) × (rest : List Action) × (others ≡ mid ++ calls 1 ∷ rest)
    × All (Spares "light.hall") mid
runs_undisturbed_example =
    runs_undisturbed twice others 1 second (omega arith) twice-second refl others-HasRun
