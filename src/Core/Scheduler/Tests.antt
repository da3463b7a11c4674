-- ===== src/Core/Scheduler/Tests.antt =====
-- Runs of core/scheduler.go.
use go_ha.Core.Scheduler.Samples.{list_queue, pick}
use mathlib.Core.List.{Permᴰ}
use go_ha.Prelude.{ℕ, ◌+◌, ◌*◌, ◌≤◌, ◌≡◌, refl, true, false, some, List, [], ◌∷◌, arith, All}
use go_ha.Core.Scheduler.{Entry, Triggers, Log, Scheduler, run_due, refresh}
use go_ha.Core.Scheduler.Contents.{Unique, time_in}
use go_ha.Core.Scheduler.CatchUp.{Advances, run_due-Ends}
use go_ha.Core.Scheduler.Fired.{NotBefore, second, Occurs, run_due-fired, run_due-Occurs}
use go_ha.Core.Scheduler.Refresh.{AllRederived, refresh-Perm}
use go_ha.Core.Scheduler.Queueing.{IsValid}

abbrev seconds : ℕ → ℕ
seconds n = n * 1000000000

-- Every ten seconds, whichever the entry.
abbrev every_ten : Triggers
every_ten = λ id t. some (t + seconds 10)

every_ten-Advances : Advances every_ten
every_ten-Advances id t n h = ground arith

abbrev waiting : List Entry
waiting =
    record { id = 0; dynamic = false; fire_at = seconds 25 }
    ∷ record { id = 1; dynamic = true; fire_at = seconds 12 }
    ∷ []

waiting-Unique : Unique waiting
waiting-Unique id = ground arith

run_due-Ends_example :
    (log : Log) × (rest : List Entry) × (run_due list_queue
        (seconds 100)
        every_ten
        (seconds 30)
        waiting
      ≡ some (log, rest))
run_due-Ends_example =
    run_due-Ends list_queue (seconds 100) every_ten (seconds 30) waiting every_ten-Advances
      waiting-Unique (omega arith)

abbrev log : Log
log = (1, seconds 12) ∷ (1, seconds 22) ∷ (0, seconds 25) ∷ []

abbrev later : List Entry
later =
    record { id = 1; dynamic = true; fire_at = seconds 32 }
    ∷ record { id = 0; dynamic = false; fire_at = seconds 35 }
    ∷ []

caught_up : run_due list_queue 6 every_ten (seconds 30) waiting ≡ some (log, later)
unfolding run_due pick
caught_up = refl

run_due-fired_example : All (λ p. p.1 ≤ seconds 30) log × NotBefore (second (seconds 30)) later
run_due-fired_example =
    run_due-fired list_queue 6 every_ten (seconds 30) waiting waiting-Unique caught_up

run_due-Occurs_example : Occurs every_ten 1 (time_in 1 waiting) log (time_in 1 later)
run_due-Occurs_example =
    run_due-Occurs list_queue 6 every_ten (seconds 30) 1 waiting waiting-Unique caught_up

abbrev queued : Scheduler list_queue
queued = record { queue = waiting; next_id = 2 }

queued-IsValid : IsValid list_queue queued
queued-IsValid = record { unique = waiting-Unique; given = (omega arith, (omega arith, tt)) }

refresh-Perm_example :
    (after : List Entry) × AllRederived every_ten (seconds 5) waiting after
    × Permᴰ (refresh list_queue every_ten (seconds 5) queued).0.queue after
refresh-Perm_example = refresh-Perm list_queue every_ten (seconds 5) queued waiting-Unique
