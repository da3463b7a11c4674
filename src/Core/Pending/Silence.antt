-- ===== src/Core/Pending/Silence.antt =====
-- After `stop` of core/pending.go nothing runs.
use go_ha.Prelude.{ℕ, ◌≡◌, ◌≢◌, true, some, List}
use go_ha.Prelude.{get_elem?}
use go_ha.Core.Pending.{armed, ran, Wait, PendingRuns}

-- The wait has run its automation.
abbrev pub HasRun : List Wait → ℕ → Type 0
HasRun waits j = (w : Wait) × (get_elem? waits j ≡ some w) × (w.status ≡ ran)

abbrev NoneArmed : List Wait → Type 0
NoneArmed waits = (j : ℕ) (w : Wait) → get_elem? waits j ≡ some w → w.status ≢ armed

-- A change of one wait's status that arms nothing and runs nothing.
abbrev Calm : List Wait → List Wait → Type 0
Calm waits after = NoneArmed after × ((j : ℕ) → HasRun after j → HasRun waits j)

abbrev Silent : PendingRuns → PendingRuns → Type 0
Silent p q = (q.closed ≡ true) × Calm p.waits q.waits
