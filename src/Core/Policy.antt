-- ===== src/Core/Policy.antt =====
-- core/policy.go: the runner that enforces one automation's policy. `run` is one critical section;
-- after it the run's goroutine takes the steps below, interleaved in any order with others and with
-- further calls of `run`. The clock is read once per call, so the instant is an argument. A
-- non-positive Throttle or Limit, which the code treats as unset, is 0. What cancels the parent
-- context is outside the runner and is left out.
pub mod Counts
pub mod Admission
pub mod Invariant
pub mod Bounds
pub mod Restart
pub mod Progress
pub mod Throttle
mod Tests
use go_ha.Prelude.{
  ℕ, zero, suc, ◌+◌, ◌-◌, ◌*◌, ◌/◌, ◌%◌, ◌^◌, ◌≤◌, ◌<◌, String, str_eq, eq_iff, eq_refl, ◌≡◌, refl,
  sym, ap, ◌∙◌, fun_ext, ◌≢◌, ◌↔◌, ◌⊎◌, inl, inr, Bool, true, false, not, ◌&&◌, ◌||◌, Option, none,
  some, List, [], ◌∷◌, ◌++◌, map, arith, ltb, leb, ◌==◌, if◌then◌else◌, Bool-cases, Option-cases,
  length, length-append, All, All-map, All-append, contains, is_empty, ltb→lt, ltb→le,
}
use go_ha.Prelude.{get_elem?, set, weigh}
use go_ha.Prelude.Dict.{lookup, insert}

pub data Mode : Type 0 where
  single restart queued parallel : Mode

pub mode_name : Mode → String
mode_name restart = "restart"
mode_name queued = "queued"
mode_name parallel = "parallel"
mode_name single = "single"

pub record Policy : Type 0 where
  pub mode : Mode
  pub throttle : ℕ
  pub max_runs : ℕ

abbrev pub default_limit : ℕ
default_limit = 10

-- `Policy.limit`.
abbrev pub limit : Policy → ℕ
limit p = if ltb 0 p.max_runs then p.max_runs else default_limit

-- Where a run's goroutine stands: before `serial.Lock`, holding it with `waiting` not yet lowered,
-- in the action, past `finish`, and returned.
pub data Phase : Type 0 where
  blocked holding running leaving ended : Phase

pub record Run : Type 0 where
  pub phase : Phase
  pub cancelled : Bool

-- `runs` has every run ever admitted, oldest first; a run is named by its place there. `cancel` and
-- `serial` name the run that the cancel function belongs to, and the one that holds the lock.
pub record Runner : Type 0 where
  pub policy : Policy
  pub last_ran : List (String × ℕ)
  pub active : ℕ
  pub waiting : ℕ
  pub cancel : Option ℕ
  pub serial : Option ℕ
  pub runs : List Run

unfoldable pub new_runner : Policy → Runner
new_runner p = record {
  policy = p;
  last_ran = [];
  active = 0;
  waiting = 0;
  cancel = none;
  serial = none;
  runs = [];
}

-- `r.policy.Throttle > 0 && seen && now.Sub(last) < r.policy.Throttle`.
abbrev pub too_soon : Policy → ℕ → Option ℕ → Bool
too_soon p now none = false
too_soon p now (some last) = ltb 0 p.throttle && ltb (now - last) p.throttle

abbrev pub cancel_run : Option Run → List Run → ℕ → List Run
cancel_run none runs i = runs
cancel_run (some run) runs i = set runs i (record run { cancelled = true })

-- `if r.cancel != nil { r.cancel() }`.
pub cancel_current : Option ℕ → List Run → List Run
cancel_current none runs = runs
cancel_current (some i) runs = cancel_run (get_elem? runs i) runs i

-- The switch on the mode; `none` refuses the trigger.
pub gate : Mode → Runner → Option Runner
unfolding cancel_current
gate single r = if ltb 0 r.active then none else some r
gate restart r = some (record r { runs = cancel_current r.cancel r.runs })
gate queued r =
    if leb (limit r.policy) r.waiting then none else some (record r { waiting = r.waiting + 1 })
gate parallel r = if leb (limit r.policy) r.active then none else some r

abbrev pub first_phase : Mode → Phase
first_phase queued = blocked
first_phase _ = running

-- From the stamp to the start of the goroutine.
pub launch : ℕ → String → Runner → Runner
launch now key r = record r {
  last_ran = insert key now r.last_ran;
  active = r.active + 1;
  cancel = some (length r.runs);
  runs = r.runs ++ record { phase = first_phase r.policy.mode; cancelled = false } ∷ [];
}

abbrev pub admit_gated : ℕ → String → Runner → Option Runner → Runner × Bool
admit_gated now key r none = (r, false)
admit_gated now key r (some r') = (launch now key r', true)

-- `run`.
unfoldable pub run : ℕ → String → Runner → Runner × Bool
unfolding gate launch
run now key r =
    if too_soon r.policy now (lookup key r.last_ran)
    then (r, false)
    else admit_gated now key r (gate r.policy.mode r)

-- What may happen next: a trigger, or a step of the goroutine of the run named.
pub data Action : Type 0 where
  trigger : ℕ → String → Action
  locks unwaits finishes leaves : ℕ → Action

abbrev pub move : Runner → ℕ → Run → Phase → Runner
move r i run p = record r { runs = set r.runs i (record run { phase = p }) }

-- One step of a goroutine at each of its phases; `none` where it cannot take that step.
pub take_lock : Runner → ℕ → Run → Option ℕ → Phase → Option Runner
take_lock r i run none blocked = some (record (move r i run holding) { serial = some i })
take_lock r i run _ _ = none

-- `r.waiting--`.
pub stop_waiting : Runner → ℕ → Run → Phase → Option Runner
stop_waiting r i run holding = some (record (move r i run running) { waiting = r.waiting - 1 })
stop_waiting r i run _ = none

-- The action returns, and `finish` runs.
pub finish : Runner → ℕ → Run → Phase → Option Runner
finish r i run running = some (record (move r i run leaving) { active = r.active - 1 })
finish r i run _ = none

abbrev pub unlocked : Mode → Option ℕ → Option ℕ
unlocked queued serial = none
unlocked _ serial = serial

-- `serial.Unlock` of a queued run, then `cancel` and `wg.Done`.
pub leave : Runner → ℕ → Run → Phase → Option Runner
leave r i run leaving = some (record r {
  runs = set r.runs i (record { phase = ended; cancelled = true });
  serial = unlocked r.policy.mode r.serial;
})
leave r i run _ = none

abbrev pub at_run : Option Run → (Run → Option Runner) → Option Runner
at_run none f = none
at_run (some run) f = f run

unfoldable pub step : Runner → Action → Option Runner
unfolding run take_lock stop_waiting finish leave
step r (trigger now key) = some (run now key r).0
step r (locks i) = at_run (get_elem? r.runs i) (λ run. take_lock r i run r.serial run.phase)
step r (unwaits i) = at_run (get_elem? r.runs i) (λ run. stop_waiting r i run run.phase)
step r (finishes i) = at_run (get_elem? r.runs i) (λ run. finish r i run run.phase)
step r (leaves i) = at_run (get_elem? r.runs i) (λ run. leave r i run run.phase)

-- `wait` returns once every goroutine has returned.
pub data Reach (p : Policy) : Runner → Type 0 where
  start : Reach p (new_runner p)
  later : {r s : Runner} (a : Action) → Reach p r → step r a ≡ some s → Reach p s
