-- ===== src/Core/Pending.antt =====
-- core/pending.go: the timers of triggers that wait out a For duration. Each method and each timer
-- callback is one critical section. The timers are the runtime's: a timer that is not stopped may
-- elapse at any moment, which starts its callback, and `Stop` does not recall a callback that has
-- started. A wait is named by its place in the list of all waits armed so far.
pub mod Bookkeeping
pub mod Arming
pub mod Firing
pub mod Tracking
pub mod Silence
pub mod Running
pub mod Undisturbed
mod Tests
use go_ha.Prelude.{
  ℕ, zero, suc, ◌+◌, ◌-◌, ◌*◌, ◌/◌, ◌%◌, ◌^◌, ◌≤◌, ◌<◌, String, str_eq, eq_iff, eq_refl, ◌≡◌, refl,
  sym, ap, ◌∙◌, fun_ext, ◌≢◌, ◌↔◌, ◌⊎◌, inl, inr, Bool, true, false, not, ◌&&◌, ◌||◌, Option, none,
  some, List, [], ◌∷◌, ◌++◌, map, arith, ltb, leb, ◌==◌, if◌then◌else◌, Bool-cases, Option-cases,
  length, length-append, All, All-map, All-append, contains, is_empty, ltb→lt, ltb→le,
}
use go_ha.Prelude.{get_elem?, set}
use go_ha.Prelude.Dict.{lookup, insert, erase}

-- `elapsed` has started its callback, which has not yet taken the mutex; `ran` and `retired` say
-- what the callback decided.
pub data Status : Type 0 where
  armed elapsed stopped retired ran : Status

pub record Wait : Type 0 where
  pub entity : String
  pub mine : ℕ
  pub status : Status

pub record PendingRuns : Type 0 where
  pub timers : List (String × ℕ)
  pub gen : List (String × ℕ)
  pub closed : Bool
  pub waits : List Wait

unfoldable pub new_pending_runs : PendingRuns
new_pending_runs = record { timers = []; gen = []; closed = false; waits = [] }

abbrev pub u64 : ℕ
u64 = 2 ^ 64

abbrev pub or_zero : Option ℕ → ℕ
or_zero none = 0
or_zero (some n) = n

-- `p.gen[id]`, a uint64 that is 0 for a missing key.
abbrev pub gen_of : String → PendingRuns → ℕ
gen_of id p = or_zero (lookup id p.gen)

-- `timer.Stop`: a callback that has begun is not recalled.
abbrev pub stop_status : Status → Status
stop_status armed = stopped
stop_status s = s

abbrev pub stop_wait : Option Wait → ℕ → List Wait → List Wait
stop_wait none i waits = waits
stop_wait (some w) i waits = set waits i (record w { status = stop_status w.status })

abbrev pub stop_timer : Option ℕ → List Wait → List Wait
stop_timer none waits = waits
stop_timer (some i) waits = stop_wait (get_elem? waits i) i waits

-- `arm`; the duration and the callback's work play no part here.
unfoldable pub arm : String → PendingRuns → PendingRuns
arm id p =
    let next = (gen_of id p + 1) % u64 in
    let waits = stop_timer (lookup id p.timers) p.waits in
    if p.closed then p else record p {
      gen = insert id next p.gen;
      timers = insert id (length waits) p.timers;
      waits = waits ++ record { entity = id; mine = next; status = armed } ∷ [];
    }

-- The runtime's side: the duration of an armed timer is over.
unfoldable pub elapse : ℕ → Wait → PendingRuns → PendingRuns
elapse i w p = elim w.status [
  | armed ↦ record p { waits = set p.waits i (record w { status = elapsed }) }
  | _ ↦ p
]

abbrev pub is_current : Wait → PendingRuns → Bool
is_current w p = gen_of w.entity p == w.mine && not p.closed

-- The callback of a timer: whether it runs the automation, and what it leaves behind.
unfoldable pub callback : ℕ → Wait → PendingRuns → PendingRuns
callback i w p = elim w.status [
  | elapsed ↦
      if is_current w p
      then record p {
        timers = erase w.entity p.timers;
        waits = set p.waits i (record w { status = ran });
      }
      else record p { waits = set p.waits i (record w { status = retired }) }
  | _ ↦ p
]

unfoldable pub disarm : String → PendingRuns → PendingRuns
disarm id p = record p {
  waits = stop_timer (lookup id p.timers) p.waits;
  timers = erase id p.timers;
  gen = insert id ((gen_of id p + 1) % u64) p.gen;
}

pub stop_all : List (String × ℕ) → List Wait → List Wait
stop_all [] waits = waits
stop_all ((id, i) ∷ timers) waits = stop_all timers (stop_timer (some i) waits)

unfoldable pub stop : PendingRuns → PendingRuns
unfolding stop_all
stop p = record p { closed = true; waits = stop_all p.timers p.waits; timers = [] }

pub data Action : Type 0 where
  arms disarms : String → Action
  elapses calls : ℕ → Action
  stops : Action

abbrev pub at_wait : Option Wait → (Wait → PendingRuns) → PendingRuns → PendingRuns
at_wait none f p = p
at_wait (some w) f p = f w

unfoldable pub act : Action → PendingRuns → PendingRuns
unfolding arm elapse callback disarm stop
act (arms id) p = arm id p
act (disarms id) p = disarm id p
act (elapses i) p = at_wait (get_elem? p.waits i) (λ w. elapse i w p) p
act (calls i) p = at_wait (get_elem? p.waits i) (λ w. callback i w p) p
act stops p = stop p

pub act_all : List Action → PendingRuns → PendingRuns
act_all [] p = p
act_all (a ∷ rest) p = act_all rest (act a p)
