-- ===== src/Core/Policy/Throttle.antt =====
-- The throttle of core/policy.go: how far apart admitted triggers are.
use go_ha.Prelude.{
  ℕ, ◌+◌, ◌≤◌, ◌<◌, String, str_eq, ◌≡◌, refl, ap, inl, inr, Bool, true, false, ◌&&◌, Option, none,
  some, List, [], ◌∷◌, arith, if◌then◌else◌, Bool-cases,
}
use mathlib.Core.Path.{subst, subst₂}
use go_ha.Prelude.Dict.{lookup, lookup-insert}
use go_ha.Core.Policy.{
  Mode, single, restart, queued, parallel, Policy, Runner, gate, launch, run, Action, trigger,
  locks, unwaits, finishes, leaves, step, admit_gated, too_soon,
}

-- The step that was asked for, if it can be taken.
abbrev pub after : Runner → Option Runner → Runner
after r none = r
after r (some s) = s

abbrev pub admitted : ℕ → String → Bool → List (ℕ × String) → List (ℕ × String)
admitted now key true rest = (now, key) ∷ rest
admitted now key false rest = rest

-- The triggers that a runner admits along a sequence of actions, oldest first.
pub trace : Runner → List Action → List (ℕ × String)
trace r [] = []
trace r (trigger now key ∷ rest) =
    let later = trace (run now key r).0 rest in admitted now key (run now key r).1 later
trace r (a ∷ rest) = trace (after r (step r a)) rest

-- A trigger comes no sooner than the throttle after the one before it.
abbrev pub Apart : ℕ → Option ℕ → ℕ → Type 0
Apart throttle none now = Unit {0}
Apart throttle (some last) now = 0 < throttle → last + throttle ≤ now

-- So for all triggers of a key in a list, the last one before it being `o`.
abbrev pub Gaps : ℕ → String → Option ℕ → List (ℕ × String) → Type 0
Gaps throttle key o [] = Unit {0}
Gaps throttle key o ((now, k) ∷ rest) =
    (k ≡ key → Apart throttle o now) × Gaps throttle key (if str_eq k key then some now else o) rest

abbrev Keeps : Runner → Option Runner → Type 0
Keeps r none = Unit {0}
Keeps r (some s) = (s.policy ≡ r.policy) × (s.last_ran ≡ r.last_ran)

gate-Keeps : (m : Mode) (r : Runner) → Keeps r (gate m r)
unfolding gate
gate-Keeps single r = ground arith
gate-Keeps restart r = (refl, refl)
gate-Keeps queued r = ground arith
gate-Keeps parallel r = ground arith

-- What a call of `run` does to the policy and to the stamps.
abbrev Stamps : ℕ → String → String → Runner → Runner × Bool → Type 0
Stamps now key k r (s, accepted) =
    (s.policy ≡ r.policy)
    × (lookup k s.last_ran ≡ (if accepted && str_eq key k then some now else lookup k r.last_ran))

admit_gated-Stamps :
    (now : ℕ) (key k : String) (r : Runner) (o : Option Runner)
    → Keeps r o
    → Stamps now key k r (admit_gated now key r o)
unfolding launch
admit_gated-Stamps now key k r none h = (refl, refl)
admit_gated-Stamps now key k r (some s) h =
    (h.0, ground (arith, lookup-insert key k now s.last_ran))

run-Stamps : (now : ℕ) (key k : String) (r : Runner) → Stamps now key k r (run now key r)
unfolding run
run-Stamps now key k r = elim (Bool-cases (too_soon r.policy now (lookup key r.last_ran))) [
  | inl t ↦ rw t (refl, refl)
  | inr f ↦
      rw f (admit_gated-Stamps now key k r (gate r.policy.mode r) (gate-Keeps r.policy.mode r))
]

-- An accepted trigger is past the throttle.
run-Apart :
    (now : ℕ) (key : String) (r : Runner)
    → (run now key r).1 ≡ true
    → Apart r.policy.throttle (lookup key r.last_ran) now
unfolding run
run-Apart now key r h = elim (Bool-cases (too_soon r.policy now (lookup key r.last_ran))) [
  | inl t ↦ let refused : ◌≡◌ {A = Bool} false true = rw t at h in cc
  | inr f ↦ far_enough r.policy now (lookup key r.last_ran) f
]
  where
    far_enough : (p : Policy) (n : ℕ) (o : Option ℕ) → too_soon p n o ≡ false → Apart p.throttle o n
    far_enough p n none f = tt
    far_enough p n (some last) f = λ h. ground arith

other_step-Keeps :
    (r : Runner) (i : ℕ)
    → Keeps r (step r (locks i))
      × Keeps r (step r (unwaits i))
      × Keeps r (step r (finishes i))
      × Keeps r (step r (leaves i))
unfolding step
other_step-Keeps r i = (ground arith, ground arith, ground arith, ground arith)

Gaps-admitted :
    (throttle : ℕ) (key : String) (o : Option ℕ) (now : ℕ) (k : String) (accepted : Bool)
    (rest : List (ℕ × String))
    → (accepted ≡ true → k ≡ key → Apart throttle o now)
    → Gaps throttle key (if accepted && str_eq k key then some now else o) rest
    → Gaps throttle key o (admitted now k accepted rest)
Gaps-admitted throttle key o now k true rest a g = (a refl, g)
Gaps-admitted throttle key o now k false rest a g = g

carry :
    (key : String) (rest : List (ℕ × String)) {t t' : ℕ} {o o' : Option ℕ}
    → t ≡ t'
    → o ≡ o'
    → Gaps t key o rest
    → Gaps t' key o' rest
carry key rest e e' g = subst₂ (λ t o. Gaps t key o rest) e e' g

after-Gaps :
    (r : Runner) (o : Option Runner) (key : String) (rest : List Action)
    → Keeps r o
    → Gaps
        (after r o).policy.throttle
        key
        (lookup key (after r o).last_ran)
        (trace (after r o) rest)
    → Gaps r.policy.throttle key (lookup key r.last_ran) (trace (after r o) rest)
after-Gaps r none key rest h g = g
after-Gaps r (some s) key rest h g =
    carry key (trace s rest) (ap (λ (p : Policy). p.throttle) h.0) (ap (lookup key) h.1) g

-- Triggers of one key that are admitted one after the other are at least the throttle apart,
-- whatever else happens in between and even if the clock is set back.
pub trace-Gaps :
    (r : Runner) (actions : List Action) (key : String)
    → Gaps r.policy.throttle key (lookup key r.last_ran) (trace r actions)
unfolding trace
trace-Gaps r [] key = tt
trace-Gaps r (trigger now k ∷ rest) key =
    let (same, stamps) = run-Stamps now k key r in
    Gaps-admitted r.policy.throttle key (lookup key r.last_ran) now k (run now k r).1 _
      (λ accepted e.
        subst (λ j. Apart r.policy.throttle (lookup j r.last_ran) now) e
          (run-Apart now k r accepted))
      (carry key (trace (run now k r).0 rest) (ap (λ (p : Policy). p.throttle) same) stamps
        (trace-Gaps (run now k r).0 rest key))
trace-Gaps r (locks i ∷ rest) key =
    after-Gaps r _ key rest (other_step-Keeps r i).0
      (trace-Gaps (after r (step r (locks i))) rest key)
trace-Gaps r (unwaits i ∷ rest) key =
    after-Gaps r _ key rest (other_step-Keeps r i).1
      (trace-Gaps (after r (step r (unwaits i))) rest key)
trace-Gaps r (finishes i ∷ rest) key =
    after-Gaps r _ key rest (other_step-Keeps r i).2
      (trace-Gaps (after r (step r (finishes i))) rest key)
trace-Gaps r (leaves i ∷ rest) key =
    after-Gaps r _ key rest (other_step-Keeps r i).3
      (trace-Gaps (after r (step r (leaves i))) rest key)
