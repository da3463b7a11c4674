-- ===== src/Core/Policy/Restart.antt =====
-- ModeRestart of core/policy.go: a new run cancels the one before it.
use go_ha.Prelude.{
  ℕ, ◌≤◌, String, ◌≡◌, refl, sym, ap, ◌∙◌, inl, inr, true, false, Option, none, some, List, [], ◌∷◌,
  ◌++◌, arith, Bool-cases, Option-cases, length,
}
use mathlib.Core.Path.{subst}
use native.Mathlib.Decide.{ℕ_discrete}
use go_ha.Prelude.{get_elem?, set, get_elem?-set, get_elem?-append}
use go_ha.Prelude.Dict.{lookup}
use go_ha.Core.Policy.{
  restart, Policy, Phase, blocked, holding, running, leaving, ended, Run, Runner, new_runner,
  cancel_run, cancel_current, gate, launch, run, Action, trigger, locks, unwaits, finishes, leaves,
  take_lock, stop_waiting, finish, leave, at_run, step, Reach, start, later, admit_gated, too_soon,
}
use go_ha.Core.Policy.Counts.{live}
use go_ha.Core.Policy.Bounds.{Reach-policy}

-- An unfinished run that nobody cancelled.
abbrev Current : List Run → ℕ → Type 0
Current runs i =
    (x : Run) × (get_elem? runs i ≡ some x) × (live x.phase ≡ 1) × (x.cancelled ≡ false)

abbrev Newest : Option ℕ → List Run → Type 0
Newest cancel runs = (i : ℕ) → Current runs i → cancel ≡ some i

abbrev Kept : Option Runner → Type 0
Kept none = Unit {0}
Kept (some s) = Newest s.cancel s.runs

-- A step of a goroutine starts no run and undoes no cancellation.
set-Newest :
    (cancel : Option ℕ) (runs : List Run) (i : ℕ) (x y : Run)
    → get_elem? runs i ≡ some x
    → live y.phase ≤ live x.phase
    → live x.phase ≤ 1
    → (y.cancelled ≡ false → x.cancelled ≡ false)
    → Newest cancel runs
    → Newest cancel (set runs i y)
set-Newest cancel runs i x y e l l' c n j (z, ez, lz, cz) = elim (ℕ_discrete i j) [
  | yes same ↦
      let z_is_y : z ≡ y = ground (arith, get_elem?-set runs i j y x e) in
      n j (x, ground arith, ground arith, c (ground arith))
  | no other ↦ n j (z, ground (arith, get_elem?-set runs i j y x e), lz, cz)
]

-- After the newest run is cancelled no run is current.
cancel_run-none :
    (runs : List Run) (i : ℕ) (o : Option Run)
    → get_elem? runs i ≡ o
    → Newest (some i) runs
    → (j : ℕ) → ¬ Current (cancel_run o runs i) j
cancel_run-none runs i none e n j (z, ez, lz, cz) = ground (arith, n j (z, ez, lz, cz))
cancel_run-none runs i (some x) e n j (z, ez, lz, cz) = elim (ℕ_discrete i j) [
  | yes same ↦ ground (arith, get_elem?-set runs i j (record x { cancelled = true }) x e)
  | no other ↦
      let ez' : get_elem? runs j ≡ some z =
        ground (arith, get_elem?-set runs i j (record x { cancelled = true }) x e) in
      other (ground (arith, n j (z, ez', lz, cz)))
]

cancel_current-none :
    (cancel : Option ℕ) (runs : List Run)
    → Newest cancel runs
    → (j : ℕ) → ¬ Current (cancel_current cancel runs) j
unfolding cancel_current
cancel_current-none none runs n j cur = cc (n j cur)
cancel_current-none (some i) runs n j cur = cancel_run-none runs i (get_elem? runs i) refl n j cur

-- A launch makes the new run the only current one.
launch-Newest :
    (runs : List Run) (x : Run)
    → ((j : ℕ) → ¬ Current runs j)
    → Newest (some (length runs)) (runs ++ x ∷ [])
launch-Newest runs x none_before j (z, ez, lz, cz) = elim (ℕ_discrete j (length runs)) [
  | yes last ↦ ground arith
  | no before ↦ absurd (none_before j (z, ground (arith, get_elem?-append runs x j), lz, cz))
]

admit-Newest :
    (now : ℕ) (key : String) (r : Runner)
    → Newest r.cancel r.runs
    → Kept (some (admit_gated now key r (gate restart r)).0)
unfolding gate launch
admit-Newest now key r n =
    launch-Newest (cancel_current r.cancel r.runs) _ (cancel_current-none r.cancel r.runs n)

run-Newest :
    (now : ℕ) (key : String) (r : Runner)
    → r.policy.mode ≡ restart
    → Newest r.cancel r.runs
    → Newest (run now key r).0.cancel (run now key r).0.runs
unfolding run
run-Newest now key r m n = elim (Bool-cases (too_soon r.policy now (lookup key r.last_ran))) [
  | inl t ↦ rw t n
  | inr f ↦ rw f (
      subst (λ k. Kept (some (admit_gated now key r (gate k r)).0)) (sym m)
        (admit-Newest now key r n))
]

live_le : (p : Phase) → live p ≤ 1
live_le p = ground arith

module _ (r : Runner) (i : ℕ) (x : Run) (e : get_elem? r.runs i ≡ some x)
    (n : Newest r.cancel r.runs) where
  moved :
      (y : Run)
      → live y.phase ≤ live x.phase
      → (y.cancelled ≡ false → x.cancelled ≡ false)
      → Newest r.cancel (set r.runs i y)
  moved y h c = set-Newest r.cancel r.runs i x y e h (live_le x.phase) c n

  lock-Newest : (o : Option ℕ) (p : Phase) → x.phase ≡ p → Kept (take_lock r i x o p)
  unfolding take_lock
  lock-Newest none blocked ep = moved _ (omega (arith, ap live ep)) (λ h. h)
  lock-Newest none holding ep = tt
  lock-Newest none running ep = tt
  lock-Newest none leaving ep = tt
  lock-Newest none ended ep = tt
  lock-Newest (some j) p ep = tt

  unwait-Newest : (p : Phase) → x.phase ≡ p → Kept (stop_waiting r i x p)
  unfolding stop_waiting
  unwait-Newest holding ep = moved _ (omega (arith, ap live ep)) (λ h. h)
  unwait-Newest _ ep = tt

  finish-Newest : (p : Phase) → x.phase ≡ p → Kept (finish r i x p)
  unfolding finish
  finish-Newest running ep = moved _ (omega (arith, ap live ep)) (λ h. h)
  finish-Newest _ ep = tt

  leave-Newest : (p : Phase) → x.phase ≡ p → Kept (leave r i x p)
  unfolding leave
  leave-Newest leaving ep = moved _ (omega (arith, ap live ep)) (λ h. cc)
  leave-Newest _ ep = tt

step-Newest :
    (r : Runner) (a : Action) → r.policy.mode ≡ restart → Newest r.cancel r.runs → Kept (step r a)
unfolding step
step-Newest r (trigger now key) m n = run-Newest now key r m n
step-Newest r (locks i) m n = elim (Option-cases (get_elem? r.runs i)) [
  | inl e ↦ rw (e, at_run) tt
  | inr (x, e) ↦ rw (e, at_run) (lock-Newest r i x e n r.serial x.phase refl)
]
step-Newest r (unwaits i) m n = elim (Option-cases (get_elem? r.runs i)) [
  | inl e ↦ rw (e, at_run) tt
  | inr (x, e) ↦ rw (e, at_run) (unwait-Newest r i x e n x.phase refl)
]
step-Newest r (finishes i) m n = elim (Option-cases (get_elem? r.runs i)) [
  | inl e ↦ rw (e, at_run) tt
  | inr (x, e) ↦ rw (e, at_run) (finish-Newest r i x e n x.phase refl)
]
step-Newest r (leaves i) m n = elim (Option-cases (get_elem? r.runs i)) [
  | inl e ↦ rw (e, at_run) tt
  | inr (x, e) ↦ rw (e, at_run) (leave-Newest r i x e n x.phase refl)
]

Reach-Newest : {p : Policy} {r : Runner} → p.mode ≡ restart → Reach p r → Newest r.cancel r.runs
unfolding new_runner
Reach-Newest m start = λ j (z, ez, lz, cz). cc
Reach-Newest m (later {r = r} a h e) =
    subst Kept e
      (step-Newest r a (ap (λ (q : Policy). q.mode) (Reach-policy h) ∙ m) (Reach-Newest m h))

-- In restart mode two runs that are both unfinished and uncancelled are the same run.
pub restart_exclusive :
    {p : Policy} {r : Runner}
    → p.mode ≡ restart
    → Reach p r
    → (i j : ℕ) (x y : Run) → get_elem? r.runs i ≡ some x
    → get_elem? r.runs j ≡ some y
    → (live x.phase ≡ 1) × (x.cancelled ≡ false)
    → (live y.phase ≡ 1) × (y.cancelled ≡ false)
    → i ≡ j
restart_exclusive {r = r} m h i j x y ex ey cx cy =
    let n = Reach-Newest m h in ground (arith, n i (x, ex, cx.0, cx.1), n j (y, ey, cy.0, cy.1))
