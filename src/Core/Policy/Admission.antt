-- ===== src/Core/Policy/Admission.antt =====
-- `run` of core/policy.go keeps the counters right.
use go_ha.Prelude.{
  ℕ, ◌+◌, ◌≤◌, String, ◌≡◌, refl, ◌≢◌, inl, inr, true, false, Option, none, some, List, [], ◌∷◌,
  arith, ltb, leb, Bool-cases, Option-cases,
}
use go_ha.Prelude.{get_elem?, weigh, weigh-set, weigh-append}
use go_ha.Prelude.Dict.{lookup}
use go_ha.Core.Policy.{
  Mode, single, restart, queued, parallel, limit, Phase, Run, Runner, cancel_run, cancel_current,
  gate, launch, run, first_phase, admit_gated, too_soon,
}
use go_ha.Core.Policy.Counts.{live, waits, holds, is_set, lives, waiters, holders, Capped, Inv}

weigh-cancel_current :
    (w : Phase → ℕ) (o : Option ℕ) (runs : List Run)
    → weigh (λ run. w run.phase) (cancel_current o runs) ≡ weigh (λ run. w run.phase) runs
unfolding cancel_current
weigh-cancel_current w none runs = refl
weigh-cancel_current w (some i) runs = elim (Option-cases (get_elem? runs i)) [
  | inl e ↦ rw (e, cancel_run) refl
  | inr (x, e) ↦
      rw (e, cancel_run)
        (omega (arith, weigh-set (λ run. w run.phase) runs i (record x { cancelled = true }) x e))
]

abbrev fresh : Phase → List Run
fresh p = record { phase = p; cancelled = false } ∷ []

-- The three counts of a runner after `launch`.
launch_counts :
    (now : ℕ) (key : String) (r : Runner)
    → (lives (launch now key r) ≡ lives r + live (first_phase r.policy.mode))
      × (waiters (launch now key r) ≡ waiters r + waits (first_phase r.policy.mode))
      × (holders (launch now key r) ≡ holders r + holds r.policy.mode (first_phase r.policy.mode))
unfolding launch
launch_counts now key r =
    let runs = fresh (first_phase r.policy.mode) in
    (
      omega (arith, weigh-append (λ run. live run.phase) r.runs runs),
      omega (arith, weigh-append (λ run. waits run.phase) r.runs runs),
      omega (arith, weigh-append (λ run. holds r.policy.mode run.phase) r.runs runs),
    )

-- Whether a run of this mode starts blocked.
first_weights : (m : Mode) → (live (first_phase m) ≡ 1) × (holds m (first_phase m) ≡ 0)
first_weights single = (refl, refl)
first_weights restart = (refl, refl)
first_weights queued = (refl, refl)
first_weights parallel = (refl, refl)

launch-Inv :
    (now : ℕ) (key : String) (r : Runner)
    → r.active ≡ lives r
    → r.waiting ≡ waiters r + waits (first_phase r.policy.mode)
    → holders r ≡ is_set r.serial
    → Capped r.policy.mode (limit r.policy) (r.active + 1) r.waiting
    → Inv (launch now key r)
unfolding launch
launch-Inv now key r a q h c = record {
  counted = omega (arith, (launch_counts now key r).0, (first_weights r.policy.mode).0);
  queued_up = omega (arith, (launch_counts now key r).1);
  locked = omega (arith, (launch_counts now key r).2, (first_weights r.policy.mode).1);
  capped = c;
}

-- A run that does not start blocked.
waits-first : (m : Mode) → m ≢ queued → waits (first_phase m) ≡ 0
waits-first single h = refl
waits-first restart h = refl
waits-first queued h = absurd (h refl)
waits-first parallel h = refl

module _ (now : ℕ) (key : String) (r : Runner) (v : Inv r) where
  admit_restart : r.policy.mode ≡ restart → Inv (admit_gated now key r (gate restart r)).0
  unfolding gate
  admit_restart e =
      let s : Runner = record r { runs = cancel_current r.cancel r.runs } in
      launch-Inv now key s (omega (arith, v.counted, weigh-cancel_current live r.cancel r.runs))
        (omega (
          arith,
          v.queued_up,
          waits-first r.policy.mode (λ q. cc),
          weigh-cancel_current waits r.cancel r.runs,
        ))
        (omega (arith, v.locked, weigh-cancel_current (holds r.policy.mode) r.cancel r.runs))
        (rw e (rw e at v.capped))

  admit_queued : r.policy.mode ≡ queued → Inv (admit_gated now key r (gate queued r)).0
  unfolding gate
  admit_queued e = elim (Bool-cases (leb (limit r.policy) r.waiting)) [
    | inl t ↦ rw t v
    | inr f ↦ rw f (
        launch-Inv now key (record r { waiting = r.waiting + 1 }) v.counted
          (rw e (omega (arith, v.queued_up))) v.locked (rw e (ground arith)))
  ]

  admit_single : r.policy.mode ≡ single → Inv (admit_gated now key r (gate single r)).0
  unfolding gate
  admit_single e = elim (Bool-cases (ltb 0 r.active)) [
    | inl t ↦ rw t v
    | inr f ↦
        let c : (r.active ≤ 1) × (r.waiting ≡ 0) = rw e at v.capped in
        rw f (
          launch-Inv now key r v.counted (rw e (omega (arith, v.queued_up))) v.locked
            (rw e (ground arith)))
  ]

  admit_parallel : r.policy.mode ≡ parallel → Inv (admit_gated now key r (gate parallel r)).0
  unfolding gate
  admit_parallel e = elim (Bool-cases (leb (limit r.policy) r.active)) [
    | inl t ↦ rw t v
    | inr f ↦
        let c : (r.active ≤ limit r.policy) × (r.waiting ≡ 0) = rw e at v.capped in
        rw f (
          launch-Inv now key r v.counted (rw e (omega (arith, v.queued_up))) v.locked
            (rw e (ground arith)))
  ]

run_gated-Inv :
    (m : Mode) (now : ℕ) (key : String) (r : Runner)
    → r.policy.mode ≡ m
    → Inv r
    → Inv (admit_gated now key r (gate m r)).0
run_gated-Inv single now key r e v = admit_single now key r v e
run_gated-Inv restart now key r e v = admit_restart now key r v e
run_gated-Inv queued now key r e v = admit_queued now key r v e
run_gated-Inv parallel now key r e v = admit_parallel now key r v e

pub run-Inv : (now : ℕ) (key : String) (r : Runner) → Inv r → Inv (run now key r).0
unfolding run
run-Inv now key r v = elim (Bool-cases (too_soon r.policy now (lookup key r.last_ran))) [
  | inl t ↦ rw t v
  | inr f ↦ rw f (run_gated-Inv r.policy.mode now key r refl v)
]
