-- ===== src/Core/Pending/Running.antt =====
-- What an action of core/pending.go makes of a wait: its entity and its generation stay, and only its own
-- callback runs its automation.
use mathlib.Core.Path.{subst}
use native.Mathlib.Decide.{ℕ_discrete}
use go_ha.Prelude.{
  ℕ, zero, suc, String, ◌≡◌, refl, ap, ◌∙◌, ◌≢◌, ◌⊎◌, inl, inr, Bool, true, false, Option, none,
  some, List, [], ◌∷◌, ◌++◌, arith, Option-cases, Bool-cases, length, ◌==◌, if◌then◌else◌,
}
use go_ha.Prelude.{get_elem?, set, get_elem?-set, get_elem?-append}
use go_ha.Prelude.Dict.{lookup}
use go_ha.Core.Pending.{
  Status, armed, elapsed, stopped, retired, ran, Wait, PendingRuns, stop_status, stop_timer, arm,
  elapse, is_current, callback, disarm, stop_all, stop, Action, arms, disarms, elapses, calls,
  stops, at_wait, act, act_all,
}
use go_ha.Core.Pending.Silence.{HasRun}

-- A wait is still there, for the same entity and under the same generation.
abbrev pub Remains : List Wait → ℕ → Wait → Wait → Type 0
Remains waits j w x = (get_elem? waits j ≡ some x) × (x.entity ≡ w.entity) × (x.mine ≡ w.mine)

-- It has not run in between.
abbrev Waits : List Wait → ℕ → Wait → Type 0
Waits waits j w = (x : Wait) × Remains waits j w x × (x.status ≡ ran → w.status ≡ ran)

Waits-trans :
    (waits : List Wait) (j : ℕ) (w x : Wait)
    → x.entity ≡ w.entity
    → x.mine ≡ w.mine
    → (x.status ≡ ran → w.status ≡ ran)
    → Waits waits j x
    → Waits waits j w
Waits-trans waits j w x ee em es (y, (h, fe, fm), fs) = (y, (h, fe ∙ ee, fm ∙ em), λ r. es (fs r))

set-Waits :
    (waits : List Wait) (i j : ℕ) (v w x : Wait)
    → get_elem? waits i ≡ some x
    → v.entity ≡ x.entity
    → v.mine ≡ x.mine
    → (v.status ≡ ran → x.status ≡ ran)
    → get_elem? waits j ≡ some w
    → Waits (set waits i v) j w
set-Waits waits i j v w x e ee em es h = elim (ℕ_discrete i j) [
  | yes same ↦
      let xw : x ≡ w = ground arith in
      (
        v,
        (
          ground (arith, get_elem?-set waits i j v x e),
          ee ∙ ap (λ (z : Wait). z.entity) xw,
          em ∙ ap (λ (z : Wait). z.mine) xw,
        ),
        λ r. subst (λ (z : Wait). z.status ≡ ran) xw (es r),
      )
  | no other ↦ (w, (ground (arith, get_elem?-set waits i j v x e), refl, refl), λ r. r)
]

stop_timer-Waits :
    (waits : List Wait) (o : Option ℕ) (j : ℕ) (w : Wait)
    → get_elem? waits j ≡ some w
    → Waits (stop_timer o waits) j w
stop_timer-Waits waits none j w h = (w, (h, refl, refl), λ r. r)
stop_timer-Waits waits (some i) j w h = elim (Option-cases (get_elem? waits i)) [
  | inl e ↦ rw e (w, (h, refl, refl), λ r. r)
  | inr (x, e) ↦ rw e (set-Waits waits i j _ w x e refl refl (not_ran x.status) h)
]
  where
    not_ran : (s : Status) → stop_status s ≡ ran → s ≡ ran
    not_ran s a = ground arith

stop_all-Waits :
    (timers : List (String × ℕ)) (waits : List Wait) (j : ℕ) (w : Wait)
    → get_elem? waits j ≡ some w
    → Waits (stop_all timers waits) j w
unfolding stop_all
stop_all-Waits [] waits j w h = (w, (h, refl, refl), λ r. r)
stop_all-Waits ((id, i) ∷ timers) waits j w h =
    let (x, (hx, ee, em), es) = stop_timer-Waits waits (some i) j w h in
    Waits-trans (stop_all timers (stop_timer (some i) waits)) j w x ee em es
      (stop_all-Waits timers (stop_timer (some i) waits) j x hx)

get-below {ℓ} :
    {A : Type ℓ} (xs : List A) (j : ℕ) (x : A) → get_elem? xs j ≡ some x → (j == length xs) ≡ false
get-below [] j x e = cc
get-below (y ∷ xs) zero x e = ground arith
get-below (y ∷ xs) (suc j) x e = ground (arith, get-below xs j x e)

append-Waits :
    (waits : List Wait) (v : Wait) (j : ℕ) (w : Wait)
    → Waits waits j w
    → Waits (waits ++ v ∷ []) j w
append-Waits waits v j w (x, (h, ee, em), es) =
    (x, (ground (arith, get_elem?-append waits v j, get-below waits j x h), ee, em), es)

-- After the action the wait remains, and if it has run only now, then by its own callback, which was current.
abbrev Moves : Action → PendingRuns → ℕ → Wait → List Wait → Type 0
Moves a p j w after =
    (x : Wait) × Remains after j w x
    × ((x.status ≡ ran → w.status ≡ ran) ⊎ ((a ≡ calls j) × (is_current w p ≡ true)))

Waits-Moves :
    (a : Action) (p : PendingRuns) (j : ℕ) (w : Wait) (after : List Wait)
    → Waits after j w
    → Moves a p j w after
Waits-Moves a p j w after (x, r, s) = (x, r, inl s)

module _ (p : PendingRuns) (i j : ℕ) (x w : Wait) (e : get_elem? p.waits i ≡ some x)
    (h : get_elem? p.waits j ≡ some w) where
  elapse-Waits : (s : Status) → x.status ≡ s → Waits (elapse i x p).waits j w
  unfolding elapse
  elapse-Waits armed es = rw (es, elapse) (set-Waits p.waits i j _ w x e refl refl (λ r. cc) h)
  elapse-Waits elapsed es = rw (es, elapse) (w, (h, refl, refl), λ r. r)
  elapse-Waits stopped es = rw (es, elapse) (w, (h, refl, refl), λ r. r)
  elapse-Waits retired es = rw (es, elapse) (w, (h, refl, refl), λ r. r)
  elapse-Waits ran es = rw (es, elapse) (w, (h, refl, refl), λ r. r)

  -- The callback that runs is the wait's own.
  ran-Moves :
      is_current x p ≡ true → Moves (calls i) p j w (set p.waits i (record x { status = ran }))
  ran-Moves c = elim (ℕ_discrete i j) [
    | yes same ↦
        let xw : x ≡ w = ground arith in
        (
          record x { status = ran },
          (
            ground (arith, get_elem?-set p.waits i j (record x { status = ran }) x e),
            ap (λ (z : Wait). z.entity) xw,
            ap (λ (z : Wait). z.mine) xw,
          ),
          inr (ap calls same, subst (λ z. is_current z p ≡ true) xw c),
        )
    | no other ↦ (
      w,
      (ground (arith, get_elem?-set p.waits i j (record x { status = ran }) x e), refl, refl),
      inl (λ r. r),
    )
  ]

  callback-Moves : (s : Status) → x.status ≡ s → Moves (calls i) p j w (callback i x p).waits
  unfolding callback
  callback-Moves elapsed es = elim (Bool-cases (is_current x p)) [
    | inl c ↦ rw (es, callback) (rw c (ran-Moves c))
    | inr c ↦
        rw (es, callback)
          (rw c
            (Waits-Moves (calls i) p j w _ (set-Waits p.waits i j _ w x e refl refl (λ r. cc) h)))
  ]
  callback-Moves armed es = rw (es, callback) (w, (h, refl, refl), inl (λ r. r))
  callback-Moves stopped es = rw (es, callback) (w, (h, refl, refl), inl (λ r. r))
  callback-Moves retired es = rw (es, callback) (w, (h, refl, refl), inl (λ r. r))
  callback-Moves ran es = rw (es, callback) (w, (h, refl, refl), inl (λ r. r))

either_Waits :
    (b : Bool) (q r : PendingRuns) (j : ℕ) (w : Wait)
    → Waits q.waits j w
    → Waits r.waits j w
    → Waits (if b then q else r).waits j w
either_Waits true q r j w k l = k
either_Waits false q r j w k l = l

pub act-Moves :
    (a : Action) (p : PendingRuns) (j : ℕ) (w : Wait)
    → get_elem? p.waits j ≡ some w
    → Moves a p j w (act a p).waits
unfolding act arm disarm stop
act-Moves (arms e) p j w h = Waits-Moves (arms e) p j w _ (
    either_Waits p.closed p _ j w (w, (h, refl, refl), λ r. r)
      (append-Waits (stop_timer (lookup e p.timers) p.waits) _ j w
        (stop_timer-Waits p.waits (lookup e p.timers) j w h)))
act-Moves (disarms e) p j w h =
    Waits-Moves (disarms e) p j w _ (stop_timer-Waits p.waits (lookup e p.timers) j w h)
act-Moves (elapses i) p j w h = elim (Option-cases (get_elem? p.waits i)) [
  | inl e ↦ rw (e, at_wait) (w, (h, refl, refl), inl (λ r. r))
  | inr (x, e) ↦
      rw (e, at_wait) (Waits-Moves (elapses i) p j w _ (elapse-Waits p i j x w e h x.status refl))
]
act-Moves (calls i) p j w h = elim (Option-cases (get_elem? p.waits i)) [
  | inl e ↦ rw (e, at_wait) (w, (h, refl, refl), inl (λ r. r))
  | inr (x, e) ↦ rw (e, at_wait) (callback-Moves p i j x w e h x.status refl)
]
act-Moves stops p j w h = Waits-Moves stops p j w _ (stop_all-Waits p.timers p.waits j w h)

has_ran : (s : Status) → (s ≡ ran) ⊎ (s ≢ ran)
has_ran ran = inl refl
has_ran armed = inr (λ r. cc)
has_ran elapsed = inr (λ r. cc)
has_ran stopped = inr (λ r. cc)
has_ran retired = inr (λ r. cc)

-- The callback that ran a wait, and that it was current.
abbrev pub RanAt : List Action → PendingRuns → ℕ → Wait → Type 0
RanAt actions p i w =
    (mid : List Action) × (rest : List Action) × (actions ≡ mid ++ calls i ∷ rest)
    × ((x : Wait) × Remains (act_all mid p).waits i w x × (is_current x (act_all mid p) ≡ true))

pub HasRun-RanAt :
    (actions : List Action) (p : PendingRuns) (i : ℕ) (w : Wait)
    → get_elem? p.waits i ≡ some w
    → w.status ≢ ran
    → HasRun (act_all actions p).waits i
    → RanAt actions p i w
unfolding act_all
HasRun-RanAt [] p i w h not_yet (x, hx, r) = absurd (not_yet (ground arith))
HasRun-RanAt (a ∷ rest) p i w h not_yet r =
    let (x, (hx, ee, em), moved) = act-Moves a p i w h in
    elim (has_ran x.status) [
      | inl now ↦ elim moved [
        | inl was ↦ absurd (not_yet (was now))
        | inr (called, current) ↦
            ([], rest, ap (λ b. b ∷ rest) called, (w, (h, refl, refl), current))
      ]
      | inr later ↦
          let (mid, tail, split, (y, (hy, fe, fm), current)) =
            HasRun-RanAt rest (act a p) i x hx later r in
          (a ∷ mid, tail, ap (λ bs. a ∷ bs) split, (y, (hy, fe ∙ ee, fm ∙ em), current))
    ]
