-- ===== src/Core/Pending/Arming.antt =====
-- `arm` and `disarm` of core/pending.go keep the bookkeeping.
use go_ha.Prelude.{
  ℕ, suc, ◌+◌, ◌%◌, ◌≤◌, ◌<◌, String, str_eq, eq_iff, ◌≡◌, refl, sym, ap, ◌∙◌, ◌≢◌, ◌⊎◌, inl, inr,
  false, some, List, [], ◌∷◌, ◌++◌, arith, Bool-cases, length,
}
use mathlib.Core.Path.{subst}
use go_ha.Prelude.{get_elem?, get_elem?-append_cases}
use go_ha.Prelude.Dict.{lookup, insert, lookup-insert, lookup-erase}
use go_ha.Core.Pending.{armed, Wait, PendingRuns, u64, or_zero, gen_of, stop_timer, arm, disarm}
use go_ha.Core.Pending.Bookkeeping.{
  Inv, Came, stop_timer-Came, stop_timer-stops, next_gen, came_below, came_tracked, Came-unique,
  restatus-Inv,
}

module _ (n : ℕ) (p : PendingRuns) (v : Inv n p) (room : n + 1 < u64) (e : String) where
  -- The generations after an entity's is advanced.
  bumped : List (String × ℕ)
  bumped = insert e ((gen_of e p + 1) % u64) p.gen

  bumped_self : or_zero (lookup e bumped) ≡ gen_of e p + 1
  unfolding bumped
  bumped_self = ground (
    arith,
    lookup-insert e e ((gen_of e p + 1) % u64) p.gen,
    eq_iff e e,
    next_gen (gen_of e p) n (v.small e) room,
  )

  bumped_other : (x : String) → e ≢ x → or_zero (lookup x bumped) ≡ gen_of x p
  unfolding bumped
  bumped_other x ne = ground (arith, lookup-insert e x ((gen_of e p + 1) % u64) p.gen, eq_iff e x)

  -- An entity is the one at hand, or keeps its generation.
  bumped_cases :
      (x : String)
      → ((e ≡ x) × (or_zero (lookup x bumped) ≡ gen_of x p + 1))
        ⊎ ((e ≢ x) × (or_zero (lookup x bumped) ≡ gen_of x p))
  bumped_cases x = elim (Bool-cases (str_eq e x)) [
    | inl t ↦ inl (
      (eq_iff e x).0 t,
      subst (λ y. or_zero (lookup y bumped) ≡ gen_of y p + 1) ((eq_iff e x).0 t) bumped_self,
    )
    | inr f ↦
        inr (λ q. ground (arith, eq_iff e x), bumped_other x (λ q. ground (arith, eq_iff e x)))
  ]

  -- The waits after the entity's timer is stopped: those of the entity are no longer armed.
  halted : List Wait
  halted = stop_timer (lookup e p.timers) p.waits

  halted-Came : (j : ℕ) (w : Wait) → get_elem? halted j ≡ some w → Came p.waits j w
  unfolding halted
  halted-Came j w h = stop_timer-Came p.waits (lookup e p.timers) j w h

  halted_armed : (j : ℕ) (w : Wait) → get_elem? halted j ≡ some w → w.status ≡ armed → e ≢ w.entity
  unfolding halted
  halted_armed j w h a q =
      let (o, eo, ee, em, ea) = halted-Came j w h in
      let at : lookup e p.timers ≡ some j =
        subst (λ x. lookup x p.timers ≡ some j) (sym (q ∙ ee)) (v.tracked j o eo (ea a)).0 in
      stop_timer-stops p.waits j w (subst (λ t. get_elem? (stop_timer t p.waits) j ≡ some w) at h) a

  -- What still holds of an armed wait: it is of another entity.
  halted_tracked :
      (j : ℕ) (w : Wait)
      → get_elem? halted j ≡ some w
      → w.status ≡ armed
      → (str_eq e w.entity ≡ false)
        × (lookup w.entity p.timers ≡ some j)
        × (w.mine ≡ or_zero (lookup w.entity bumped))
  halted_tracked j w h a =
      let ne = halted_armed j w h a in
      let (t, m) = came_tracked n p v j w (halted-Came j w h) a in
      (ground (arith, eq_iff e w.entity), t, m ∙ sym (bumped_other w.entity ne))

  halted_below :
      (j : ℕ) (w : Wait) → get_elem? halted j ≡ some w → w.mine ≤ or_zero (lookup w.entity bumped)
  halted_below j w h =
      ground (arith, bumped_cases w.entity, came_below n p v j w (halted-Came j w h))

  bumped_small : (x : String) → or_zero (lookup x bumped) ≤ suc n
  bumped_small x = ground (arith, bumped_cases x, v.small x)

  pub disarm-Inv : Inv (suc n) (disarm e p)
  unfolding disarm bumped halted
  disarm-Inv = record {
    small = bumped_small;
    below = halted_below;
    unique = λ i j x w hx hw ee em.
        Came-unique n p v i j x w (halted-Came i x hx) (halted-Came j w hw) ee em;
    tracked = λ j w h a.
        let (f, t, m) = halted_tracked j w h a in (lookup-erase e w.entity p.timers ∙ rw f t, m);
  }

  fresh : Wait
  fresh = record { entity = e; mine = (gen_of e p + 1) % u64; status = armed }

  fresh_mine : fresh.mine ≡ gen_of e p + 1
  unfolding fresh
  fresh_mine = next_gen (gen_of e p) n (v.small e) room

  -- The new wait is numbered above the entity's others.
  fresh_above :
      (j : ℕ) (w : Wait) → get_elem? halted j ≡ some w → w.entity ≡ e → w.mine ≢ fresh.mine
  fresh_above j w h ee em =
      let b : w.mine ≤ gen_of e p =
        subst (λ x. w.mine ≤ gen_of x p) ee (came_below n p v j w (halted-Came j w h)) in
      absurd (omega (arith, fresh_mine))

  place :
      (j : ℕ) (w : Wait)
      → get_elem? (halted ++ fresh ∷ []) j ≡ some w
      → ((j ≡ length halted) × (w ≡ fresh)) ⊎ (get_elem? halted j ≡ some w)
  place j w h = get_elem?-append_cases halted fresh j w h

  placed_below :
      (j : ℕ) (w : Wait)
      → get_elem? (halted ++ fresh ∷ []) j ≡ some w
      → w.mine ≤ or_zero (lookup w.entity bumped)
  unfolding fresh
  placed_below j w h = elim (place j w h) [
    | inl (_, ew) ↦
        subst (λ (z : Wait). z.mine ≤ or_zero (lookup z.entity bumped)) (sym ew) fresh_below
    | inr old ↦ halted_below j w old
  ]
    where
      fresh_below : fresh.mine ≤ or_zero (lookup fresh.entity bumped)
      fresh_below = omega (arith, fresh_mine, bumped_self)

  placed_unique :
      (i j : ℕ) (x w : Wait)
      → get_elem? (halted ++ fresh ∷ []) i ≡ some x
      → get_elem? (halted ++ fresh ∷ []) j ≡ some w
      → x.entity ≡ w.entity
      → x.mine ≡ w.mine
      → i ≡ j
  unfolding fresh
  placed_unique i j x w hx hw ee em = elim (place i x hx) [
    | inl (ei, ex) ↦ elim (place j w hw) [
      | inl (ej, ew) ↦ ei ∙ sym ej
      | inr old ↦ absurd (
          fresh_above j w old (sym ee ∙ ap (λ (z : Wait). z.entity) ex)
            (sym em ∙ ap (λ (z : Wait). z.mine) ex))
    ]
    | inr old ↦ elim (place j w hw) [
      | inl (ej, ew) ↦ absurd (
          fresh_above i x old (ee ∙ ap (λ (z : Wait). z.entity) ew)
            (em ∙ ap (λ (z : Wait). z.mine) ew))
      | inr old' ↦ Came-unique n p v i j x w (halted-Came i x old) (halted-Came j w old') ee em
    ]
  ]

  placed_tracked :
      (j : ℕ) (w : Wait)
      → get_elem? (halted ++ fresh ∷ []) j ≡ some w
      → w.status ≡ armed
      → (lookup w.entity (insert e (length halted) p.timers) ≡ some j)
        × (w.mine ≡ or_zero (lookup w.entity bumped))
  unfolding fresh
  placed_tracked j w h a = elim (place j w h) [
    | inl (ej, ew) ↦
        subst
          (λ (z : Wait).
            (lookup z.entity (insert e (length halted) p.timers) ≡ some j)
            × (z.mine ≡ or_zero (lookup z.entity bumped)))
          (sym ew)
          (
            ground (arith, lookup-insert e e (length halted) p.timers, eq_iff e e),
            fresh_mine ∙ sym bumped_self,
          )
    | inr old ↦
        let (f, t, m) = halted_tracked j w old a in
        (lookup-insert e w.entity (length halted) p.timers ∙ rw f t, m)
  ]

  open_arm : p.closed ≡ false → Inv (suc n) (arm e p)
  unfolding arm bumped halted fresh
  open_arm c = rw c (record {
    small = bumped_small;
    below = placed_below;
    unique = placed_unique;
    tracked = placed_tracked;
  })

  pub arm-Inv : Inv (suc n) (arm e p)
  unfolding arm
  arm-Inv = elim (Bool-cases p.closed) [
    | inl c ↦ rw c (restatus-Inv n p v _ refl refl (λ j w h. (w, h, refl, refl, λ a. a)))
    | inr c ↦ open_arm c
  ]
