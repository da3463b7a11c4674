-- ===== src/Core/Pending/Firing.antt =====
-- Timers of core/pending.go that elapse, and their callbacks, keep the bookkeeping.
use go_ha.Prelude.{
  ℕ, suc, str_eq, eq_iff, ◌≡◌, refl, sym, ap, ◌∙◌, ◌≢◌, inl, inr, false, some, arith, if◌then◌else◌,
  Bool-cases,
}
use mathlib.Core.Path.{subst}
use go_ha.Prelude.{get_elem?, set}
use go_ha.Prelude.Dict.{erase, lookup-erase}
use go_ha.Core.Pending.{
  Status, armed, elapsed, retired, ran, Wait, PendingRuns, gen_of, elapse, is_current, callback,
}
use go_ha.Core.Pending.Bookkeeping.{
  Inv, Came, set-Came, came_below, came_tracked, Came-unique, restatus-Inv,
}

-- A callback that acts is the tracked one, so forgetting its entity's timer forgets no other.
module _ (n : ℕ) (p : PendingRuns) (v : Inv n p) (i : ℕ) (x : Wait)
    (e : get_elem? p.waits i ≡ some x) where
  Came-set :
      (y : Wait)
      → y.entity ≡ x.entity
      → y.mine ≡ x.mine
      → (y.status ≡ armed → x.status ≡ armed)
      → (j : ℕ) (w : Wait) → get_elem? (set p.waits i y) j ≡ some w
      → Came p.waits j w
  Came-set y ee em es j w h = set-Came p.waits i j y w x e ee em es h

  pub elapse-Inv : Inv (suc n) (elapse i x p)
  unfolding elapse
  elapse-Inv = elapse_at x.status refl
    where
      elapse_at :
          (s : Status)
          → x.status ≡ s
          → Inv (suc n) (elim s [
            | armed ↦ record p { waits = set p.waits i (record x { status = elapsed }) }
            | _ ↦ p
          ])
      elapse_at armed es = restatus-Inv n p v _ refl refl (Came-set _ refl refl (λ a. es))
      elapse_at _ es = restatus-Inv n p v _ refl refl (λ j w h. (w, h, refl, refl, λ a. a))

  -- An armed wait is of another entity than a callback that is current.
  current_apart :
      x.status ≡ elapsed
      → x.mine ≡ gen_of x.entity p
      → (j : ℕ) (w : Wait) → Came p.waits j w
      → w.status ≡ armed
      → x.entity ≢ w.entity
  current_apart es em j w c a q =
      let (t, m) = came_tracked n p v j w c a in
      let same : i ≡ j =
        Came-unique n p v i j x w (x, e, refl, refl, λ b. b) c q
          (em ∙ ap (λ y. gen_of y p) q ∙ sym m) in
      clash c.0 (subst (λ k. get_elem? p.waits k ≡ some c.0) (sym same) c.1) (c.4 a)
    where
      clash : (o : Wait) → get_elem? p.waits i ≡ some o → o.status ≡ armed → ⊥
      clash o eo ao = ground arith

  ran_wait : Wait
  ran_wait = record x { status = ran }

  ran-Inv :
      x.status ≡ elapsed
      → x.mine ≡ gen_of x.entity p
      → Inv (suc n) (record p { timers = erase x.entity p.timers; waits = set p.waits i ran_wait })
  unfolding ran_wait
  ran-Inv es em =
      let came = Came-set ran_wait refl refl (λ a. cc) in
      record {
        small = λ y. omega (arith, v.small y);
        below = λ j w h. came_below n p v j w (came j w h);
        unique =
            λ j k y w hy hw ee emm. Came-unique n p v j k y w (came j y hy) (came k w hw) ee emm;
        tracked = λ j w h a.
            let (t, m) = came_tracked n p v j w (came j w h) a in
            let f : str_eq x.entity w.entity ≡ false =
              ground (arith, current_apart es em j w (came j w h) a, eq_iff x.entity w.entity) in
            (lookup-erase x.entity w.entity p.timers ∙ rw f t, m);
      }

  pub callback-Inv : Inv (suc n) (callback i x p)
  unfolding callback
  callback-Inv = callback_at x.status refl
    where
      decided :
          x.status ≡ elapsed
          → Inv (suc n) (
              if is_current x p
              then record p {
                timers = erase x.entity p.timers;
                waits = set p.waits i (record x { status = ran });
              }
              else record p { waits = set p.waits i (record x { status = retired }) })
      decided es = elim (Bool-cases (is_current x p)) [
        | inl t ↦ rw t (unfold ran_wait in ran-Inv es (ground arith))
        | inr f ↦ rw f (restatus-Inv n p v _ refl refl (Came-set _ refl refl (λ a. cc)))
      ]

      callback_at :
          (s : Status)
          → x.status ≡ s
          → Inv (suc n) (elim s [
            | elapsed ↦
                if is_current x p
                then record p {
                  timers = erase x.entity p.timers;
                  waits = set p.waits i (record x { status = ran });
                }
                else record p { waits = set p.waits i (record x { status = retired }) }
            | _ ↦ p
          ])
      callback_at elapsed es = decided es
      callback_at _ es = restatus-Inv n p v _ refl refl (λ j w h. (w, h, refl, refl, λ a. a))
