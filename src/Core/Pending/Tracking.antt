-- ===== src/Core/Pending/Tracking.antt =====
-- Every timer that can still elapse is one that core/pending.go can reach to stop.
use go_ha.Prelude.{
  ℕ, suc, ◌+◌, ◌<◌, String, str_eq, ◌≡◌, refl, ◌∙◌, ◌≢◌, inl, inr, some, List, [], ◌∷◌, arith,
  Bool-cases, Option-cases, length,
}
use mathlib.Core.Path.{subst}
use go_ha.Prelude.{get_elem?}
use go_ha.Prelude.Dict.{lookup, lookup-empty}
use go_ha.Core.Pending.{
  armed, Wait, PendingRuns, new_pending_runs, u64, gen_of, stop_timer, stop_all, stop, Action, arms,
  disarms, elapses, calls, stops, at_wait, act, act_all,
}
use go_ha.Core.Pending.Bookkeeping.{
  Inv, Came, stop_timer-Came, stop_timer-stops, came_below, came_tracked, Came-unique, restatus-Inv,
}
use go_ha.Core.Pending.Arming.{disarm-Inv, arm-Inv}
use go_ha.Core.Pending.Firing.{elapse-Inv, callback-Inv}

-- `stop` visits every tracked timer, and so every armed one.
stop_all-Came :
    (timers : List (String × ℕ)) (waits : List Wait) (j : ℕ) (w : Wait)
    → get_elem? (stop_all timers waits) j ≡ some w
    → Came waits j w
unfolding stop_all
stop_all-Came [] waits j w h = (w, h, refl, refl, λ a. a)
stop_all-Came ((id, i) ∷ timers) waits j w h =
    let (o, eo, ee, em, ea) = stop_all-Came timers (stop_timer (some i) waits) j w h in
    let (q, eq, qe, qm, qa) = stop_timer-Came waits (some i) j o eo in
    (q, eq, ee ∙ qe, em ∙ qm, λ a. qa (ea a))

stop_all-stops :
    (timers : List (String × ℕ)) (waits : List Wait) (e : String) (j : ℕ) (w : Wait)
    → lookup e timers ≡ some j
    → get_elem? (stop_all timers waits) j ≡ some w
    → w.status ≢ armed
unfolding stop_all lookup
stop_all-stops [] waits e j w l h a = cc
stop_all-stops ((id, i) ∷ timers) waits e j w l h a = elim (Bool-cases (str_eq id e)) [
  | inl t ↦
      let c = stop_all-Came timers (stop_timer (some i) waits) j w h in
      let ij : i ≡ j = ground arith in
      stop_timer-stops waits j c.0
        (subst (λ k. get_elem? (stop_timer (some k) waits) j ≡ some c.0) ij c.1) (c.4 a)
  | inr f ↦ stop_all-stops timers (stop_timer (some i) waits) e j w (rw f at l) h a
]

stop-none_armed :
    (n : ℕ) (p : PendingRuns)
    → Inv n p
    → (j : ℕ) (w : Wait) → get_elem? (stop p).waits j ≡ some w
    → w.status ≢ armed
unfolding stop
stop-none_armed n p v j w h a =
    let c = stop_all-Came p.timers p.waits j w h in
    let (t, _) = came_tracked n p v j w c a in stop_all-stops p.timers p.waits w.entity j w t h a

stop-Inv : (n : ℕ) (p : PendingRuns) → Inv n p → Inv (suc n) (stop p)
unfolding stop
stop-Inv n p v = record {
  small = λ x. omega (arith, v.small x);
  below = λ j w h. came_below n p v j w (stop_all-Came p.timers p.waits j w h);
  unique = λ i j x w hx hw ee em.
      Came-unique n p v i j x w (stop_all-Came p.timers p.waits i x hx)
        (stop_all-Came p.timers p.waits j w hw) ee em;
  tracked = λ j w h a. absurd (stop-none_armed n p v j w (unfold stop in h) a);
}

pub act-Inv : (n : ℕ) (p : PendingRuns) (a : Action) → Inv n p → n + 1 < u64 → Inv (suc n) (act a p)
unfolding act
act-Inv n p (arms e) v room = arm-Inv n p v room e
act-Inv n p (disarms e) v room = disarm-Inv n p v room e
act-Inv n p (elapses i) v room = elim (Option-cases (get_elem? p.waits i)) [
  | inl e ↦ rw (e, at_wait) (restatus-Inv n p v p refl refl (λ j w h. (w, h, refl, refl, λ a. a)))
  | inr (x, e) ↦ rw (e, at_wait) (elapse-Inv n p v i x e)
]
act-Inv n p (calls i) v room = elim (Option-cases (get_elem? p.waits i)) [
  | inl e ↦ rw (e, at_wait) (restatus-Inv n p v p refl refl (λ j w h. (w, h, refl, refl, λ a. a)))
  | inr (x, e) ↦ rw (e, at_wait) (callback-Inv n p v i x e)
]
act-Inv n p stops v room = stop-Inv n p v

act_all-Inv :
    (n : ℕ) (p : PendingRuns) (actions : List Action)
    → Inv n p
    → n + length actions < u64
    → Inv (n + length actions) (act_all actions p)
unfolding act_all
act_all-Inv n p [] v room = subst (λ k. Inv k p) (omega arith) v
act_all-Inv n p (a ∷ rest) v room =
    subst (λ k. Inv k (act_all rest (act a p))) (omega arith)
      (act_all-Inv (suc n) (act a p) rest (act-Inv n p a v (omega arith)) (omega arith))

new-Inv : Inv 0 new_pending_runs
unfolding new_pending_runs
new-Inv = record {
  small = λ x. ground (arith, lookup-empty {V = ℕ} x);
  below = λ i w h. cc;
  unique = λ i j x w hx hw ee em. cc;
  tracked = λ i w h a. cc;
}

pub reached-Inv :
    (actions : List Action)
    → length actions < u64
    → Inv (length actions) (act_all actions new_pending_runs)
reached-Inv actions room =
    subst (λ k. Inv k (act_all actions new_pending_runs)) (omega arith)
      (act_all-Inv 0 new_pending_runs actions new-Inv (omega arith))

-- After fewer than 2^64 actions, in any order, a timer that has neither been stopped nor elapsed is
-- the one that the map holds for its entity, under the entity's current generation: no armed timer
-- is beyond the reach of `disarm` and `stop`, and an entity has at most one.
pub armed_tracked :
    (actions : List Action) (i : ℕ) (w : Wait)
    → length actions < u64
    → get_elem? (act_all actions new_pending_runs).waits i ≡ some w
    → w.status ≡ armed
    → (lookup w.entity (act_all actions new_pending_runs).timers ≡ some i)
      × (w.mine ≡ gen_of w.entity (act_all actions new_pending_runs))
armed_tracked actions i w room h a = (reached-Inv actions room).tracked i w h a

pub stop-none_armed_reached :
    (actions : List Action)
    → length actions < u64
    → (j : ℕ) (w : Wait) → get_elem? (stop (act_all actions new_pending_runs)).waits j ≡ some w
    → w.status ≢ armed
stop-none_armed_reached actions room =
    stop-none_armed (length actions) (act_all actions new_pending_runs) (reached-Inv actions room)
