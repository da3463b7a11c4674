-- ===== src/Core/Pending/Bookkeeping.antt =====
-- The bookkeeping of core/pending.go: how waits, timers and generations belong together.
use go_ha.Prelude.{
  ℕ, suc, ◌+◌, ◌%◌, ◌≤◌, ◌<◌, String, ◌≡◌, refl, sym, ap, ◌∙◌, ◌≢◌, Option, none, some, List, arith,
}
use native.Mathlib.Decide.{ℕ_discrete}
use mathlib.Core.Path.{subst}
use go_ha.Prelude.{get_elem?, set, get_elem?-set}
use go_ha.Prelude.Dict.{lookup}
use go_ha.Core.Pending.{
  Status, armed, Wait, PendingRuns, u64, or_zero, gen_of, stop_status, stop_wait, stop_timer,
}

-- After at most `n` actions: generations count up, the waits of an entity are numbered apart, and a
-- timer that has not been stopped and has not elapsed is the tracked, newest one of its entity.
pub record Inv (n : ℕ) (p : PendingRuns) : Type 0 where
  pub small : (e : String) → gen_of e p ≤ n
  pub below : (i : ℕ) (w : Wait) → get_elem? p.waits i ≡ some w → w.mine ≤ gen_of w.entity p
  pub unique :
      (i j : ℕ) (v w : Wait)
      → get_elem? p.waits i ≡ some v
      → get_elem? p.waits j ≡ some w
      → v.entity ≡ w.entity
      → v.mine ≡ w.mine
      → i ≡ j
  pub tracked :
      (i : ℕ) (w : Wait)
      → get_elem? p.waits i ≡ some w
      → w.status ≡ armed
      → (lookup w.entity p.timers ≡ some i) × (w.mine ≡ gen_of w.entity p)

-- Where a wait comes from when statuses changed: an armed one was armed before.
abbrev pub Came : List Wait → ℕ → Wait → Type 0
Came waits i w =
    (v : Wait) × (get_elem? waits i ≡ some v)
    × (w.entity ≡ v.entity)
    × (w.mine ≡ v.mine)
    × (w.status ≡ armed → v.status ≡ armed)

pub set-Came :
    (waits : List Wait) (i j : ℕ) (v w x : Wait)
    → get_elem? waits i ≡ some x
    → v.entity ≡ x.entity
    → v.mine ≡ x.mine
    → (v.status ≡ armed → x.status ≡ armed)
    → get_elem? (set waits i v) j ≡ some w
    → Came waits j w
set-Came waits i j v w x e ee em es h = elim (ℕ_discrete i j) [
  | yes same ↦
      let wv : w ≡ v = ground (arith, get_elem?-set waits i j v x e) in
      (
        x,
        ground arith,
        ap (λ (z : Wait). z.entity) wv ∙ ee,
        ap (λ (z : Wait). z.mine) wv ∙ em,
        λ a. es (ground arith),
      )
  | no other ↦ (w, ground (arith, get_elem?-set waits i j v x e), refl, refl, λ a. a)
]

stop_wait-Came :
    (waits : List Wait) (i j : ℕ) (w : Wait) (o : Option Wait)
    → get_elem? waits i ≡ o
    → get_elem? (stop_wait o i waits) j ≡ some w
    → Came waits j w
stop_wait-Came waits i j w none e h = (w, h, refl, refl, λ a. a)
stop_wait-Came waits i j w (some x) e h =
    set-Came waits i j _ w x e refl refl (λ a. absurd (not_armed x.status a)) h
  where
    not_armed : (s : Status) → stop_status s ≡ armed → ⊥
    not_armed s a = ground arith

pub stop_timer-Came :
    (waits : List Wait) (o : Option ℕ) (j : ℕ) (w : Wait)
    → get_elem? (stop_timer o waits) j ≡ some w
    → Came waits j w
stop_timer-Came waits none j w h = (w, h, refl, refl, λ a. a)
stop_timer-Came waits (some i) j w h = stop_wait-Came waits i j w (get_elem? waits i) refl h

-- What `Stop` was called on is not armed.
pub stop_timer-stops :
    (waits : List Wait) (i : ℕ) (w : Wait)
    → get_elem? (stop_timer (some i) waits) i ≡ some w
    → w.status ≢ armed
stop_timer-stops waits i w h = stops_at (get_elem? waits i) refl h
  where
    stops_at :
        (o : Option Wait)
        → get_elem? waits i ≡ o
        → get_elem? (stop_wait o i waits) i ≡ some w
        → w.status ≢ armed
    stops_at none e k a = ground arith
    stops_at (some x) e k a =
        ground (arith, get_elem?-set waits i i (record x { status = stop_status x.status }) x e)

pub next_gen : (g n : ℕ) → g ≤ n → n + 1 < u64 → (g + 1) % u64 ≡ g + 1
next_gen g n h k = omega arith

-- The facts about a wait, read at a version of it with another status.
module _ (n : ℕ) (p : PendingRuns) (v : Inv n p) (j : ℕ) (w : Wait) (c : Came p.waits j w) where
  pub came_below : w.mine ≤ gen_of w.entity p
  came_below = subst (λ x. w.mine ≤ gen_of x p) (sym c.2) (omega (arith, c.3, v.below j c.0 c.1))

  pub came_tracked :
      w.status ≡ armed → (lookup w.entity p.timers ≡ some j) × (w.mine ≡ gen_of w.entity p)
  came_tracked a =
      let (t, m) = v.tracked j c.0 c.1 (c.4 a) in
      (
        subst (λ x. lookup x p.timers ≡ some j) (sym c.2) t,
        subst (λ x. w.mine ≡ gen_of x p) (sym c.2) (c.3 ∙ m),
      )

module _ (n : ℕ) (p : PendingRuns) (v : Inv n p) where
  pub Came-unique :
      (i j : ℕ) (x w : Wait)
      → Came p.waits i x
      → Came p.waits j w
      → x.entity ≡ w.entity
      → x.mine ≡ w.mine
      → i ≡ j
  Came-unique i j x w c d ee em =
      v.unique i j c.0 d.0 c.1 d.1 (sym c.2 ∙ ee ∙ d.2) (sym c.3 ∙ em ∙ d.3)

  -- Actions that only change statuses.
  pub restatus-Inv :
      (q : PendingRuns)
      → q.gen ≡ p.gen
      → q.timers ≡ p.timers
      → ((j : ℕ) (w : Wait) → get_elem? q.waits j ≡ some w → Came p.waits j w)
      → Inv (suc n) q
  restatus-Inv q eg et came = record {
    small = λ x. omega (arith, v.small x, ap (λ g. or_zero (lookup x g)) eg);
    below = λ j w h.
        omega (arith, came_below n p v j w (came j w h), ap (λ g. or_zero (lookup w.entity g)) eg);
    unique = λ i j x w hx hw ee em. Came-unique i j x w (came i x hx) (came j w hw) ee em;
    tracked = λ j w h a.
        let (t, m) = came_tracked n p v j w (came j w h) a in
        (ap (lookup w.entity) et ∙ t, m ∙ sym (ap (λ g. or_zero (lookup w.entity g)) eg));
  }
