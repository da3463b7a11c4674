-- ===== src/Core/Pending/Undisturbed.antt =====
-- A wait of core/pending.go runs only if its entity was left alone.
use go_ha.Prelude.{
  ℕ, suc, ◌+◌, ◌%◌, ◌≤◌, ◌<◌, String, str_eq, eq_iff, ◌≡◌, refl, ap, ◌∙◌, ◌≢◌, ◌⊎◌, inl, inr, Bool,
  true, false, some, List, [], ◌∷◌, arith, Bool-cases, Option-cases, length, length-append, All,
  ◌++◌, sym,
}
use go_ha.Prelude.{get_elem?}
use go_ha.Prelude.Dict.{lookup, insert, lookup-insert}
use go_ha.Core.Pending.Silence.{HasRun}
use go_ha.Core.Pending.Running.{HasRun-RanAt}
use mathlib.Core.Path.{subst}
use go_ha.Core.Pending.{
  armed, Wait, PendingRuns, new_pending_runs, u64, or_zero, gen_of, arm, elapse, is_current,
  callback, disarm, stop, Action, arms, disarms, elapses, calls, stops, at_wait, act, act_all,
}
use go_ha.Core.Pending.Bookkeeping.{Inv}
use go_ha.Core.Pending.Tracking.{armed_tracked, act-Inv, reached-Inv}

-- The action leaves the entity's wait alone.
abbrev pub Spares : String → Action → Type 0
Spares e (arms x) = e ≢ x
Spares e (disarms x) = e ≢ x
Spares e stops = ⊥
Spares e _ = Unit {0}

-- What an action may do to an entity's generation.
abbrev Advance : String → Action → PendingRuns → PendingRuns → Type 0
Advance e a p q =
    (gen_of e p ≤ gen_of e q)
    × (p.closed ≡ true → q.closed ≡ true)
    × (Spares e a ⊎ ((q.closed ≡ true) ⊎ (gen_of e p < gen_of e q)))

same_gen :
    (e : String) (a : Action) (p q : PendingRuns)
    → q.gen ≡ p.gen
    → q.closed ≡ p.closed
    → Spares e a
    → Advance e a p q
same_gen e a p q eg ec sp = (omega (arith, ap (λ g. or_zero (lookup e g)) eg), λ c. ec ∙ c, inl sp)

elapse-same :
    (i : ℕ) (w : Wait) (p : PendingRuns)
    → ((elapse i w p).gen ≡ p.gen) × ((elapse i w p).closed ≡ p.closed)
unfolding elapse
elapse-same i w p = ground arith

callback-same :
    (i : ℕ) (w : Wait) (p : PendingRuns)
    → ((callback i w p).gen ≡ p.gen) × ((callback i w p).closed ≡ p.closed)
unfolding callback
callback-same i w p = ground arith

bump-gen :
    (e x : String) (p : PendingRuns) (n : ℕ)
    → gen_of x p ≤ n
    → n + 1 < u64
    → (gen_of e p ≤ or_zero (lookup e (insert x ((gen_of x p + 1) % u64) p.gen)))
      × ((e ≢ x) ⊎ (gen_of e p < or_zero (lookup e (insert x ((gen_of x p + 1) % u64) p.gen))))
bump-gen e x p n h room = elim (Bool-cases (str_eq x e)) [
  | inl t ↦
      let q : x ≡ e = (eq_iff x e).0 t in
      let up : gen_of e p < or_zero (lookup e (insert x ((gen_of x p + 1) % u64) p.gen)) =
        rw (lookup-insert x e ((gen_of x p + 1) % u64) p.gen, t)
          (omega (arith, ap (λ y. gen_of y p) q, wraps (gen_of x p) n h room)) in
      (omega arith, inr up)
  | inr f ↦
      let same : or_zero (lookup e (insert x ((gen_of x p + 1) % u64) p.gen)) ≡ gen_of e p =
        rw (lookup-insert x e ((gen_of x p + 1) % u64) p.gen, f) refl in
      (omega arith, inl (λ q. ground (arith, eq_iff x e)))
]
  where
    wraps : (g m : ℕ) → g ≤ m → m + 1 < u64 → (g + 1) % u64 ≡ g + 1
    wraps g m k r = omega arith

later : {A B C : Type 0} → A ⊎ C → A ⊎ (B ⊎ C)
later (inl a) = inl a
later (inr c) = inr (inr c)

apart : {b : Bool} → b ≡ false → b ≡ true → ⊥
apart f t = cc

act-Advance :
    (n : ℕ) (p : PendingRuns) (e : String) (a : Action)
    → Inv n p
    → n + 1 < u64
    → Advance e a p (act a p)
unfolding act arm disarm stop
act-Advance n p e (arms x) v room = elim (Bool-cases p.closed) [
  | inl c ↦ rw c (omega arith, λ d. refl, inr (inl refl))
  | inr c ↦ let (le, moved) = bump-gen e x p n (v.small x) room in rw c (le, λ d. cc, later moved)
]
act-Advance n p e (disarms x) v room =
    let (le, moved) = bump-gen e x p n (v.small x) room in (le, λ d. d, later moved)
act-Advance n p e (elapses i) v room = elim (Option-cases (get_elem? p.waits i)) [
  | inl h ↦ rw (h, at_wait) (same_gen e (elapses i) p p refl refl tt)
  | inr (w, h) ↦
      rw (h, at_wait)
        (same_gen e (elapses i) p (elapse i w p) (elapse-same i w p).0 (elapse-same i w p).1 tt)
]
act-Advance n p e (calls i) v room = elim (Option-cases (get_elem? p.waits i)) [
  | inl h ↦ rw (h, at_wait) (same_gen e (calls i) p p refl refl tt)
  | inr (w, h) ↦
      rw (h, at_wait)
        (same_gen e (calls i) p (callback i w p) (callback-same i w p).0 (callback-same i w p).1 tt)
]
act-Advance n p e stops v room = (omega arith, λ d. refl, inr (inl refl))

-- A generation that is still the same at the end never moved.
All-spared :
    (actions : List Action) (n : ℕ) (p : PendingRuns) (e : String)
    → Inv n p
    → n + length actions < u64
    → (gen_of e p ≤ gen_of e (act_all actions p))
      × (p.closed ≡ true → (act_all actions p).closed ≡ true)
      × ((act_all actions p).closed ≡ false
          → gen_of e (act_all actions p) ≤ gen_of e p
          → All (Spares e) actions)
unfolding act_all
All-spared [] n p e v room = (omega arith, λ c. c, λ c g. tt)
All-spared (a ∷ rest) n p e v room =
    let (le, closes, cases) = act-Advance n p e a v (omega arith) in
    let (le', closes', spares) =
      All-spared rest (suc n) (act a p) e (act-Inv n p a v (omega arith)) (omega arith) in
    (
      omega arith,
      λ c. closes' (closes c),
      λ c g. elim cases [
        | inl sp ↦ (sp, spares c (omega arith))
        | inr other ↦ elim other [
          | inl closed ↦ absurd (apart c (closes' closed))
          | inr grew ↦ absurd (omega arith)
        ]
      ],
    )

-- Where a wait is still current after further actions, none of them touched its entity.
current_spared :
    (before after : List Action) (w : Wait)
    → length before + length after < u64
    → w.mine ≡ gen_of w.entity (act_all before new_pending_runs)
    → is_current w (act_all after (act_all before new_pending_runs)) ≡ true
    → All (Spares w.entity) after
current_spared before after w room m c =
    let p = act_all before new_pending_runs in
    let (le, closes, spares) =
      All-spared after (length before) p w.entity (reached-Inv before (omega arith)) room in
    spares (ground arith) (ground arith)

-- A wait that is armed after some actions and has run its automation after more, fewer than 2^64 in all,
-- ran it in a callback of its own before which, since it was armed, no action armed or disarmed its
-- entity or stopped the runs: a superseded callback never acts.
pub runs_undisturbed :
    (before after : List Action) (i : ℕ) (w : Wait)
    → length before + length after < u64
    → get_elem? (act_all before new_pending_runs).waits i ≡ some w
    → w.status ≡ armed
    → HasRun (act_all after (act_all before new_pending_runs)).waits i
    → (mid : List Action) × (rest : List Action) × (after ≡ mid ++ calls i ∷ rest)
      × All (Spares w.entity) mid
runs_undisturbed before after i w room h a r =
    let p = act_all before new_pending_runs in
    let (mid, rest, split, (x, (hx, ee, em), current)) = HasRun-RanAt after p i w h (λ run. cc) r in
    let (tracked, mine) = armed_tracked before i w (omega arith) h a in
    let shorter : length mid ≤ length after =
      omega (arith, ap length split, length-append mid (calls i ∷ rest)) in
    (
      mid,
      rest,
      split,
      subst (λ e. All (Spares e) mid) ee
          (current_spared before mid x (omega arith) (em ∙ mine ∙ ap (λ e. gen_of e p) (sym ee))
            current),
    )
