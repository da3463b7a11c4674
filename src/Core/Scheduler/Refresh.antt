-- ===== src/Core/Scheduler/Refresh.antt =====
-- Queueing and re-deriving in core/scheduler.go.
use mathlib.Core.List.{Permᴰ}
use mathlib.Core.List.Permᴰ
use mathlib.Core.Path.{subst}
use go_ha.Prelude.{
  ℕ, ◌<◌, Bool-cases, Option-cases, inl, inr, ltb, ltb→lt, none, some, true, false, ◌+◌, ◌≤◌, ◌≡◌,
  refl, sym, ap, List, [], ◌∷◌, ◌++◌, map, arith,
}
use go_ha.Core.Scheduler.{
  Entry, copies, is_entry, PriorityQueue, Triggers, Scheduler, rederive, push_all, refresh,
}
use go_ha.Core.Scheduler.Contents.{weigh-Perm, weigh-put, Unique}

rederive-id : (env : Triggers) (now : ℕ) (e : Entry) → (rederive env now e).id ≡ e.id
rederive-id env now e = ground arith

copies-rederive :
    (env : Triggers) (now id : ℕ) (entries : List Entry)
    → copies id (map (rederive env now) entries) ≡ copies id entries
copies-rederive env now id [] = refl
copies-rederive env now id (e ∷ entries) =
    ground (arith, rederive-id env now e, copies-rederive env now id entries)

map-Perm {ℓ} : {A : Type ℓ} (f : A → A) {xs ys : List A} → Permᴰ xs ys → Permᴰ (map f xs) (map f ys)
map-Perm f Permᴰ.nil = Permᴰ.nil
map-Perm f (Permᴰ.cons e p) = Permᴰ.cons (ap f e) (map-Perm f p)
map-Perm f (Permᴰ.swap e e') = Permᴰ.swap (ap f e) (ap f e')
map-Perm f (Permᴰ.trans p q) = Permᴰ.trans (map-Perm f p) (map-Perm f q)

swap_over {ℓ} : {A : Type ℓ} (x : A) (xs ys : List A) → Permᴰ (xs ++ x ∷ ys) (x ∷ (xs ++ ys))
swap_over x [] ys = Permᴰ.refl (x ∷ ys)
swap_over x (y ∷ xs) ys = Permᴰ.trans (Permᴰ.cons refl (swap_over x xs ys)) (Permᴰ.swap refl refl)

append_nil {ℓ} : {A : Type ℓ} (xs : List A) → Permᴰ (xs ++ []) xs
append_nil [] = Permᴰ.nil
append_nil (x ∷ xs) = Permᴰ.cons refl (append_nil xs)

append-Perm {ℓ} :
    {A : Type ℓ} (xs : List A) {ys zs : List A} → Permᴰ ys zs → Permᴰ (xs ++ ys) (xs ++ zs)
append-Perm [] p = p
append-Perm (x ∷ xs) p = Permᴰ.cons refl (append-Perm xs p)

-- What becomes of a queued entry: it keeps its instant where that is due, where the entry is not dynamic,
-- and where its trigger has no answer; otherwise the trigger's answer replaces it.
pub data Rederived (env : Triggers) (now : ℕ) (e : Entry) : Entry → Type 0 where
  due : e.fire_at ≤ now → Rederived env now e e
  fixed : e.dynamic ≡ false → Rederived env now e e
  silent : env e.id now ≡ none → Rederived env now e e
  moved :
      {next : ℕ}
      → now < e.fire_at
      → e.dynamic ≡ true
      → env e.id now ≡ some next
      → Rederived env now e (record e { fire_at = next })

-- One entry for each, in the same order.
abbrev pub AllRederived : Triggers → ℕ → List Entry → List Entry → Type 0
AllRederived env now [] [] = Unit {0}
AllRederived env now [] (x ∷ after) = ⊥
AllRederived env now (e ∷ entries) [] = ⊥
AllRederived env now (e ∷ entries) (x ∷ after) =
    Rederived env now e x × AllRederived env now entries after

rederive-Rederived :
    (env : Triggers) (now : ℕ) (e : Entry) → Rederived env now e (rederive env now e)
rederive-Rederived env now e = elim (Bool-cases (ltb now e.fire_at)) [
  | inr early ↦ rw early (due (ground arith))
  | inl late ↦ elim (Bool-cases e.dynamic) [
    | inr still ↦ becomes (ground arith) (fixed still)
    | inl moves ↦ elim (Option-cases (env e.id now)) [
      | inl quiet ↦ becomes (ground arith) (silent quiet)
      | inr (next, answer) ↦ becomes (ground arith) (moved (ltb→lt now e.fire_at late) moves answer)
    ]
  ]
]
  where
    becomes :
        {x : Entry}
        → rederive env now e ≡ x
        → Rederived env now e x
        → Rederived env now e (rederive env now e)
    becomes h r = subst (Rederived env now e) (sym h) r

map-AllRederived :
    (env : Triggers) (now : ℕ) (entries : List Entry)
    → AllRederived env now entries (map (rederive env now) entries)
map-AllRederived env now [] = tt
map-AllRederived env now (e ∷ entries) =
    (rederive-Rederived env now e, map-AllRederived env now entries)

module _ (w : PriorityQueue) where
  push_all-Perm :
      (entries : List Entry) (q : w.Queue)
      → ((id : ℕ) → copies id entries + copies id (w.contents q) ≤ 1)
      → Permᴰ (w.contents (push_all w entries q)) (entries ++ w.contents q)
  unfolding push_all
  push_all-Perm [] q u = Permᴰ.refl (w.contents q)
  push_all-Perm (e ∷ entries) q u =
      let absent : copies e.id (w.contents q) ≡ 0 = ground (arith, u e.id) in
      Permᴰ.trans
        (push_all-Perm entries (w.put e q)
          (λ id. omega (arith, u id, weigh-put w (is_entry id) e q absent)))
        (Permᴰ.trans (append-Perm entries (w.put-Perm e q absent))
          (swap_over e entries (w.contents q)))

  mapped-Perm :
      (env : Triggers) (now : ℕ) (s : Scheduler w)
      → Unique (w.contents s.queue)
      → Permᴰ
          (w.contents (refresh w env now s).0.queue)
          (map (rederive env now) (w.contents s.queue))
  unfolding refresh
  mapped-Perm env now s u =
      let listed = w.get_all s.queue in
      let pushed = push_all-Perm (map (rederive env now) listed) w.empty (λ id. omega (
        arith,
        u id,
        copies-rederive env now id listed,
        weigh-Perm (is_entry id) (w.get_all-Perm s.queue),
        ap (λ es. copies id es) w.contents-empty,
      )) in
      Permᴰ.trans pushed (
        Permᴰ.trans
          (subst (λ es. Permᴰ (map (rederive env now) listed ++ es) (map (rederive env now) listed))
            (sym w.contents-empty) (append_nil (map (rederive env now) listed)))
          (map-Perm (rederive env now) (w.get_all-Perm s.queue)))

  -- With no entry queued twice, `refresh` keeps exactly the queued entries, in some order: one that is due
  -- keeps its instant, and so does one that is not dynamic or whose trigger has no answer; any other waits
  -- for its trigger's answer.
  pub refresh-Perm :
      (env : Triggers) (now : ℕ) (s : Scheduler w)
      → Unique (w.contents s.queue)
      → (after : List Entry) × AllRederived env now (w.contents s.queue) after
        × Permᴰ (w.contents (refresh w env now s).0.queue) after
  refresh-Perm env now s u = (
    map (rederive env now) (w.contents s.queue),
    map-AllRederived env now (w.contents s.queue),
    mapped-Perm env now s u,
  )
