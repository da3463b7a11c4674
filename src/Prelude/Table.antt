-- ===== src/Prelude/Table.antt =====
-- A Go map with number keys, as a list of pairs, like Prelude/Dict.antt.
use go_ha.Prelude.Tests.{if◌then◌else◌, ◌==◌}
use go_ha.Prelude.Lists.{weigh}
use Prim.Native.Nat.{ℕ, ◌+◌, ◌≤◌}
use mathlib.Core.Path.{◌≡◌, refl}
use mathlib.Core.List.{List, [], ◌∷◌}
use mathlib.Core.Option.{Option, none, some}
use native.Mathlib.Omega.{arith}

module _ {ℓ} {V : Type ℓ} where
  unfoldable pub find : ℕ → List (ℕ × V) → Option V
  find key [] = none
  find key ((k, value) ∷ rest) = if k == key then some value else find key rest

  unfoldable pub drop : ℕ → List (ℕ × V) → List (ℕ × V)
  drop key [] = []
  drop key ((k, value) ∷ rest) =
      let kept = drop key rest in if k == key then kept else (k, value) ∷ kept

  -- `m[key] = new`.
  unfoldable pub put : ℕ → V → List (ℕ × V) → List (ℕ × V)
  put key new [] = (key, new) ∷ []
  put key new ((k, value) ∷ rest) =
      let kept = put key new rest in if k == key then (k, new) ∷ rest else (k, value) ∷ kept

  -- How many entries a key has.
  unfoldable pub entries : ℕ → List (ℕ × V) → ℕ
  entries key m = weigh (λ e. if e.0 == key then 1 else 0) m

  pub find-empty : (key : ℕ) → find key [] ≡ none
  unfolding find
  find-empty key = refl

  pub find-drop :
      (key other : ℕ) (m : List (ℕ × V))
      → find other (drop key m) ≡ (if key == other then none else find other m)
  unfolding find drop
  find-drop key other [] = ground arith
  find-drop key other ((k, value) ∷ rest) = ground (arith, find-drop key other rest)

  pub find-put :
      (key other : ℕ) (new : V) (m : List (ℕ × V))
      → find other (put key new m) ≡ (if key == other then some new else find other m)
  unfolding find put
  find-put key other new [] = ground arith
  find-put key other new ((k, value) ∷ rest) = ground (arith, find-put key other new rest)

  pub entries-drop :
      (key other : ℕ) (m : List (ℕ × V))
      → entries other (drop key m) ≡ (if key == other then 0 else entries other m)
  unfolding entries drop
  entries-drop key other [] = ground arith
  entries-drop key other ((k, value) ∷ rest) = ground (arith, entries-drop key other rest)

  -- A new key adds one entry of its own.
  pub entries-put :
      (key other : ℕ) (new : V) (m : List (ℕ × V))
      → find key m ≡ none
      → entries other (put key new m) ≡ (if key == other then 1 else 0) + entries other m
  unfolding entries put find
  entries-put key other new [] h = ground arith
  entries-put key other new ((k, value) ∷ rest) h = ground (arith, entries-put key other new rest)

  pub find-entries : (key : ℕ) (v : V) (m : List (ℕ × V)) → find key m ≡ some v → 1 ≤ entries key m
  unfolding entries find
  find-entries key v [] h = cc
  find-entries key v ((k, value) ∷ rest) h = ground (arith, find-entries key v rest)

  pub entries-find : (key : ℕ) (m : List (ℕ × V)) → find key m ≡ none → entries key m ≡ 0
  unfolding entries find
  entries-find key [] h = refl
  entries-find key ((k, value) ∷ rest) h = ground (arith, entries-find key rest)

  pub drop-empty : (key : ℕ) → drop key [] ≡ []
  unfolding drop
  drop-empty key = refl

  entries-replace :
      (key other : ℕ) (new v : V) (m : List (ℕ × V))
      → find key m ≡ some v
      → entries other (put key new m) ≡ entries other m
  unfolding entries put find
  entries-replace key other new v [] h = cc
  entries-replace key other new v ((k, value) ∷ rest) h =
      ground (arith, entries-replace key other new v rest)

  -- Keys stay unique.
  pub put-entries :
      (key other : ℕ) (new : V) (m : List (ℕ × V))
      → entries other m ≤ 1
      → entries other (put key new m) ≤ 1
  put-entries key other new m h = go (find key m) refl
    where
      go : (o : Option V) → find key m ≡ o → entries other (put key new m) ≤ 1
      go none e = ground (arith, entries-put key other new m e, entries-find key m e, h)
      go (some v) e = omega (arith, entries-replace key other new v m e, h)
