-- ===== src/Prelude/Lists.antt =====
-- Lists measured by native numbers, and a predicate that holds along a list.
use Prim.Native.Nat.{ℕ, zero, suc, ◌+◌, ◌≤◌, ◌<◌}
use mathlib.Core.Path.{◌≡◌, refl}
use mathlib.Core.Logic.{◌⊎◌}
use mathlib.Core.List.{List, [], ◌∷◌, ◌++◌}
use mathlib.Core.Option.{Option, none, some}
use native.Mathlib.Decide.{dec_lt}
use native.Mathlib.Omega.{arith}
use go_ha.Prelude.Tests.{◌==◌, if◌then◌else◌}

module _ {ℓ} {A : Type ℓ} where
  abbrev pub length : List A → ℕ
  length [] = 0
  length (x ∷ xs) = suc (length xs)

  pub length-append : (xs ys : List A) → length (xs ++ ys) ≡ length xs + length ys
  length-append [] ys = omega arith
  length-append (x ∷ xs) ys = omega (arith, length-append xs ys)

  abbrev pub All {κ} : (A → Type κ) → List A → Type κ
  All P [] = Unit
  All P (x ∷ xs) = P x × All P xs

  pub All-map {κ ι} :
      {P : A → Type κ} {Q : A → Type ι}
      → ((a : A) → P a → Q a)
      → (xs : List A) → All P xs
      → All Q xs
  All-map f [] h = tt
  All-map f (x ∷ xs) h = (f x h.0, All-map f xs h.1)

  pub All-append {κ} : (P : A → Type κ) (xs ys : List A) → All P xs → All P ys → All P (xs ++ ys)
  All-append P [] ys h k = k
  All-append P (x ∷ xs) ys h k = (h.0, All-append P xs ys h.1 k)

module _ {ℓ} {A : Type ℓ} where
  abbrev pub get_elem? : List A → ℕ → Option A
  get_elem? [] i = none
  get_elem? (x ∷ xs) zero = some x
  get_elem? (x ∷ xs) (suc i) = get_elem? xs i

  -- A write out of bounds changes nothing.
  abbrev pub set : List A → ℕ → A → List A
  set [] i v = []
  set (x ∷ xs) zero v = v ∷ xs
  set (x ∷ xs) (suc i) v = x ∷ set xs i v

  -- The sum of a weight along a list.
  abbrev pub weigh : (A → ℕ) → List A → ℕ
  weigh w [] = 0
  weigh w (x ∷ xs) = w x + weigh w xs

  pub weigh-append : (w : A → ℕ) (xs ys : List A) → weigh w (xs ++ ys) ≡ weigh w xs + weigh w ys
  weigh-append w [] ys = omega arith
  weigh-append w (x ∷ xs) ys = omega (arith, weigh-append w xs ys)

  -- A write trades the old entry's weight for the new one's.
  pub weigh-set :
      (w : A → ℕ) (xs : List A) (i : ℕ) (v x : A)
      → get_elem? xs i ≡ some x
      → weigh w (set xs i v) + w x ≡ weigh w xs + w v
  weigh-set w [] i v x e = cc
  weigh-set w (y ∷ xs) zero v x e = ground (arith, e)
  weigh-set w (y ∷ xs) (suc i) v x e = omega (arith, weigh-set w xs i v x e)

  pub get_elem?-set :
      (xs : List A) (i j : ℕ) (v x : A)
      → get_elem? xs i ≡ some x
      → get_elem? (set xs i v) j ≡ (if i == j then some v else get_elem? xs j)
  get_elem?-set [] i j v x e = cc
  get_elem?-set (y ∷ xs) zero zero v x e = ground arith
  get_elem?-set (y ∷ xs) zero (suc j) v x e = ground arith
  get_elem?-set (y ∷ xs) (suc i) zero v x e = ground arith
  get_elem?-set (y ∷ xs) (suc i) (suc j) v x e = ground (arith, get_elem?-set xs i j v x e)

  pub get_elem?-append :
      (xs : List A) (v : A) (j : ℕ)
      → get_elem? (xs ++ v ∷ []) j ≡ (if j == length xs then some v else get_elem? xs j)
  get_elem?-append [] v zero = ground arith
  get_elem?-append [] v (suc j) = ground arith
  get_elem?-append (x ∷ xs) v zero = ground arith
  get_elem?-append (x ∷ xs) v (suc j) = ground (arith, get_elem?-append xs v j)

  pub weigh-get :
      (w : A → ℕ) (xs : List A) (i : ℕ) (x : A) → get_elem? xs i ≡ some x → w x ≤ weigh w xs
  weigh-get w [] i x e = cc
  weigh-get w (y ∷ xs) zero x e = ground arith
  weigh-get w (y ∷ xs) (suc i) x e = omega (arith, weigh-get w xs i x e)

  -- Where the sum is not 0, some entry has a weight.
  pub weigh-find :
      (w : A → ℕ) (xs : List A)
      → 0 < weigh w xs
      → (i : ℕ) × (x : A) × (get_elem? xs i ≡ some x) × (0 < w x)
  weigh-find w [] h = absurd (omega arith)
  weigh-find w (x ∷ xs) h = elim (dec_lt 0 (w x)) [
    | yes p ↦ (0, x, refl, p)
    | no p ↦ let (i, y, e, q) = weigh-find w xs (omega arith) in (suc i, y, e, q)
  ]

  -- An entry of a list with one more at its end is the last one, or was there before.
  pub get_elem?-append_cases :
      (xs : List A) (v : A) (j : ℕ) (w : A)
      → get_elem? (xs ++ v ∷ []) j ≡ some w
      → ((j ≡ length xs) × (w ≡ v)) ⊎ (get_elem? xs j ≡ some w)
  get_elem?-append_cases xs v j w h = ground (arith, get_elem?-append xs v j)
