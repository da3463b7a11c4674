-- ===== src/Prelude/Iff.antt =====
-- Equivalences, put together.
use mathlib.Core.Path.{◌≡◌, refl}
use mathlib.Core.Logic.{◌↔◌}
use mathlib.Core.List.{List, [], ◌∷◌, ◌++◌}
use go_ha.Prelude.Lists.{All}

pub all_of {a b c d} :
    {A : Type a} {B : Type b} {C : Type c} {D : Type d} → (A ↔ B) → (C ↔ D) → (A × C) ↔ (B × D)
all_of f g = (λ (x, y). (f.0 x, g.0 y), λ (x, y). (f.1 x, g.1 y))

pub then_iff {a b c} : {A : Type a} {B : Type b} {C : Type c} → (A ↔ B) → (B ↔ C) → A ↔ C
then_iff f g = (λ x. g.0 (f.0 x), λ z. f.1 (g.1 z))

pub none_of {ℓ} : {A : Type ℓ} (xs ys : List A) → (xs ++ ys ≡ []) ↔ ((xs ≡ []) × (ys ≡ []))
none_of [] ys = (λ h. (refl, h), λ h. h.1)
none_of (x ∷ xs) ys = (λ h. cc, λ h. cc)

pub All-iff {ℓ κ} :
    {A : Type ℓ} (P : A → Type κ) (xs ys : List A) → All P (xs ++ ys) ↔ (All P xs × All P ys)
All-iff P [] ys = (λ h. (tt, h), λ h. h.1)
All-iff P (x ∷ xs) ys =
    let rest = All-iff P xs ys in
    (λ (p, h). ((p, (rest.0 h).0), (rest.0 h).1), λ ((p, h), k). (p, rest.1 (h, k)))
