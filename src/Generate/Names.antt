-- ===== src/Generate/Names.antt =====
-- cmd/generate/main.go: for which names `toCamelCase` reads past the end of a part.
use Prim.Native.Char.{Char, code}
use Prim.Native.String.{[] as end, ◌∷◌ as ◌►◌}
use go_ha.Prelude.{
  ℕ, String, str_eq, eq_iff, ◌≡◌, refl, ◌↔◌, Bool, true, false, inl, inr, none, List, [], ◌∷◌, ◌==◌,
  Bool-cases,
}
use go_ha.Generate.{split, to_camel_case}

abbrev pub leads_with_underscore : String → Bool
leads_with_underscore end = false
leads_with_underscore (c ► s) = code c == 95

split-nonempty :
    (sep : ℕ) (s : String) → (p : String) × (rest : List String) × (split sep s ≡ p ∷ rest)
unfolding split
split-nonempty sep end = (end, [], refl)
split-nonempty sep (c ► s) =
    let (p, rest, e) = split-nonempty sep s in
    elim (Bool-cases (code c == sep)) [
      | inl h ↦ (end, split sep s, rw h refl)
      | inr h ↦ (c ► p, rest, rw (h, e) refl)
    ]

not_empty : (c : Char) (s : String) → str_eq (c ► s) "" ≡ false
not_empty c s = elim (Bool-cases (str_eq (c ► s) "")) [
  | inl h ↦ let same : c ► s ≡ "" = (eq_iff (c ► s) "").0 h in cc
  | inr h ↦ h
]

-- For every way of writing a letter in upper case: `toCamelCase` panics on the names that begin with an
-- underscore, and on no other.
pub to_camel_case-panics :
    (to_upper : String → String) (s : String)
    → (to_camel_case to_upper s ≡ none) ↔ (leads_with_underscore s ≡ true)
unfolding to_camel_case split
to_camel_case-panics to_upper end = (λ h. cc, λ h. cc)
to_camel_case-panics to_upper (c ► s) = rw (not_empty c s) (elim (Bool-cases (code c == 95)) [
  | inl h ↦ rw h (λ e. refl, λ e. refl)
  | inr h ↦ let (p, rest, q) = split-nonempty 95 s in rw (h, q) (λ e. cc, λ e. cc)
])
