-- ===== src/Generate/Chosen.antt =====
-- cmd/generate/main.go: which entities the loop of `render` gathers under a domain.
use mathlib.Core.List.{Memᴰ}
use mathlib.Core.List.Memᴰ
use mathlib.Core.Path.{subst}
use go_ha.Prelude.{
  arith, String, str_eq, eq_iff, ◌≡◌, refl, sym, ap, ◌∙◌, ◌≢◌, ◌⊎◌, inl, inr, ◌↔◌, Bool, true,
  false, not, Option, none, some, List, [], ◌∷◌, ◌++◌, contains, Bool-cases,
}
use go_ha.Generate.{
  Entity, Source, Gathered, Outcome, ok, failure, panics, split, includes, admitted, domain_of,
  with_field, visit, gather, to_field_name,
}
use go_ha.Generate.Stored.{own, chosen}

-- The lists let the domain through: it is on the include list, or that is empty and it is not on the
-- exclude list.
abbrev pub Listed : List String → List String → String → Type 0
Listed include exclude domain = Memᴰ domain include ⊎ ((include ≡ []) × ¬ Memᴰ domain exclude)

-- The entity is available, its id has two parts of which the domain is the first, and the lists let the
-- domain through.
abbrev pub Belongs : List String → List String → String → Source → Type 0
Belongs include exclude domain e =
    (e.state ≢ "unavailable")
    × ((name : String) × (split 46 e.entity_id ≡ domain ∷ name ∷ []))
    × Listed include exclude domain

-- Each entity that belongs is taken, under its field name, in order; the others are passed over.
pub data Chosen (to_upper : String → String) (include exclude : List String) (domain : String)
    : List Source → List Entity → Type 0 where
  no_more : Chosen to_upper include exclude domain [] []
  taken :
      {e : Source} {f : String} {rest : List Source} {out : List Entity}
      → Belongs include exclude domain e
      → to_field_name to_upper e.entity_id ≡ some f
      → Chosen to_upper include exclude domain rest out
      → Chosen to_upper include exclude domain
          (e ∷ rest)
          (record { field_name = f; entity_id = e.entity_id } ∷ out)
  passed :
      {e : Source} {rest : List Source} {out : List Entity}
      → ¬ Belongs include exclude domain e
      → Chosen to_upper include exclude domain rest out
      → Chosen to_upper include exclude domain (e ∷ rest) out

contains-Mem : (xs : List String) (s : String) → contains xs s ≡ true → Memᴰ s xs
contains-Mem [] s h = cc
contains-Mem (x ∷ xs) s h = elim (Bool-cases (str_eq s x)) [
  | inl e ↦ Memᴰ.head ((eq_iff s x).0 e)
  | inr e ↦ Memᴰ.tail (contains-Mem xs s (ground arith))
]

Mem-contains : (xs : List String) (s : String) → Memᴰ s xs → contains xs s ≡ true
Mem-contains [] s m = absurd (Memᴰ.not-nil m)
Mem-contains (x ∷ xs) s (Memᴰ.head e) = ground (arith, eq_iff s x)
Mem-contains (x ∷ xs) s (Memᴰ.tail m) = ground (arith, Mem-contains xs s m)

not_both : {b : Bool} → not b ≡ true → b ≡ true → ⊥
not_both {b = true} n t = cc
not_both {b = false} n t = cc

nil_or : {A : Type 0} (x : A) (xs : List A) → x ∷ xs ≡ [] → ⊥
nil_or x xs e = cc

includes_iff :
    (include exclude : List String) (domain : String)
    → (includes domain include exclude ≡ true) ↔ Listed include exclude domain
unfolding includes
includes_iff [] exclude domain = (
  λ h. inr (refl, λ m. not_both h (Mem-contains exclude domain m)),
  λ l. elim l [
    | inl m ↦ absurd (Memᴰ.not-nil m)
    | inr (e, absent) ↦ elim (Bool-cases (contains exclude domain)) [
      | inl c ↦ absurd (absent (contains-Mem exclude domain c))
      | inr c ↦ rw c refl
    ]
  ],
)
includes_iff (x ∷ xs) exclude domain = (
  λ h. inl (contains-Mem (x ∷ xs) domain h),
  λ l. elim l [ inl m ↦ Mem-contains (x ∷ xs) domain m | inr (e, absent) ↦ absurd (nil_or x xs e) ],
)

-- What the parts of the id, and the lists, say of an available entity.
abbrev Parts : List String → List String → List String → String → Type 0
Parts include exclude parts domain =
    ((name : String) × (parts ≡ domain ∷ name ∷ [])) × Listed include exclude domain

head_or : String → List String → String
head_or x [] = x
head_or x (y ∷ ys) = y

domain_of_iff :
    (include exclude parts : List String) (domain : String)
    → (domain_of include exclude parts ≡ some domain) ↔ Parts include exclude parts domain
domain_of_iff include exclude [] domain = (λ h. cc, λ ((n, e), l). cc)
domain_of_iff include exclude (a ∷ []) domain = (λ h. cc, λ ((n, e), l). cc)
domain_of_iff include exclude (a ∷ b ∷ c ∷ rest) domain = (λ h. cc, λ ((n, e), l). cc)
domain_of_iff include exclude (a ∷ b ∷ []) domain = elim (Bool-cases (includes a include exclude)) [
  | inl i ↦ rw i (
    λ h.
        let same : a ≡ domain = cc in
        (
          (b, ap (λ x. x ∷ b ∷ []) same),
          subst (Listed include exclude) same ((includes_iff include exclude a).0 i),
        ),
    λ ((n, e), l). let same : a ≡ domain = cc in ap some same,
  )
  | inr i ↦ rw i (
    λ h. cc,
    λ ((n, e), l).
        let same : a ≡ domain = cc in
        absurd (
          clash i
            ((includes_iff include exclude a).1 (subst (Listed include exclude) (sym same) l))),
  )
]
  where
    clash : {x : Bool} → x ≡ false → x ≡ true → ⊥
    clash f t = cc

-- What `admitted` decides.
admitted_iff :
    (include exclude : List String) (domain : String) (e : Source)
    → (admitted include exclude e ≡ some domain) ↔ Belongs include exclude domain e
unfolding admitted
admitted_iff include exclude domain e = elim (Bool-cases (str_eq e.state "unavailable")) [
  | inl gone ↦ rw gone (λ h. cc, λ m. absurd (m.0 ((eq_iff e.state "unavailable").0 gone)))
  | inr there ↦ rw there (
    λ h.
        let (parts, lists) = (domain_of_iff include exclude (split 46 e.entity_id) domain).0 h in
        (λ gone. apart there gone, parts, lists),
    λ (here, parts, lists).
        (domain_of_iff include exclude (split 46 e.entity_id) domain).1 (parts, lists),
  )
]
  where
    apart : str_eq e.state "unavailable" ≡ false → e.state ≡ "unavailable" → ⊥
    apart f h = ground (arith, eq_iff e.state "unavailable")

module _ (to_upper : String → String) (include exclude : List String) (domain : String) where
  -- One entity, by what the loop makes of it.
  next-Chosen :
      (e : Source) (o : Option String) (f : Option String) (g h : Gathered) (rest : List Source)
      (out : List Entity)
      → admitted include exclude e ≡ o
      → to_field_name to_upper e.entity_id ≡ f
      → visit to_upper e o g ≡ ok h
      → Chosen to_upper include exclude domain rest out
      → Chosen to_upper include exclude domain (e ∷ rest) (own domain o f e.entity_id ++ out)
  next-Chosen e none f g h rest out ea ef ev later =
      passed (λ b. none_some (sym ea ∙ (admitted_iff include exclude domain e).1 b)) later
    where
      none_some : none ≡ some domain → ⊥
      none_some k = cc
  next-Chosen e (some d) none g h rest out ea ef ev later = absurd (stops ev)
    where
      stops : visit to_upper e (some d) g ≡ ok h → ⊥
      stops k =
          let p : panics ≡ ok h = sym (ap (λ f. with_field to_upper d e.entity_id f g) ef) ∙ k in cc
  next-Chosen e (some d) (some f) g h rest out ea ef ev later =
      elim (Bool-cases (str_eq d domain)) [
        | inl t ↦ rw t (
            taken ((admitted_iff include exclude domain e).0 (ea ∙ ap some ((eq_iff d domain).0 t)))
              ef later)
        | inr n ↦
            rw n
              (passed (λ b. differs n (sym ea ∙ (admitted_iff include exclude domain e).1 b)) later)
      ]
    where
      differs : str_eq d domain ≡ false → some d ≡ some domain → ⊥
      differs n k = let same : d ≡ domain = cc in ground (arith, eq_iff d domain)

  pub gather-Chosen :
      (es : List Source) (g h : Gathered)
      → gather to_upper include exclude es g ≡ ok h
      → Chosen to_upper include exclude domain es (chosen to_upper include exclude domain es)
  unfolding gather
  gather-Chosen [] g h e = no_more
  gather-Chosen (e ∷ rest) g h k =
      visited (visit to_upper e (admitted include exclude e) g) refl k (gather-Chosen rest)
    where
      visited :
          (x : Outcome)
          → visit to_upper e (admitted include exclude e) g ≡ x
          → (elim x [
            | ok h' ↦ gather to_upper include exclude rest h'
            | failure error ↦ failure error
            | panics ↦ panics
          ])
            ≡ ok h
          → ((g' h' : Gathered)
              → gather to_upper include exclude rest g' ≡ ok h'
              → Chosen to_upper include exclude domain rest
                  (chosen to_upper include exclude domain rest))
          → Chosen to_upper include exclude domain
              (e ∷ rest)
              (chosen to_upper include exclude domain (e ∷ rest))
      visited (ok next) ev k later =
          next-Chosen e (admitted include exclude e) (to_field_name to_upper e.entity_id) g next
            rest _ refl refl ev (later next h k)
      visited (failure error) ev k later = cc
      visited panics ev k later = cc
