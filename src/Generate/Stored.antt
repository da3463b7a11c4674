-- ===== src/Generate/Stored.antt =====
-- cmd/generate/main.go: what storing one entity changes in what `render` has gathered.
use mathlib.Core.Path.{subst}
use mathlib.Core.List.{append-nil}
use go_ha.Prelude.{
  ℕ, ◌+◌, ◌≤◌, String, str_eq, eq_iff, ◌≡◌, refl, sym, ap, ◌∙◌, Bool, true, false, inl, inr, Option,
  none, some, List, [], ◌∷◌, ◌++◌, arith, weigh, weigh-append, Bool-cases, if◌then◌else◌,
}
use go_ha.Prelude.Dict.{lookup, insert, lookup-insert}
use go_ha.Generate.{Entity, Domain, Source, Gathered, or_empty, store, admitted, to_field_name}

abbrev pub entities_in : Option Domain → List Entity
entities_in none = []
entities_in (some d) = d.entities

-- The entities gathered under a domain.
abbrev pub held : String → Gathered → List Entity
held domain g = entities_in (lookup domain g.domains)

-- How many of them have a field name.
abbrev pub tally : String → List Entity → ℕ
tally field_name es = weigh (λ e. if str_eq e.field_name field_name then 1 else 0) es

abbrev pub seen_in : String → Gathered → List (String × String)
seen_in domain g = or_empty (lookup domain g.seen)

pub record Tidy (g : Gathered) : Type 0 where
  pub once : (domain f : String) → tally f (held domain g) ≤ 1
  pub known : (domain f : String) → lookup f (seen_in domain g) ≡ none → tally f (held domain g) ≡ 0

-- What an entity adds to a domain: its field, where it is admitted to this domain.
abbrev pub own : String → Option String → Option String → String → List Entity
own domain none f id = []
own domain (some d) none id = []
own domain (some d) (some f) id =
    if str_eq d domain then record { field_name = f; entity_id = id } ∷ [] else []

-- The fields of the entities that are admitted to a domain, in order.
abbrev pub chosen :
    (String → String) → List String → List String → String → List Source → List Entity
chosen to_upper include exclude domain [] = []
chosen to_upper include exclude domain (e ∷ rest) =
    own domain (admitted include exclude e) (to_field_name to_upper e.entity_id) e.entity_id
    ++ chosen to_upper include exclude domain rest

-- One state after another: it stays tidy, and each domain has grown by the given entities.
abbrev pub Grown : Gathered → (String → List Entity) → Gathered → Type 0
Grown g more h = Tidy h × ((domain : String) → held domain h ≡ held domain g ++ more domain)

abbrev one_more : String → String → String → String → ℕ
one_more domain other f x = if str_eq domain other then if str_eq f x then 1 else 0 else 0

module _ (domain f id : String) (d : Domain) (g : Gathered) (at : d.entities ≡ held domain g) where
  held-store :
      (other : String)
      → held other (store domain f id d g)
        ≡ held other g
          ++ (if str_eq domain other then record { field_name = f; entity_id = id } ∷ [] else [])
  unfolding store
  held-store other =
      rw
        (lookup-insert domain other
          (record d { entities = d.entities ++ record { field_name = f; entity_id = id } ∷ [] })
          g.domains)
        (elim (Bool-cases (str_eq domain other)) [
          | inl h ↦ rw h (
              ap (λ es. es ++ record { field_name = f; entity_id = id } ∷ [])
                (at ∙ ap (λ x. held x g) ((eq_iff domain other).0 h)))
          | inr h ↦ rw h (sym (append-nil (held other g)))
        ])

  seen-store :
      (other : String)
      → seen_in other (store domain f id d g)
        ≡ (if str_eq domain other then insert f id (seen_in domain g) else seen_in other g)
  unfolding store
  seen-store other =
      ap or_empty (lookup-insert domain other (insert f id (seen_in domain g)) g.seen)
      ∙ spread (str_eq domain other)
    where
      spread :
          (b : Bool)
          → or_empty (if b then some (insert f id (seen_in domain g)) else lookup other g.seen)
            ≡ (if b then insert f id (seen_in domain g) else seen_in other g)
      spread true = refl
      spread false = refl

  tally-store :
      (other x : String)
      → tally x (held other (store domain f id d g))
        ≡ tally x (held other g) + one_more domain other f x
  tally-store other x =
      ap (tally x) (held-store other)
      ∙ weigh-append (λ e. if str_eq e.field_name x then 1 else 0) (held other g)
          (added (str_eq domain other))
      ∙ ap (λ n. tally x (held other g) + n) (spread (str_eq domain other))
    where
      added : Bool → List Entity
      added b = if b then record { field_name = f; entity_id = id } ∷ [] else []

      spread : (b : Bool) → tally x (added b) ≡ (if b then if str_eq f x then 1 else 0 else 0)
      spread true = omega arith
      spread false = refl

  unused :
      lookup f (seen_in domain g) ≡ none
      → Tidy g
      → (other x : String) → str_eq domain other ≡ true
      → str_eq f x ≡ true
      → tally x (held other g) ≡ 0
  unused fresh v other x h k =
      ap (λ y. tally y (held other g)) (sym ((eq_iff f x).0 k))
      ∙ v.known other f
          (subst (λ y. lookup f (seen_in y g) ≡ none) ((eq_iff domain other).0 h) fresh)

  unseen_here :
      (other x : String)
      → str_eq domain other ≡ true
      → (if str_eq f x then some id else lookup x (seen_in domain g)) ≡ none
      → (lookup x (seen_in other g) ≡ none) × (one_more domain other f x ≡ 0)
  unseen_here other x e h = elim (Bool-cases (str_eq f x)) [
    | inl k ↦
        let clash : some id ≡ none =
          subst (λ b. (if b then some id else lookup x (seen_in domain g)) ≡ none) k h in
        cc
    | inr k ↦ (
      subst (λ y. lookup x (seen_in y g) ≡ none) ((eq_iff domain other).0 e)
          (subst (λ b. (if b then some id else lookup x (seen_in domain g)) ≡ none) k h),
      rw (e, k) refl,
    )
  ]

  unseen :
      (other x : String)
      → lookup x (seen_in other (store domain f id d g)) ≡ none
      → (lookup x (seen_in other g) ≡ none) × (one_more domain other f x ≡ 0)
  unseen other x h = elim (Bool-cases (str_eq domain other)) [
    | inl e ↦
        let now : lookup x (insert f id (seen_in domain g)) ≡ none =
          subst
            (λ b. lookup x (if b then insert f id (seen_in domain g) else seen_in other g) ≡ none) e
            (ap (lookup x) (sym (seen-store other)) ∙ h) in
        unseen_here other x e (sym (lookup-insert f x id (seen_in domain g)) ∙ now)
    | inr e ↦ (
      subst (λ b. lookup x (if b then insert f id (seen_in domain g) else seen_in other g) ≡ none) e
          (ap (lookup x) (sym (seen-store other)) ∙ h),
      rw e refl,
    )
  ]

  pub store-Grown :
      lookup f (seen_in domain g) ≡ none
      → Tidy g
      → Grown g
          (λ other.
            if str_eq domain other then record { field_name = f; entity_id = id } ∷ [] else [])
          (store domain f id d g)
  store-Grown fresh v = (
    record {
      once = λ other x. ground (arith, tally-store other x, v.once other x, unused fresh v other x);
      known = λ other x h.
          omega (
            arith,
            tally-store other x,
            v.known other x (unseen other x h).0,
            (unseen other x h).1,
          );
    },
    held-store,
  )
