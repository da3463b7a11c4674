-- ===== src/Generate/Fields.antt =====
-- cmd/generate/main.go: what the loop of `render` gathers compiles, as no struct has a field twice.
use mathlib.Core.Path.{subst}
use mathlib.Core.List.{append_assoc, append-nil}
use go_ha.Prelude.{
  ◌≤◌, String, str_eq, ◌≡◌, refl, sym, ap, ◌∙◌, inl, inr, Option, none, some, List, [], ◌∷◌, ◌++◌,
  arith, Bool-cases,
}
use go_ha.Prelude.Dict.{lookup}
use go_ha.Generate.{
  Entity, Domain, Source, Gathered, Outcome, ok, failure, panics, open_domain, place, unless_seen,
  with_field, admitted, visit, gather, to_camel_case, to_field_name,
}
use go_ha.Generate.Chosen.{Chosen, gather-Chosen}
use go_ha.Generate.Stored.{entities_in, held, tally, seen_in, Tidy, own, chosen, Grown, store-Grown}

-- What is gathered has grown by the given entities, unless the loop stopped.
abbrev Good : Gathered → (String → List Entity) → Outcome → Type 0
Good g more (ok h) = Grown g more h
Good g more (failure error) = Unit {0}
Good g more panics = Unit {0}

module _ (to_upper : String → String) (domain id : String) (g : Gathered) (v : Tidy g) where
  open-Good :
      (f : String) (name : Option String)
      → lookup domain g.domains ≡ none
      → lookup f (seen_in domain g) ≡ none
      → Good g (λ other. own other (some domain) (some f) id) (open_domain domain f id name g)
  open-Good f none at fresh = tt
  open-Good f (some name) at fresh = store-Grown domain f id _ g (sym (ap entities_in at)) fresh v

  place-Good :
      (f : String) (o : Option Domain)
      → lookup domain g.domains ≡ o
      → lookup f (seen_in domain g) ≡ none
      → Good g (λ other. own other (some domain) (some f) id) (place to_upper domain f id o g)
  place-Good f none at fresh = open-Good f (to_camel_case to_upper domain) at fresh
  place-Good f (some d) at fresh = store-Grown domain f id d g (sym (ap entities_in at)) fresh v

  unless_seen-Good :
      (f : String) (o : Option String)
      → lookup f (seen_in domain g) ≡ o
      → Good g (λ other. own other (some domain) (some f) id) (unless_seen to_upper domain f id o g)
  unless_seen-Good f (some prior) fresh = tt
  unless_seen-Good f none fresh = place-Good f (lookup domain g.domains) refl fresh

  with_field-Good :
      (o : Option String)
      → Good g (λ other. own other (some domain) o id) (with_field to_upper domain id o g)
  with_field-Good none = tt
  with_field-Good (some f) = elim (Bool-cases (str_eq f "")) [
    | inl h ↦ rw h tt
    | inr h ↦ rw h (unless_seen-Good f (lookup f (seen_in domain g)) refl)
  ]

module _ (to_upper : String → String) (include exclude : List String) where
  visit-Good :
      (e : Source) (g : Gathered) (o : Option String)
      → Tidy g
      → Good g
          (λ other. own other o (to_field_name to_upper e.entity_id) e.entity_id)
          (visit to_upper e o g)
  visit-Good e g none v = (v, λ domain. sym (append-nil (held domain g)))
  visit-Good e g (some domain) v =
      with_field-Good to_upper domain e.entity_id g v (to_field_name to_upper e.entity_id)

  gather-Good :
      (es : List Source) (g : Gathered)
      → Tidy g
      → Good g
          (λ domain. chosen to_upper include exclude domain es)
          (gather to_upper include exclude es g)
  unfolding gather
  gather-Good [] g v = (v, λ domain. sym (append-nil (held domain g)))
  gather-Good (e ∷ rest) g v =
      on (visit to_upper e (admitted include exclude e) g)
        (visit-Good e g (admitted include exclude e) v) (gather-Good rest)
    where
      on :
          (x : Outcome)
          → Good g
              (λ other.
                own other
                  (admitted include exclude e)
                  (to_field_name to_upper e.entity_id)
                  e.entity_id)
              x
          → ((h : Gathered)
              → Tidy h
              → Good h
                  (λ domain. chosen to_upper include exclude domain rest)
                  (gather to_upper include exclude rest h))
          → Good g
              (λ domain. chosen to_upper include exclude domain (e ∷ rest))
              (elim x [
                | ok h ↦ gather to_upper include exclude rest h
                | failure error ↦ failure error
                | panics ↦ panics
              ])
      on (ok h) (w, more) later = after (gather to_upper include exclude rest h) (later h w)
        where
          after :
              (y : Outcome)
              → Good h (λ domain. chosen to_upper include exclude domain rest) y
              → Good g (λ domain. chosen to_upper include exclude domain (e ∷ rest)) y
          after (ok k) (u, last) = (
            u,
            λ domain.
                last domain
                ∙ ap (λ es. es ++ chosen to_upper include exclude domain rest) (more domain)
                ∙ append_assoc (held domain g) _ _,
          )
          after (failure error) w' = tt
          after panics w' = tt
      on (failure error) w later = tt
      on panics w later = tt

  -- Whenever the loop of `render` ends without an error: under each domain it has gathered, in order, just
  -- the entities that are not unavailable, have an id of two parts of which the domain is the first, and
  -- whose domain is on the include list, or, that list being empty, is not on the exclude list, each under
  -- its field name; and no two of one domain have the same field name.
  pub gather-fields :
      (es : List Source) (h : Gathered)
      → gather to_upper include exclude es (record { domains = []; seen = [] }) ≡ ok h
      → (domain : String)
      → Chosen to_upper include exclude domain es (held domain h)
        × ((f : String) → tally f (held domain h) ≤ 1)
  unfolding lookup
  gather-fields es h e domain =
      let empty : Gathered = record { domains = []; seen = [] } in
      let (v, grown) : Grown empty (λ d. chosen to_upper include exclude d es) h =
        subst (Good empty (λ d. chosen to_upper include exclude d es)) e
          (gather-Good es empty tidy) in
      (
        subst (Chosen to_upper include exclude domain es)
            (sym (
              grown domain
              ∙ ap (λ xs. xs ++ chosen to_upper include exclude domain es) (nothing domain)))
            (gather-Chosen to_upper include exclude domain es empty h e),
        v.once domain,
      )
    where
      nothing : (d : String) → held d (record { domains = []; seen = [] }) ≡ []
      nothing d = refl

      tidy : Tidy (record { domains = []; seen = [] })
      tidy = record { once = λ d f. omega arith; known = λ d f e'. refl }
