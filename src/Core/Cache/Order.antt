-- ===== src/Core/Cache/Order.antt =====
-- Updates that reach core/cache.go out of order: the pool of workers may apply two events either way.
use mathlib.Core.List.{Permᴰ}
use mathlib.Core.Path.{subst}
use go_ha.Prelude.{
  none, ltb, false, String, str_eq, eq_iff, ◌≡◌, refl, sym, ◌∙◌, ◌≢◌, ◌⊎◌, inl, inr, not, ◌&&◌,
  some, List, [], ◌∷◌, arith, if◌then◌else◌, All,
}
use go_ha.Prelude.Dict.{lookup, lookup-insert}
use go_ha.Core.Event.{EntityState}
use go_ha.Core.Cache.{EntityCache, is_stale, apply}

-- Two caches that answer every lookup alike.
abbrev pub SameView : EntityCache → EntityCache → Type 0
SameView c d = (id : String) → lookup id c.entities ≡ lookup id d.entities

-- Each update has a time, and two updates of one entity have different times.
abbrev pub Distinct : EntityState → EntityState → Type 0
Distinct a b = (a.entity_id ≢ b.entity_id) ⊎ (a.last_updated ≢ b.last_updated)

pub is_stale-none : (es : EntityState) → is_stale es none ≡ false
unfolding is_stale
is_stale-none es = refl

-- An update loses to what is stored exactly where it has a time and what is stored a later one.
pub is_stale-later :
    (es old : EntityState)
    → is_stale es (some old) ≡ ltb 0 es.last_updated && ltb es.last_updated old.last_updated
unfolding is_stale
is_stale-later es old = ground arith

-- What a lookup sees after one update.
pub lookup-apply :
    (es : EntityState) (c : EntityCache) (id : String)
    → lookup id (apply es c).entities ≡ (
        if str_eq es.entity_id id && not (is_stale es (lookup id c.entities))
        then some es
        else lookup id c.entities)
unfolding apply
lookup-apply es c id =
    ground (arith, eq_iff es.entity_id id, lookup-insert es.entity_id id es c.entities)

apply-apply :
    (a b : EntityState) (c d : EntityCache)
    → SameView c d
    → a.last_updated ≢ 0
    → b.last_updated ≢ 0
    → Distinct a b
    → SameView (apply a (apply b c)) (apply b (apply a d))
unfolding is_stale
apply-apply a b c d v ha hb ne id = ground (
  arith,
  v id,
  eq_iff a.entity_id id,
  eq_iff b.entity_id id,
  lookup-apply a (apply b c) id,
  lookup-apply b c id,
  lookup-apply b (apply a d) id,
  lookup-apply a d id,
)

pub apply_all : List EntityState → EntityCache → EntityCache
apply_all [] c = c
apply_all (es ∷ list) c = apply_all list (apply es c)

-- Every update has a time, and no two updates of one entity share theirs.
abbrev pub AllDistinct : List EntityState → Type 0
AllDistinct [] = Unit {0}
AllDistinct (a ∷ list) = (a.last_updated ≢ 0) × All (Distinct a) list × AllDistinct list

apply_one : (a : EntityState) (c d : EntityCache) → SameView c d → SameView (apply a c) (apply a d)
apply_one a c d v id = ground (arith, v id, lookup-apply a c id, lookup-apply a d id)

apply_all_same :
    (list : List EntityState) (c d : EntityCache)
    → SameView c d
    → SameView (apply_all list c) (apply_all list d)
unfolding apply_all
apply_all_same [] c d v = v
apply_all_same (a ∷ list) c d v = apply_all_same list _ _ (apply_one a c d v)

Distinct-sym : (a b : EntityState) → Distinct a b → Distinct b a
Distinct-sym a b (inl h) = inl (λ e. h (sym e))
Distinct-sym a b (inr h) = inr (λ e. h (sym e))

-- The conclusion is a statement about all positions, so it passes to any rearrangement.
All-perm : (P : EntityState → Type 0) {xs ys : List EntityState} → Permᴰ xs ys → All P xs → All P ys
All-perm P Permᴰ.nil h = h
All-perm P (Permᴰ.cons e p) h = (subst P e h.0, All-perm P p h.1)
All-perm P (Permᴰ.swap e f) h = (subst P f h.1.0, (subst P e h.0, h.1.1))
All-perm P (Permᴰ.trans p q) h = All-perm P q (All-perm P p h)

All-subst :
    {x y : EntityState} (list : List EntityState)
    → x ≡ y
    → All (Distinct x) list
    → All (Distinct y) list
All-subst list e h = subst (λ z. All (Distinct z) list) e h

AllDistinct-perm : {xs ys : List EntityState} → Permᴰ xs ys → AllDistinct xs → AllDistinct ys
AllDistinct-perm Permᴰ.nil h = h
AllDistinct-perm (Permᴰ.cons {b = b} {l₂ = ys} e p) h = (
  subst (λ z. z.last_updated ≢ 0) e h.0,
  All-subst ys e (All-perm _ p h.1),
  AllDistinct-perm p h.2,
)
AllDistinct-perm (Permᴰ.swap {a = a} {b = b} {a' = a'} {b' = b'} {l = l} e f) h = (
  subst (λ z. z.last_updated ≢ 0) f h.2.0,
  (
    subst (λ z. Distinct z b') f (subst (Distinct b) e (Distinct-sym a b h.1.0)),
    All-subst l f h.2.1,
  ),
  (subst (λ z. z.last_updated ≢ 0) e h.0, All-subst l e h.1.1, h.2.2),
)
AllDistinct-perm (Permᴰ.trans p q) h = AllDistinct-perm q (AllDistinct-perm p h)

SameView-apply_all :
    {xs ys : List EntityState}
    → Permᴰ xs ys
    → (c d : EntityCache) → SameView c d
    → AllDistinct xs
    → SameView (apply_all xs c) (apply_all ys d)
unfolding apply_all
SameView-apply_all Permᴰ.nil c d v h = v
SameView-apply_all (Permᴰ.cons {a = a} {b = b} {l₂ = ys} e p) c d v h =
    SameView-apply_all p (apply a c) (apply b d)
      (subst (λ z. SameView (apply a c) (apply z d)) e (apply_one a c d v)) h.2
SameView-apply_all (Permᴰ.swap {a = a} {b = b} {a' = a'} {b' = b'} {l = l} e f) c d v h =
    apply_all_same l (apply b (apply a c)) (apply b' (apply a' d)) (
      subst (λ z. SameView (apply b (apply a c)) (apply z (apply a' d))) e
        (subst (λ z. SameView (apply b (apply a c)) (apply a (apply z d))) f
          (apply-apply b a c d v h.2.0 h.0 (Distinct-sym a b h.1.0))))
SameView-apply_all (Permᴰ.trans p q) c d v h = λ id.
    SameView-apply_all p c c (λ j. refl) h id ∙ SameView-apply_all q c d v (AllDistinct-perm p h) id

-- The updates of a batch may be applied in any order, if each has a time and no two of one entity
-- share theirs: every lookup afterwards gives the same answer.
pub apply_all-perm :
    {xs ys : List EntityState} (c : EntityCache)
    → Permᴰ xs ys
    → AllDistinct xs
    → (id : String) → lookup id (apply_all xs c).entities ≡ lookup id (apply_all ys c).entities
apply_all-perm c p h = SameView-apply_all p c c (λ j. refl) h
