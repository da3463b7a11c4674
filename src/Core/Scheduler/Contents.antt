-- ===== src/Core/Scheduler/Contents.antt =====
-- The entries of the queue of core/scheduler.go: no entry stands in it twice.
use mathlib.Core.List.{Permᴰ}
use mathlib.Core.Path.{subst}
use go_ha.Prelude.{
  ℕ, ◌+◌, ◌≤◌, ◌≡◌, refl, sym, ap, ◌∙◌, Option, none, some, List, [], ◌∷◌, arith, ◌==◌,
  if◌then◌else◌, All,
}
use go_ha.Prelude.{weigh}
use go_ha.Core.Scheduler.{Entry, copies, PriorityQueue, requeue, is_entry}

pub weigh-Perm {ℓ} :
    {A : Type ℓ} (f : A → ℕ) {xs ys : List A} → Permᴰ xs ys → weigh f xs ≡ weigh f ys
weigh-Perm f Permᴰ.nil = refl
weigh-Perm f (Permᴰ.cons e p) = omega (arith, ap f e, weigh-Perm f p)
weigh-Perm f (Permᴰ.swap e e') = omega (arith, ap f e, ap f e')
weigh-Perm f (Permᴰ.trans p q) = weigh-Perm f p ∙ weigh-Perm f q

-- Every entry stands in the list at most once.
abbrev pub Unique : List Entry → Type 0
Unique entries = (id : ℕ) → copies id entries ≤ 1

module _ (w : PriorityQueue) where
  pub weigh-put :
      (f : Entry → ℕ) (e : Entry) (q : w.Queue)
      → copies e.id (w.contents q) ≡ 0
      → weigh f (w.contents (w.put e q)) ≡ f e + weigh f (w.contents q)
  weigh-put f e q h = weigh-Perm f (w.put-Perm e q h)

  pub weigh-get :
      (f : Entry → ℕ) {e : Entry} {q rest : w.Queue}
      → w.get q ≡ some (e, rest)
      → weigh f (w.contents q) ≡ f e + weigh f (w.contents rest)
  weigh-get f h = weigh-Perm f (w.get-Perm h)

  -- The entry that is popped is gone.
  pub get-absent :
      {e : Entry} {q rest : w.Queue}
      → Unique (w.contents q)
      → w.get q ≡ some (e, rest)
      → copies e.id (w.contents rest) ≡ 0
  get-absent {e} {q} {rest} u h = ground (arith, weigh-get (is_entry e.id) h, u e.id)

  pub get-Unique :
      {e : Entry} {q rest : w.Queue}
      → Unique (w.contents q)
      → w.get q ≡ some (e, rest)
      → Unique (w.contents rest)
  get-Unique u h id = omega (arith, weigh-get (is_entry id) h, u id)

  pub put-Unique :
      (e : Entry) (q : w.Queue)
      → Unique (w.contents q)
      → copies e.id (w.contents q) ≡ 0
      → Unique (w.contents (w.put e q))
  put-Unique e q u h id = ground (arith, weigh-put (is_entry id) e q h, u id)

  pub requeue-Unique :
      (e : Entry) (o : Option ℕ) (q : w.Queue)
      → Unique (w.contents q)
      → copies e.id (w.contents q) ≡ 0
      → Unique (w.contents (requeue w e o q))
  requeue-Unique e none q u h = u
  requeue-Unique e (some next) q u h = put-Unique (record e { fire_at = next }) q u h

-- The instant that an entry is queued for.
pub time_in : ℕ → List Entry → Option ℕ
time_in id [] = none
time_in id (e ∷ entries) = if e.id == id then some e.fire_at else time_in id entries

time_in-absent : (id : ℕ) (entries : List Entry) → copies id entries ≡ 0 → time_in id entries ≡ none
unfolding time_in
time_in-absent id [] h = refl
time_in-absent id (e ∷ entries) h = ground (arith, time_in-absent id entries)

time_in-Perm :
    (id : ℕ) {xs ys : List Entry} → Permᴰ xs ys → copies id xs ≤ 1 → time_in id xs ≡ time_in id ys
unfolding time_in
time_in-Perm id Permᴰ.nil h = refl
time_in-Perm id (Permᴰ.cons {a = a} e p) h = ground (
  arith,
  time_in-Perm id p (omega arith),
  ap (λ (x : Entry). x.id) e,
  ap (λ (x : Entry). x.fire_at) e,
)
time_in-Perm id (Permᴰ.swap {a = a} {b = b} e e') h = ground (
  arith,
  ap (λ (x : Entry). x.id) e,
  ap (λ (x : Entry). x.fire_at) e,
  ap (λ (x : Entry). x.id) e',
  ap (λ (x : Entry). x.fire_at) e',
)
time_in-Perm id (Permᴰ.trans p q) h =
    time_in-Perm id p h ∙ time_in-Perm id q (omega (arith, weigh-Perm (is_entry id) p))

pub All-Perm {ℓ κ} :
    {A : Type ℓ} (P : A → Type κ) {xs ys : List A} → Permᴰ xs ys → All P ys → All P xs
All-Perm P Permᴰ.nil h = h
All-Perm P (Permᴰ.cons e p) (h, t) = (subst P (sym e) h, All-Perm P p t)
All-Perm P (Permᴰ.swap e e') (h, (h', t)) = (subst P (sym e) h', (subst P (sym e') h, t))
All-Perm P (Permᴰ.trans p q) h = All-Perm P p (All-Perm P q h)

module _ (w : PriorityQueue) where
  pub time_in-put :
      (id : ℕ) (e : Entry) (q : w.Queue)
      → Unique (w.contents q)
      → copies e.id (w.contents q) ≡ 0
      → time_in id (w.contents (w.put e q))
        ≡ (if e.id == id then some e.fire_at else time_in id (w.contents q))
  unfolding time_in
  time_in-put id e q u h = time_in-Perm id (w.put-Perm e q h) (put-Unique w e q u h id)

  pub time_in-get :
      (id : ℕ) {e : Entry} {q rest : w.Queue}
      → Unique (w.contents q)
      → w.get q ≡ some (e, rest)
      → time_in id (w.contents q)
        ≡ (if e.id == id then some e.fire_at else time_in id (w.contents rest))
  unfolding time_in
  time_in-get id u h = time_in-Perm id (w.get-Perm h) (u id)

  -- Once an entry is popped and requeued it waits for the trigger's next answer.
  pub time_in-requeue :
      (id : ℕ) (o : Option ℕ) {e : Entry} {q rest : w.Queue}
      → Unique (w.contents q)
      → w.get q ≡ some (e, rest)
      → time_in id (w.contents (requeue w e o rest))
        ≡ (if e.id == id then o else time_in id (w.contents rest))
  time_in-requeue id none {e} u h =
      ground (arith, time_in-absent e.id (w.contents _) (get-absent w u h))
  time_in-requeue id (some next) {e} {rest = rest} u h =
      time_in-put id (record e { fire_at = next }) rest (get-Unique w u h) (get-absent w u h)
