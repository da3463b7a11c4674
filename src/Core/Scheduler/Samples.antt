-- ===== src/Core/Scheduler/Samples.antt =====
-- A queue that meets the laws which core/scheduler.go relies on of its priority queue.
use mathlib.Core.List.{Permᴰ}
use mathlib.Core.List.Permᴰ
use mathlib.Core.Path.{subst}
use go_ha.Prelude.{
  ℕ, ◌≤◌, ◌≡◌, refl, sym, inl, inr, Option, none, some, List, [], ◌∷◌, arith, leb, if◌then◌else◌,
  Bool-cases, All,
}
use go_ha.Core.Scheduler.{Entry, priority, PriorityQueue, front}

-- An unsorted list, searched for its least entry.
abbrev sooner : Entry → Option (Entry × List Entry) → Option (Entry × List Entry)
sooner e none = some (e, [])
sooner e (some (m, rest)) =
    if leb (priority e) (priority m) then some (e, m ∷ rest) else some (m, e ∷ rest)

unfoldable pub pick : List Entry → Option (Entry × List Entry)
pick [] = none
pick (e ∷ entries) = sooner e (pick entries)

abbrev pub Picked : List Entry → Option (Entry × List Entry) → Type 0
Picked entries none = entries ≡ []
Picked entries (some (e, rest)) = Permᴰ entries (e ∷ rest) × All (λ x. priority e ≤ priority x) rest

least_mono :
    (a b : ℕ) (entries : List Entry)
    → a ≤ b
    → All (λ x. b ≤ priority x) entries
    → All (λ x. a ≤ priority x) entries
least_mono a b [] h n = n
least_mono a b (x ∷ entries) h (l, n) = (omega arith, least_mono a b entries h n)

sooner-Picked :
    (e : Entry) (entries : List Entry) (o : Option (Entry × List Entry))
    → Picked entries o
    → Picked (e ∷ entries) (sooner e o)
sooner-Picked e entries none h = (Permᴰ.cons refl (subst (λ es. Permᴰ es []) (sym h) Permᴰ.nil), tt)
sooner-Picked e entries (some (m, rest)) (p, n) =
    elim (Bool-cases (leb (priority e) (priority m))) [
      | inl t ↦ rw t (
        Permᴰ.cons refl p,
        (ground arith, least_mono (priority e) (priority m) rest (ground arith) n),
      )
      | inr f ↦ rw f (Permᴰ.trans (Permᴰ.cons refl p) (Permᴰ.swap refl refl), (ground arith, n))
    ]

pub pick-Picked : (entries : List Entry) → Picked entries (pick entries)
unfolding pick
pick-Picked [] = refl
pick-Picked (e ∷ entries) = sooner-Picked e entries (pick entries) (pick-Picked entries)

abbrev pub list_queue : PriorityQueue
list_queue = record {
  Queue = List Entry;
  empty = [];
  contents = λ q. q;
  put = λ e q. e ∷ q;
  get = pick;
  peek = λ q. front (pick q);
  get_all = λ q. q;
  contents-empty = refl;
  put-Perm = λ e q h. Permᴰ.refl (e ∷ q);
  get-none = λ q h. subst (Picked q) h (pick-Picked q);
  get-Perm = λ {q} h. (subst (Picked q) h (pick-Picked q)).0;
  get-least = λ {q} h. (subst (Picked q) h (pick-Picked q)).1;
  peek-get = λ q. refl;
  get_all-Perm = λ q. Permᴰ.refl q;
}
