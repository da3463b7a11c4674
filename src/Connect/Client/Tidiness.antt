-- ===== src/Connect/Client/Tidiness.antt =====
-- What internal/connect/send.go keeps true of the ids and the streams on the wire, change by change.
use mathlib.Core.Path.{subst}
use native.Mathlib.Decide.{ℕ_discrete, dec_lt}
use go_ha.Prelude.{
  ℕ, zero, suc, ◌+◌, ◌≤◌, ◌<◌, ◌≡◌, refl, sym, ap, ◌∙◌, Bool, true, false, ◌&&◌, Option, none, some,
  List, [], ◌∷◌, ◌++◌, arith, ◌==◌, if◌then◌else◌,
}
use go_ha.Prelude.{get_elem?, set, get_elem?-set, weigh}
use go_ha.Connect.Client.{Subscription, Kind, request, stream, Sent, Client, forget}

abbrev pub in_flight : Option Sent → List Sent
in_flight none = []
in_flight (some s) = s ∷ []

-- Everything handed to a connection, the message being written included, newest first.
abbrev pub line : Client → List Sent
line c = in_flight c.writer ++ c.wire

-- From the newest back: generations never rise, and ids strictly fall, from below `n`.
abbrev pub Falling : ℕ → ℕ → List Sent → Type 0
Falling g n [] = Unit {0}
Falling g n (s ∷ rest) = (s.conn ≤ g) × (s.id < n) × Falling s.conn s.id rest

abbrev pub is_stream : ℕ → Kind → Bool
is_stream i request = false
is_stream i (stream j) = j == i

abbrev pub streams_on : ℕ → ℕ → Sent → ℕ
streams_on k i s = if s.conn == k && is_stream i s.kind then 1 else 0

-- How often a subscription was sent on a connection.
abbrev pub streams : ℕ → ℕ → List Sent → ℕ
streams k i sent = weigh (streams_on k i) sent

abbrev pub Marked : ℕ → Option Subscription → Type 0
Marked g none = ⊥
Marked g (some s) = s.gen ≡ g

-- What holds of the generation, the ids given out, the connection, the subscriptions and the line.
pub record Tidy (g n : ℕ) (conn : Option ℕ) (subs : List Subscription) (sent : List Sent)
    : Type 0 where
  pub current : (k : ℕ) → conn ≡ some k → k ≡ g
  pub falling : Falling g (n + 1) sent
  pub once : (k i : ℕ) → streams k i sent ≤ 1
  pub marked : (i : ℕ) → 0 < streams g i sent → Marked g (get_elem? subs i)

abbrev pub IsTidy : Client → Type 0
IsTidy c = Tidy c.gen c.next_id c.conn c.subs (line c)

Falling-mono :
    (g h m n : ℕ) (sent : List Sent) → g ≤ h → m ≤ n → Falling g m sent → Falling h n sent
Falling-mono g h m n [] l l' f = tt
Falling-mono g h m n (s ∷ rest) l l' (a, b, f) = (omega arith, omega arith, f)

-- No stream is on a connection that is newer than all that was sent.
streams-newer : (g n k i : ℕ) (sent : List Sent) → Falling g n sent → g < k → streams k i sent ≡ 0
streams-newer g n k i [] f l = refl
streams-newer g n k i (s ∷ rest) (a, b, f) l = ground (arith, streams-newer s.conn s.id k i rest f)

Falling-up : (g n : ℕ) (sent : List Sent) → Falling g n sent → Falling g (n + 1) sent
Falling-up g n sent f = Falling-mono g g n (n + 1) sent (omega arith) (omega arith) f

Marked-append :
    (g i : ℕ) (subs : List Subscription) (s : Subscription)
    → Marked g (get_elem? subs i)
    → Marked g (get_elem? (subs ++ s ∷ []) i)
Marked-append g i [] s m = absurd m
Marked-append g zero (x ∷ subs) s m = m
Marked-append g (suc i) (x ∷ subs) s m = Marked-append g i subs s m

module _ {g n : ℕ} {conn : Option ℕ} {subs : List Subscription} {sent : List Sent}
    (v : Tidy g n conn subs sent) where
  -- An id is used up.
  pub skip-Tidy : Tidy g (n + 1) conn subs sent
  skip-Tidy = record {
    current = v.current;
    falling = Falling-up g (n + 1) sent v.falling;
    once = v.once;
    marked = v.marked;
  }

  pub request-Tidy :
      (k : ℕ)
      → conn ≡ some k
      → Tidy g (n + 1) conn subs (record { conn = k; id = n + 1; kind = request } ∷ sent)
  request-Tidy k e = record {
    current = v.current;
    falling = (
      omega (arith, v.current k e),
      omega arith,
      subst (λ x. Falling x (n + 1) sent) (sym (v.current k e)) v.falling,
    );
    once = λ k' i. ground (arith, v.once k' i);
    marked = λ i h. v.marked i (ground arith);
  }

  unmarked :
      (i : ℕ) (s : Subscription)
      → get_elem? subs i ≡ some s
      → (s.gen == g) ≡ false
      → streams g i sent ≡ 0
  unmarked i s at ne = elim (dec_lt 0 (streams g i sent)) [
    | yes h ↦ let m : s.gen ≡ g = subst (Marked g) at (v.marked i h) in absurd (ground arith)
    | no h ↦ omega arith
  ]

  collide :
      (k i k' i' : ℕ)
      → k ≡ g
      → streams g i sent ≡ 0
      → (k == k' && i == i') ≡ true
      → streams k' i' sent ≡ 0
  collide k i k' i' e z h =
      let ek : k' ≡ g = ground arith in
      let ei : i' ≡ i = ground arith in
      ap (λ a. streams a i' sent) ek ∙ ap (λ b. streams g b sent) ei ∙ z

  pub stream-Tidy :
      (k i : ℕ) (s : Subscription)
      → conn ≡ some k
      → get_elem? subs i ≡ some s
      → (s.gen == g) ≡ false
      → Tidy g
          (n + 1)
          conn
          (set subs i (record s { gen = g }))
          (record { conn = k; id = n + 1; kind = stream i } ∷ sent)
  stream-Tidy k i s e at ne = record {
    current = v.current;
    falling = (
      omega (arith, v.current k e),
      omega arith,
      subst (λ x. Falling x (n + 1) sent) (sym (v.current k e)) v.falling,
    );
    once = λ k' i'.
        ground (arith, v.once k' i', collide k i k' i' (v.current k e) (unmarked i s at ne));
    marked = λ i' h. elim (ℕ_discrete i i') [
      | yes p ↦ rw (get_elem?-set subs i i' (record s { gen = g }) s at) (ground (arith, p))
      | no p ↦
          rw (get_elem?-set subs i i' (record s { gen = g }) s at) (ground (arith, p, v.marked i'))
    ];
  }

  pub append-Tidy : (s : Subscription) → Tidy g n conn (subs ++ s ∷ []) sent
  append-Tidy s = record {
    current = v.current;
    falling = v.falling;
    once = v.once;
    marked = λ i h. Marked-append g i subs s (v.marked i h);
  }

  pub connect-Tidy : Tidy (g + 1) n (some (g + 1)) subs sent
  connect-Tidy = record {
    current = λ k h. cc;
    falling = Falling-mono g (g + 1) (n + 1) (n + 1) sent (omega arith) (omega arith) v.falling;
    once = v.once;
    marked = λ i h.
        absurd (omega (arith, streams-newer g (n + 1) (g + 1) i sent v.falling (omega arith)));
  }

  pub tear-Tidy : Tidy g n none subs sent
  tear-Tidy = record { current = λ k h. cc; falling = v.falling; once = v.once; marked = v.marked }

module _ {g n : ℕ} {conn : Option ℕ} {subs : List Subscription} {rest : List Sent} (s : Sent)
    (v : Tidy g n conn subs (s ∷ rest)) where
  -- The message at hand was not sent after all.
  pub lose-Tidy : Tidy g n conn subs rest
  lose-Tidy = record {
    current = v.current;
    falling =
        Falling-mono s.conn g s.id (n + 1) rest (omega (arith, v.falling.0))
          (omega (arith, v.falling.1)) v.falling.2;
    once = λ k i. omega (arith, v.once k i);
    marked = λ i h. v.marked i (omega (arith, h));
  }

  pub forget-Tidy :
      (i : ℕ) → s.kind ≡ stream i → Tidy g n conn (forget (get_elem? subs i) i subs) rest
  forget-Tidy i e = forgotten (get_elem? subs i) refl
    where
      gone : streams g i rest ≡ 0
      gone = elim (ℕ_discrete s.conn g) [
        | yes p ↦ ground (arith, v.once g i, ap (is_stream i) e, p)
        | no p ↦ streams-newer s.conn s.id g i rest v.falling.2 (omega (arith, v.falling.0, p))
      ]

      forgotten :
          (o : Option Subscription) → get_elem? subs i ≡ o → Tidy g n conn (forget o i subs) rest
      forgotten none h = lose-Tidy
      forgotten (some x) h = record {
        current = lose-Tidy.current;
        falling = lose-Tidy.falling;
        once = lose-Tidy.once;
        marked = λ i' m. elim (ℕ_discrete i i') [
          | yes p ↦ absurd (omega (arith, m, gone, ap (λ j. streams g j rest) p))
          | no p ↦
              rw (get_elem?-set subs i i' (record x { gen = 0 }) x h)
                (ground (arith, p, v.marked i'))
        ];
      }
