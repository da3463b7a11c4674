-- ===== src/Connect/Client/Established.antt =====
-- internal/connect/send.go: what `resubscribe` achieves.
use mathlib.Core.Path.{subst}
use native.Mathlib.Decide.{ℕ_discrete}
use go_ha.Prelude.{
  ℕ, zero, suc, ◌+◌, ◌≤◌, ◌<◌, ◌≡◌, refl, sym, ap, ◌∙◌, inl, inr, Bool, true, false, Option, none,
  some, List, [], ◌∷◌, arith, ◌==◌, if◌then◌else◌, length, lt→ltb,
}
use go_ha.Prelude.{get_elem?, set}
use go_ha.Prelude.Table.{put}
use go_ha.Connect.Options.{Options}
use go_ha.Connect.Client.{
  log_failure, Subscription, stream, Client, may_write, establish_on, establish_sub, establish,
  Reach,
}
use go_ha.Connect.Client.{settle, settled, replay, resubscribe, id_end}
use go_ha.Connect.Client.Tidiness.{line, streams}
use go_ha.Connect.Client.Replay.{IsLive, IsLive-Stable, Reach-IsLive, set_cases}

get_elem?-there :
    {A : Type 0} (xs : List A) (n : ℕ) → n < length xs → (x : A) × (get_elem? xs n ≡ some x)
get_elem?-there [] n l = absurd (omega arith)
get_elem?-there (x ∷ xs) zero l = (x, refl)
get_elem?-there (x ∷ xs) (suc n) l = get_elem?-there xs n (omega arith)

length-set : {A : Type 0} (xs : List A) (i : ℕ) (v : A) → length (set xs i v) ≡ length xs
length-set [] i v = refl
length-set (x ∷ xs) zero v = refl
length-set (x ∷ xs) (suc i) v = ap suc (length-set xs i v)

-- After `n` subscriptions of `size`, on connection `k`, with ids from `m` on.
record Replayed (k m size n : ℕ) (c : Client) : Type 0 where
  live : IsLive c
  unoccupied : c.writer ≡ none
  on : c.conn ≡ some k
  room : c.next_id ≤ m + n
  same_size : length c.subs ≡ size
  marked : (i : ℕ) (s : Subscription) → i < n → get_elem? c.subs i ≡ some s → s.gen ≡ c.gen

abbrev gen_at : Option Subscription → ℕ
gen_at none = 0
gen_at (some s) = s.gen

settle-idle : (c : Client) → c.writer ≡ none → settle c.writer c ≡ c
settle-idle c h = ap (λ f. settle f c) h

module _ {k m size n : ℕ} {c : Client} (v : Replayed k m size n c) (s : Subscription)
    (at : get_elem? c.subs n ≡ some s) where
  -- The state when the stream has been sent.
  abbrev sent_on : Client
  sent_on = record c {
    next_id = c.next_id + 1;
    pending = put (c.next_id + 1) log_failure c.pending;
    routes = put (c.next_id + 1) n c.routes;
    subs = set c.subs n (record s { gen = c.gen });
    writer = none;
    wire = record { conn = k; id = c.next_id + 1; kind = stream n } ∷ c.wire;
  }

  -- The state while the stream is sent.
  abbrev sending : Client
  sending = record sent_on {
    writer = some (record { conn = k; id = c.next_id + 1; kind = stream n });
    wire = c.wire;
  }

  keep-Replayed : (s.gen == c.gen) ≡ true → Replayed k m size (n + 1) c
  keep-Replayed e = record {
    live = v.live;
    unoccupied = v.unoccupied;
    on = v.on;
    room = omega (arith, v.room);
    same_size = v.same_size;
    marked = λ i x l h. elim (ℕ_discrete i n) [
      | yes p ↦ ground (arith, ap gen_at (sym h ∙ ap (get_elem? c.subs) p ∙ at), e)
      | no p ↦ v.marked i x (omega (arith, l, p)) h
    ];
  }

  sent-Replayed : (s.gen == c.gen) ≡ false → Replayed k m size (n + 1) sent_on
  sent-Replayed e = record {
    live =
        IsLive-Stable.sent sending (record { conn = k; id = c.next_id + 1; kind = stream n }) refl
          (IsLive-Stable.established c k n s v.unoccupied v.on at e v.live);
    unoccupied = refl;
    on = v.on;
    room = omega (arith, v.room);
    same_size = length-set c.subs n (record s { gen = c.gen }) ∙ v.same_size;
    marked = λ i x l h. elim (set_cases v.live.1 n i s (record s { gen = c.gen }) x at h) [
      | inl (p, q) ↦ ap (λ y. y.gen) q
      | inr (p, q) ↦ v.marked i x (ground (arith, p, l)) q
    ];
  }

  settled-Replayed :
      (b : Bool)
      → (s.gen == c.gen) ≡ b
      → (d : Client) × (settled (some (establish_on (some k) n s c)) ≡ some d)
        × Replayed k m size (n + 1) d
  unfolding establish_on
  settled-Replayed true e = (c, rw e (ap some (settle-idle c v.unoccupied)), keep-Replayed e)
  settled-Replayed false e = (sent_on, rw e refl, sent-Replayed e)

  establish-eq : m + n + 1 < id_end → establish n c ≡ some (establish_on (some k) n s c)
  unfolding establish establish_sub
  establish-eq l =
      ap (λ x. establish_sub x n c) at
      ∙ ap (λ b. if b then some (establish_on c.conn n s c) else none) may
      ∙ ap (λ o. some (establish_on o n s c)) v.on
    where
      may : may_write c.writer c.next_id ≡ true
      may =
          ap (λ f. may_write f c.next_id) v.unoccupied
          ∙ lt→ltb (c.next_id + 1) id_end (omega (arith, l, v.room))

replay-Replayed :
    (k m size n : ℕ) (c : Client)
    → Replayed k m size n c
    → n < size
    → m + n + 1 < id_end
    → (d : Client) × (replay n (some c) ≡ some d) × Replayed k m size (n + 1) d
replay-Replayed k m size n c v l r =
    let (s, at) = get_elem?-there c.subs n (omega (arith, l, v.same_size)) in
    let (d, e, u) = settled-Replayed v s at (s.gen == c.gen) refl in
    (d, ap settled (establish-eq v s at r) ∙ e, u)

resubscribe-Replayed :
    (k m size : ℕ) (c : Client) (n : ℕ)
    → Replayed k m size 0 c
    → n ≤ size
    → m + n < id_end
    → (d : Client) × (resubscribe n c ≡ some d) × Replayed k m size n d
unfolding resubscribe
resubscribe-Replayed k m size c zero v l r = (c, refl, v)
resubscribe-Replayed k m size c (suc n) v l r =
    let (d, e, u) = resubscribe-Replayed k m size c n v (omega arith) (omega arith) in
    let (d', e', u') = replay-Replayed k m size n d u (omega arith) (omega arith) in
    (d', ap (replay n) e ∙ e', subst (λ x. Replayed k m size x d') (omega arith) u')

-- From every state that the client reaches in which it has a connection and nobody is writing, with ids
-- enough left: a replay of all subscriptions, if every write succeeds and nobody comes between, ends with
-- exactly one stream for each subscription on the connection.
pub resubscribe-streams :
    {o : Options} {c : Client} (k : ℕ)
    → Reach o c
    → c.conn ≡ some k
    → c.writer ≡ none
    → c.next_id + length c.subs < id_end
    → (d : Client) × (resubscribe (length c.subs) c ≡ some d)
      × ((i : ℕ) → i < length c.subs → streams k i (line d) ≡ 1)
resubscribe-streams {c = c} k r on idle room =
    let v =
      resubscribe-Replayed k c.next_id (length c.subs) c (length c.subs) begun (omega arith) room in
    let u = v.2 in
    (
      v.0,
      v.1,
      λ i l.
          let (s, at) = get_elem?-there v.0.subs i (omega (arith, l, u.same_size)) in
          let here : k ≡ v.0.gen = u.live.0.current k u.on in
          let most = u.live.0.once k i in
          let least = u.live.1.sent_on i s at (u.marked i s l at) in
          omega (arith, most, least, ap (λ x. streams x i (line v.0)) here),
    )
  where
    begun : Replayed k c.next_id (length c.subs) 0 c
    begun = record {
      live = Reach-IsLive r;
      unoccupied = idle;
      on = on;
      room = omega arith;
      same_size = refl;
      marked = λ i s l at. absurd (omega (arith, l));
    }
