-- ===== src/Connect/Client/Replay.antt =====
-- internal/connect/send.go: a replay leaves every subscription with a stream on the connection.
use mathlib.Core.Path.{subst}
use go_ha.Prelude.{
  ℕ, ◌+◌, ◌≤◌, ◌≡◌, refl, sym, ap, ◌⊎◌, inl, inr, false, Option, none, some, List, [], ◌∷◌, ◌++◌,
  arith, ◌==◌,
}
use go_ha.Prelude.{get_elem?, set, get_elem?-set, get_elem?-append_cases}
use go_ha.Connect.Options.{Options}
use go_ha.Connect.Client.Steps.{Stable, Reach-Stable}
use go_ha.Connect.Client.{
  Subscription, Kind, request, stream, Sent, Client, new_client, begin_on, add_subscription, forget,
  undo, deliver, cancel_pending, Reach, start,
}
use go_ha.Connect.Client.Tidiness.{in_flight, line, is_stream, streams, IsTidy}
use go_ha.Connect.Client.Wire.{IsTidy-Stable, Reach-IsTidy}

-- What holds of the generation, the subscriptions and the line: a subscription that is marked as
-- established on the current connection has a stream there.
pub record Covered (g : ℕ) (subs : List Subscription) (sent : List Sent) : Type 0 where
  pub positive : 1 ≤ g
  pub old : (i : ℕ) (s : Subscription) → get_elem? subs i ≡ some s → s.gen ≤ g
  pub sent_on :
      (i : ℕ) (s : Subscription) → get_elem? subs i ≡ some s → s.gen ≡ g → 1 ≤ streams g i sent

abbrev pub IsCovered : Client → Type 0
IsCovered c = Covered c.gen c.subs (line c)

module _ {g : ℕ} {subs : List Subscription} {sent : List Sent} (v : Covered g subs sent) where
  more-Covered : (x : Sent) → Covered g subs (x ∷ sent)
  more-Covered x = record {
    positive = v.positive;
    old = v.old;
    sent_on = λ i s at e. omega (arith, v.sent_on i s at e);
  }

  append-Covered : (x : Subscription) → x.gen ≡ 0 → Covered g (subs ++ x ∷ []) sent
  append-Covered x z = record {
    positive = v.positive;
    old = λ i s at. elim (get_elem?-append_cases subs x i s at) [
      | inl (p, q) ↦ omega (arith, ap (λ y. y.gen) q, z)
      | inr h ↦ v.old i s h
    ];
    sent_on = λ i s at e. elim (get_elem?-append_cases subs x i s at) [
      | inl (p, q) ↦ absurd (omega (arith, ap (λ y. y.gen) q, z, e, v.positive))
      | inr h ↦ v.sent_on i s h e
    ];
  }

  pub set_cases :
      (i j : ℕ) (x y s : Subscription)
      → get_elem? subs i ≡ some x
      → get_elem? (set subs i y) j ≡ some s
      → ((i ≡ j) × (s ≡ y)) ⊎ (((i == j) ≡ false) × (get_elem? subs j ≡ some s))
  set_cases i j x y s at h = ground (arith, get_elem?-set subs i j y x at)

  -- A new subscription entry at a place, when its stream was just sent.
  set-Covered :
      (i n : ℕ) (x y : Subscription)
      → get_elem? subs i ≡ some x
      → y.gen ≡ g
      → Covered g (set subs i y) (record { conn = g; id = n; kind = stream i } ∷ sent)
  set-Covered i n x y at e = record {
    positive = v.positive;
    old = λ j s h. elim (set_cases i j x y s at h) [
      | inl (p, q) ↦ omega (arith, ap (λ z. z.gen) q, e)
      | inr (p, k) ↦ v.old j s k
    ];
    sent_on = λ j s h m. elim (set_cases i j x y s at h) [
      | inl (p, q) ↦ ground (arith, p)
      | inr (p, k) ↦ omega (arith, v.sent_on j s k m)
    ];
  }

  next-Covered : Covered (g + 1) subs sent
  next-Covered = record {
    positive = omega arith;
    old = λ i s at. omega (arith, v.old i s at);
    sent_on = λ i s at e. absurd (omega (arith, v.old i s at, e));
  }

module _ {g : ℕ} {subs : List Subscription} {rest : List Sent} (x : Sent)
    (v : Covered g subs (x ∷ rest)) where
  lose-Covered : x.kind ≡ request → Covered g subs rest
  lose-Covered e = record {
    positive = v.positive;
    old = v.old;
    sent_on = λ i s at m. ground (arith, v.sent_on i s at m, ap (is_stream i) e);
  }

  forget-Covered : (i : ℕ) → x.kind ≡ stream i → Covered g (forget (get_elem? subs i) i subs) rest
  forget-Covered i e = forgotten (get_elem? subs i) refl
    where
      forgotten :
          (o : Option Subscription) → get_elem? subs i ≡ o → Covered g (forget o i subs) rest
      forgotten none h = record {
        positive = v.positive;
        old = v.old;
        sent_on = λ j s at m. ground (arith, v.sent_on j s at m, ap (is_stream j) e, at, h);
      }
      forgotten (some y) h = record {
        positive = v.positive;
        old = λ j s k. elim (set_cases v i j y (record y { gen = 0 }) s h k) [
          | inl (p, q) ↦ omega (arith, ap (λ z. z.gen) q)
          | inr (p, l) ↦ v.old j s l
        ];
        sent_on = λ j s k m. elim (set_cases v i j y (record y { gen = 0 }) s h k) [
          | inl (p, q) ↦ absurd (omega (arith, ap (λ z. z.gen) q, m, v.positive))
          | inr (p, l) ↦ ground (arith, v.sent_on j s l m, ap (is_stream j) e, p)
        ];
      }

abbrev pub IsLive : Client → Type 0
IsLive c = IsTidy c × IsCovered c

idle : (c : Client) → c.writer ≡ none → IsCovered c → Covered c.gen c.subs c.wire
idle c e v = subst (λ w. Covered c.gen c.subs (in_flight w ++ c.wire)) e v

busy : (c : Client) (s : Sent) → c.writer ≡ some s → IsCovered c → Covered c.gen c.subs (s ∷ c.wire)
busy c s e v = subst (λ w. Covered c.gen c.subs (in_flight w ++ c.wire)) e v

undo-IsCovered :
    (c : Client) (s : Sent) (k : Kind)
    → c.writer ≡ some s
    → s.kind ≡ k
    → IsCovered c
    → IsCovered (undo k s.id c)
unfolding undo
undo-IsCovered c s request e ek v = lose-Covered s (busy c s e v) ek
undo-IsCovered c s (stream i) e ek v = forget-Covered s (busy c s e v) i ek

established-IsCovered :
    (c : Client) (k i : ℕ) (s : Subscription)
    → c.writer ≡ none
    → k ≡ c.gen
    → get_elem? c.subs i ≡ some s
    → IsCovered c
    → Covered c.gen
        (set c.subs i (record s { gen = c.gen }))
        (record { conn = k; id = c.next_id + 1; kind = stream i } ∷ c.wire)
established-IsCovered c k i s ew ek at v =
    subst
      (λ x.
        Covered c.gen (set c.subs i (record s { gen = c.gen }))
          (record { conn = x; id = c.next_id + 1; kind = stream i } ∷ c.wire))
      (sym ek) (set-Covered (idle c ew v) i (c.next_id + 1) s (record s { gen = c.gen }) at refl)

pub IsLive-Stable : Stable IsLive
unfolding begin_on add_subscription deliver cancel_pending
IsLive-Stable = record {
  no_conn = λ c who ew ec (t, v). (IsTidy-Stable.no_conn c who ew ec t, v);
  begun =
      λ c who k ew ec (t, v). (IsTidy-Stable.begun c who k ew ec t, more-Covered (idle c ew v) _);
  added = λ c type handler (t, v). (IsTidy-Stable.added c type handler t, append-Covered v _ refl);
  established = λ c k i s ew ec at ne (t, v). (
    IsTidy-Stable.established c k i s ew ec at ne t,
    established-IsCovered c k i s ew (t.current k ec) at v,
  );
  sent = λ c s ew (t, v). (IsTidy-Stable.sent c s ew t, busy c s ew v);
  undone = λ c s k ew ek (t, v). (IsTidy-Stable.undone c s k ew ek t, undo-IsCovered c s k ew ek v);
  connected = λ c ec (t, v). (IsTidy-Stable.connected c ec t, next-Covered v);
  torn = λ c k ec (t, v). (IsTidy-Stable.torn c k ec t, v);
  delivered = λ c id who e v. v;
  queued = λ c m l v. v;
  shed = λ c m l v. v;
  took = λ c m rest e v. v;
  looked = λ c j t e v. v;
  cancelled = λ c id v. v;
}

pub Reach-IsLive : {o : Options} {c : Client} → Reach o c → IsLive c
unfolding new_client
Reach-IsLive {o} r = Reach-Stable IsLive IsLive-Stable (Reach-IsTidy {o = o} start, covered) r
  where
    covered : IsCovered (new_client o)
    covered = record { positive = omega arith; old = λ i s at. cc; sent_on = λ i s at e. cc }
