-- ===== src/Connect/Client/Routes.antt =====
-- The routes of internal/connect/send.go: every id that events are routed by is one that the current
-- connection was sent.
use mathlib.Core.Path.{subst}
use native.Mathlib.Decide.{ℕ_discrete}
use go_ha.Prelude.{
  ℕ, ◌+◌, ◌<◌, ◌≡◌, refl, sym, ap, ◌∙◌, ◌&&◌, Option, none, some, List, [], ◌∷◌, ◌++◌, arith, ◌==◌,
  if◌then◌else◌,
}
use go_ha.Prelude.{weigh}
use go_ha.Prelude.Table.{find, put, drop, find-put, find-drop, find-empty, drop-empty}
use go_ha.Connect.Options.{Options}
use go_ha.Connect.Client.Steps.{Stable, Reach-Stable}
use go_ha.Connect.Client.{
  Kind, request, stream, Sent, Client, new_client, begin_on, add_subscription, undo, deliver,
  cancel_pending, Reach,
}
use go_ha.Connect.Client.Tidiness.{in_flight, line, is_stream}

-- A message asks the given connection to stream events to subscription `i` under an id.
abbrev pub is_stream_of : ℕ → ℕ → ℕ → Sent → ℕ
is_stream_of g id i s = if s.conn == g && s.id == id && is_stream i s.kind then 1 else 0

abbrev pub handed : ℕ → ℕ → ℕ → List Sent → ℕ
handed g id i sent = weigh (is_stream_of g id i) sent

-- What holds of the connection, its generation, the routes and the line.
pub record Routed (g : ℕ) (conn : Option ℕ) (routes : List (ℕ × ℕ)) (sent : List Sent)
    : Type 0 where
  pub current : (k : ℕ) → conn ≡ some k → k ≡ g
  pub off : conn ≡ none → routes ≡ []
  pub sent_to : (id i : ℕ) → find id routes ≡ some i → 0 < handed g id i sent

abbrev IsRouted : Client → Type 0
IsRouted c = Routed c.gen c.conn c.routes (line c)

nowhere : (id i : ℕ) {routes : List (ℕ × ℕ)} → routes ≡ [] → find id routes ≡ some i → ⊥
nowhere id i e h = let clash : none ≡ some i = sym (find-empty id) ∙ sym (ap (find id) e) ∙ h in cc

module _ {g : ℕ} {conn : Option ℕ} {routes : List (ℕ × ℕ)} {sent : List Sent}
    (v : Routed g conn routes sent) where
  more-Routed : (s : Sent) → Routed g conn routes (s ∷ sent)
  more-Routed s = record {
    current = v.current;
    off = v.off;
    sent_to = λ id i e. omega (arith, v.sent_to id i e);
  }

  stream-Routed :
      (k n i : ℕ)
      → conn ≡ some k
      → Routed g conn (put n i routes) (record { conn = k; id = n; kind = stream i } ∷ sent)
  stream-Routed k n i e = record {
    current = v.current;
    off = λ h. cc;
    sent_to = λ id j h. elim (ℕ_discrete n id) [
      | yes p ↦ ground (arith, p, h, find-put n id i routes, v.current k e)
      | no p ↦ ground (arith, p, h, find-put n id i routes, v.sent_to id j)
    ];
  }

  connect-Routed : conn ≡ none → Routed (g + 1) (some (g + 1)) routes sent
  connect-Routed e = record {
    current = λ k h. cc;
    off = λ h. cc;
    sent_to = λ id i h. absurd (nowhere id i (v.off e) h);
  }

tear-Routed :
    {g : ℕ} {conn : Option ℕ} {routes : List (ℕ × ℕ)} {sent : List Sent}
    → Routed g conn routes sent
    → Routed g none [] sent
tear-Routed v = record {
  current = λ k h. cc;
  off = λ h. refl;
  sent_to = λ id i h. absurd (nowhere id i refl h);
}

module _ {g : ℕ} {conn : Option ℕ} {routes : List (ℕ × ℕ)} {rest : List Sent} (s : Sent)
    (v : Routed g conn routes (s ∷ rest)) where
  lose-Routed : s.kind ≡ request → Routed g conn routes rest
  lose-Routed e = record {
    current = v.current;
    off = v.off;
    sent_to = λ id i h. ground (arith, v.sent_to id i h, ap (is_stream i) e);
  }

  forget-Routed : Routed g conn (drop s.id routes) rest
  forget-Routed = record {
    current = v.current;
    off = λ h. ap (drop s.id) (v.off h) ∙ drop-empty s.id;
    sent_to = λ id i h. elim (ℕ_discrete s.id id) [
      | yes p ↦ ground (arith, p, h, find-drop s.id id routes)
      | no p ↦ ground (arith, p, h, find-drop s.id id routes, v.sent_to id i)
    ];
  }

idle : (c : Client) → c.writer ≡ none → IsRouted c → Routed c.gen c.conn c.routes c.wire
idle c e v = subst (λ w. Routed c.gen c.conn c.routes (in_flight w ++ c.wire)) e v

busy :
    (c : Client) (s : Sent)
    → c.writer ≡ some s
    → IsRouted c
    → Routed c.gen c.conn c.routes (s ∷ c.wire)
busy c s e v = subst (λ w. Routed c.gen c.conn c.routes (in_flight w ++ c.wire)) e v

undo-IsRouted :
    (c : Client) (s : Sent) (k : Kind)
    → c.writer ≡ some s
    → s.kind ≡ k
    → IsRouted c
    → IsRouted (undo k s.id c)
unfolding undo
undo-IsRouted c s request e ek v = lose-Routed s (busy c s e v) ek
undo-IsRouted c s (stream i) e ek v = forget-Routed s (busy c s e v)

IsRouted-Stable : Stable IsRouted
unfolding begin_on add_subscription deliver cancel_pending
IsRouted-Stable = record {
  no_conn = λ c who ew ec v. v;
  begun = λ c who k ew ec v. more-Routed (idle c ew v) _;
  added = λ c type handler v. v;
  established = λ c k i s ew ec at ne v. stream-Routed (idle c ew v) k (c.next_id + 1) i ec;
  sent = λ c s ew v. busy c s ew v;
  undone = undo-IsRouted;
  connected = λ c ec v. connect-Routed v ec;
  torn = λ c k ec v. tear-Routed v;
  delivered = λ c id who e v. v;
  queued = λ c m l v. v;
  shed = λ c m l v. v;
  took = λ c m rest e v. v;
  looked = λ c j t e v. v;
  cancelled = λ c id v. v;
}

Reach-IsRouted : {o : Options} {c : Client} → Reach o c → IsRouted c
unfolding new_client
Reach-IsRouted {o} r = Reach-Stable IsRouted IsRouted-Stable routed r
  where
    routed : IsRouted (new_client o)
    routed = record {
      current = λ k h. cc;
      off = λ h. refl;
      sent_to = λ id i h. absurd (nowhere id i refl h);
    }

-- On every state that the client reaches: where the id of an event is routed to a subscription, the
-- request for that subscription's stream was sent under this id on the current connection, which is there.
-- An event that names an id of an earlier connection thus reaches no handler of that connection.
pub route_current :
    {o : Options} {c : Client} (id i : ℕ)
    → Reach o c
    → find id c.routes ≡ some i
    → (c.conn ≡ some c.gen) × (0 < handed c.gen id i (line c))
route_current {c = c} id i r h = (there c.conn refl, (Reach-IsRouted r).sent_to id i h)
  where
    there : (x : Option ℕ) → c.conn ≡ x → c.conn ≡ some c.gen
    there none e = absurd (nowhere id i ((Reach-IsRouted r).off e) h)
    there (some k) e = e ∙ ap some ((Reach-IsRouted r).current k e)
