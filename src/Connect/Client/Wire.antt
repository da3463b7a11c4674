-- ===== src/Connect/Client/Wire.antt =====
-- What internal/connect/send.go puts on the wire: ids only grow, and a subscription has one stream.
use mathlib.Core.Path.{subst}
use go_ha.Prelude.{ℕ, ◌+◌, ◌≤◌, ◌≡◌, none, some, ◌∷◌, ◌++◌, arith}
use go_ha.Connect.Options.{Options}
use go_ha.Connect.Client.Steps.{Stable, Reach-Stable}
use go_ha.Connect.Client.{
  Kind, request, stream, Sent, Client, new_client, begin_on, add_subscription, undo, deliver,
  cancel_pending, Reach,
}
use go_ha.Connect.Client.Tidiness.{
  in_flight, line, Falling, streams, Tidy, IsTidy, skip-Tidy, request-Tidy, stream-Tidy,
  append-Tidy, connect-Tidy, tear-Tidy, lose-Tidy, forget-Tidy,
}

idle : (c : Client) → c.writer ≡ none → IsTidy c → Tidy c.gen c.next_id c.conn c.subs c.wire
idle c e v = subst (λ w. Tidy c.gen c.next_id c.conn c.subs (in_flight w ++ c.wire)) e v

busy :
    (c : Client) (s : Sent)
    → c.writer ≡ some s
    → IsTidy c
    → Tidy c.gen c.next_id c.conn c.subs (s ∷ c.wire)
busy c s e v = subst (λ w. Tidy c.gen c.next_id c.conn c.subs (in_flight w ++ c.wire)) e v

undo-IsTidy :
    (c : Client) (s : Sent) (k : Kind)
    → c.writer ≡ some s
    → s.kind ≡ k
    → IsTidy c
    → IsTidy (undo k s.id c)
unfolding undo
undo-IsTidy c s request e ek v = lose-Tidy s (busy c s e v)
undo-IsTidy c s (stream i) e ek v = forget-Tidy s (busy c s e v) i ek

pub IsTidy-Stable : Stable IsTidy
unfolding begin_on add_subscription deliver cancel_pending
IsTidy-Stable = record {
  no_conn = λ c who ew ec v. skip-Tidy v;
  begun = λ c who k ew ec v. request-Tidy (idle c ew v) k ec;
  added =
      λ c type handler v. append-Tidy v (record { event_type = type; handler = handler; gen = 0 });
  established = λ c k i s ew ec at ne v. stream-Tidy (idle c ew v) k i s ec at ne;
  sent = λ c s ew v. busy c s ew v;
  undone = undo-IsTidy;
  connected = λ c ec v. connect-Tidy v;
  torn = λ c k ec v. tear-Tidy v;
  delivered = λ c id who e v. v;
  queued = λ c m l v. v;
  shed = λ c m l v. v;
  took = λ c m rest e v. v;
  looked = λ c j t e v. v;
  cancelled = λ c id v. v;
}

pub Reach-IsTidy : {o : Options} {c : Client} → Reach o c → IsTidy c
unfolding new_client
Reach-IsTidy {o} r = Reach-Stable IsTidy IsTidy-Stable tidy r
  where
    tidy : IsTidy (new_client o)
    tidy = record {
      current = λ k h. cc;
      falling = tt;
      once = λ k i. omega arith;
      marked = λ i h. absurd (omega (arith, h));
    }

-- Whatever the goroutines do, and in whatever order: on every state that the client reaches, the ids of
-- the messages written are strictly greater than those written before them, none is greater than the
-- counter of `nextID`, and no message was written to an older connection than a message before it.
pub ids_rise : {o : Options} {c : Client} → Reach o c → Falling c.gen (c.next_id + 1) (line c)
ids_rise r = (Reach-IsTidy r).falling

-- Whatever the order of registrations, connections, losses and failed writes: on every state that the
-- client reaches, no subscription was sent more than once on one connection, the message being written
-- included. `Subscribe` and `resubscribe` may both try to establish it.
pub stream_once : {o : Options} {c : Client} → Reach o c → (k i : ℕ) → streams k i (line c) ≤ 1
stream_once r = (Reach-IsTidy r).once
