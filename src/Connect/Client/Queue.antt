-- ===== src/Connect/Client/Queue.antt =====
-- The event queue of internal/connect/client.go: no worker blocks the reader, and what is lost is counted.
use mathlib.Core.Path.{subst}
use mathlib.Core.List.{append_assoc, map-append}
use go_ha.Prelude.{
  ℕ, zero, suc, ◌+◌, ◌≤◌, ◌≡◌, refl, sym, ap, ◌∙◌, none, some, List, [], ◌∷◌, ◌++◌, map, arith,
  length, length-append,
}
use go_ha.Prelude.{get_elem?, set}
use go_ha.Prelude.Table.{find}
use go_ha.Connect.Message.{Message}
use go_ha.Connect.Options.{Options}
use go_ha.Connect.Client.Steps.{Stable, Reach-Stable}
use go_ha.Connect.Client.{
  Kind, request, stream, Sent, Client, new_client, begin_on, add_subscription, undo, deliver,
  cancel_pending, Reach,
}

-- The second list is the first without `n` of its messages, in the same order.
pub data Shed : ℕ → List Message → List Message → Type 0 where
  none_yet : Shed 0 [] []
  keep :
      {n : ℕ} {xs ys : List Message} (m : Message)
      → Shed n xs ys
      → Shed n (xs ++ m ∷ []) (ys ++ m ∷ [])
  lose :
      {n : ℕ} {xs ys : List Message} (m : Message) → Shed n xs ys → Shed (n + 1) (xs ++ m ∷ []) ys

-- The events that got past the queue's capacity, oldest first.
abbrev pub accepted : Client → List Message
accepted c = map (λ t. t.msg) c.taken ++ c.events

pub record Queued (c : Client) : Type 0 where
  pub bounded : length c.events ≤ c.capacity
  pub in_order : Shed c.dropped c.arrived (accepted c)

map-set :
    {A B : Type 0} (f : A → B) (xs : List A) (j : ℕ) (v x : A)
    → get_elem? xs j ≡ some x
    → f v ≡ f x
    → map f (set xs j v) ≡ map f xs
map-set f [] j v x at e = cc
map-set f (y ∷ xs) zero v x at e = cc
map-set f (y ∷ xs) (suc j) v x at e = ap (λ r. f y ∷ r) (map-set f xs j v x at e)

undo-Queued :
    (c : Client) (s : Sent) (k : Kind)
    → c.writer ≡ some s
    → s.kind ≡ k
    → Queued c
    → Queued (undo k s.id c)
unfolding undo
undo-Queued c s request e ek v = record { bounded = v.bounded; in_order = v.in_order }
undo-Queued c s (stream i) e ek v = record { bounded = v.bounded; in_order = v.in_order }

take-Queued :
    (c : Client) (m : Message) (rest : List Message)
    → c.events ≡ m ∷ rest
    → Queued c
    → Queued (record c { events = rest; taken = c.taken ++ record { msg = m; looked = none } ∷ [] })
take-Queued c m rest e v = record {
  bounded = omega (arith, v.bounded, ap length e);
  in_order =
      subst (Shed c.dropped c.arrived)
        (sym (
          ap (λ ms. ms ++ rest)
            (map-append (λ t. t.msg) c.taken (record { msg = m; looked = none } ∷ []))
          ∙ append_assoc (map (λ t. t.msg) c.taken) (m ∷ []) rest
          ∙ ap (λ ms. map (λ t. t.msg) c.taken ++ ms) (sym e)))
        v.in_order;
}

Queued-Stable : Stable Queued
unfolding begin_on add_subscription deliver cancel_pending
Queued-Stable = record {
  no_conn = λ c who ew ec v. record { bounded = v.bounded; in_order = v.in_order };
  begun = λ c who k ew ec v. record { bounded = v.bounded; in_order = v.in_order };
  added = λ c type handler v. record { bounded = v.bounded; in_order = v.in_order };
  established = λ c k i s ew ec at ne v. record { bounded = v.bounded; in_order = v.in_order };
  sent = λ c s ew v. record { bounded = v.bounded; in_order = v.in_order };
  undone = undo-Queued;
  connected = λ c ec v. record { bounded = v.bounded; in_order = v.in_order };
  torn = λ c k ec v. record { bounded = v.bounded; in_order = v.in_order };
  delivered = λ c id who e v. record { bounded = v.bounded; in_order = v.in_order };
  queued = λ c m l v. record {
    bounded = rw (length-append c.events (m ∷ [])) (omega (arith, l));
    in_order =
        subst (Shed c.dropped (c.arrived ++ m ∷ []))
          (append_assoc (map (λ t. t.msg) c.taken) c.events (m ∷ [])) (keep m v.in_order);
  };
  shed = λ c m l v. record { bounded = v.bounded; in_order = lose m v.in_order };
  took = take-Queued;
  looked = λ c j t e v. record {
    bounded = v.bounded;
    in_order =
        rw
          (map-set (λ x. x.msg) c.taken j (record t { looked = some (find t.msg.id c.routes) }) t e
            refl)
          v.in_order;
  };
  cancelled = λ c id v. record { bounded = v.bounded; in_order = v.in_order };
}

-- On every state that the client reaches: the queue holds at most `capacity` events, and the events that
-- workers took, followed by those in the queue, are all events that arrived, in the order of arrival, but
-- for exactly as many as `dropped` counts.
pub events_in_order :
    {o : Options} {c : Client}
    → Reach o c
    → (length c.events ≤ c.capacity)
      × Shed c.dropped c.arrived (map (λ t. t.msg) c.taken ++ c.events)
unfolding new_client
events_in_order {o} r =
    let v =
      Reach-Stable Queued Queued-Stable (record { bounded = omega arith; in_order = none_yet }) r in
    (v.bounded, v.in_order)
