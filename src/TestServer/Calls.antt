-- ===== src/TestServer/Calls.antt =====
-- hatest/server.go and services/*.go together: a call that a service method sends is the call that the
-- server reports.
use mathlib.Core.List.{append_assoc, append-nil}
use mathlib.Core.Option as Option
use go_ha.Prelude.{
  ℕ, ◌≤◌, ◌^◌, String, str_eq, eq_iff, ◌≡◌, refl, sym, ap, ◌∙◌, Option, none, some, List, [], ◌∷◌,
  ◌++◌, map, Bool-cases, inl, inr, All, if◌then◌else◌,
}
use go_ha.Json.{
  text, Fields, empty, field, Data, omit_empty, member, as_text, as_data, decoded, decoded_fields,
}
use go_ha.Services.{Request, call_service, fire_event, ServiceTarget, encode, target_members}
use go_ha.TestServer.{ServiceCall, Server}
use go_ha.TestServer.Protocol.{
  read_call, record_call, target_entity, success, serve_message, read_loop,
}

abbrev entity_of : Option ServiceTarget → String
entity_of none = ""
entity_of (some t) = t.entity_id

-- A map that came over the wire: an empty one was omitted.
abbrev shown : Data → Data
shown none = none
shown (some empty) = none
shown (some (field key value rest)) = some (field key value rest)

-- The call that a request asks for, if any; the server reads the data from JSON.
abbrev pub asked : (ℕ → ℕ) → Request → List ServiceCall
asked to_float (call_service r) =
    record {
      domain = r.domain;
      service = r.service;
      entity_id = entity_of r.target;
      service_data = Option.map (decoded_fields to_float) (shown r.service_data);
    }
    ∷ []
asked to_float (fire_event r) = []

abbrev pub all_asked : (ℕ → ℕ) → List Request → List ServiceCall
all_asked to_float [] = []
all_asked to_float (r ∷ rest) = asked to_float r ++ all_asked to_float rest

abbrev pub id_of : Request → ℕ
id_of (call_service r) = r.id
id_of (fire_event r) = r.id

-- The type that the constructors of requests give them.
abbrev pub IsTyped : Request → Type 0
IsTyped (call_service r) = r.request_type ≡ "call_service"
IsTyped (fire_event r) = r.type ≡ "fire_event"

named :
    (to_float : ℕ → ℕ) (e : String)
    → as_text (
        member "entity_id" (
          decoded_fields to_float
            (if str_eq e "" then empty else field "entity_id" (text e) empty)))
      ≡ e
unfolding member decoded
named to_float e = elim (Bool-cases (str_eq e "")) [
  | inl h ↦ rw h (sym ((eq_iff e "").0 h))
  | inr h ↦ rw h refl
]

-- What the server makes of the last members of a call.
abbrev received : String → String → Fields → ServiceCall
received domain service rest = record {
  domain = domain;
  service = service;
  entity_id = target_entity (as_data (member "target" rest));
  service_data = as_data (member "service_data" rest);
}

abbrev made : String → String → String → Data → ServiceCall
made domain service e values = record {
  domain = domain;
  service = service;
  entity_id = e;
  service_data = values;
}

received-made :
    (to_float : ℕ → ℕ) (domain service : String) (d : Data) (t : Option ServiceTarget)
    → received domain service
        (decoded_fields to_float (omit_empty "service_data" d (target_members t)))
      ≡ made domain service (entity_of t) (Option.map (decoded_fields to_float) (shown d))
unfolding member decoded
received-made to_float domain service none none = refl
received-made to_float domain service (some empty) none = refl
received-made to_float domain service (some (field key value rest)) none = refl
received-made to_float domain service none (some t) =
    ap (λ e. made domain service e none) (named to_float t.entity_id)
received-made to_float domain service (some empty) (some t) =
    ap (λ e. made domain service e none) (named to_float t.entity_id)
received-made to_float domain service (some (field key value rest)) (some t) =
    ap (λ e. made domain service e (some (decoded_fields to_float (field key value rest))))
      (named to_float t.entity_id)

-- A request has the type its constructor gives it, and an id that comes back as it was: a float64 holds it.
abbrev pub IsSendable : Request → Type 0
IsSendable r = IsTyped r × (id_of r ≤ 2 ^ 53)

-- What the server reads of a request.
abbrev pub sent : (ℕ → ℕ) → Request → Fields
sent to_float r = decoded_fields to_float (encode r)

module _ (to_float truncate : ℕ → ℕ) (exact : (n : ℕ) → n ≤ 2 ^ 53 → truncate (to_float n) ≡ n)
    (to : ℕ) where
  serve_message-calls :
      (r : Request) (s : Server)
      → IsTyped r
      → (serve_message truncate to (sent to_float r) s).0.calls ≡ s.calls ++ asked to_float r
  unfolding serve_message encode member record_call read_call decoded
  serve_message-calls (call_service r) s h = rw h (
      ap (λ c. s.calls ++ c ∷ [])
        (received-made to_float r.domain r.service r.service_data r.target))
  serve_message-calls (fire_event r) s h = rw h (sym (append-nil s.calls))

  serve_message-reply :
      (r : Request) (s : Server)
      → IsSendable r
      → (serve_message truncate to (sent to_float r) s).1 ≡ success (id_of r)
  unfolding serve_message encode member decoded
  serve_message-reply (call_service r) s (h, small) = rw h (ap success (exact r.id small))
  serve_message-reply (fire_event r) s (h, small) = rw h (ap success (exact r.id small))

  -- For all requests that have the type their constructor gives them, and ids of at most 2^53, which a
  -- float64 holds, sent as JSON one after another over a connection: the server reports, after the calls
  -- it had before, exactly the calls that they ask for, in order, with the domain, the service, the entity
  -- and the data of each, whose numbers are now float64s, and where an empty map of data is none; and each
  -- is answered by a successful result with its id, in order.
  pub read_loop-asked :
      (rs : List Request) (s : Server)
      → All IsSendable rs
      → ((read_loop truncate to (map (sent to_float) rs) s).0.calls
          ≡ s.calls ++ all_asked to_float rs)
        × ((read_loop truncate to (map (sent to_float) rs) s).1 ≡ map (λ r. success (id_of r)) rs)
  unfolding read_loop
  read_loop-asked [] s h = (sym (append-nil s.calls), refl)
  read_loop-asked (r ∷ rest) s (h, hs) =
      let d = (serve_message truncate to (sent to_float r) s).0 in
      let (calls, replies) = read_loop-asked rest d hs in
      (
        calls
            ∙ ap (λ c. c ++ all_asked to_float rest) (serve_message-calls r s h.0)
            ∙ append_assoc s.calls (asked to_float r) (all_asked to_float rest),
        ap (λ x. x ∷ (read_loop truncate to (map (sent to_float) rest) d).1)
              (serve_message-reply r s h)
            ∙ ap (λ x. success (id_of r) ∷ x) replies,
      )
