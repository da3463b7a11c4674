-- ===== src/Connect/Client/Tests.antt =====
-- A run of the client of internal/connect: a subscription over two connections, and a request.
use mathlib.Core.Path.{subst}
use go_ha.Prelude.{
  ℕ, arith, ◌+◌, ◌≤◌, ◌<◌, ◌≡◌, refl, ap, true, Option, none, some, List, [], ◌∷◌, ◌++◌, map,
  length,
}
use go_ha.Prelude.Table.{find, put, drop}
use go_ha.Connect.Message.{Message}
use go_ha.Connect.Options.{default_options, with_defaults}
use go_ha.Connect.Client.{
  resubscribe, Client, caller, new_client, dispatch, add_subscription, establish, establish_sub,
  written, set_conn, teardown, deliver, route, take, look_up, Action, sends, subscribes,
  establishes, writes, connects, tears, receives, takes, looks, step, Reach, start, later,
}
use go_ha.Connect.Client.Tidiness.{Falling, streams, line}
use go_ha.Connect.Client.Wire.{ids_rise, stream_once}
use go_ha.Connect.Client.Answers.{Settled, answered_once}
use go_ha.Connect.Client.Routes.{handed, route_current}
use go_ha.Connect.Client.Established.{resubscribe-streams}
use go_ha.Connect.Client.Queue.{Shed, events_in_order}

abbrev run_on : Option Client → List Action → Option Client
run_on none actions = none
run_on (some c) [] = some c
run_on (some c) (a ∷ rest) = run_on (step c a) rest

abbrev state_of : Option Client → Client
state_of none = new_client default_options
state_of (some c) = c

run_on-Reach :
    (c d : Client) (actions : List Action)
    → Reach default_options c
    → run_on (some c) actions ≡ some d
    → Reach default_options d
run_on-Reach c d [] r e = subst (Reach default_options) (ap state_of e) r
run_on-Reach c d (a ∷ rest) r e = go (step c a) refl e (λ x q. run_on-Reach x d rest (later a r q))
  where
    go :
        (x : Option Client)
        → step c a ≡ x
        → run_on x rest ≡ some d
        → ((y : Client)
            → step c a ≡ some y
            → run_on (some y) rest ≡ some d
            → Reach default_options d)
        → Reach default_options d
    go none q h k = cc
    go (some x) q h k = k x q h

abbrev event : Message
event = record { id = 1; type = "event"; success = true; raw = "{}"; error = none }

abbrev result : Message
result = record { id = 2; type = "result"; success = true; raw = "{}"; error = none }

abbrev actions : List Action
actions =
    subscribes "state_changed" 7
    ∷ connects
    ∷ establishes 0
    ∷ writes true
    ∷ receives event
    ∷ takes
    ∷ looks 0
    ∷ sends (caller 3)
    ∷ writes true
    ∷ receives result
    ∷ tears
    ∷ connects
    ∷ establishes 0
    ∷ writes true
    ∷ receives event
    ∷ []

abbrev reached : Client
reached = state_of (run_on (some (new_client default_options)) actions)

reached-Reach : Reach default_options reached
unfolding step new_client dispatch add_subscription establish establish_sub written set_conn
    teardown deliver route take look_up with_defaults default_options find put drop
reached-Reach = run_on-Reach (new_client default_options) reached actions start refl

ids_rise_example : Falling reached.gen (reached.next_id + 1) (line reached)
ids_rise_example = ids_rise reached-Reach

stream_once_example : streams 3 0 (line reached) ≤ 1
stream_once_example = stream_once reached-Reach 3 0

answered_once_example : Settled reached.next_id reached.pending reached.answers
answered_once_example = answered_once reached-Reach

route_current_example :
    (reached.conn ≡ some reached.gen) × (0 < handed reached.gen 3 0 (line reached))
unfolding step new_client dispatch add_subscription establish establish_sub written set_conn
    teardown deliver route take look_up with_defaults default_options find put drop
route_current_example = route_current 3 0 reached-Reach refl

events_in_order_example :
    (length reached.events ≤ reached.capacity)
    × Shed reached.dropped reached.arrived (map (λ t. t.msg) reached.taken ++ reached.events)
events_in_order_example = events_in_order reached-Reach

abbrev connected : Client
connected = state_of (
    run_on (some (new_client default_options))
      (subscribes "state_changed" 7 ∷ subscribes "" 8 ∷ connects ∷ []))

connected-Reach : Reach default_options connected
unfolding step new_client add_subscription set_conn with_defaults default_options
connected-Reach =
    run_on-Reach (new_client default_options) connected
      (subscribes "state_changed" 7 ∷ subscribes "" 8 ∷ connects ∷ []) start refl

resubscribe-streams_example :
    (d : Client) × (resubscribe 2 connected ≡ some d) × ((i : ℕ) → i < 2 → streams 2 i (line d) ≡ 1)
unfolding step new_client add_subscription set_conn with_defaults default_options
resubscribe-streams_example = resubscribe-streams 2 connected-Reach refl refl (omega arith)
