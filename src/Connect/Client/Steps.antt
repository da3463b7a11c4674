-- ===== src/Connect/Client/Steps.antt =====
-- A property of the client of internal/connect that survives every change of its state holds of every
-- state that the client reaches.
use mathlib.Core.Path.{subst}
use go_ha.Prelude.{
  ℕ, ◌+◌, ◌≤◌, ◌<◌, String, str_eq, ◌≡◌, refl, Bool, true, false, not, Option, none, some, List, [],
  ◌∷◌, ◌++◌, ltb, ◌==◌, if◌then◌else◌, length, ltb→lt, ltb→le,
}
use go_ha.Prelude.{get_elem?, set}
use go_ha.Prelude.Table.{find, put}
use go_ha.Connect.Message.{Message, is_result}
use go_ha.Connect.Options.{Options}
use go_ha.Connect.Client.{
  Waiter, log_failure, Subscription, Kind, stream, Sent, Taken, Client, new_client, begin_on,
  may_write, dispatch, add_subscription, establish_on, establish_sub, establish, undo, written,
  set_conn, teardown, deliver, route, receive, take, look_up, seek, cancel_pending, gen_end, Action,
  sends, subscribes, establishes, writes, connects, tears, receives, takes, looks, cancels, step,
  Reach, start, later,
}

-- The changes, each where the code makes it.
pub record Stable (I : Client → Type 0) : Type 0 where
  pub no_conn :
      (c : Client) (who : Waiter) → c.writer ≡ none → c.conn ≡ none → I c → I (begin_on none who c)
  pub begun :
      (c : Client) (who : Waiter) (k : ℕ)
      → c.writer ≡ none
      → c.conn ≡ some k
      → I c
      → I (begin_on (some k) who c)
  pub added : (c : Client) (type : String) (handler : ℕ) → I c → I (add_subscription type handler c)
  pub established :
      (c : Client) (k i : ℕ) (s : Subscription)
      → c.writer ≡ none
      → c.conn ≡ some k
      → get_elem? c.subs i ≡ some s
      → (s.gen == c.gen) ≡ false
      → I c
      → I (record c {
        next_id = c.next_id + 1;
        pending = put (c.next_id + 1) log_failure c.pending;
        routes = put (c.next_id + 1) i c.routes;
        subs = set c.subs i (record s { gen = c.gen });
        writer = some (record { conn = k; id = c.next_id + 1; kind = stream i });
      })
  pub sent :
      (c : Client) (s : Sent)
      → c.writer ≡ some s
      → I c
      → I (record c { writer = none; wire = s ∷ c.wire })
  pub undone :
      (c : Client) (s : Sent) (k : Kind) → c.writer ≡ some s → s.kind ≡ k → I c → I (undo k s.id c)
  pub connected :
      (c : Client) → c.conn ≡ none → I c → I (record c { conn = some (c.gen + 1); gen = c.gen + 1 })
  pub torn :
      (c : Client) (k : ℕ)
      → c.conn ≡ some k
      → I c
      → I (record c { conn = none; pending = []; routes = []; answers = c.pending ++ c.answers })
  pub delivered :
      (c : Client) (id : ℕ) (who : Waiter)
      → find id c.pending ≡ some who
      → I c
      → I (deliver (some who) id c)
  pub queued :
      (c : Client) (m : Message)
      → length c.events < c.capacity
      → I c
      → I (record c { arrived = c.arrived ++ m ∷ []; events = c.events ++ m ∷ [] })
  pub shed :
      (c : Client) (m : Message)
      → c.capacity ≤ length c.events
      → I c
      → I (record c { arrived = c.arrived ++ m ∷ []; dropped = c.dropped + 1 })
  pub took :
      (c : Client) (m : Message) (rest : List Message)
      → c.events ≡ m ∷ rest
      → I c
      → I (record c { events = rest; taken = c.taken ++ record { msg = m; looked = none } ∷ [] })
  pub looked :
      (c : Client) (j : ℕ) (t : Taken)
      → get_elem? c.taken j ≡ some t
      → I c
      → I (record c { taken = set c.taken j (record t { looked = some (find t.msg.id c.routes) }) })
  pub cancelled : (c : Client) (id : ℕ) → I c → I (cancel_pending id c)

module _ (I : Client → Type 0) (p : Stable I) where
  Kept : Option Client → Type 0
  Kept none = Unit {0}
  Kept (some c) = I c

  guard-Kept : (b : Bool) (d : Client) → (b ≡ true → I d) → Kept (if b then some d else none)
  unfolding Kept
  guard-Kept true d h = h refl
  guard-Kept false d h = tt

  either : (b : Bool) (d e : Client) → (b ≡ true → I d) → (b ≡ false → I e) → I (if b then d else e)
  either true d e h k = h refl
  either false d e h k = k refl

  free : (f : Option Sent) (n : ℕ) → may_write f n ≡ true → f ≡ none
  free none n t = refl
  free (some s) n t = cc

  begin-holds :
      (who : Waiter) (c : Client) (o : Option ℕ)
      → c.writer ≡ none
      → c.conn ≡ o
      → I c
      → I (begin_on o who c)
  begin-holds who c none ef eo i = p.no_conn c who ef eo i
  begin-holds who c (some k) ef eo i = p.begun c who k ef eo i

  dispatch-Kept : (who : Waiter) (c : Client) → I c → Kept (dispatch who c)
  unfolding dispatch
  dispatch-Kept who c i =
      guard-Kept (may_write c.writer c.next_id) (begin_on c.conn who c)
        (λ t. begin-holds who c c.conn (free c.writer c.next_id t) refl i)

  establish-holds :
      (c : Client) (n : ℕ) (s : Subscription) (o : Option ℕ)
      → get_elem? c.subs n ≡ some s
      → c.writer ≡ none
      → c.conn ≡ o
      → I c
      → I (establish_on o n s c)
  unfolding establish_on
  establish-holds c n s none ex ef eo i = i
  establish-holds c n s (some k) ex ef eo i =
      either (s.gen == c.gen) c _ (λ t. i) (λ f. p.established c k n s ef eo ex f i)

  establish-Kept :
      (c : Client) (n : ℕ) (x : Option Subscription)
      → get_elem? c.subs n ≡ x
      → I c
      → Kept (establish_sub x n c)
  unfolding Kept establish_sub
  establish-Kept c n none ex i = tt
  establish-Kept c n (some s) ex i =
      guard-Kept (may_write c.writer c.next_id) (establish_on c.conn n s c)
        (λ t. establish-holds c n s c.conn ex (free c.writer c.next_id t) refl i)

  written-Kept :
      (b : Bool) (c : Client) (f : Option Sent) → c.writer ≡ f → I c → Kept (written b f c)
  unfolding Kept written
  written-Kept b c none ef i = tt
  written-Kept true c (some s) ef i = p.sent c s ef i
  written-Kept false c (some s) ef i = p.undone c s s.kind ef refl i

  connect-Kept : (c : Client) (o : Option ℕ) → c.conn ≡ o → I c → Kept (set_conn o c)
  unfolding Kept set_conn
  connect-Kept c none eo i = guard-Kept (ltb (c.gen + 1) gen_end) _ (λ t. p.connected c eo i)
  connect-Kept c (some k) eo i = tt

  tear-Kept : (c : Client) (o : Option ℕ) → c.conn ≡ o → I c → Kept (teardown o c)
  unfolding Kept teardown
  tear-Kept c none eo i = tt
  tear-Kept c (some k) eo i = p.torn c k eo i

  deliver-holds :
      (id : ℕ) (c : Client) (o : Option Waiter) → find id c.pending ≡ o → I c → I (deliver o id c)
  unfolding deliver
  deliver-holds id c none e i = i
  deliver-holds id c (some who) e i = p.delivered c id who e i

  route-holds : (m : Message) (c : Client) → I c → I (route m c)
  unfolding route
  route-holds m c i =
      either (is_result m) _ _ (λ t. deliver-holds m.id c (find m.id c.pending) refl i)
        (λ f.
          either (not (str_eq m.type "event")) c _ (λ t. i)
            (λ f'.
              either (ltb (length c.events) c.capacity) _ _
                (λ l. p.queued c m (ltb→lt (length c.events) c.capacity l) i)
                (λ l. p.shed c m (ltb→le (length c.events) c.capacity l) i)))

  receive-Kept : (m : Message) (c : Client) (o : Option ℕ) → I c → Kept (receive o m c)
  unfolding Kept
  receive-Kept m c none i = tt
  receive-Kept m c (some k) i = route-holds m c i

  take-Kept : (c : Client) (ms : List Message) → c.events ≡ ms → I c → Kept (take ms c)
  unfolding Kept take
  take-Kept c [] e i = tt
  take-Kept c (m ∷ rest) e i = p.took c m rest e i

  seek-Kept :
      (c : Client) (j : ℕ) (t : Taken) (l : Option (Option ℕ))
      → get_elem? c.taken j ≡ some t
      → I c
      → Kept (seek l t j c)
  unfolding Kept
  seek-Kept c j t none e i = p.looked c j t e i
  seek-Kept c j t (some r) e i = tt

  look-Kept :
      (c : Client) (j : ℕ) (o : Option Taken) → get_elem? c.taken j ≡ o → I c → Kept (look_up o j c)
  unfolding Kept look_up
  look-Kept c j none e i = tt
  look-Kept c j (some t) e i = seek-Kept c j t t.looked e i

  step-Kept : (c : Client) (a : Action) → I c → Kept (step c a)
  unfolding step Kept establish
  step-Kept c (sends who) i = dispatch-Kept who c i
  step-Kept c (subscribes type handler) i = p.added c type handler i
  step-Kept c (establishes n) i = establish-Kept c n (get_elem? c.subs n) refl i
  step-Kept c (writes b) i = written-Kept b c c.writer refl i
  step-Kept c connects i = connect-Kept c c.conn refl i
  step-Kept c tears i = tear-Kept c c.conn refl i
  step-Kept c (receives m) i = receive-Kept m c c.conn i
  step-Kept c takes i = take-Kept c c.events refl i
  step-Kept c (looks j) i = look-Kept c j (get_elem? c.taken j) refl i
  step-Kept c (cancels id) i = p.cancelled c id i

  pub Reach-Stable : {o : Options} {c : Client} → I (new_client o) → Reach o c → I c
  unfolding Kept
  Reach-Stable i start = i
  Reach-Stable i (later {c = c} a r e) = subst Kept e (step-Kept c a (Reach-Stable i r))
