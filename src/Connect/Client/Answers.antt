-- ===== src/Connect/Client/Answers.antt =====
-- The answers that internal/connect/send.go waits for and client.go gives out.
use go_ha.Prelude.{
  ℕ, ◌+◌, ◌≤◌, ◌<◌, ◌≡◌, refl, Option, none, some, List, [], ◌∷◌, ◌++◌, arith, ◌==◌, if◌then◌else◌,
}
use go_ha.Prelude.{weigh-append}
use go_ha.Prelude.Table.{find, put, drop, entries, entries-put, entries-drop, find-entries}
use go_ha.Connect.Options.{Options}
use go_ha.Connect.Client.Steps.{Stable, Reach-Stable}
use go_ha.Connect.Client.{
  Waiter, log_failure, Kind, request, stream, Sent, Client, new_client, begin_on, add_subscription,
  undo, deliver, cancel_pending, Reach,
}

-- What holds of the ids that are pending and of those that were answered, `n` ids being taken.
pub record Settled (n : ℕ) (pending answers : List (ℕ × Waiter)) : Type 0 where
  pub fresh : (id : ℕ) → n < id → entries id pending + entries id answers ≡ 0
  pub once : (id : ℕ) → entries id pending + entries id answers ≤ 1

abbrev IsSettled : Client → Type 0
IsSettled c = Settled c.next_id c.pending c.answers

unregistered : {V : Type 0} (key : ℕ) (m : List (ℕ × V)) → entries key m ≡ 0 → find key m ≡ none
unregistered key m h = absurd_some (find key m) refl
  where
    absurd_some : (o : Option _) → find key m ≡ o → find key m ≡ none
    absurd_some none e = e
    absurd_some (some v) e = absurd (omega (arith, find-entries key v m e, h))

module _ {n : ℕ} {pending answers : List (ℕ × Waiter)} (v : Settled n pending answers) where
  later-Settled : Settled (n + 1) pending answers
  later-Settled = record { fresh = λ id l. v.fresh id (omega (arith, l)); once = v.once }

  put-Settled : (who : Waiter) → Settled (n + 1) (put (n + 1) who pending) answers
  put-Settled who = record {
    fresh = λ id l. ground (arith, v.fresh id, added id);
    once = λ id. ground (arith, added id, v.once id, v.fresh (n + 1));
  }
    where
      one : ℕ → ℕ
      one id = if n + 1 == id then 1 else 0

      added : (id : ℕ) → entries id (put (n + 1) who pending) ≡ one id + entries id pending
      added id =
          entries-put (n + 1) id who pending
            (unregistered (n + 1) pending (omega (arith, v.fresh (n + 1) (omega arith))))

  drop-Settled : (key : ℕ) → Settled n (drop key pending) answers
  drop-Settled key = record {
    fresh = λ id l. ground (arith, entries-drop key id pending, v.fresh id l);
    once = λ id. ground (arith, entries-drop key id pending, v.once id);
  }

  deliver-Settled :
      (key : ℕ) (who : Waiter)
      → find key pending ≡ some who
      → Settled n (drop key pending) ((key, who) ∷ answers)
  unfolding entries
  deliver-Settled key who e = record {
    fresh = λ id l.
        ground (arith, entries-drop key id pending, v.fresh id l, find-entries key who pending e);
    once = λ id.
        ground (arith, entries-drop key id pending, v.once id, find-entries key who pending e);
  }

  tear-Settled : Settled n [] (pending ++ answers)
  unfolding entries
  tear-Settled = record {
    fresh = λ id l. omega (arith, together id, v.fresh id l);
    once = λ id. omega (arith, together id, v.once id);
  }
    where
      together :
          (id : ℕ) → entries id (pending ++ answers) ≡ entries id pending + entries id answers
      together id = weigh-append (λ e. if e.0 == id then 1 else 0) pending answers

undo-IsSettled :
    (c : Client) (s : Sent) (k : Kind)
    → c.writer ≡ some s
    → s.kind ≡ k
    → IsSettled c
    → IsSettled (undo k s.id c)
unfolding undo
undo-IsSettled c s request e ek v = drop-Settled v s.id
undo-IsSettled c s (stream i) e ek v = drop-Settled v s.id

IsSettled-Stable : Stable IsSettled
unfolding begin_on add_subscription deliver cancel_pending
IsSettled-Stable = record {
  no_conn = λ c who ew ec v. later-Settled v;
  begun = λ c who k ew ec v. put-Settled v who;
  added = λ c type handler v. v;
  established = λ c k i s ew ec at ne v. put-Settled v log_failure;
  sent = λ c s ew v. v;
  undone = undo-IsSettled;
  connected = λ c ec v. v;
  torn = λ c k ec v. tear-Settled v;
  delivered = λ c id who e v. deliver-Settled v id who e;
  queued = λ c m l v. v;
  shed = λ c m l v. v;
  took = λ c m rest e v. v;
  looked = λ c j t e v. v;
  cancelled = λ c id v. drop-Settled v id;
}

-- Whatever messages arrive and whatever the order of the steps: on every state that the client reaches,
-- the handler of an id was called at most once, with a result or with the loss of the connection, and not
-- while the id is still pending. An id greater than the counter of `nextID` has no handler and no answer.
pub answered_once : {o : Options} {c : Client} → Reach o c → Settled c.next_id c.pending c.answers
unfolding new_client entries
answered_once {o} r =
    Reach-Stable IsSettled IsSettled-Stable
      (record { fresh = λ id l. refl; once = λ id. omega arith }) r
