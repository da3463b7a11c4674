-- ===== src/Connect/Reconnect/Delays.antt =====
-- internal/connect/client.go: how often and after which delays a lost connection is retried.
use go_ha.Prelude.{
  ℕ, zero, suc, ◌+◌, ◌*◌, ◌^◌, ◌≤◌, ◌<◌, ◌≡◌, refl, ap, ◌∙◌, Bool, true, false, List, [], ◌∷◌,
  arith, leb, ltb, inl, inr, Bool-cases, if◌then◌else◌,
}
use go_ha.Connect.Backoff.{Backoff, next, reset, raw, raw-least}
use go_ha.Connect.Reconnect.{
  Attempt, connected, auth_failed, failed, Round, Verdict, usable, stopped, refused, trying, go_on,
  Reconnection, after_round, reconnect, recover,
}

-- How the rounds end, and how many of them were used: the context ends the wait; the attempt gives a
-- connection; it shows that the token is refused; it fails, and the context has ended; or it fails, and the
-- client tries again.
pub data Ends : List Round → Verdict → ℕ → Type 0 where
  exhausted : Ends [] trying 0
  not_woken : {r : Round} {rest : List Round} → r.woken ≡ false → Ends (r ∷ rest) stopped 1
  through :
      {r : Round} {rest : List Round}
      → r.woken ≡ true
      → r.attempt ≡ connected
      → Ends (r ∷ rest) usable 1
  turned_away :
      {r : Round} {rest : List Round}
      → r.woken ≡ true
      → r.attempt ≡ auth_failed
      → Ends (r ∷ rest) refused 1
  given_up :
      {r : Round} {rest : List Round}
      → r.woken ≡ true
      → r.attempt ≡ failed
      → r.cancelled ≡ true
      → Ends (r ∷ rest) stopped 1
  again :
      {r : Round} {rest : List Round} {v : Verdict} {n : ℕ}
      → r.woken ≡ true
      → r.attempt ≡ failed
      → r.cancelled ≡ false
      → Ends rest v n
      → Ends (r ∷ rest) v (suc n)

-- The base, doubled for each attempt before, and at most the maximum.
abbrev pub doubled : Backoff → ℕ → ℕ
doubled b attempt = if ltb (b.base * 2 ^ attempt) b.max then b.base * 2 ^ attempt else b.max

-- The delays of the first `n` rounds from an attempt on, each with its round's jitter.
abbrev pub delays_from : Backoff → ℕ → List Round → ℕ → List ℕ
delays_from b attempt rounds zero = []
delays_from b attempt [] (suc n) = []
delays_from b attempt (r ∷ rest) (suc n) =
    let later = delays_from b (attempt + 1) rest n in r.jitter (doubled b attempt) ∷ later

-- What reconnecting over the rounds leaves, the first at the given attempt.
abbrev pub Follows : Backoff → ℕ → List Round → Reconnection → Type 0
Follows b attempt rounds r =
    (n : ℕ) × Ends rounds r.verdict n
    × (r.delays ≡ delays_from b attempt rounds n)
    × (r.backoff ≡ record b { attempt = attempt + n })

at_attempt :
    (b : Backoff) (m n : ℕ)
    → m ≡ n
    → ◌≡◌ {A = Backoff} (record b { attempt = m }) (record b { attempt = n })
at_attempt b m n h = ap (λ x. record b { attempt = x }) h

module _ (b : Backoff) (p : 0 < b.base) (h : b.max ≤ 2 ^ 53) where
  raw-doubled : (attempt other : ℕ) → raw (record b { attempt = other }) attempt ≡ doubled b attempt
  raw-doubled attempt other = raw-least (record b { attempt = other }) attempt p h

  -- One round, before what the later ones give.
  go_on-Follows :
      (attempt delay : ℕ) (jitter : ℕ → ℕ) (woken : Bool) (a : Attempt) (cancelled : Bool)
      (rest : List Round) (later : Reconnection)
      → delay ≡ jitter (doubled b attempt)
      → Follows b (attempt + 1) rest later
      → Follows b attempt
          (record { jitter = jitter; woken = woken; attempt = a; cancelled = cancelled } ∷ rest)
          (go_on
            (after_round
              (record { jitter = jitter; woken = woken; attempt = a; cancelled = cancelled }))
            delay
            (record b { attempt = attempt + 1 })
            later)
  go_on-Follows attempt delay jitter false a cancelled rest later d f =
      (1, not_woken refl, ap (λ x. x ∷ []) d, refl)
  go_on-Follows attempt delay jitter true connected cancelled rest later d f =
      (1, through refl refl, ap (λ x. x ∷ []) d, refl)
  go_on-Follows attempt delay jitter true auth_failed cancelled rest later d f =
      (1, turned_away refl refl, ap (λ x. x ∷ []) d, refl)
  go_on-Follows attempt delay jitter true failed true rest later d f =
      (1, given_up refl refl refl, ap (λ x. x ∷ []) d, refl)
  go_on-Follows attempt delay jitter true failed false rest later d (n, ends, delays, left) = (
    suc n,
    again refl refl refl ends,
    ap (λ x. x ∷ later.delays) d ∙ ap (λ ds. jitter (doubled b attempt) ∷ ds) delays,
    left ∙ at_attempt b (attempt + 1 + n) (attempt + suc n) (omega arith),
  )

  reconnect-Follows :
      (attempt : ℕ) (rounds : List Round)
      → Follows b attempt rounds (reconnect rounds (record b { attempt = attempt }))
  unfolding reconnect next
  reconnect-Follows attempt [] =
      (0, exhausted, refl, at_attempt b attempt (attempt + 0) (omega arith))
  reconnect-Follows attempt (r ∷ rest) =
      go_on-Follows attempt (r.jitter (raw (record b { attempt = attempt }) attempt)) r.jitter
        r.woken r.attempt r.cancelled rest (reconnect rest (record b { attempt = attempt + 1 }))
        (ap r.jitter (raw-doubled attempt attempt)) (reconnect-Follows (attempt + 1) rest)

-- For a positive base and a maximum of at most 2^53 each, so that the code's float64 is exact, whatever the
-- jitter of each round, and whatever the attempts give: after the loss of a connection the client tries
-- again as long as it is woken and the attempt fails for another reason than its token, before its context
-- has ended; it stops at the first round where the context ends, the token is refused or an attempt gives
-- a connection, and says which. Before each round it waits for the base, doubled for each attempt before,
-- and at most the maximum, as the round's jitter changes it; the doubling starts afresh where the
-- connection lived for `HealthyAfter`, and where it did not goes on from the last attempt.
pub recover-Follows :
    (healthy_after lived : ℕ) (rounds : List Round) (b : Backoff)
    → 0 < b.base
    → b.base ≤ 2 ^ 53
    → b.max ≤ 2 ^ 53
    → Follows b
        (if leb healthy_after lived then 0 else b.attempt)
        rounds
        (recover healthy_after lived rounds b)
unfolding recover reset
recover-Follows healthy_after lived rounds b p q h = elim (Bool-cases (leb healthy_after lived)) [
  | inl e ↦ rw e (reconnect-Follows b p h 0 rounds)
  | inr e ↦ rw e (reconnect-Follows b p h b.attempt rounds)
]
