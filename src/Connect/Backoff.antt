-- ===== src/Connect/Backoff.antt =====
-- internal/connect/backoff.go: how long to wait before each attempt to reconnect. Durations are
-- nanoseconds. The code computes in float64, which is exact where the base and the maximum are at most
-- 2^53: a float64 holds both, and the product of the base with a power of two. The jitter, a random
-- factor that is drawn anew for each delay, is an argument.
mod Tests
use go_ha.Prelude.{
  ℕ, zero, suc, ◌+◌, ◌-◌, ◌*◌, ◌/◌, ◌%◌, ◌^◌, ◌≤◌, ◌<◌, String, str_eq, eq_iff, eq_refl, ◌≡◌, refl,
  sym, ap, ◌∙◌, fun_ext, ◌≢◌, ◌↔◌, ◌⊎◌, inl, inr, Bool, true, false, not, ◌&&◌, ◌||◌, Option, none,
  some, List, [], ◌∷◌, ◌++◌, map, arith, ltb, leb, ◌==◌, if◌then◌else◌, Bool-cases, Option-cases,
  length, length-append, All, All-map, All-append, contains, is_empty, ltb→lt, ltb→le,
}
use native.Mathlib.Decide.{dec_lt}
use native.Mathlib.Nat.{pow-le-pow_right, suc-mul}

pub record Backoff : Type 0 where
  pub base : ℕ
  pub max : ℕ
  pub attempt : ℕ

-- `newBackoff`, without the jitter and its source.
unfoldable pub new_backoff : Backoff
new_backoff = record { base = 1000000000; max = 60 * 1000000000; attempt = 0 }

-- `raw`, of a base and a maximum that are exact as a float64.
unfoldable pub raw : Backoff → ℕ → ℕ
raw b attempt =
    let scaled = b.base * 2 ^ attempt in
    if leb 63 attempt then b.max else if leb b.max scaled then b.max else scaled

-- `next`: the delay, and the backoff afterwards. What the jitter makes of a delay is not negative.
unfoldable pub next : (ℕ → ℕ) → Backoff → ℕ × Backoff
unfolding raw
next jitter b = (jitter (raw b b.attempt), record b { attempt = b.attempt + 1 })

unfoldable pub reset : Backoff → Backoff
reset b = record b { attempt = 0 }

-- The backoff after so many delays were taken, each with its own jitter.
pub after : ℕ → (ℕ → ℕ → ℕ) → Backoff → Backoff
after zero jitter b = b
after (suc k) jitter b = (next (jitter k) (after k jitter b)).1

after-attempt :
    (k : ℕ) (jitter : ℕ → ℕ → ℕ) (b : Backoff) → (after k jitter b).attempt ≡ b.attempt + k
unfolding after next
after-attempt zero jitter b = omega arith
after-attempt (suc k) jitter b = omega (arith, after-attempt k jitter b)

after-raw : (k : ℕ) (jitter : ℕ → ℕ → ℕ) (b : Backoff) (n : ℕ) → raw (after k jitter b) n ≡ raw b n
unfolding after next raw
after-raw zero jitter b n = refl
after-raw (suc k) jitter b n = after-raw k jitter b n

product_large : (base x : ℕ) → 0 < base → x ≤ base * x
product_large zero x p = absurd (omega arith)
product_large (suc base) x p = omega (arith, suc-mul base x)

power_large : (base n : ℕ) → 0 < base → 63 ≤ n → 2 ^ 63 ≤ base * 2 ^ n
power_large base n p h =
    omega (
      arith,
      product_large base (2 ^ n) p,
      pow-le-pow_right {n = 2} (omega arith) {i = 63} {j = n} h,
    )

pub raw-least :
    (b : Backoff) (n : ℕ)
    → 0 < b.base
    → b.max ≤ 2 ^ 53
    → raw b n ≡ (if ltb (b.base * 2 ^ n) b.max then b.base * 2 ^ n else b.max)
unfolding raw
raw-least b n p h = elim (dec_lt n 63) [
  | yes small ↦ ground arith
  | no large ↦ ground (arith, power_large b.base n p (omega arith))
]

-- For a positive base and a maximum of at most 2^53 each, so that the code's float64 is exact: once
-- reset, the delays, before each one's own jitter, double from the base until they reach the maximum, and
-- stay there, however many attempts are made.
pub next-doubles :
    (k : ℕ) (jitter : ℕ → ℕ → ℕ) (b : Backoff)
    → 0 < b.base
    → b.base ≤ 2 ^ 53
    → b.max ≤ 2 ^ 53
    → (next (jitter k) (after k jitter (reset b))).0
      ≡ jitter k (if ltb (b.base * 2 ^ k) b.max then b.base * 2 ^ k else b.max)
unfolding next raw reset
next-doubles k jitter b p q h =
    let counted : (after k jitter (reset b)).attempt ≡ k =
      omega (arith, after-attempt k jitter (reset b)) in
    ap (jitter k) (after-raw k jitter (reset b) _ ∙ ap (raw b) counted ∙ raw-least b k p h)
