-- ===== src/Core/Policy/Counts.antt =====
-- What the counters of core/policy.go count.
use go_ha.Prelude.{ℕ, ◌≤◌, ◌≡◌, refl, Option, none, some, arith}
use go_ha.Prelude.{weigh}
use go_ha.Core.Policy.{
  Mode, single, restart, queued, parallel, Policy, limit, Phase, blocked, holding, running, leaving,
  Runner, new_runner,
}

-- Admitted and not yet past `finish`.
abbrev pub live : Phase → ℕ
live blocked = 1
live holding = 1
live running = 1
live _ = 0

abbrev pub waits : Phase → ℕ
waits blocked = 1
waits holding = 1
waits _ = 0

-- Holds the serial lock, which only queued runs take.
abbrev pub holds : Mode → Phase → ℕ
holds queued holding = 1
holds queued running = 1
holds queued leaving = 1
holds _ _ = 0

abbrev pub is_set : Option ℕ → ℕ
is_set none = 0
is_set (some i) = 1

abbrev pub lives : Runner → ℕ
lives r = weigh (λ run. live run.phase) r.runs

abbrev pub waiters : Runner → ℕ
waiters r = weigh (λ run. waits run.phase) r.runs

abbrev pub holders : Runner → ℕ
holders r = weigh (λ run. holds r.policy.mode run.phase) r.runs

-- What each mode promises.
abbrev pub Capped : Mode → ℕ → ℕ → ℕ → Type 0
Capped single cap active waiting = (active ≤ 1) × (waiting ≡ 0)
Capped restart cap active waiting = waiting ≡ 0
Capped queued cap active waiting = waiting ≤ cap
Capped parallel cap active waiting = (active ≤ cap) × (waiting ≡ 0)

pub record Inv (r : Runner) : Type 0 where
  pub counted : r.active ≡ lives r
  pub queued_up : r.waiting ≡ waiters r
  pub locked : holders r ≡ is_set r.serial
  pub capped : Capped r.policy.mode (limit r.policy) r.active r.waiting

Capped-zero : (m : Mode) (cap : ℕ) → Capped m cap 0 0
Capped-zero single cap = (omega arith, refl)
Capped-zero restart cap = refl
Capped-zero queued cap = omega arith
Capped-zero parallel cap = (omega arith, refl)

pub new_runner-Inv : (p : Policy) → Inv (new_runner p)
unfolding new_runner
new_runner-Inv p = record {
  counted = refl;
  queued_up = refl;
  locked = refl;
  capped = Capped-zero p.mode (limit p);
}

-- A weight that reads only the phase does not see a cancellation.
