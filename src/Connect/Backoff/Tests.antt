-- ===== src/Connect/Backoff/Tests.antt =====
-- The seventh delay of internal/connect/backoff.go.
use go_ha.Prelude.{◌+◌, ◌*◌, ◌≡◌, arith, ltb, if◌then◌else◌}
use go_ha.Connect.Backoff.{Backoff, next, after, reset, next-doubles}

abbrev by_default : Backoff
by_default = record { base = 1000000000; max = 60 * 1000000000; attempt = 4 }

next-doubles_example :
    (next (λ d. d + 5) (after 5 (λ k d. d + k) (reset by_default))).0
    ≡ (if ltb 32000000000 60000000000 then 32000000000 else 60000000000) + 5
next-doubles_example =
    next-doubles 5 (λ k d. d + k) by_default (omega arith) (omega arith) (omega arith)
