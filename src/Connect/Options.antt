-- ===== src/Connect/Options.antt =====
-- `Options` of internal/connect/client.go. Durations are nanoseconds; a field that is not positive
-- counts as unset and is 0. The hooks are kept by the client.
use go_ha.Prelude.{ℕ, ◌*◌, ◌==◌, if◌then◌else◌}

pub record Options : Type 0 where
  pub queue_size : ℕ
  pub workers : ℕ
  pub ping_interval : ℕ
  pub ping_timeout : ℕ
  pub dial_timeout : ℕ
  pub write_timeout : ℕ
  pub healthy_after : ℕ

abbrev seconds : ℕ → ℕ
seconds n = n * 1000000000

unfoldable pub default_options : Options
default_options = record {
  queue_size = 256;
  workers = 4;
  ping_interval = seconds 30;
  ping_timeout = seconds 10;
  dial_timeout = seconds 10;
  write_timeout = seconds 10;
  healthy_after = seconds 60;
}

abbrev pub or_default : ℕ → ℕ → ℕ
or_default n d = if n == 0 then d else n

-- `withDefaults`.
unfoldable pub with_defaults : Options → Options
unfolding default_options
with_defaults o = record {
  queue_size = or_default o.queue_size default_options.queue_size;
  workers = or_default o.workers default_options.workers;
  ping_interval = or_default o.ping_interval default_options.ping_interval;
  ping_timeout = or_default o.ping_timeout default_options.ping_timeout;
  dial_timeout = or_default o.dial_timeout default_options.dial_timeout;
  write_timeout = or_default o.write_timeout default_options.write_timeout;
  healthy_after = or_default o.healthy_after default_options.healthy_after;
}
