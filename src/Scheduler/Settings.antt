-- ===== src/Scheduler/Settings.antt =====
-- The limits that server/src/scheduler reads from its environment, with the defaults there.
use control_deck.Prelude.{ℕ, Bool, true}
use control_deck.Prelude.Fraction.{Fraction}

pub record Settings : Type 0 where
  pub queue_timeout_ms : ℕ
  pub stall_timeout_ms : ℕ
  pub first_token_timeout_ms : ℕ
  pub ewma_alpha : Fraction
  pub throughput_fresh_ms : ℕ
  pub affinity_ttl_ms : ℕ
  pub affinity_enabled : Bool

abbrev pub defaults : Settings
defaults = record {
  queue_timeout_ms = 300_000;
  stall_timeout_ms = 60_000;
  first_token_timeout_ms = 600_000;
  ewma_alpha = record { num = 3; pred_den = 9 };
  throughput_fresh_ms = 120_000;
  affinity_ttl_ms = 1_800_000;
  affinity_enabled = true;
}
