-- ===== src/Metrics/Tests.antt =====
-- Runs of the metrics at concrete inputs, with rationals for the floats.
use dyphira_chain.Common.{ℕ, [], ◌∷◌}
use dyphira_chain.Metrics.{Floats, new_metrics_collector}
use dyphira_chain.Metrics.Windows.{
  block_at, transaction_at, Keeps, record_samples, record_samples_lem,
}

abbrev rationals : Floats
rationals = record {
  F = ℕ × ℕ;
  zero = (0, 1);
  per_second = λ count duration. (count, duration);
  seconds_each = λ duration count. (duration, count);
  mean = λ duration count. (duration, count);
  seconds = λ duration. (duration, 1);
}

record_samples_example :
    Keeps rationals
      (record_samples rationals
        (new_metrics_collector rationals 1)
        (block_at 5 ∷ transaction_at 6 ∷ block_at 9 ∷ []))
      (5 ∷ 9 ∷ [])
      (6 ∷ [])
record_samples_example =
    record_samples_lem rationals 1 (block_at 5 ∷ transaction_at 6 ∷ block_at 9 ∷ [])
