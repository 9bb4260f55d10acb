-- ===== src/Metrics/Reports.antt =====
-- metrics.go: the maps that the getters give, as records, and the reset.
use dyphira_chain.Common.{ℕ, ◌≡◌, refl, Bool, List}
use dyphira_chain.Metrics.{
  Floats, MetricsCollector, new_metrics_collector, average_latency, average_block_time, reset,
}
use dyphira_chain.Metrics.Windows.{Sample, record_samples}

module _ (fl : Floats) where
  open fl use {F}

  pub record NetworkMetrics : Type 0 where
    pub connected_peers : ℕ
    pub message_latency : F
    pub bandwidth_in : ℕ
    pub bandwidth_out : ℕ
    pub connection_errors : ℕ

  pub record ConsensusMetrics : Type 0 where
    pub block_height : ℕ
    pub block_time : F
    pub committee_size : ℕ
    pub approval_rate : F
    pub fork_count : ℕ
    pub finality_time : F

  pub record PerformanceMetrics : Type 0 where
    pub memory_usage_bytes : ℕ
    pub cpu_usage_percent : F
    pub goroutine_count : ℕ
    pub transaction_tps : F
    pub block_tps : F

  pub record StorageMetrics : Type 0 where
    pub database_size_bytes : ℕ
    pub transaction_count : ℕ
    pub block_count : ℕ
    pub validator_count : ℕ

  pub record SyncMetrics : Type 0 where
    pub syncing : Bool
    pub sync_progress : F
    pub sync_speed : F
    pub peers_syncing : ℕ
    pub sync_errors : ℕ

module _ (fl : Floats) where
  unfoldable pub get_network_metrics : MetricsCollector fl → NetworkMetrics fl
  unfolding average_latency
  get_network_metrics mc = record {
    connected_peers = mc.peer_count;
    message_latency = average_latency fl mc;
    bandwidth_in = mc.bandwidth_in;
    bandwidth_out = mc.bandwidth_out;
    connection_errors = mc.connection_errors;
  }

  unfoldable pub get_consensus_metrics : MetricsCollector fl → ConsensusMetrics fl
  unfolding average_block_time
  get_consensus_metrics mc = record {
    block_height = mc.block_height;
    block_time = average_block_time fl mc;
    committee_size = mc.committee_size;
    approval_rate = mc.approval_rate;
    fork_count = mc.fork_count;
    finality_time = fl.seconds mc.finality_time;
  }

  unfoldable pub get_performance_metrics : MetricsCollector fl → PerformanceMetrics fl
  get_performance_metrics mc = record {
    memory_usage_bytes = mc.memory_usage_bytes;
    cpu_usage_percent = mc.cpu_usage_percent;
    goroutine_count = mc.goroutine_count;
    transaction_tps = mc.transaction_tps;
    block_tps = mc.block_tps;
  }

  unfoldable pub get_storage_metrics : MetricsCollector fl → StorageMetrics fl
  get_storage_metrics mc = record {
    database_size_bytes = mc.database_size_bytes;
    transaction_count = mc.transaction_count;
    block_count = mc.block_count;
    validator_count = mc.validator_count;
  }

  unfoldable pub get_sync_metrics : MetricsCollector fl → SyncMetrics fl
  get_sync_metrics mc = record {
    syncing = mc.syncing;
    sync_progress = mc.sync_progress;
    sync_speed = mc.sync_speed;
    peers_syncing = mc.peers_syncing;
    sync_errors = mc.sync_errors;
  }

  -- A reset forgets all that was recorded: the collector is a new one.
  pub reset-new :
      (mc : MetricsCollector fl) (samples : List Sample) (now : ℕ)
      → reset fl (record_samples fl mc samples) now ≡ new_metrics_collector fl now
  unfolding reset new_metrics_collector
  reset-new mc samples now = refl
