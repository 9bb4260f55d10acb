-- ===== src/Metrics.antt =====
-- metrics.go: counters, windows of recent times, and the numbers derived from them. Go's float64
-- is the type `F` of a parameter, with the conversions and quotients that the code takes. Times
-- are in nanoseconds; time.Now is monotonic, so a difference of two of them is not negative.
pub mod Windows
pub mod Reports
mod Tests
use dyphira_chain.Common.{
  ℕ, zero, suc, ◌+◌, ◌-◌, Bool, true, false, List, [], ◌∷◌, ◌++◌, Option, none, some, length,
  get_or, ltb, leb, ◌==◌, if◌then◌else◌, add64,
}
use dyphira_chain.Common.Dict.{Dict, insert}

-- What the code computes in float64: `zero`; a count per nanoseconds, `float64(n) / d.Seconds()`;
-- the nanoseconds of each of a count, `d.Seconds() / float64(n)`; the mean of durations,
-- `float64(d) / float64(n)`; the seconds
-- of a duration.
pub record Floats : Type 1 where
  pub F : Type 0
  pub zero : F
  pub per_second : (count duration : ℕ) → F
  pub seconds_each : (duration count : ℕ) → F
  pub mean : (duration count : ℕ) → F
  pub seconds : (duration : ℕ) → F

module _ (fl : Floats) where
  open fl use {F}

  pub record MetricsCollector : Type 0 where
    pub message_latency : Dict ℕ
    pub bandwidth_in : ℕ
    pub bandwidth_out : ℕ
    pub connection_errors : ℕ
    pub peer_count : ℕ
    pub block_height : ℕ
    pub block_time : ℕ
    pub committee_size : ℕ
    pub approval_rate : F
    pub fork_count : ℕ
    pub finality_time : ℕ
    pub database_size_bytes : ℕ
    pub transaction_count : ℕ
    pub block_count : ℕ
    pub validator_count : ℕ
    pub memory_usage_bytes : ℕ
    pub cpu_usage_percent : F
    pub goroutine_count : ℕ
    pub transaction_tps : F
    pub block_tps : F
    pub syncing : Bool
    pub sync_progress : F
    pub sync_speed : F
    pub peers_syncing : ℕ
    pub sync_errors : ℕ
    pub block_times : List ℕ
    pub transaction_times : List ℕ
    pub last_update : ℕ

-- `l[1:]`
abbrev pub drop_first : List ℕ → List ℕ
drop_first [] = []
drop_first (t ∷ ts) = ts

-- The list with one more time, less its first if there are then more than `cap`.
unfoldable pub push_time : (cap : ℕ) → List ℕ → ℕ → List ℕ
push_time cap times now =
    let longer = times ++ now ∷ [] in if ltb cap (length longer) then drop_first longer else longer

-- The sum of the latencies.
unfoldable pub total : Dict ℕ → ℕ
total [] = 0
total ((type, latency) ∷ rest) = latency + total rest

-- The last time, and the time between the first and the last.
abbrev pub last_of : List ℕ → ℕ
last_of times = get_or times (length times - 1) 0

abbrev pub time_span : List ℕ → ℕ
time_span times = last_of times - get_or times 0 0

module _ (fl : Floats) where
  open fl use {F}

  unfoldable pub new_metrics_collector : (now : ℕ) → MetricsCollector fl
  new_metrics_collector now = record {
    message_latency = [];
    bandwidth_in = 0;
    bandwidth_out = 0;
    connection_errors = 0;
    peer_count = 0;
    block_height = 0;
    block_time = 0;
    committee_size = 0;
    approval_rate = fl.zero;
    fork_count = 0;
    finality_time = 0;
    database_size_bytes = 0;
    transaction_count = 0;
    block_count = 0;
    validator_count = 0;
    memory_usage_bytes = 0;
    cpu_usage_percent = fl.zero;
    goroutine_count = 0;
    transaction_tps = fl.zero;
    block_tps = fl.zero;
    syncing = false;
    sync_progress = fl.zero;
    sync_speed = fl.zero;
    peers_syncing = 0;
    sync_errors = 0;
    block_times = [];
    transaction_times = [];
    last_update = now;
  }

  -- The rate that a window of at least two times shows; the old one where it shows none.
  abbrev pub rate : List ℕ → F → F
  rate times old =
      if leb 2 (length times)
      then (if ltb 0 (time_span times)
          then fl.per_second (length times - 1) (time_span times)
          else old)
      else old

  unfoldable pub record_block_production : MetricsCollector fl → (now : ℕ) → MetricsCollector fl
  unfolding push_time
  record_block_production mc now =
      let times = push_time 100 mc.block_times now in
      record mc {
        block_times = times;
        block_count = add64 mc.block_count 1;
        block_time =
            if leb 2 (length times)
            then get_or times (length times - 1) 0 - get_or times (length times - 2) 0
            else mc.block_time;
        block_tps = rate times mc.block_tps;
      }

  unfoldable pub record_transaction : MetricsCollector fl → (now : ℕ) → MetricsCollector fl
  unfolding push_time
  record_transaction mc now =
      let times = push_time 1000 mc.transaction_times now in
      record mc {
        transaction_times = times;
        transaction_count = add64 mc.transaction_count 1;
        transaction_tps = rate times mc.transaction_tps;
      }

  unfoldable pub update_network_metrics :
      MetricsCollector fl → (peer_count bandwidth_in bandwidth_out : ℕ) → MetricsCollector fl
  update_network_metrics mc peer_count bandwidth_in bandwidth_out = record mc {
    peer_count = peer_count;
    bandwidth_in = bandwidth_in;
    bandwidth_out = bandwidth_out;
  }

  unfoldable pub record_message_latency :
      MetricsCollector fl → (message_type latency : ℕ) → MetricsCollector fl
  record_message_latency mc message_type latency = record mc {
    message_latency = insert message_type latency mc.message_latency;
  }

  unfoldable pub increment_connection_errors : MetricsCollector fl → MetricsCollector fl
  increment_connection_errors mc = record mc { connection_errors = add64 mc.connection_errors 1 }

  unfoldable pub update_consensus_metrics :
      MetricsCollector fl → (height committee_size : ℕ) → (approval_rate : F) → MetricsCollector fl
  update_consensus_metrics mc height committee_size approval_rate = record mc {
    block_height = height;
    committee_size = committee_size;
    approval_rate = approval_rate;
  }

  unfoldable pub update_storage_metrics :
      MetricsCollector fl
      → (database_size transaction_count block_count validator_count : ℕ) → MetricsCollector fl
  update_storage_metrics mc database_size transaction_count block_count validator_count =
      record mc {
        database_size_bytes = database_size;
        transaction_count = transaction_count;
        block_count = block_count;
        validator_count = validator_count;
      }

  -- The numbers of bytes and of goroutines are those that the runtime gives.
  unfoldable pub update_performance_metrics :
      MetricsCollector fl → (alloc goroutines now : ℕ) → MetricsCollector fl
  update_performance_metrics mc alloc goroutines now = record mc {
    memory_usage_bytes = alloc;
    goroutine_count = goroutines;
    cpu_usage_percent = fl.zero;
    last_update = now;
  }

  unfoldable pub update_sync_metrics :
      MetricsCollector fl → Bool → (progress speed : F) → (peers_syncing : ℕ) → MetricsCollector fl
  update_sync_metrics mc syncing progress speed peers_syncing = record mc {
    syncing = syncing;
    sync_progress = progress;
    sync_speed = speed;
    peers_syncing = peers_syncing;
  }

  unfoldable pub increment_sync_errors : MetricsCollector fl → MetricsCollector fl
  increment_sync_errors mc = record mc { sync_errors = add64 mc.sync_errors 1 }

  unfoldable pub increment_fork_count : MetricsCollector fl → MetricsCollector fl
  increment_fork_count mc = record mc { fork_count = add64 mc.fork_count 1 }

  unfoldable pub record_finality_time :
      MetricsCollector fl → (finality_time : ℕ) → MetricsCollector fl
  record_finality_time mc finality_time = record mc { finality_time = finality_time }

  -- The average latency in `GetNetworkMetrics`.
  unfoldable pub average_latency : MetricsCollector fl → F
  unfolding total
  average_latency mc =
      if ltb 0 (length mc.message_latency)
      then fl.mean (total mc.message_latency) (length mc.message_latency)
      else fl.zero

  -- The average block time in `GetConsensusMetrics`.
  unfoldable pub average_block_time : MetricsCollector fl → F
  average_block_time mc =
      if leb 2 (length mc.block_times)
      then (if ltb 0 (time_span mc.block_times)
          then fl.seconds_each (time_span mc.block_times) (length mc.block_times - 1)
          else fl.zero)
      else fl.zero

  unfoldable pub reset : MetricsCollector fl → (now : ℕ) → MetricsCollector fl
  reset mc now = record mc {
    message_latency = [];
    bandwidth_in = 0;
    bandwidth_out = 0;
    connection_errors = 0;
    peer_count = 0;
    block_height = 0;
    block_time = 0;
    committee_size = 0;
    approval_rate = fl.zero;
    fork_count = 0;
    finality_time = 0;
    database_size_bytes = 0;
    transaction_count = 0;
    block_count = 0;
    validator_count = 0;
    memory_usage_bytes = 0;
    cpu_usage_percent = fl.zero;
    goroutine_count = 0;
    transaction_tps = fl.zero;
    block_tps = fl.zero;
    syncing = false;
    sync_progress = fl.zero;
    sync_speed = fl.zero;
    peers_syncing = 0;
    sync_errors = 0;
    block_times = [];
    transaction_times = [];
    last_update = now;
  }
