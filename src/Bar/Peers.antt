-- ===== src/Bar/Peers.antt =====
-- bar_network.go: what a node knows of its peers.
use dyphira_chain.Common.{ℕ, Bool, List, [], Option, none, some}
use dyphira_chain.Common.Dict.{Dict}

abbrev pub PeerId : Type 0
PeerId = ℕ

pub data PeerStatus : Type 0 where
  greylisted whitelisted banned : PeerStatus

pub record PeerInfo : Type 0 where
  pub id : PeerId
  pub address : ℕ
  pub status : PeerStatus
  pub pom_score : ℕ
  pub last_seen : ℕ
  pub handshake_at : ℕ
  pub reputation : ℕ
  pub is_seed : Bool
  pub client_version : ℕ
  pub last_round : ℕ

pub record ReputationRecord : Type 0 where
  pub pom_score : ℕ
  pub last_round : ℕ
  pub reason : ℕ

pub record BarConfig : Type 0 where
  pub outgoing_connections : ℕ
  pub incoming_connections : ℕ
  pub sync_timeout : ℕ
  pub pom_threshold : ℕ
  pub pom_ban_threshold : ℕ
  pub reputation_memory : ℕ
  pub handshake_timeout : ℕ
  pub seed_nodes : List ℕ

pub record BarNetwork : Type 0 where
  pub whitelist : Dict PeerInfo
  pub greylist : Dict PeerInfo
  pub banlist : Dict PeerInfo
  pub config : BarConfig
  pub reputation_records : Dict ReputationRecord
  pub prng_seed : List ℕ
  pub round : ℕ
  pub seed_nodes : List ℕ

-- The configuration that `NewBARNetwork` takes where it is given none; times are in seconds.
abbrev pub default_config : BarConfig
default_config = record {
  outgoing_connections = 8;
  incoming_connections = 8;
  sync_timeout = 10;
  pom_threshold = 5;
  pom_ban_threshold = 15;
  reputation_memory = 10;
  handshake_timeout = 5;
  seed_nodes = [];
}

-- `NewBARNetwork`; the seed is what crypto/rand gives.
unfoldable pub new_bar_network : Option BarConfig → List ℕ → BarNetwork
new_bar_network given seed =
    let config : BarConfig = elim given [ none ↦ default_config | some c ↦ c ] in
    record {
      whitelist = [];
      greylist = [];
      banlist = [];
      config = config;
      reputation_records = [];
      prng_seed = seed;
      round = 0;
      seed_nodes = config.seed_nodes;
    }
