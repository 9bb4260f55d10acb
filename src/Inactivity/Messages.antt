-- ===== src/Inactivity/Messages.antt =====
-- inactivity_monitor.go: the messages, the records, and the state of the monitor.
use dyphira_chain.Common.{ℕ, Bool, List, Option}
use dyphira_chain.Common.Dict.{Dict}
use dyphira_chain.Bar.Peers.{PeerId, BarNetwork}
use dyphira_chain.Network.{Host}

pub data MessageType : Type 0 where
  mark_inactive inactivity_report unknown : MessageType

-- The reason in a message: a text, or "marked inactive by n seed nodes".
pub data Reason : Type 0 where
  text : ℕ → Reason
  marked_by : ℕ → Reason

pub record InactivityMessage : Type 0 where
  pub type : MessageType
  pub from : PeerId
  pub to : PeerId
  pub target_peer : PeerId
  pub timestamp : ℕ
  pub client_version : ℕ
  pub reason : Reason
  pub evidence : List ℕ

pub record InactivityRecord : Type 0 where
  pub peer_id : PeerId
  pub first_reported : ℕ
  pub last_reported : ℕ
  pub report_count : ℕ
  pub reporters : List PeerId
  pub reasons : List Reason
  pub evidence : List ℕ

-- `InactivityMonitor` with what it uses of its node: the host, `none` where the node has no P2P
-- layer; the peers; the messages that were published.
pub record InactivityMonitor : Type 0 where
  pub host : Option Host
  pub bar : BarNetwork
  pub records : Dict InactivityRecord
  pub is_seed_node : Bool
  pub seed_node_threshold : ℕ
  pub sent : List InactivityMessage

-- The empty identifier, to which a broadcast is addressed.
abbrev pub everyone : PeerId
everyone = 0

-- The version that a node announces, "dyphira-v1.0".
abbrev pub own_version : ℕ
own_version = 1

-- The reasons for a higher score of misbehaviour.
abbrev pub malformed : ℕ
malformed = 1

abbrev pub not_a_seed : ℕ
not_a_seed = 2
