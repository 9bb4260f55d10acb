-- ===== src/Handshake/Messages.antt =====
-- handshake.go: the messages and the state of the manager.
use dyphira_chain.Common.{ℕ, List, Option}
use dyphira_chain.Bar.Peers.{PeerId, BarNetwork}
use dyphira_chain.Network.{Host}

pub data MessageType : Type 0 where
  ping pong ack unknown : MessageType

pub record HandshakeMessage : Type 0 where
  pub type : MessageType
  pub from : PeerId
  pub to : PeerId
  pub round : ℕ
  pub round_seed : List ℕ
  pub timestamp : ℕ
  pub client_version : ℕ
  pub addr_received : ℕ
  pub addr_from : ℕ
  pub last_round : ℕ
  pub nonce : ℕ

-- `HandshakeManager` with what it uses of its node: the host, `none` where the node has no P2P
-- layer; the peers; the messages that were published; the calls of `OnPeerHandshake`.
pub record HandshakeManager : Type 0 where
  pub host : Option Host
  pub bar : BarNetwork
  pub round : ℕ
  pub round_seed : List ℕ
  pub nonce : ℕ
  pub sent : List HandshakeMessage
  pub notified : List (PeerId × ℕ)

-- The version that a node announces, "dyphira-v1.0".
abbrev pub own_version : ℕ
own_version = 1

-- The reasons for a higher score of misbehaviour.
abbrev pub bad_seed : ℕ
bad_seed = 1

abbrev pub not_selected : ℕ
not_selected = 2

abbrev pub no_version : ℕ
no_version = 3

abbrev pub ping_failed : ℕ
ping_failed = 4
