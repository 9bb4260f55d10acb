-- ===== src/Network.antt =====
-- p2p.go: what the protocols use of the P2P layer.
use dyphira_chain.Common.{ℕ, Bool}
use dyphira_chain.Bar.Peers.{PeerId}

-- The host of a node: its identifier, the address that `GetListenAddr` gives, and whether
-- `OnPeerHandshake` is set.
pub record Host : Type 0 where
  pub id : PeerId
  pub listen_addr : ℕ
  pub on_handshake : Bool
