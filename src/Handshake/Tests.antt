-- ===== src/Handshake/Tests.antt =====
-- Runs of the handshake at concrete inputs.
use dyphira_chain.Common.{
  ℕ, ◌≡◌, ◌≢◌, ◌⊎◌, refl, Bool, true, List, [], ◌∷◌, ◌++◌, some, ◌==◌, ◌&&◌, if◌then◌else◌, arith,
}
use dyphira_chain.Common.Dict.{lookup, insert, erase, has}
use dyphira_chain.Bar.Peers.{
  PeerId, whitelisted, banned, BarNetwork, BarConfig, default_config, new_bar_network,
}
use dyphira_chain.Bar.{
  new_peer, add_peer, is_peer_in_any_list, ban_peer, promote_to_whitelist, get_peer_status,
  update_pom_score,
}
use dyphira_chain.Bar.Seeds.{generate_round_seed}
use dyphira_chain.Bar.Invariant.{IsValid, new-IsValid}
use dyphira_chain.Bar.Moves.{status_of}
use dyphira_chain.Bar.Lifecycle.{add, promote, ban, step, run, run-IsValid}
use dyphira_chain.Network.{Host}
use dyphira_chain.Handshake.{
  MessageType, ping, pong, HandshakeMessage, HandshakeManager, own_version, verify_round_seed,
  same_start, handle_ping, handle_pong, not_selected,
}
use dyphira_chain.Handshake.Calls.{Event, message, handshakes, round, react_all, react_all-IsValid}
use dyphira_chain.Handshake.Answers.{replies, handle_ping_lem, rises, handle_pong_lem}
use dyphira_chain.Handshake.Penalties.{pings_ban}

abbrev digest : List ℕ → List ℕ
digest bytes = 42 ∷ 43 ∷ []

abbrev online : HandshakeMessage → Bool
online m = true

abbrev self : Host
self = record { id = 9; listen_addr = 99; on_handshake = true }

-- Two score points ban a greylisted peer.
abbrev strict : BarConfig
strict = record default_config { pom_ban_threshold = 2 }

abbrev start : BarNetwork
start = new_bar_network (some strict) (7 ∷ [])

-- The first peer is whitelisted, the second greylisted, the third banned.
abbrev peers : BarNetwork
peers = run start (add 1 11 100 ∷ promote 1 200 ∷ add 2 22 100 ∷ add 3 33 100 ∷ ban 3 5 ∷ [])

peers-IsValid : IsValid peers
peers-IsValid =
    run-IsValid start (add 1 11 100 ∷ promote 1 200 ∷ add 2 22 100 ∷ add 3 33 100 ∷ ban 3 5 ∷ [])
      (new-IsValid (some strict) (7 ∷ []))

abbrev manager : HandshakeManager
manager = record {
  host = some self;
  bar = peers;
  round = 4;
  round_seed = 42 ∷ 43 ∷ [];
  nonce = 500;
  sent = [];
  notified = [];
}

-- A message to this node; its seed has the right first byte and another second one.
abbrev from_peer : MessageType → PeerId → HandshakeMessage
from_peer type p = record {
  type = type;
  from = p;
  to = 9;
  round = 4;
  round_seed = 42 ∷ 0 ∷ [];
  timestamp = 1000;
  client_version = own_version;
  addr_received = 0;
  addr_from = 77;
  last_round = 4;
  nonce = 1;
}

third_banned : status_of peers 3 ≡ some banned
unfolding status_of get_peer_status run step add_peer is_peer_in_any_list promote_to_whitelist
    ban_peer new_bar_network lookup insert erase
third_banned = refl

second_grey : lookup 2 peers.greylist ≡ some (new_peer 2 22 100)
unfolding run step add_peer is_peer_in_any_list promote_to_whitelist ban_peer new_bar_network lookup
    insert erase
second_grey = refl

peers_threshold : peers.config.pom_ban_threshold ≡ 2
unfolding run step add_peer is_peer_in_any_list promote_to_whitelist ban_peer new_bar_network lookup
    insert erase
peers_threshold = refl

right_seed : verify_round_seed digest manager 4 (42 ∷ 0 ∷ []) ≡ true
unfolding verify_round_seed generate_round_seed
right_seed = refl

abbrev busy : List Event
busy = round 5 ∷ message (some (from_peer ping 3)) 300 301 ∷ handshakes 400 ∷ []

right_start : same_start (42 ∷ 0 ∷ []) (generate_round_seed digest peers 4) ≡ true
unfolding same_start generate_round_seed
right_start = refl

react_all-IsValid_example :
    IsValid (react_all digest online manager busy).bar
    × ((p : PeerId)
        → (status_of peers p ≢ some banned)
          ⊎ (status_of (react_all digest online manager busy).bar p ≡ some banned))
react_all-IsValid_example = react_all-IsValid digest online manager busy peers-IsValid

handle_ping_example :
    ((handle_ping digest online manager (from_peer ping 1) 300 301).sent
      ≡ []
        ++ (if has 1 peers.whitelist
            then replies online self manager (from_peer ping 1) 300 301
            else []))
    × ((handle_ping digest online manager (from_peer ping 1) 300 301).bar ≡ (
        if has 1 peers.whitelist
        then record peers { round = 4 }
        else update_pom_score (record peers { round = 4 }) 1 1 not_selected 300))
handle_ping_example =
    handle_ping_lem digest online self manager (from_peer ping 1) 300 301 peers-IsValid refl refl
      right_seed

handle_pong_example :
    ((q : PeerId)
      → status_of (handle_pong digest manager (from_peer pong 2) 300).bar q ≡ (
          if rises digest self manager (from_peer pong 2) 300 && 2 == q
          then some whitelisted
          else status_of peers q))
    × ((handle_pong digest manager (from_peer pong 2) 300).notified
        ≡ []
          ++ (if rises digest self manager (from_peer pong 2) 300 && true
              then (2, 77) ∷ []
              else []))
handle_pong_example =
    handle_pong_lem digest self manager (from_peer pong 2) 300 peers-IsValid refl refl right_seed
      (omega arith)

abbrev two_pings : List Event
two_pings =
    message (some (from_peer ping 2)) 300 301 ∷ message (some (from_peer ping 2)) 400 401 ∷ []

pings_ban_example : status_of (react_all digest online manager two_pings).bar 2 ≡ some banned
pings_ban_example =
    pings_ban digest online self 2 manager two_pings (new_peer 2 22 100) peers-IsValid refl
      (omega arith) second_grey (rw peers_threshold (omega arith))
      (rw peers_threshold (omega arith))
      ((refl, refl, refl, right_start), ((refl, refl, refl, right_start), tt))
