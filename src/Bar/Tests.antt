-- ===== src/Bar/Tests.antt =====
-- Runs of the peer lists at concrete inputs.
use dyphira_chain.Common.{◌+◌, ◌≡◌, refl, List, [], ◌∷◌, none, some, contains, IsDistinct}
use dyphira_chain.Common.Dict.{lookup, insert, erase, has}
use dyphira_chain.Bar.Peers.{PeerId, whitelisted, banned, PeerInfo, BarNetwork, new_bar_network}
use dyphira_chain.Bar.{
  new_peer, add_peer, is_peer_in_any_list, ban_peer, promote_to_whitelist, get_peer_status,
}
use dyphira_chain.Bar.FindNodes.{find_nodes}
use dyphira_chain.Bar.Invariant.{IsValid, new-IsValid}
use dyphira_chain.Bar.Moves.{status_of, Move}
use dyphira_chain.Bar.Lifecycle.{
  Call, add, promote, ban, step, run, run-IsValid, step-Move, run-banned,
}
use dyphira_chain.Bar.Chosen.{find_nodes_lem}

abbrev start : BarNetwork
start = new_bar_network none (7 ∷ [])

start-IsValid : IsValid start
start-IsValid = new-IsValid none (7 ∷ [])

-- Two peers join, and the first is promoted.
abbrev history : List Call
history = add 1 11 100 ∷ add 2 22 100 ∷ promote 1 200 ∷ []

abbrev two_peers : BarNetwork
two_peers = run start history

two_peers-IsValid : IsValid two_peers
two_peers-IsValid = run-IsValid start history start-IsValid

run-IsValid_example : IsValid two_peers
run-IsValid_example = run-IsValid start history start-IsValid

step-Move_example : Move (status_of two_peers 2) (status_of (step two_peers (promote 2 300)) 2)
step-Move_example = step-Move two_peers (promote 2 300) 2 two_peers-IsValid

-- A peer that joins and is banned.
abbrev expelled : BarNetwork
expelled = run start (add 1 11 100 ∷ ban 1 5 ∷ [])

expelled-IsValid : IsValid expelled
expelled-IsValid = run-IsValid start (add 1 11 100 ∷ ban 1 5 ∷ []) start-IsValid

expelled_banned : status_of expelled 1 ≡ some banned
unfolding status_of get_peer_status run step add_peer is_peer_in_any_list ban_peer new_bar_network
    lookup insert erase
expelled_banned = refl

run-banned_example : status_of (run expelled (add 1 11 300 ∷ promote 1 400 ∷ [])) 1 ≡ some banned
run-banned_example =
    run-banned expelled (add 1 11 300 ∷ promote 1 400 ∷ []) 1 expelled-IsValid expelled_banned

abbrev grey_entry : PeerInfo
grey_entry = new_peer 2 22 100

abbrev white_entry : PeerInfo
white_entry = record (new_peer 1 11 100) { status = whitelisted; handshake_at = 200 }

white_found : lookup 1 two_peers.whitelist ≡ some white_entry
unfolding run step add_peer is_peer_in_any_list promote_to_whitelist new_bar_network lookup insert
    erase
white_found = refl

grey_found : lookup 2 two_peers.greylist ≡ some grey_entry
unfolding run step add_peer is_peer_in_any_list promote_to_whitelist new_bar_network lookup insert
    erase
grey_found = refl

find_nodes_example :
    (ids : List PeerId) × ((find_nodes (λ round i. round + i) two_peers 3).1 ≡ some ids)
    × IsDistinct ids
    × ((p : PeerId) → contains p ids ≡ has p two_peers.whitelist)
find_nodes_example = find_nodes_lem (λ round i. round + i) two_peers 3 two_peers-IsValid
