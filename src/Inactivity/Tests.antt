-- ===== src/Inactivity/Tests.antt =====
-- Runs of the inactivity monitor at concrete inputs.
use dyphira_chain.Common.{
  ℕ, ◌≡◌, refl, Bool, true, List, [], ◌∷◌, ◌++◌, none, some, ◌==◌, ◌&&◌, if◌then◌else◌,
}
use dyphira_chain.Common.Dict.{lookup, insert, erase, has}
use dyphira_chain.Bar.Peers.{PeerId, greylisted, banned, BarNetwork, new_bar_network}
use dyphira_chain.Bar.{
  add_peer, is_peer_in_any_list, ban_peer, promote_to_whitelist, get_peer_status,
}
use dyphira_chain.Bar.Invariant.{IsValid, new-IsValid}
use dyphira_chain.Bar.Moves.{status_of}
use dyphira_chain.Bar.Lifecycle.{add, promote, ban, step, run, run-IsValid}
use dyphira_chain.Network.{Host}
use dyphira_chain.Inactivity.{
  mark_inactive, InactivityMessage, InactivityMonitor, text, own_version, handle_mark_inactive,
}
use dyphira_chain.Inactivity.Records.{Report, record_all, about, Recorded, record_all_lem}
use dyphira_chain.Inactivity.Verdicts.{report_of, mark_verdict}

abbrev online : InactivityMessage → Bool
online m = true

abbrev self : Host
self = record { id = 9; listen_addr = 99; on_handshake = true }

abbrev start : BarNetwork
start = new_bar_network none (7 ∷ [])

-- The first peer is whitelisted, the second greylisted, the third banned.
abbrev peers : BarNetwork
peers = run start (add 1 11 100 ∷ promote 1 200 ∷ add 2 22 100 ∷ add 3 33 100 ∷ ban 3 5 ∷ [])

peers-IsValid : IsValid peers
peers-IsValid =
    run-IsValid start (add 1 11 100 ∷ promote 1 200 ∷ add 2 22 100 ∷ add 3 33 100 ∷ ban 3 5 ∷ [])
      (new-IsValid none (7 ∷ []))

third_banned : status_of peers 3 ≡ some banned
unfolding status_of get_peer_status run step add_peer is_peer_in_any_list promote_to_whitelist
    ban_peer new_bar_network lookup insert erase
third_banned = refl

abbrev monitor : InactivityMonitor
monitor = record {
  host = some self;
  bar = peers;
  records = [];
  is_seed_node = true;
  seed_node_threshold = 3;
  sent = [];
}

-- A mark of the first peer by the second.
abbrev mark : InactivityMessage
mark = record {
  type = mark_inactive;
  from = 2;
  to = 9;
  target_peer = 1;
  timestamp = 1000;
  client_version = own_version;
  reason = text 4;
  evidence = 8 ∷ [];
}

abbrev report : PeerId → PeerId → ℕ → Report
report p q time = record { peer = p; reporter = q; reason = text 4; evidence = 8 ∷ []; time = time }

record_all_example :
    Recorded 1
      (about 1 (report 1 2 100 ∷ report 5 2 150 ∷ report 1 2 200 ∷ []))
      (lookup 1 (record_all [] (report 1 2 100 ∷ report 5 2 150 ∷ report 1 2 200 ∷ [])))
record_all_example = record_all_lem 1 (report 1 2 100 ∷ report 5 2 150 ∷ report 1 2 200 ∷ [])

abbrev earlier : List Report
earlier = report 1 5 100 ∷ report 1 6 150 ∷ []

-- The monitor after two reports on the first peer; the mark is the third.
abbrev warned : InactivityMonitor
warned = record monitor { records = record_all [] earlier }

mark_verdict_example :
    let after = handle_mark_inactive online warned mark 300 in
    (after.records ≡ record_all [] (earlier ++ report_of mark 300 ∷ []))
    × ((q : PeerId)
        → status_of after.bar q
          ≡ (if 1 == q && has 1 peers.whitelist then some greylisted else status_of peers q))
mark_verdict_example =
    mark_verdict online self warned mark 300 earlier peers-IsValid refl refl refl refl
