-- ===== src/Inactivity.antt =====
-- inactivity_monitor.go: reports of inactive peers among seed nodes. Texts and evidence are only
-- stored, so they are numbers; times are in nanoseconds. A message arrives as `none` where
-- json.Unmarshal fails. Whether a message is published is a test that the caller gives; one that
-- json.Marshal refuses counts as not published.
mod Messages
pub mod Records
pub mod Marks
pub mod Checks
pub mod Verdicts
mod Tests
pub use Messages.*
use dyphira_chain.Common.{
  ℕ, ◌+◌, ◌-◌, Bool, true, false, not, ◌||◌, ◌&&◌, List, [], ◌∷◌, ◌++◌, Option, none, some, length,
  contains, ltb, leb, ◌==◌, if◌then◌else◌,
}
use dyphira_chain.Common.Dict.{Dict, lookup, insert, erase}
use dyphira_chain.Bar.Peers.{
  PeerId, PeerStatus, greylisted, whitelisted, banned, PeerInfo, BarNetwork,
}
use dyphira_chain.Bar.{update_pom_score, get_peer_status, demote_to_greylist, get_all_peers, values}
use dyphira_chain.Network.{Host}

unfoldable pub new_inactivity_monitor : Option Host → BarNetwork → Bool → InactivityMonitor
new_inactivity_monitor host bar is_seed_node = record {
  host = host;
  bar = bar;
  records = [];
  is_seed_node = is_seed_node;
  seed_node_threshold = 3;
  sent = [];
}

-- The record of a peer that was never reported.
abbrev pub fresh_record : PeerId → (now : ℕ) → InactivityRecord
fresh_record p now = record {
  peer_id = p;
  first_reported = now;
  last_reported = now;
  report_count = 0;
  reporters = [];
  reasons = [];
  evidence = [];
}

-- The reporters with one more, if it is not among them.
abbrev pub with_reporter : List PeerId → PeerId → List PeerId
with_reporter reporters q = if contains q reporters then reporters else reporters ++ q ∷ []

-- A record with one more report.
abbrev pub reported : InactivityRecord → PeerId → Reason → List ℕ → (now : ℕ) → InactivityRecord
reported r reporter reason evidence now = record r {
  last_reported = now;
  report_count = r.report_count + 1;
  reporters = with_reporter r.reporters reporter;
  reasons = r.reasons ++ reason ∷ [];
  evidence = r.evidence ++ evidence;
}

abbrev pub record_or_fresh : Option InactivityRecord → PeerId → (now : ℕ) → InactivityRecord
record_or_fresh none p now = fresh_record p now
record_or_fresh (some r) p now = r

unfoldable pub record_inactivity :
    Dict InactivityRecord
    → (peer reporter : PeerId) → Reason
    → List ℕ
    → (now : ℕ) → Dict InactivityRecord
record_inactivity records p reporter reason evidence now =
    insert p (reported (record_or_fresh (lookup p records) p now) reporter reason evidence now)
      records

-- The tests of `shouldMarkAsInactive` on a record.
abbrev pub is_overdue : (threshold : ℕ) → InactivityRecord → (now : ℕ) → Bool
is_overdue threshold r now =
    leb threshold (length r.reporters)
    || leb 5 r.report_count && ltb 600000000000 (now - r.first_reported)

unfoldable pub should_mark_as_inactive : InactivityMonitor → PeerId → (now : ℕ) → Bool
should_mark_as_inactive im p now = elim (lookup p im.records) [
  | none ↦ false
  | some r ↦ is_overdue im.seed_node_threshold r now
]

-- The report that `broadcastInactivityReport` sends.
abbrev pub broadcast : Host → InactivityRecord → PeerId → (now : ℕ) → InactivityMessage
broadcast host r p now = record {
  type = inactivity_report;
  from = host.id;
  to = everyone;
  target_peer = p;
  timestamp = now;
  client_version = own_version;
  reason = marked_by (length r.reporters);
  evidence = r.evidence;
}

-- The message that `reportInactivity` sends to one peer.
abbrev pub mark_message :
    Host → (target to : PeerId) → Reason → List ℕ → (now : ℕ) → InactivityMessage
mark_message host target to reason evidence now = record {
  type = mark_inactive;
  from = host.id;
  to = to;
  target_peer = target;
  timestamp = now;
  client_version = own_version;
  reason = reason;
  evidence = evidence;
}

unfoldable pub is_peer_inactive : BarNetwork → PeerId → Bool
is_peer_inactive bar p =
    let (status, exists) = get_peer_status bar p in
    if not exists
    then false
    else elim status [ greylisted ↦ true | whitelisted ↦ false | banned ↦ false ]

module _ (published : InactivityMessage → Bool) where
  unfoldable pub publish : InactivityMonitor → InactivityMessage → InactivityMonitor
  publish im message =
      if published message then record im { sent = im.sent ++ message ∷ [] } else im

  unfoldable pub broadcast_inactivity_report :
      Host → InactivityMonitor → PeerId → (now : ℕ) → InactivityMonitor
  unfolding publish
  broadcast_inactivity_report host im p now = elim (lookup p im.records) [
    | none ↦ im
    | some r ↦ publish im (broadcast host r p now)
  ]

  unfoldable pub mark_peer_as_inactive :
      Host → InactivityMonitor → PeerId → (now : ℕ) → InactivityMonitor
  unfolding broadcast_inactivity_report
  mark_peer_as_inactive host im p now =
      broadcast_inactivity_report host (record im { bar = (demote_to_greylist im.bar p).0 }) p now

  unfoldable pub handle_mark_inactive :
      InactivityMonitor → InactivityMessage → (now : ℕ) → InactivityMonitor
  unfolding record_inactivity should_mark_as_inactive mark_peer_as_inactive
  handle_mark_inactive im m now = elim im.host [
    | none ↦ im
    | some host ↦
        if not (m.to == host.id)
        then im
        else if not im.is_seed_node
        then record im { bar = update_pom_score im.bar m.from 1 not_a_seed now }
        else (let im' : InactivityMonitor = record im {
          records = record_inactivity im.records m.target_peer m.from m.reason m.evidence now;
        } in
            if should_mark_as_inactive im' m.target_peer now
            then mark_peer_as_inactive host im' m.target_peer now
            else im')
  ]

  unfoldable pub handle_inactivity_report :
      InactivityMonitor → InactivityMessage → (now : ℕ) → InactivityMonitor
  unfolding record_inactivity
  handle_inactivity_report im m now = elim im.host [
    | none ↦ im
    | some host ↦ if not (m.to == host.id) then im else record im {
      records = record_inactivity im.records m.target_peer m.from m.reason m.evidence now;
    }
  ]

  -- The `switch` of `handleInactivityMessage`.
  unfoldable pub dispatch :
      MessageType → InactivityMonitor → InactivityMessage → (now : ℕ) → InactivityMonitor
  dispatch mark_inactive im m now = handle_mark_inactive im m now
  dispatch inactivity_report im m now = handle_inactivity_report im m now
  dispatch unknown im m now = im

  -- `handleInactivityMessage` for a message of its topic, which a peer sent on.
  unfoldable pub handle_inactivity_message :
      InactivityMonitor
      → Option InactivityMessage
      → (received_from : PeerId) → (now : ℕ) → InactivityMonitor
  unfolding dispatch
  handle_inactivity_message im message received_from now = elim im.host [
    | none ↦ im
    | some host ↦ elim message [
      | none ↦ record im { bar = update_pom_score im.bar received_from 1 malformed now }
      | some m ↦ if m.from == host.id then im else dispatch m.type im m now
    ]
  ]

  -- The loop of `reportInactivity` over the whitelist.
  unfoldable pub report_to :
      Host
      → InactivityMonitor
      → List PeerInfo
      → (target : PeerId) → Reason
      → List ℕ
      → (now : ℕ) → InactivityMonitor
  unfolding publish
  report_to host im [] target reason evidence now = im
  report_to host im (info ∷ rest) target reason evidence now =
      report_to host
        (if info.id == host.id
          then im
          else publish im (mark_message host target info.id reason evidence now))
        rest target reason evidence now

  unfoldable pub report_inactivity :
      InactivityMonitor → (target : PeerId) → Reason → List ℕ → (now : ℕ) → InactivityMonitor
  unfolding report_to
  report_inactivity im target reason evidence now =
      if not im.is_seed_node then im else elim im.host [
        | none ↦ im
        | some host ↦ report_to host im (values im.bar.whitelist) target reason evidence now
      ]

  -- The loop of `checkForInactivity`.
  unfoldable pub check_all :
      Host → InactivityMonitor → List PeerInfo → (now : ℕ) → InactivityMonitor
  unfolding report_inactivity
  check_all host im [] now = im
  check_all host im (info ∷ rest) now =
      check_all host
        (if info.id == host.id
          then im
          else if is_peer_inactive im.bar info.id
          then report_inactivity im info.id (text 1) (1 ∷ []) now
          else im)
        rest now

  unfoldable pub check_for_inactivity : InactivityMonitor → (now : ℕ) → InactivityMonitor
  unfolding check_all
  check_for_inactivity im now = elim im.host [
    | none ↦ im
    | some host ↦ check_all host im (get_all_peers im.bar) now
  ]

unfoldable pub get_inactivity_record : InactivityMonitor → PeerId → Option InactivityRecord
get_inactivity_record im p = lookup p im.records

unfoldable pub clear_inactivity_record : InactivityMonitor → PeerId → InactivityMonitor
clear_inactivity_record im p = record im { records = erase p im.records }
