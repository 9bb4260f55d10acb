-- ===== src/Bar.antt =====
-- bar_network.go: the peers of a node in three lists, and their scores of misbehaviour (POM).
-- Peer identifiers, addresses, client versions and reasons are only compared or stored, so they
-- are numbers. Scores are counts: no caller lowers one. `now` is the time that time.Now gives.
pub mod Peers
pub mod FindNodes
pub mod Seeds
pub mod Invariant
pub mod Moves
pub mod Lifecycle
pub mod Called
pub mod Scores
pub mod Selection
pub mod Chosen
mod Tests
use dyphira_chain.Common.{
  ℕ, zero, suc, ◌+◌, ◌%◌, Bool, true, false, ◌&&◌, ◌||◌, List, [], ◌∷◌, map, ◌++◌, Option, none,
  some, length, contains, get_elem?, ltb, leb, ◌==◌, if◌then◌else◌, sub64,
}
use dyphira_chain.Common.Dict.{Dict, lookup, has, insert, erase}
use Peers.{
  PeerId, PeerStatus, greylisted, whitelisted, banned, PeerInfo, ReputationRecord, BarConfig,
  BarNetwork,
}

unfoldable pub is_peer_in_any_list : BarNetwork → PeerId → Bool
is_peer_in_any_list bn p = has p bn.whitelist || has p bn.greylist || has p bn.banlist

-- The entry that `AddPeer` makes.
abbrev pub new_peer : PeerId → ℕ → ℕ → PeerInfo
new_peer p address now = record {
  id = p;
  address = address;
  status = greylisted;
  pom_score = 0;
  last_seen = now;
  handshake_at = 0;
  reputation = 0;
  is_seed = false;
  client_version = 0;
  last_round = 0;
}

unfoldable pub add_peer : BarNetwork → PeerId → ℕ → ℕ → BarNetwork
unfolding is_peer_in_any_list
add_peer bn p address now =
    if is_peer_in_any_list bn p
    then bn
    else record bn { greylist = insert p (new_peer p address now) bn.greylist }

-- `promoteToWhitelistNoLock`
unfoldable pub promote_to_whitelist : BarNetwork → PeerId → ℕ → BarNetwork × Bool
promote_to_whitelist bn p now = elim (lookup p bn.greylist) [
  | none ↦ (bn, false)
  | some info ↦ if leb bn.config.incoming_connections (length bn.whitelist) then (bn, false) else (
    record bn {
      greylist = erase p bn.greylist;
      whitelist = insert p (record info { status = whitelisted; handshake_at = now }) bn.whitelist;
    },
    true,
  )
]

-- `demoteToGreylistNoLock`
unfoldable pub demote_to_greylist : BarNetwork → PeerId → BarNetwork × Bool
demote_to_greylist bn p = elim (lookup p bn.whitelist) [
  | none ↦ (bn, false)
  | some info ↦ (
    record bn {
      whitelist = erase p bn.whitelist;
      greylist = insert p (record info { status = greylisted }) bn.greylist;
    },
    true,
  )
]

-- The end of `banPeerNoLock`: the entry in the ban list and the reputation record.
abbrev pub record_ban : BarNetwork → PeerId → PeerInfo → ℕ → BarNetwork
record_ban bn p info reason = record bn {
  banlist = insert p (record info { status = banned }) bn.banlist;
  reputation_records =
      insert p (record { pom_score = info.pom_score; last_round = bn.round; reason = reason })
        bn.reputation_records;
}

-- `banPeerNoLock`
unfoldable pub ban_peer : BarNetwork → PeerId → ℕ → BarNetwork
ban_peer bn p reason = elim (lookup p bn.whitelist) [
  | some info ↦ record_ban (record bn { whitelist = erase p bn.whitelist }) p info reason
  | none ↦ elim (lookup p bn.greylist) [
    | some info ↦ record_ban (record bn { greylist = erase p bn.greylist }) p info reason
    | none ↦ bn
  ]
]

-- The score and the time, written through the pointer that the list holds.
abbrev pub scored : PeerInfo → ℕ → ℕ → PeerInfo
scored info increment now = record info { pom_score = info.pom_score + increment; last_seen = now }

-- The last test of `UpdatePOMScore`, on the entry after its update.
unfoldable pub enforce : BarNetwork → PeerId → PeerInfo → ℕ → BarNetwork
enforce bn p info reason = elim info.status [
  | whitelisted ↦
      if leb bn.config.pom_threshold info.pom_score then (demote_to_greylist bn p).0 else bn
  | greylisted ↦ if leb bn.config.pom_ban_threshold info.pom_score then ban_peer bn p reason else bn
  | banned ↦ bn
]

unfoldable pub update_pom_score : BarNetwork → PeerId → ℕ → ℕ → ℕ → BarNetwork
update_pom_score bn p increment reason now = elim (lookup p bn.whitelist) [
  | some info ↦
      let info' = scored info increment now in
      enforce (record bn { whitelist = insert p info' bn.whitelist }) p info' reason
  | none ↦ elim (lookup p bn.greylist) [
    | some info ↦
        let info' = scored info increment now in
        enforce (record bn { greylist = insert p info' bn.greylist }) p info' reason
    | none ↦ bn
  ]
]

unfoldable pub get_peer_status : BarNetwork → PeerId → PeerStatus × Bool
get_peer_status bn p = elim (lookup p bn.whitelist) [
  | some info ↦ (info.status, true)
  | none ↦ elim (lookup p bn.greylist) [
    | some info ↦ (info.status, true)
    | none ↦ elim (lookup p bn.banlist) [
      | some info ↦ (info.status, true)
      | none ↦ (greylisted, false)
    ]
  ]
]

abbrev pub values : Dict PeerInfo → List PeerInfo
values = map (λ e. e.1)

-- `GetAllPeers`
unfoldable pub get_all_peers : BarNetwork → List PeerInfo
get_all_peers bn = values bn.whitelist ++ (values bn.greylist ++ values bn.banlist)

-- The loop of `CleanupReputationRecords`; the age is a difference of uint64 values.
unfoldable pub cleanup : ℕ → ℕ → Dict ReputationRecord → Dict ReputationRecord
cleanup round memory [] = []
cleanup round memory ((p, r) ∷ m) =
    let rest = cleanup round memory m in
    if ltb memory (sub64 round r.last_round) then rest else (p, r) ∷ rest

unfoldable pub cleanup_reputation_records : BarNetwork → BarNetwork
cleanup_reputation_records bn = record bn {
  reputation_records = cleanup bn.round bn.config.reputation_memory bn.reputation_records;
}
