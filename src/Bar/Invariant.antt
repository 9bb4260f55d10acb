-- ===== src/Bar/Invariant.antt =====
-- The three lists of peers: no peer is in two of them, every entry says in which it stands, and
-- the whitelist keeps to its bound.
use dyphira_chain.Common.{
  ℕ, ◌≤◌, ◌≡◌, inl, inr, List, Option, none, some, length, IsDistinct, ==_iff, if◌then◌else◌, leb,
  arith, Option-cases,
}
use dyphira_chain.Common.Dict.{
  lookup, insert, lookup-insert, lookup-erase, length-insert_new, length-erase-le,
  length-insert_old, insert-IsDistinct, erase-IsDistinct, keys,
}
use dyphira_chain.Bar.Peers.{
  PeerId, PeerStatus, greylisted, whitelisted, banned, PeerInfo, BarConfig, BarNetwork,
  new_bar_network,
}
use dyphira_chain.Bar.{
  new_peer, add_peer, promote_to_whitelist, demote_to_greylist, ban_peer, scored, enforce,
  update_pom_score,
}

-- What the whitelist, the greylist and the ban list may hold for one peer: an entry in at most
-- one of them, for that peer and with the status of its list.
abbrev pub Fits : PeerId → Option PeerInfo → Option PeerInfo → Option PeerInfo → Type 0
Fits p none none none = Unit
Fits p (some i) none none = (i.status ≡ whitelisted) × (i.id ≡ p)
Fits p none (some i) none = (i.status ≡ greylisted) × (i.id ≡ p)
Fits p none none (some i) = (i.status ≡ banned) × (i.id ≡ p)
Fits p _ _ _ = ⊥

abbrev pub Stands : BarNetwork → PeerId → Type 0
Stands bn p = Fits p (lookup p bn.whitelist) (lookup p bn.greylist) (lookup p bn.banlist)

-- Every peer stands in at most one list, and the whitelist binds no peer twice and
-- has at most as many entries as there are incoming connections.
pub record IsValid (bn : BarNetwork) : Type 0 where
  pub stands : (p : PeerId) → Stands bn p
  pub room : length bn.whitelist ≤ bn.config.incoming_connections
  pub distinct : IsDistinct (keys bn.whitelist)

pub new-IsValid : (c : Option BarConfig) (seed : List ℕ) → IsValid (new_bar_network c seed)
unfolding new_bar_network lookup
new-IsValid c seed = record { stands = λ p. tt; room = omega arith; distinct = tt }

module _ (bn : BarNetwork) (v : IsValid bn) where
  pub add-IsValid : (p : PeerId) (address now : ℕ) → IsValid (add_peer bn p address now)
  unfolding add_peer
  add-IsValid p address now = record {
    stands = λ q. ground (
      arith,
      v.stands p,
      v.stands q,
      lookup-insert p q (new_peer p address now) bn.greylist,
      ==_iff p q,
    );
    room = ground (arith, v.room);
    distinct = ground (arith, v.distinct);
  }

  pub promote-IsValid : (p : PeerId) (now : ℕ) → IsValid (promote_to_whitelist bn p now).0
  unfolding promote_to_whitelist
  promote-IsValid p now = elim (Option-cases (lookup p bn.greylist)) [
    | inl e ↦ rw (e, promote_to_whitelist) v
    | inr (info, e) ↦
        let info' : PeerInfo = record info { status = whitelisted; handshake_at = now } in
        record {
          stands = λ q. ground (
            arith,
            v.stands p,
            v.stands q,
            lookup-insert p q info' bn.whitelist,
            lookup-erase p q bn.greylist,
            ==_iff p q,
          );
          room = ground (arith, v.stands p, v.room, length-insert_new p info' bn.whitelist);
          distinct = ground (arith, insert-IsDistinct p info' bn.whitelist v.distinct);
        }
  ]

  pub demote-IsValid : (p : PeerId) → IsValid (demote_to_greylist bn p).0
  unfolding demote_to_greylist
  demote-IsValid p = elim (Option-cases (lookup p bn.whitelist)) [
    | inl e ↦ rw (e, demote_to_greylist) v
    | inr (info, e) ↦
        let info' : PeerInfo = record info { status = greylisted } in
        record {
          stands = λ q. ground (
            arith,
            v.stands p,
            v.stands q,
            lookup-insert p q info' bn.greylist,
            lookup-erase p q bn.whitelist,
            ==_iff p q,
          );
          room = ground (arith, v.room, length-erase-le p bn.whitelist);
          distinct = ground (arith, erase-IsDistinct p bn.whitelist v.distinct);
        }
  ]

  pub ban-IsValid : (p : PeerId) (reason : ℕ) → IsValid (ban_peer bn p reason)
  unfolding ban_peer
  ban-IsValid p reason = elim (Option-cases (lookup p bn.whitelist)) [
    | inr (info, e) ↦
        let info' : PeerInfo = record info { status = banned } in
        record {
          stands = λ q. ground (
            arith,
            v.stands p,
            v.stands q,
            lookup-insert p q info' bn.banlist,
            lookup-erase p q bn.whitelist,
            ==_iff p q,
          );
          room = ground (arith, v.room, length-erase-le p bn.whitelist);
          distinct = ground (arith, erase-IsDistinct p bn.whitelist v.distinct);
        }
    | inl w ↦ elim (Option-cases (lookup p bn.greylist)) [
      | inr (info, e) ↦
          let info' : PeerInfo = record info { status = banned } in
          record {
            stands = λ q. ground (
              arith,
              v.stands p,
              v.stands q,
              lookup-insert p q info' bn.banlist,
              lookup-erase p q bn.greylist,
              ==_iff p q,
            );
            room = ground (arith, v.room);
            distinct = ground (arith, v.distinct);
          }
      | inl g ↦ rw (w, ban_peer) (rw (g, ban_peer) v)
    ]
  ]

  -- A new score for a peer of the whitelist, written through its pointer.
  pub white_score-IsValid :
      (p : PeerId) (info : PeerInfo) (increment now : ℕ)
      → lookup p bn.whitelist ≡ some info
      → IsValid (record bn { whitelist = insert p (scored info increment now) bn.whitelist })
  white_score-IsValid p info increment now e = record {
    stands = λ q. ground (
      arith,
      v.stands p,
      v.stands q,
      lookup-insert p q (scored info increment now) bn.whitelist,
      ==_iff p q,
    );
    room =
        omega (arith, v.room, length-insert_old p (scored info increment now) info bn.whitelist e);
    distinct = insert-IsDistinct p (scored info increment now) bn.whitelist v.distinct;
  }

  pub grey_score-IsValid :
      (p : PeerId) (info : PeerInfo) (increment now : ℕ)
      → lookup p bn.greylist ≡ some info
      → IsValid (record bn { greylist = insert p (scored info increment now) bn.greylist })
  grey_score-IsValid p info increment now e = record {
    stands = λ q. ground (
      arith,
      v.stands p,
      v.stands q,
      lookup-insert p q (scored info increment now) bn.greylist,
      ==_iff p q,
    );
    room = v.room;
    distinct = v.distinct;
  }

enforce-IsValid :
    (bn : BarNetwork) (p : PeerId) (info : PeerInfo) (reason : ℕ)
    → IsValid bn
    → IsValid (enforce bn p info reason)
unfolding enforce
enforce-IsValid bn p info reason v = go info.status
  where
    go :
        (s : PeerStatus)
        → IsValid (elim s [
          | whitelisted ↦
              if leb bn.config.pom_threshold info.pom_score then (demote_to_greylist bn p).0 else bn
          | greylisted ↦
              if leb bn.config.pom_ban_threshold info.pom_score then ban_peer bn p reason else bn
          | banned ↦ bn
        ])
    go whitelisted = ground (arith, demote-IsValid bn v p, v)
    go greylisted = ground (arith, ban-IsValid bn v p reason, v)
    go banned = v

-- A new score keeps the lists valid, whether or not it demotes or bans the peer.
pub update_pom_score-IsValid :
    (bn : BarNetwork) (p : PeerId) (increment reason now : ℕ)
    → IsValid bn
    → IsValid (update_pom_score bn p increment reason now)
unfolding update_pom_score
update_pom_score-IsValid bn p increment reason now v = elim (Option-cases (lookup p bn.whitelist)) [
  | inr (info, e) ↦
      rw (e, update_pom_score)
        (enforce-IsValid _ p (scored info increment now) reason
          (white_score-IsValid bn v p info increment now e))
  | inl w ↦ elim (Option-cases (lookup p bn.greylist)) [
    | inr (info, e) ↦
        rw (w, update_pom_score)
          (rw (e, update_pom_score)
            (enforce-IsValid _ p (scored info increment now) reason
              (grey_score-IsValid bn v p info increment now e)))
    | inl g ↦ rw (w, update_pom_score) (rw (g, update_pom_score) v)
  ]
]
