-- ===== src/Bar/Moves.antt =====
-- bar_network.go: which status of a peer each call may follow by which.
use dyphira_chain.Common.{
  ℕ, ◌≡◌, ◌⊎◌, inl, inr, refl, Option, none, some, ==_iff, if◌then◌else◌, arith, Option-cases,
}
use dyphira_chain.Common.Dict.{lookup, insert, lookup-insert, lookup-erase}
use dyphira_chain.Bar.Peers.{
  PeerId, PeerStatus, greylisted, whitelisted, banned, PeerInfo, BarNetwork,
}
use dyphira_chain.Bar.{
  add_peer, new_peer, promote_to_whitelist, demote_to_greylist, ban_peer, scored, enforce,
  update_pom_score, get_peer_status,
}
use dyphira_chain.Bar.Invariant.{IsValid, white_score-IsValid, grey_score-IsValid}

-- The status of a peer, if it is known.
unfoldable pub status_of : BarNetwork → PeerId → Option PeerStatus
unfolding get_peer_status
status_of bn p = if (get_peer_status bn p).1 then some (get_peer_status bn p).0 else none

-- What one call may do to a status: nothing, or admit an unknown peer to the greylist, promote
-- a greylisted one, demote a whitelisted one, or ban either.
pub data Move : Option PeerStatus → Option PeerStatus → Type 0 where
  stay : (s : Option PeerStatus) → Move s s
  join : Move none (some greylisted)
  rise : Move (some greylisted) (some whitelisted)
  fall : Move (some whitelisted) (some greylisted)
  expel_grey : Move (some greylisted) (some banned)
  expel_white : Move (some whitelisted) (some banned)

abbrev pub MayMove : Option PeerStatus → Option PeerStatus → Type 0
MayMove a b =
    (b ≡ a)
    ⊎ ((a ≡ none) × (b ≡ some greylisted))
    ⊎ ((a ≡ some greylisted) × (b ≡ some whitelisted))
    ⊎ ((a ≡ some whitelisted) × (b ≡ some greylisted))
    ⊎ ((a ≡ some greylisted) × (b ≡ some banned))
    ⊎ ((a ≡ some whitelisted) × (b ≡ some banned))

module _ (bn : BarNetwork) (v : IsValid bn) (q : PeerId) where
  pub add-MayMove :
      (p address now : ℕ) → MayMove (status_of bn q) (status_of (add_peer bn p address now) q)
  unfolding status_of add_peer
  add-MayMove p address now = ground (
    arith,
    v.stands p,
    v.stands q,
    lookup-insert p q (new_peer p address now) bn.greylist,
    ==_iff p q,
  )

  pub promote-MayMove :
      (p now : ℕ) → MayMove (status_of bn q) (status_of (promote_to_whitelist bn p now).0 q)
  unfolding status_of promote_to_whitelist
  promote-MayMove p now = elim (Option-cases (lookup p bn.greylist)) [
    | inl e ↦ rw (e, promote_to_whitelist) (inl refl)
    | inr (info, e) ↦ ground (
      arith,
      v.stands p,
      v.stands q,
      lookup-insert p q (record info { status = whitelisted; handshake_at = now }) bn.whitelist,
      lookup-erase p q bn.greylist,
      ==_iff p q,
    )
  ]

  pub demote-MayMove :
      (p : PeerId) → MayMove (status_of bn q) (status_of (demote_to_greylist bn p).0 q)
  unfolding status_of demote_to_greylist
  demote-MayMove p = elim (Option-cases (lookup p bn.whitelist)) [
    | inl e ↦ rw (e, demote_to_greylist) (inl refl)
    | inr (info, e) ↦ ground (
      arith,
      v.stands p,
      v.stands q,
      lookup-insert p q (record info { status = greylisted }) bn.greylist,
      lookup-erase p q bn.whitelist,
      ==_iff p q,
    )
  ]

  pub ban-MayMove : (p reason : ℕ) → MayMove (status_of bn q) (status_of (ban_peer bn p reason) q)
  unfolding status_of ban_peer
  ban-MayMove p reason = elim (Option-cases (lookup p bn.whitelist)) [
    | inr (info, e) ↦ ground (
      arith,
      v.stands p,
      v.stands q,
      lookup-insert p q (record info { status = banned }) bn.banlist,
      lookup-erase p q bn.whitelist,
      ==_iff p q,
    )
    | inl w ↦ elim (Option-cases (lookup p bn.greylist)) [
      | inr (info, e) ↦ ground (
        arith,
        v.stands p,
        v.stands q,
        lookup-insert p q (record info { status = banned }) bn.banlist,
        lookup-erase p q bn.greylist,
        ==_iff p q,
      )
      | inl g ↦ rw (w, ban_peer) (rw (g, ban_peer) (inl refl))
    ]
  ]

  -- A new score alone changes no status.
  white_score-status :
      (p : PeerId) (info : PeerInfo) (increment now : ℕ)
      → lookup p bn.whitelist ≡ some info
      → status_of (record bn { whitelist = insert p (scored info increment now) bn.whitelist }) q
        ≡ status_of bn q
  unfolding status_of
  white_score-status p info increment now e =
      ground (arith, lookup-insert p q (scored info increment now) bn.whitelist, ==_iff p q)

  grey_score-status :
      (p : PeerId) (info : PeerInfo) (increment now : ℕ)
      → lookup p bn.greylist ≡ some info
      → status_of (record bn { greylist = insert p (scored info increment now) bn.greylist }) q
        ≡ status_of bn q
  unfolding status_of
  grey_score-status p info increment now e =
      ground (arith, lookup-insert p q (scored info increment now) bn.greylist, ==_iff p q)

enforce-MayMove :
    (bn : BarNetwork) (q p : PeerId) (info : PeerInfo) (reason : ℕ)
    → IsValid bn
    → MayMove (status_of bn q) (status_of (enforce bn p info reason) q)
unfolding enforce
enforce-MayMove bn q p info reason v =
    ground (arith, demote-MayMove bn v q p, ban-MayMove bn v q p reason)

pub score-MayMove :
    (bn : BarNetwork) (q p : PeerId) (increment reason now : ℕ)
    → IsValid bn
    → MayMove (status_of bn q) (status_of (update_pom_score bn p increment reason now) q)
unfolding update_pom_score
score-MayMove bn q p increment reason now v = elim (Option-cases (lookup p bn.whitelist)) [
  | inr (info, e) ↦
      rw (e, update_pom_score)
        (rw (← white_score-status bn v q p info increment now e) (
          enforce-MayMove _ q p (scored info increment now) reason
            (white_score-IsValid bn v p info increment now e)))
  | inl w ↦ elim (Option-cases (lookup p bn.greylist)) [
    | inr (info, e) ↦
        rw (w, update_pom_score)
          (rw (e, update_pom_score)
            (rw (← grey_score-status bn v q p info increment now e) (
              enforce-MayMove _ q p (scored info increment now) reason
                (grey_score-IsValid bn v p info increment now e))))
    | inl g ↦ rw (w, update_pom_score) (rw (g, update_pom_score) (inl refl))
  ]
]
