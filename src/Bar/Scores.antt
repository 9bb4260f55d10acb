-- ===== src/Bar/Scores.antt =====
-- What a score of misbehaviour brings about.
use dyphira_chain.Common.{ℕ, ◌+◌, ◌≡◌, leb, if◌then◌else◌, none, some, ==_iff, arith}
use dyphira_chain.Common.Dict.{lookup, insert, lookup-insert, lookup-erase}
use dyphira_chain.Bar.Peers.{PeerId, greylisted, banned, PeerInfo, BarNetwork}
use dyphira_chain.Bar.{demote_to_greylist, ban_peer, scored, enforce, update_pom_score}
use dyphira_chain.Bar.Invariant.{IsValid}

module _ (bn : BarNetwork) (v : IsValid bn) (p : PeerId) (info : PeerInfo)
    (increment reason now : ℕ) where
  abbrev after : BarNetwork
  after = update_pom_score bn p increment reason now

  -- In a valid network, a whitelisted peer whose score reaches the threshold leaves the whitelist
  -- for the greylist, whatever the ban threshold is, and keeps its score there; one below the
  -- threshold stays, with the new score, and is not on the greylist.
  pub update_whitelisted :
      lookup p bn.whitelist ≡ some info
      → (lookup p after.whitelist ≡ (
          if leb bn.config.pom_threshold (info.pom_score + increment)
          then none
          else some (scored info increment now)))
        × (lookup p after.greylist ≡ (
            if leb bn.config.pom_threshold (info.pom_score + increment)
            then some (record (scored info increment now) { status = greylisted })
            else none))
  unfolding update_pom_score enforce demote_to_greylist
  update_whitelisted e =
      rw (e, update_pom_score)
        (ground (
          arith,
          v.stands p,
          lookup-insert p p (scored info increment now) bn.whitelist,
          lookup-erase p p (insert p (scored info increment now) bn.whitelist),
          lookup-insert p p (record (scored info increment now) { status = greylisted })
              bn.greylist,
          ==_iff p p,
        ))

  -- In a valid network, a greylisted peer whose score reaches the ban threshold leaves the greylist
  -- for the ban list, with a record of its score, the round and the reason; one below it stays,
  -- with the new score, is not banned, and its record is the one from before.
  pub update_greylisted :
      lookup p bn.greylist ≡ some info
      → (lookup p after.greylist ≡ (
          if leb bn.config.pom_ban_threshold (info.pom_score + increment)
          then none
          else some (scored info increment now)))
        × (lookup p after.banlist ≡ (
            if leb bn.config.pom_ban_threshold (info.pom_score + increment)
            then some (record (scored info increment now) { status = banned })
            else none))
        × (lookup p after.reputation_records ≡ (
            if leb bn.config.pom_ban_threshold (info.pom_score + increment)
            then some (record {
              pom_score = info.pom_score + increment;
              last_round = bn.round;
              reason = reason;
            })
            else lookup p bn.reputation_records))
  unfolding update_pom_score enforce ban_peer
  update_greylisted e =
      rw (grey_not_white, update_pom_score)
        (rw (e, update_pom_score)
          (ground (
            arith,
            v.stands p,
            grey_not_white,
            lookup-insert p p (scored info increment now) bn.greylist,
            lookup-erase p p (insert p (scored info increment now) bn.greylist),
            lookup-insert p p (record (scored info increment now) { status = banned }) bn.banlist,
            lookup-insert p p
                (record {
                  pom_score = info.pom_score + increment;
                  last_round = bn.round;
                  reason = reason;
                })
                bn.reputation_records,
            ==_iff p p,
          )))
    where
      grey_not_white : lookup p bn.whitelist ≡ none
      grey_not_white = ground (arith, v.stands p, e)
