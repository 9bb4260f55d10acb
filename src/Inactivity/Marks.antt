-- ===== src/Inactivity/Marks.antt =====
-- What a mark of inactivity brings about, and what a broadcast does not.
use dyphira_chain.Common.{
  ℕ, ◌≡◌, ◌≢◌, refl, Bool, true, ◌&&◌, [], ◌∷◌, ◌++◌, some, ◌==◌, ==_iff, if◌then◌else◌, arith,
  Option-cases, Bool-cases, inl, inr,
}
use mathlib.Core.List.{append-nil}
use dyphira_chain.Common.Dict.{lookup, has, lookup-insert, lookup-erase}
use dyphira_chain.Bar.Peers.{PeerId, greylisted, BarNetwork}
use dyphira_chain.Bar.{demote_to_greylist, get_peer_status}
use dyphira_chain.Bar.Invariant.{IsValid}
use dyphira_chain.Bar.Moves.{status_of}
use dyphira_chain.Network.{Host}
use dyphira_chain.Inactivity.{
  InactivityMessage, InactivityRecord, InactivityMonitor, everyone, reported, record_or_fresh,
  record_inactivity, is_overdue, broadcast, publish, handle_mark_inactive, handle_inactivity_report,
  dispatch, handle_inactivity_message,
}

demote-status :
    (bn : BarNetwork) (p q : PeerId)
    → IsValid bn
    → status_of (demote_to_greylist bn p).0 q
      ≡ (if p == q && has p bn.whitelist then some greylisted else status_of bn q)
unfolding status_of get_peer_status demote_to_greylist
demote-status bn p q v = elim (Option-cases (lookup p bn.whitelist)) [
  | inl e ↦ ground (arith, e)
  | inr (info, e) ↦ ground (
    arith,
    e,
    v.stands p,
    v.stands q,
    lookup-insert p q (record info { status = greylisted }) bn.greylist,
    lookup-erase p q bn.whitelist,
    ==_iff p q,
  )
]

module _ (host : Host) (im : InactivityMonitor) (m : InactivityMessage) (now : ℕ) where
  -- The record of the marked peer with the mark.
  abbrev pub marked : InactivityRecord
  marked =
      reported (record_or_fresh (lookup m.target_peer im.records) m.target_peer now) m.from m.reason
        m.evidence now

  abbrev pub is_inactive : Bool
  is_inactive = is_overdue im.seed_node_threshold marked now

  abbrev pub notice : InactivityMessage
  notice = broadcast host marked m.target_peer now

module _ (published : InactivityMessage → Bool) where
  module _ (host : Host) (im : InactivityMonitor) (m : InactivityMessage) (now : ℕ) where
    abbrev after_mark : InactivityMonitor
    after_mark = handle_mark_inactive published im m now

    pub marked_found :
        lookup m.target_peer
          (record_inactivity im.records m.target_peer m.from m.reason m.evidence now)
        ≡ some (marked host im m now)
    unfolding record_inactivity
    marked_found = ground (
      arith,
      lookup-insert m.target_peer m.target_peer (marked host im m now) im.records,
      ==_iff m.target_peer m.target_peer,
    )

    pub handle_mark_eq :
        im.host ≡ some host
        → m.to ≡ host.id
        → im.is_seed_node ≡ true
        → after_mark ≡ record im {
          records = record_inactivity im.records m.target_peer m.from m.reason m.evidence now;
          bar =
              if is_inactive host im m now
              then (demote_to_greylist im.bar m.target_peer).0
              else im.bar;
          sent =
              im.sent
              ++ (if is_inactive host im m now && published (notice host im m now)
                  then notice host im m now ∷ []
                  else []);
        }
    unfolding handle_mark_inactive publish
    handle_mark_eq e to seed =
        rw (e, handle_mark_inactive)
          (ground (arith, ==_iff m.to host.id, to, seed, marked_found, append-nil im.sent))

    statuses :
        IsValid im.bar
        → (q : PeerId)
        → status_of
            (if is_inactive host im m now
              then (demote_to_greylist im.bar m.target_peer).0
              else im.bar)
            q
          ≡ (if is_inactive host im m now
                && (m.target_peer == q && has m.target_peer im.bar.whitelist)
              then some greylisted
              else status_of im.bar q)
    statuses v q = elim (Bool-cases (is_inactive host im m now)) [
      | inl e ↦ rw e (demote-status im.bar m.target_peer q v)
      | inr e ↦ rw e
    ]

    -- A mark that reaches a seed node, on valid lists of peers, is recorded. If the peer has then
    -- enough different reporters, or five reports and ten minutes since the first, it goes to the
    -- greylist if it was whitelisted, and a notice is broadcast; no other status changes. The
    -- sender may be any peer.
    pub handle_mark_inactive_lem :
        IsValid im.bar
        → im.host ≡ some host
        → m.to ≡ host.id
        → im.is_seed_node ≡ true
        → (lookup m.target_peer after_mark.records ≡ some (marked host im m now))
          × ((q : PeerId)
              → status_of after_mark.bar q ≡ (
                  if is_inactive host im m now
                    && (m.target_peer == q && has m.target_peer im.bar.whitelist)
                  then some greylisted
                  else status_of im.bar q))
          × (after_mark.sent
              ≡ im.sent
                ++ (if is_inactive host im m now && published (notice host im m now)
                    then notice host im m now ∷ []
                    else []))
    handle_mark_inactive_lem v e to seed =
        let sends = handle_mark_eq e to seed in rw sends (marked_found, statuses v, refl)

  -- The notice that a node broadcasts about an inactive peer changes nothing at any node: it is
  -- addressed to the empty identifier, and every handler first asks for its own.
  pub broadcast_ignored :
      (sender : Host) (r : InactivityRecord) (p : PeerId) (sent_at : ℕ) (im : InactivityMonitor)
      (host : Host) (received_from : PeerId) (now : ℕ)
      → im.host ≡ some host
      → host.id ≢ everyone
      → handle_inactivity_message published im
          (some (broadcast sender r p sent_at))
          received_from
          now
        ≡ im
  unfolding handle_inactivity_message dispatch handle_inactivity_report
  broadcast_ignored sender r p sent_at im host received_from now e named =
      rw (e, handle_inactivity_message) (ground (arith, e, ==_iff everyone host.id, named))
