-- ===== src/Inactivity/Checks.antt =====
-- The messages and checks of the inactivity monitor as calls of the BAR network, and what a check
-- reports.
use dyphira_chain.Common.{
  ℕ, ◌≡◌, refl, sym, ap, ◌∙◌, subst, Bool, true, false, not, List, [], ◌∷◌, map, Option, some, All,
  All-append, All-map, ◌==◌, ==_iff, if◌then◌else◌, arith, Option-cases, Bool-cases, inl, inr,
  contains,
}
use dyphira_chain.Bar.Peers.{PeerId, greylisted, banned, PeerInfo, BarNetwork}
use dyphira_chain.Bar.{values, get_all_peers}
use dyphira_chain.Bar.Invariant.{IsValid}
use dyphira_chain.Bar.Moves.{status_of}
use dyphira_chain.Bar.Lifecycle.{score, demote, step}
use dyphira_chain.Bar.Called.{Called, Called-refl, Called-one, Called-IsValid, Called-banned}
use dyphira_chain.Network.{Host}
use dyphira_chain.Inactivity.{
  MessageType, mark_inactive, inactivity_report, unknown, InactivityMessage, InactivityMonitor,
  publish, mark_message, text, broadcast_inactivity_report, mark_peer_as_inactive,
  handle_mark_inactive, handle_inactivity_report, dispatch, handle_inactivity_message, report_to,
  report_inactivity, is_peer_inactive, check_all, check_for_inactivity, should_mark_as_inactive,
  record_inactivity, not_a_seed, malformed, Reason,
}

-- Every peer of a list is among the identifiers of the list.
All-listed : (peers : List PeerInfo) → All (λ i. contains i.id (map (λ i. i.id) peers) ≡ true) peers
All-listed [] = tt
All-listed (x ∷ xs) =
    (ground (arith, ==_iff x.id x.id), All-map (λ i h. ground (arith, h)) xs (All-listed xs))

inactive-status :
    (bn : BarNetwork) (p : PeerId) → is_peer_inactive bn p ≡ true → status_of bn p ≡ some greylisted
unfolding is_peer_inactive status_of
inactive-status bn p e = ground arith

-- What a check may send: a mark of a greylisted peer, to a whitelisted one.
abbrev pub Reports : BarNetwork → InactivityMessage → Type 0
Reports bn m =
    (status_of bn m.target_peer ≡ some greylisted)
    × (contains m.to (map (λ i. i.id) (values bn.whitelist)) ≡ true)
    × (m.type ≡ mark_inactive)

module _ (published : InactivityMessage → Bool) where
  if-Called :
      (bn : BarNetwork) (test : Bool) (x y : InactivityMonitor)
      → Called bn x.bar
      → Called bn y.bar
      → Called bn (if test then x else y).bar
  if-Called bn true x y h k = h
  if-Called bn false x y h k = k

  mark_peer-bar :
      (host : Host) (im : InactivityMonitor) (p now : ℕ)
      → (mark_peer_as_inactive published host im p now).bar ≡ step im.bar (demote p)
  unfolding mark_peer_as_inactive broadcast_inactivity_report publish step
  mark_peer-bar host im p now = ground arith

  handle_mark-Called :
      (im : InactivityMonitor) (m : InactivityMessage) (now : ℕ)
      → Called im.bar (handle_mark_inactive published im m now).bar
  unfolding handle_mark_inactive step
  handle_mark-Called im m now = elim (Option-cases im.host) [
    | inl e ↦ rw (e, handle_mark_inactive) (Called-refl im.bar)
    | inr (host, e) ↦
        let im' : InactivityMonitor = record im {
          records = record_inactivity im.records m.target_peer m.from m.reason m.evidence now;
        } in
        rw (e, handle_mark_inactive)
          (if-Called im.bar (not (m.to == host.id)) im _ (Called-refl im.bar) (
            if-Called im.bar (not im.is_seed_node) _ _
              (Called-one im.bar (score m.from 1 not_a_seed now))
              (if-Called im.bar (should_mark_as_inactive im' m.target_peer now)
                (mark_peer_as_inactive published host im' m.target_peer now) im'
                (subst (Called im.bar) (sym (mark_peer-bar host im' m.target_peer now))
                  (Called-one im.bar (demote m.target_peer)))
                (Called-refl im.bar))))
  ]

  report-bar :
      (im : InactivityMonitor) (m : InactivityMessage) (now : ℕ)
      → (handle_inactivity_report published im m now).bar ≡ im.bar
  unfolding handle_inactivity_report
  report-bar im m now = ground arith

  dispatch-Called :
      (type : MessageType) (im : InactivityMonitor) (m : InactivityMessage) (now : ℕ)
      → Called im.bar (dispatch published type im m now).bar
  unfolding dispatch
  dispatch-Called mark_inactive im m now = handle_mark-Called im m now
  dispatch-Called inactivity_report im m now =
      subst (Called im.bar) (sym (report-bar im m now)) (Called-refl im.bar)
  dispatch-Called unknown im m now = Called-refl im.bar

  message-Called :
      (im : InactivityMonitor) (message : Option InactivityMessage) (received_from now : ℕ)
      → Called im.bar (handle_inactivity_message published im message received_from now).bar
  unfolding handle_inactivity_message step
  message-Called im message received_from now = elim (Option-cases im.host) [
    | inl e ↦ rw (e, handle_inactivity_message) (Called-refl im.bar)
    | inr (host, e) ↦ elim (Option-cases message) [
      | inl f ↦
          rw (e, handle_inactivity_message)
            (rw f (Called-one im.bar (score received_from 1 malformed now)))
      | inr (m, f) ↦
          rw (e, handle_inactivity_message)
            (rw f (
              if-Called im.bar (m.from == host.id) im _ (Called-refl im.bar)
                (dispatch-Called m.type im m now)))
    ]
  ]

  -- No message to the inactivity monitor, from whomever and whatever it says, breaks the lists of
  -- peers or frees a banned peer.
  pub handle_inactivity_message-IsValid :
      (im : InactivityMonitor) (message : Option InactivityMessage) (received_from now : ℕ)
      (p : PeerId)
      → IsValid im.bar
      → status_of im.bar p ≡ some banned
      → let after = handle_inactivity_message published im message received_from now in
        IsValid after.bar × (status_of after.bar p ≡ some banned)
  handle_inactivity_message-IsValid im message received_from now p v e =
      let called = message-Called im message received_from now in
      let after = (handle_inactivity_message published im message received_from now).bar in
      (Called-IsValid im.bar after called v, Called-banned im.bar after p called v e)

  -- A check leaves the lists alone, and what it has sent so far reports.
  abbrev Checked : BarNetwork → InactivityMonitor → Type 0
  Checked bn im = (im.bar ≡ bn) × All (Reports bn) im.sent

  publish-Checked :
      (bn : BarNetwork) (im : InactivityMonitor) (m : InactivityMessage)
      → Reports bn m
      → Checked bn im
      → Checked bn (publish published im m)
  unfolding publish
  publish-Checked bn im m r (same, h) = elim (Bool-cases (published m)) [
    | inl e ↦ rw (e, publish) (same, All-append (Reports bn) im.sent (m ∷ []) h (r, tt))
    | inr e ↦ rw (e, publish) (same, h)
  ]

  if-Checked :
      (bn : BarNetwork) (test : Bool) (x y : InactivityMonitor)
      → Checked bn x
      → Checked bn y
      → Checked bn (if test then x else y)
  if-Checked bn true x y h k = h
  if-Checked bn false x y h k = k

  report_to-Checked :
      (host : Host) (bn : BarNetwork) (im : InactivityMonitor) (peers : List PeerInfo)
      (target : PeerId) (reason : Reason) (evidence : List ℕ) (now : ℕ)
      → status_of bn target ≡ some greylisted
      → All (λ i. contains i.id (map (λ i. i.id) (values bn.whitelist)) ≡ true) peers
      → Checked bn im
      → Checked bn (report_to published host im peers target reason evidence now)
  unfolding report_to
  report_to-Checked host bn im [] target reason evidence now grey white h = h
  report_to-Checked host bn im (info ∷ rest) target reason evidence now grey white h =
      let m = mark_message host target info.id reason evidence now in
      report_to-Checked host bn (if info.id == host.id then im else publish published im m) rest
        target reason evidence now grey white.1
        (if-Checked bn (info.id == host.id) im (publish published im m) h
          (publish-Checked bn im m (grey, white.0, refl) h))

  report_inactivity-Checked :
      (bn : BarNetwork) (im : InactivityMonitor) (target : PeerId) (reason : Reason)
      (evidence : List ℕ) (now : ℕ)
      → status_of bn target ≡ some greylisted
      → Checked bn im
      → Checked bn (report_inactivity published im target reason evidence now)
  unfolding report_inactivity
  report_inactivity-Checked bn im target reason evidence now grey h =
      elim (Bool-cases im.is_seed_node) [
        | inr e ↦ rw (e, report_inactivity) h
        | inl e ↦ elim (Option-cases im.host) [
          | inl f ↦ rw (e, report_inactivity) (rw f h)
          | inr (host, f) ↦
              let known =
                subst
                  (λ b.
                    All (λ i. contains i.id (map (λ i. i.id) (values b.whitelist)) ≡ true)
                      (values im.bar.whitelist))
                  h.0 (All-listed (values im.bar.whitelist)) in
              rw (e, report_inactivity)
                (rw f (
                  report_to-Checked host bn im (values im.bar.whitelist) target reason evidence now
                    grey known h))
        ]
      ]

  check_all-Checked :
      (host : Host) (bn : BarNetwork) (im : InactivityMonitor) (peers : List PeerInfo) (now : ℕ)
      → Checked bn im
      → Checked bn (check_all published host im peers now)
  unfolding check_all
  check_all-Checked host bn im [] now h = h
  check_all-Checked host bn im (info ∷ rest) now h =
      let checked : InactivityMonitor =
        if is_peer_inactive im.bar info.id
        then report_inactivity published im info.id (text 1) (1 ∷ []) now
        else im in
      check_all-Checked host bn (if info.id == host.id then im else checked) rest now (
        if-Checked bn (info.id == host.id) im checked h
          (elim (Bool-cases (is_peer_inactive im.bar info.id)) [
            | inr e ↦ rw e h
            | inl e ↦ rw e (
                report_inactivity-Checked bn im info.id (text 1) (1 ∷ []) now
                  (inactive-status bn info.id (ap (λ b. is_peer_inactive b info.id) (sym h.0) ∙ e))
                  h)
          ]))

  -- A check changes no list of peers, and all that it publishes is marks of greylisted peers, to
  -- whitelisted ones.
  pub check_for_inactivity_lem :
      (im : InactivityMonitor) (now : ℕ)
      → im.sent ≡ []
      → ((check_for_inactivity published im now).bar ≡ im.bar)
        × All (Reports im.bar) (check_for_inactivity published im now).sent
  unfolding check_for_inactivity
  check_for_inactivity_lem im now none_yet =
      let start : Checked im.bar im = (refl, subst (All (Reports im.bar)) (sym none_yet) tt) in
      elim (Option-cases im.host) [
        | inl e ↦ rw (e, check_for_inactivity) start
        | inr (host, e) ↦
            rw (e, check_for_inactivity)
              (check_all-Checked host im.bar im (get_all_peers im.bar) now start)
      ]
