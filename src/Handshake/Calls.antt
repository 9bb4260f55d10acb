-- ===== src/Handshake/Calls.antt =====
-- What the handshake does to the lists of peers: a sequence of the calls of bar_network.go.
use dyphira_chain.Common.{
  ℕ, ◌+◌, ◌-◌, ◌≡◌, ◌≢◌, ◌⊎◌, none, refl, sym, Bool, true, false, not, List, [], ◌∷◌, Option, some,
  ltb, leb, ◌==◌, if◌then◌else◌, arith, Option-cases, Bool-cases, inl, inr, subst,
}
use dyphira_chain.Bar.Peers.{
  PeerId, PeerStatus, greylisted, whitelisted, banned, PeerInfo, BarNetwork,
}
use dyphira_chain.Bar.{values}
use dyphira_chain.Bar.FindNodes.{find_nodes}
use dyphira_chain.Bar.Seeds.{select_nodes}
use dyphira_chain.Bar.Invariant.{IsValid}
use dyphira_chain.Bar.Moves.{status_of}
use dyphira_chain.Bar.Lifecycle.{score, set_round, promote, step}
use dyphira_chain.Bar.Called.{
  Called, Called-refl, Called-trans, Called-one, Called-of_eq, Called-IsValid, Called-banned,
}
use dyphira_chain.Network.{Host}
use dyphira_chain.Handshake.{
  MessageType, HandshakeMessage, HandshakeManager, ping, pong, ack, unknown, penalise, bad_seed,
  not_selected, no_version, ping_failed, publish, send_answers, send_ping, visit, visit_all,
  perform_handshakes, verify_round_seed, update_round, selects, handle_ping, handle_pong,
  handle_ack, promote_answered, dispatch, handle_handshake_message,
}

penalise-Called :
    (hm : HandshakeManager) (p reason now : ℕ) → Called hm.bar (penalise hm p reason now).bar
unfolding step
penalise-Called hm p reason now = Called-one hm.bar (score p 1 reason now)

if-Called :
    (bn : BarNetwork) (test : Bool) (x y : HandshakeManager)
    → Called bn x.bar
    → Called bn y.bar
    → Called bn (if test then x else y).bar
if-Called bn true x y h k = h
if-Called bn false x y h k = k

publish-bar :
    (published : HandshakeMessage → Bool) (hm : HandshakeManager) (m : HandshakeMessage)
    → (publish published hm m).0.bar ≡ hm.bar
unfolding publish
publish-bar published hm m = ground arith

send_answers-bar :
    (published : HandshakeMessage → Bool) (host : Host) (hm : HandshakeManager)
    (m : HandshakeMessage) (now later : ℕ)
    → (send_answers published host hm m now later).bar ≡ hm.bar
unfolding send_answers
send_answers-bar published host hm m now later = ground arith

send_ping-bar :
    (published : HandshakeMessage → Bool) (hm : HandshakeManager) (p now : ℕ)
    → (send_ping published hm p now).0.bar ≡ hm.bar
unfolding send_ping
send_ping-bar published hm p now = ground arith

module _ (published : HandshakeMessage → Bool) where
  visit-Called :
      (hm : HandshakeManager) (count : ℕ) (info : PeerInfo) (now : ℕ)
      → Called hm.bar (visit published hm count info now).0.bar
  unfolding visit
  visit-Called hm count info now = elim (Bool-cases (ltb (now - info.last_seen) 10000000000)) [
    | inl e ↦ rw (e, visit) (Called-refl hm.bar)
    | inr e ↦
        rw (e, visit)
          (tried (send_ping published hm info.id now) (send_ping-bar published hm info.id now))
  ]
    where
      tried :
          (r : HandshakeManager × Bool)
          → r.0.bar ≡ hm.bar
          → Called hm.bar
              (let x : HandshakeManager × ℕ =
                  if r.1 then (r.0, count + 1) else (penalise r.0 info.id ping_failed now, count) in
                x).0.bar
      tried (hm', true) e = Called-of_eq hm.bar hm'.bar e
      tried (hm', false) e =
          Called-trans hm.bar hm'.bar (penalise hm' info.id ping_failed now).bar
            (Called-of_eq hm.bar hm'.bar e) (penalise-Called hm' info.id ping_failed now)

  visit_all-Called :
      (hm : HandshakeManager) (count : ℕ) (peers : List PeerInfo) (now : ℕ)
      → Called hm.bar (visit_all published hm count peers now).0.bar
  unfolding visit_all
  visit_all-Called hm count [] now = Called-refl hm.bar
  visit_all-Called hm count (info ∷ rest) now =
      let (hm', count') = visit published hm count info now in
      let more =
        Called-trans hm.bar hm'.bar (visit_all published hm' count' rest now).0.bar
          (visit-Called hm count info now) (visit_all-Called hm' count' rest now) in
      elim (Bool-cases (leb 3 count)) [
        | inl e ↦ rw (e, visit_all) (Called-refl hm.bar)
        | inr e ↦ rw (e, visit_all) more
      ]

  pub perform_handshakes-Called :
      (hm : HandshakeManager) (now : ℕ) → Called hm.bar (perform_handshakes published hm now).bar
  unfolding perform_handshakes
  perform_handshakes-Called hm now = visit_all-Called hm 0 (values hm.bar.greylist) now

module _ (sha256 : List ℕ → List ℕ) where
  selects-bar :
      (hm : HandshakeManager) (round p : ℕ)
      → (selects sha256 hm round p).0.bar ≡ step hm.bar (set_round round)
  unfolding selects select_nodes find_nodes step
  selects-bar hm round p = refl

  handle_ping-Called :
      (published : HandshakeMessage → Bool) (hm : HandshakeManager) (m : HandshakeMessage)
      (now later : ℕ)
      → Called hm.bar (handle_ping sha256 published hm m now later).bar
  unfolding handle_ping
  handle_ping-Called published hm m now later = elim (Option-cases hm.host) [
    | inl e ↦ rw (e, handle_ping) (Called-refl hm.bar)
    | inr (host, e) ↦
        let (hm', chosen) = selects sha256 hm m.round m.from in
        let set : Called hm.bar hm'.bar =
          subst (Called hm.bar) (sym (selects-bar hm m.round m.from))
            (Called-one hm.bar (set_round m.round)) in
        let answers = send_answers published host hm' m now later in
        let fined = penalise hm' m.from not_selected now in
        rw (e, handle_ping)
          (if-Called hm.bar (not (m.to == host.id)) hm _ (Called-refl hm.bar) (
            if-Called hm.bar (not (verify_round_seed sha256 hm m.round m.round_seed))
              (penalise hm m.from bad_seed now) _ (penalise-Called hm m.from bad_seed now)
              (if-Called hm.bar (not chosen) fined answers
                (Called-trans hm.bar hm'.bar fined.bar set
                  (penalise-Called hm' m.from not_selected now))
                (Called-trans hm.bar hm'.bar answers.bar set (
                  Called-of_eq hm'.bar answers.bar
                    (send_answers-bar published host hm' m now later))))))
  ]

  promote_answered-bar :
      (host : Host) (hm : HandshakeManager) (m : HandshakeMessage) (now : ℕ)
      → ((promote_answered host hm m now).bar ≡ hm.bar)
        ⊎ ((promote_answered host hm m now).bar ≡ step hm.bar (promote m.from now))
  unfolding promote_answered step
  promote_answered-bar host hm m now = ground arith

  promote_answered-Called :
      (host : Host) (hm : HandshakeManager) (m : HandshakeMessage) (now : ℕ)
      → Called hm.bar (promote_answered host hm m now).bar
  promote_answered-Called host hm m now = elim (promote_answered-bar host hm m now) [
    | inl e ↦ Called-of_eq hm.bar _ e
    | inr e ↦ subst (Called hm.bar) (sym e) (Called-one hm.bar (promote m.from now))
  ]

  handle_pong-Called :
      (hm : HandshakeManager) (m : HandshakeMessage) (now : ℕ)
      → Called hm.bar (handle_pong sha256 hm m now).bar
  unfolding handle_pong
  handle_pong-Called hm m now = elim (Option-cases hm.host) [
    | inl e ↦ rw (e, handle_pong) (Called-refl hm.bar)
    | inr (host, e) ↦
        rw (e, handle_pong)
          (if-Called hm.bar (not (m.to == host.id)) hm _ (Called-refl hm.bar) (
            if-Called hm.bar (not (verify_round_seed sha256 hm m.round m.round_seed))
              (penalise hm m.from bad_seed now) _ (penalise-Called hm m.from bad_seed now)
              (if-Called hm.bar (m.client_version == 0) (penalise hm m.from no_version now) _
                (penalise-Called hm m.from no_version now)
                (promote_answered-Called host hm m now))))
  ]

  handle_ack-Called :
      (hm : HandshakeManager) (m : HandshakeMessage) (now : ℕ)
      → Called hm.bar (handle_ack sha256 hm m now).bar
  unfolding handle_ack
  handle_ack-Called hm m now = elim (Option-cases hm.host) [
    | inl e ↦ rw (e, handle_ack) (Called-refl hm.bar)
    | inr (host, e) ↦
        rw (e, handle_ack)
          (if-Called hm.bar (not (m.to == host.id)) hm _ (Called-refl hm.bar) (
            if-Called hm.bar (not (verify_round_seed sha256 hm m.round m.round_seed))
              (penalise hm m.from bad_seed now) _ (penalise-Called hm m.from bad_seed now)
              (if-Called hm.bar (m.client_version == 0) (penalise hm m.from no_version now) hm
                (penalise-Called hm m.from no_version now) (Called-refl hm.bar))))
  ]

  dispatch-Called :
      (published : HandshakeMessage → Bool) (type : MessageType) (hm : HandshakeManager)
      (m : HandshakeMessage) (now later : ℕ)
      → Called hm.bar (dispatch sha256 published type hm m now later).bar
  unfolding dispatch
  dispatch-Called published ping hm m now later = handle_ping-Called published hm m now later
  dispatch-Called published pong hm m now later = handle_pong-Called hm m now
  dispatch-Called published ack hm m now later = handle_ack-Called hm m now
  dispatch-Called published unknown hm m now later = Called-refl hm.bar

  pub handle_handshake_message-Called :
      (published : HandshakeMessage → Bool) (hm : HandshakeManager) (m : Option HandshakeMessage)
      (now later : ℕ)
      → Called hm.bar (handle_handshake_message sha256 published hm m now later).bar
  unfolding handle_handshake_message
  handle_handshake_message-Called published hm m now later = elim (Option-cases hm.host) [
    | inl e ↦ rw (e, handle_handshake_message) (Called-refl hm.bar)
    | inr (host, e) ↦ elim (Option-cases m) [
      | inl f ↦ rw (e, handle_handshake_message) (rw f (Called-refl hm.bar))
      | inr (message, f) ↦
          rw (e, handle_handshake_message)
            (rw f (
              if-Called hm.bar (message.from == host.id) hm _ (Called-refl hm.bar)
                (dispatch-Called published message.type hm message now later)))
    ]
  ]

-- What happens to a handshake manager: a message, a round of handshakes, a new round.
pub data Event : Type 0 where
  message : Option HandshakeMessage → (now later : ℕ) → Event
  handshakes : (now : ℕ) → Event
  round : ℕ → Event

banned-cases : (o : Option PeerStatus) → (o ≡ some banned) ⊎ (o ≢ some banned)
banned-cases none = inr (λ e. cc)
banned-cases (some banned) = inl refl
banned-cases (some greylisted) = inr (λ e. cc)
banned-cases (some whitelisted) = inr (λ e. cc)

module _ (sha256 : List ℕ → List ℕ) (published : HandshakeMessage → Bool) where
  unfoldable pub react : HandshakeManager → Event → HandshakeManager
  react hm (message m now later) = handle_handshake_message sha256 published hm m now later
  react hm (handshakes now) = perform_handshakes published hm now
  react hm (round r) = update_round sha256 hm r

  unfoldable pub react_all : HandshakeManager → List Event → HandshakeManager
  unfolding react
  react_all hm [] = hm
  react_all hm (e ∷ es) = react_all (react hm e) es

  react-Called : (hm : HandshakeManager) (e : Event) → Called hm.bar (react hm e).bar
  unfolding react update_round
  react-Called hm (message m now later) =
      handle_handshake_message-Called sha256 published hm m now later
  react-Called hm (handshakes now) = perform_handshakes-Called published hm now
  react-Called hm (round r) = Called-refl hm.bar

  -- Whatever messages arrive and whatever rounds pass, the handshake changes the lists of peers
  -- only by calls of the BAR network, in some order.
  pub react_all-Called :
      (hm : HandshakeManager) (es : List Event) → Called hm.bar (react_all hm es).bar
  unfolding react_all
  react_all-Called hm [] = Called-refl hm.bar
  react_all-Called hm (e ∷ es) =
      Called-trans hm.bar (react hm e).bar (react_all (react hm e) es).bar (react-Called hm e)
        (react_all-Called (react hm e) es)

  -- Through any history of messages, handshakes and rounds, valid lists of peers stay valid, and
  -- every peer that was banned at its start is banned at its end.
  pub react_all-IsValid :
      (hm : HandshakeManager) (es : List Event)
      → IsValid hm.bar
      → IsValid (react_all hm es).bar
        × ((p : PeerId)
            → (status_of hm.bar p ≢ some banned)
              ⊎ (status_of (react_all hm es).bar p ≡ some banned))
  react_all-IsValid hm es v =
      let called = react_all-Called hm es in
      let after = (react_all hm es).bar in
      (
        Called-IsValid hm.bar after called v,
        λ p. elim (banned-cases (status_of hm.bar p)) [
          | inl e ↦ inr (Called-banned hm.bar after p called v e)
          | inr other ↦ inl other
        ],
      )
