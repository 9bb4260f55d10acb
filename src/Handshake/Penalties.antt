-- ===== src/Handshake/Penalties.antt =====
-- handshake.go with bar_network.go: what becomes of a greylisted peer that pings.
use dyphira_chain.Common.{
  ℕ, ◌+◌, ◌≤◌, ◌<◌, ◌≡◌, ◌≢◌, sym, ap, ◌∙◌, Bool, true, List, [], ◌∷◌, ◌++◌, All, none, some,
  length, leb, ==_iff, arith, Bool-cases, inl, inr,
}
use dyphira_chain.Common.Dict.{lookup}
use dyphira_chain.Bar.Peers.{PeerId, banned, PeerInfo, BarNetwork}
use dyphira_chain.Bar.{
  update_pom_score, scored, enforce, demote_to_greylist, ban_peer, get_peer_status,
}
use dyphira_chain.Bar.Seeds.{generate_round_seed, put_bytes}
use dyphira_chain.Bar.Invariant.{IsValid, update_pom_score-IsValid}
use dyphira_chain.Bar.Moves.{status_of}
use dyphira_chain.Bar.Lifecycle.{set_round, step, step-IsValid}
use dyphira_chain.Bar.Scores.{update_greylisted}
use dyphira_chain.Bar.Called.{Called-banned}
use dyphira_chain.Network.{Host}
use dyphira_chain.Handshake.{
  HandshakeMessage, HandshakeManager, ping, penalise, not_selected, verify_round_seed, handle_ping,
  dispatch, handle_handshake_message, same_start,
}
use dyphira_chain.Handshake.Answers.{handle_ping_eq}
use dyphira_chain.Handshake.Calls.{
  Event, message, handshakes, round, react, react_all, react_all-Called,
}

-- The list of a network that no call changes: its base seed and its configuration.
abbrev SameBase : BarNetwork → BarNetwork → Type 0
SameBase a b = (b.prng_seed ≡ a.prng_seed) × (b.config ≡ a.config)

score-SameBase :
    (bn : BarNetwork) (p reason now : ℕ) → SameBase bn (update_pom_score bn p 1 reason now)
unfolding update_pom_score enforce demote_to_greylist ban_peer
score-SameBase bn p reason now = ground arith

status_of_banned :
    (bn : BarNetwork) (p : PeerId) (info : PeerInfo)
    → IsValid bn
    → lookup p bn.banlist ≡ some info
    → status_of bn p ≡ some banned
unfolding status_of get_peer_status
status_of_banned bn p info v e = ground (arith, v.stands p)

module _ (sha256 : List ℕ → List ℕ) (published : HandshakeMessage → Bool) (host : Host)
    (p : PeerId) where
  -- A ping from the peer to this node, with the seed that this node takes for its round.
  abbrev pub IsPing : BarNetwork → Event → Type 0
  IsPing bn (message (some m) now later) =
      (m.type ≡ ping)
      × (m.from ≡ p)
      × (m.to ≡ host.id)
      × (same_start m.round_seed (generate_round_seed sha256 bn m.round) ≡ true)
  IsPing bn _ = ⊥

  -- A ping is given to `handlePing`.
  react-ping :
      (hm : HandshakeManager) (m : HandshakeMessage) (now later : ℕ)
      → hm.host ≡ some host
      → m.from ≢ host.id
      → m.type ≡ ping
      → react sha256 published hm (message (some m) now later)
        ≡ handle_ping sha256 published hm m now later
  unfolding react handle_handshake_message dispatch
  react-ping hm m now later e other type =
      rw (e, handle_handshake_message)
        (ground
          (arith, ==_iff m.from host.id, ap (λ t. dispatch sha256 published t hm m now later) type))

  ping_from_greylist :
      (hm : HandshakeManager) (m : HandshakeMessage) (now later : ℕ) (info : PeerInfo)
      → IsValid hm.bar
      → hm.host ≡ some host
      → p ≢ host.id
      → lookup p hm.bar.greylist ≡ some info
      → IsPing hm.bar (message (some m) now later)
      → react sha256 published hm (message (some m) now later)
        ≡ penalise (record hm { bar = record hm.bar { round = m.round } }) p not_selected now
  unfolding verify_round_seed
  ping_from_greylist hm m now later info v e other grey (type, from, to, seed) =
      let outside : m.from ≢ host.id = λ same. other (sym from ∙ same) in
      let handled = react-ping hm m now later e outside type in
      let fined = handle_ping_eq sha256 published host hm m now later v e to seed in
      ground (arith, handled, fined, from, v.stands p, grey)

  IsPing-SameBase :
      (a b : BarNetwork) (es : List Event) → SameBase a b → All (IsPing a) es → All (IsPing b) es
  unfolding generate_round_seed
  IsPing-SameBase a b [] same h = tt
  IsPing-SameBase a b (message none now later ∷ es) same h = absurd h.0
  IsPing-SameBase a b (message (some m) now later ∷ es) (seed, config) (h, hs) = (
    (
      h.0,
      h.1,
      h.2,
      ap (λ k. same_start m.round_seed (sha256 (k ++ put_bytes 8 m.round))) seed ∙ h.3,
    ),
    IsPing-SameBase a b es (seed, config) hs,
  )
  IsPing-SameBase a b (handshakes now ∷ es) same h = absurd h.0
  IsPing-SameBase a b (round r ∷ es) same h = absurd h.0

  -- Pings with the right seed, from a greylisted peer to this node, ban that peer: as many of them
  -- as its score lacks to the ban threshold are enough.
  pub pings_ban :
      (hm : HandshakeManager) (es : List Event) (info : PeerInfo)
      → IsValid hm.bar
      → hm.host ≡ some host
      → p ≢ host.id
      → lookup p hm.bar.greylist ≡ some info
      → info.pom_score < hm.bar.config.pom_ban_threshold
      → hm.bar.config.pom_ban_threshold ≤ info.pom_score + length es
      → All (IsPing hm.bar) es
      → status_of (react_all sha256 published hm es).bar p ≡ some banned
  unfolding react_all step
  pings_ban hm [] info v e other grey low high h = absurd (omega arith)
  pings_ban hm (handshakes now ∷ es) info v e other grey low high h = absurd h.0
  pings_ban hm (round r ∷ es) info v e other grey low high h = absurd h.0
  pings_ban hm (message none now later ∷ es) info v e other grey low high h = absurd h.0
  pings_ban hm (message (some m) now later ∷ es) info v e other grey low high (h, hs) =
      let bn : BarNetwork = record hm.bar { round = m.round } in
      let hm' : HandshakeManager = penalise (record hm { bar = bn }) p not_selected now in
      let first = ping_from_greylist hm m now later info v e other grey h in
      let v' = step-IsValid hm.bar (set_round m.round) v in
      let w : IsValid hm'.bar = update_pom_score-IsValid bn p 1 not_selected now v' in
      let (kept, expelled, _) = update_greylisted bn v' p info 1 not_selected now grey in
      let (seed, config) = score-SameBase bn p not_selected now in
      rw (first, react_all)
        (elim (Bool-cases (leb hm.bar.config.pom_ban_threshold (info.pom_score + 1))) [
          | inl reached ↦
              let now_banned = status_of_banned hm'.bar p _ w (rw reached at expelled) in
              Called-banned hm'.bar (react_all sha256 published hm' es).bar p
                (react_all-Called sha256 published hm' es) w now_banned
          | inr below ↦
              pings_ban hm' es (scored info 1 now) w e other (rw below at kept)
                (ground (arith, ap (λ c. c.pom_ban_threshold) config))
                (ground (arith, ap (λ c. c.pom_ban_threshold) config))
                (IsPing-SameBase hm.bar hm'.bar es (seed, config) hs)
        ])
