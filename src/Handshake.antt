-- ===== src/Handshake.antt =====
-- handshake.go: pings, pongs and acknowledgements between peers, and the promotion of a peer that
-- answers. Reasons, addresses and client versions are numbers; the empty version is 0. Times are in
-- nanoseconds. A message arrives as `none` where json.Unmarshal fails. Whether a message is
-- published is a test that the caller gives; one that json.Marshal refuses counts as not published.
mod Messages
pub mod Calls
pub mod Answers
pub mod Rounds
pub mod Penalties
mod Tests
pub use Messages.*
use dyphira_chain.Common.{
  ℕ, ◌+◌, ◌-◌, Bool, true, false, not, ◌&&◌, ◌||◌, List, [], ◌∷◌, ◌++◌, Option, none, some, length,
  contains, ltb, leb, ◌==◌, if◌then◌else◌, add64,
}
use dyphira_chain.Bar.Peers.{
  PeerId, PeerStatus, greylisted, whitelisted, banned, PeerInfo, BarNetwork,
}
use dyphira_chain.Bar.{update_pom_score, get_peer_status, promote_to_whitelist, values}
use dyphira_chain.Bar.Seeds.{generate_round_seed, select_nodes}
use dyphira_chain.Network.{Host}

-- `UpdatePOMScore` by one for a peer.
abbrev pub penalise : HandshakeManager → PeerId → ℕ → ℕ → HandshakeManager
penalise hm p reason now = record hm { bar = update_pom_score hm.bar p 1 reason now }

-- `generateNonce`, which raises the nonce and returns it.
abbrev pub next_nonce : HandshakeManager → ℕ
next_nonce hm = add64 hm.nonce 1

-- The answer to a ping, a pong or an acknowledgement.
abbrev pub answer :
    MessageType → Host → HandshakeManager → HandshakeMessage → (now : ℕ) → HandshakeMessage
answer type host hm message now = record {
  type = type;
  from = host.id;
  to = message.from;
  round = message.round;
  round_seed = message.round_seed;
  timestamp = now;
  client_version = own_version;
  addr_received = message.addr_from;
  addr_from = host.listen_addr;
  last_round = hm.round;
  nonce = next_nonce hm;
}

module _ (published : HandshakeMessage → Bool) where
  -- `Publish` of a message made with the next nonce; the nonce is spent also where it fails.
  unfoldable pub publish : HandshakeManager → HandshakeMessage → HandshakeManager × Bool
  publish hm message =
      let spent : HandshakeManager = record hm { nonce = next_nonce hm } in
      if published message
      then (record spent { sent = spent.sent ++ message ∷ [] }, true)
      else (spent, false)

  -- The end of `handlePing`: a pong, and an acknowledgement if the pong was published.
  unfoldable pub send_answers :
      Host → HandshakeManager → HandshakeMessage → (now later : ℕ) → HandshakeManager
  unfolding publish
  send_answers host hm message now later =
      let (hm', done) = publish hm (answer pong host hm message now) in
      if done then (publish hm' (answer ack host hm' message later)).0 else hm'

  unfoldable pub send_ping : HandshakeManager → PeerId → (now : ℕ) → HandshakeManager × Bool
  unfolding publish
  send_ping hm p now = elim hm.host [
    | none ↦ (hm, false)
    | some host ↦ publish hm (record {
      type = ping;
      from = host.id;
      to = p;
      round = hm.round;
      round_seed = hm.round_seed;
      timestamp = now;
      client_version = own_version;
      addr_received = 0;
      addr_from = host.listen_addr;
      last_round = hm.round;
      nonce = next_nonce hm;
    })
  ]

  -- One peer in the loop of `performHandshakes`, with the count of pings.
  unfoldable pub visit : HandshakeManager → ℕ → PeerInfo → (now : ℕ) → HandshakeManager × ℕ
  unfolding send_ping
  visit hm count info now =
      if ltb (now - info.last_seen) 10000000000
      then (hm, count)
      else (let (hm', done) = send_ping hm info.id now in
          if done then (hm', count + 1) else (penalise hm' info.id ping_failed now, count))

  -- The loop of `performHandshakes`.
  unfoldable pub visit_all : HandshakeManager → ℕ → List PeerInfo → (now : ℕ) → HandshakeManager × ℕ
  unfolding visit
  visit_all hm count [] now = (hm, count)
  visit_all hm count (info ∷ rest) now =
      let (hm', count') = visit hm count info now in
      let others = visit_all hm' count' rest now in if leb 3 count then (hm, count) else others

  unfoldable pub perform_handshakes : HandshakeManager → (now : ℕ) → HandshakeManager
  unfolding visit_all
  perform_handshakes hm now = (visit_all hm 0 (values hm.bar.greylist) now).0

-- The comparison in `verifyRoundSeed`: the lengths and the first byte.
unfoldable pub same_start : List ℕ → List ℕ → Bool
same_start (a ∷ seed) (b ∷ expected) = length seed == length expected && a == b
same_start _ _ = false

-- `handlePong` after its checks of the message.
unfoldable pub promote_answered : Host → HandshakeManager → HandshakeMessage → ℕ → HandshakeManager
promote_answered host hm message now =
    let (status, exists) = get_peer_status hm.bar message.from in
    let (bar, promoted) = promote_to_whitelist hm.bar message.from now in
    let hm' : HandshakeManager = record hm { bar = bar } in
    elim status [
      | greylisted ↦
          if not exists
          then hm
          else if not promoted
          then hm
          else if host.on_handshake
          then record hm' { notified = hm.notified ++ (message.from, message.addr_from) ∷ [] }
          else hm'
      | whitelisted ↦ hm
      | banned ↦ hm
    ]

module _ (sha256 : List ℕ → List ℕ) where
  unfoldable pub verify_round_seed : HandshakeManager → (round : ℕ) → (seed : List ℕ) → Bool
  unfolding same_start
  verify_round_seed hm round seed = same_start seed (generate_round_seed sha256 hm.bar round)

  unfoldable pub update_round : HandshakeManager → (round : ℕ) → HandshakeManager
  update_round hm round = record hm {
    round = round;
    round_seed = generate_round_seed sha256 hm.bar round;
  }

  -- `FindNodes` as `handlePing` uses it: the manager with the new round, and whether a peer was
  -- chosen.
  unfoldable pub selects : HandshakeManager → (round : ℕ) → PeerId → HandshakeManager × Bool
  selects hm round p =
      let (bar, chosen) = select_nodes sha256 hm.bar round in
      (record hm { bar = bar }, elim chosen [ none ↦ false | some ids ↦ contains p ids ])

  module _ (published : HandshakeMessage → Bool) where
    unfoldable pub handle_ping :
        HandshakeManager → HandshakeMessage → (now later : ℕ) → HandshakeManager
    unfolding verify_round_seed selects send_answers
    handle_ping hm message now later = elim hm.host [
      | none ↦ hm
      | some host ↦
          if not (message.to == host.id)
          then hm
          else if not (verify_round_seed hm message.round message.round_seed)
          then penalise hm message.from bad_seed now
          else (let (hm', selected) = selects hm message.round message.from in
              if not selected
              then penalise hm' message.from not_selected now
              else send_answers published host hm' message now later)
    ]

  unfoldable pub handle_pong : HandshakeManager → HandshakeMessage → (now : ℕ) → HandshakeManager
  unfolding verify_round_seed promote_answered
  handle_pong hm message now = elim hm.host [
    | none ↦ hm
    | some host ↦
        if not (message.to == host.id)
        then hm
        else if not (verify_round_seed hm message.round message.round_seed)
        then penalise hm message.from bad_seed now
        else if message.client_version == 0
        then penalise hm message.from no_version now
        else promote_answered host hm message now
  ]

  unfoldable pub handle_ack : HandshakeManager → HandshakeMessage → (now : ℕ) → HandshakeManager
  unfolding verify_round_seed
  handle_ack hm message now = elim hm.host [
    | none ↦ hm
    | some host ↦
        if not (message.to == host.id)
        then hm
        else if not (verify_round_seed hm message.round message.round_seed)
        then penalise hm message.from bad_seed now
        else if message.client_version == 0
        then penalise hm message.from no_version now
        else hm
  ]

  -- The `switch` of `handleHandshakeMessage`.
  unfoldable pub dispatch :
      (HandshakeMessage → Bool)
      → MessageType
      → HandshakeManager
      → HandshakeMessage
      → (now later : ℕ) → HandshakeManager
  dispatch published ping hm message now later = handle_ping published hm message now later
  dispatch published pong hm message now later = handle_pong hm message now
  dispatch published ack hm message now later = handle_ack hm message now
  dispatch published unknown hm message now later = hm

  -- `handleHandshakeMessage` for a message of its topic.
  unfoldable pub handle_handshake_message :
      (HandshakeMessage → Bool)
      → HandshakeManager
      → Option HandshakeMessage
      → (now later : ℕ) → HandshakeManager
  unfolding dispatch
  handle_handshake_message published hm message now later = elim hm.host [
    | none ↦ hm
    | some host ↦ elim message [
      | none ↦ hm
      | some m ↦ if m.from == host.id then hm else dispatch published m.type hm m now later
    ]
  ]
