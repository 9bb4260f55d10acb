-- ===== src/Handshake/Answers.antt =====
-- handshake.go: which messages are answered, and what an answer does.
use dyphira_chain.Common.{
  ℕ, ◌≡◌, ◌≢◌, Bool, true, ◌&&◌, List, [], ◌∷◌, ◌++◌, some, length, ltb, ◌==◌, ==_iff,
  if◌then◌else◌, arith, Option-cases, inl, inr,
}
use mathlib.Core.List.{append-nil, append_assoc}
use dyphira_chain.Common.Dict.{lookup, has, lookup-insert, lookup-erase}
use dyphira_chain.Bar.Peers.{PeerId, whitelisted}
use dyphira_chain.Bar.{promote_to_whitelist, get_peer_status, update_pom_score}
use dyphira_chain.Bar.FindNodes.{find_nodes}
use dyphira_chain.Bar.Seeds.{select_nodes, generate_round_seed, prng_number}
use dyphira_chain.Bar.Invariant.{IsValid}
use dyphira_chain.Bar.Moves.{status_of}
use dyphira_chain.Bar.Chosen.{find_nodes_lem}
use dyphira_chain.Network.{Host}
use dyphira_chain.Handshake.{
  HandshakeMessage, HandshakeManager, pong, ack, penalise, not_selected, publish, send_answers,
  verify_round_seed, selects, handle_ping, handle_pong, promote_answered, next_nonce, answer,
}

-- The messages that a ping brings about: a pong, and an acknowledgement if the pong was published.
abbrev pub replies :
    (HandshakeMessage → Bool)
    → Host
    → HandshakeManager
    → HandshakeMessage
    → (now later : ℕ) → List HandshakeMessage
replies published host hm m now later =
    let first = answer pong host hm m now in
    let second = answer ack host (record hm { nonce = next_nonce hm }) m later in
    if published first then first ∷ (if published second then second ∷ [] else []) else []

module _ (sha256 : List ℕ → List ℕ) where
  -- On valid lists of peers the choice for a round is the whitelist.
  pub selects_whitelisted :
      (hm : HandshakeManager) (round p : ℕ)
      → IsValid hm.bar
      → selects sha256 hm round p
        ≡ (record hm { bar = record hm.bar { round = round } }, has p hm.bar.whitelist)
  unfolding selects select_nodes find_nodes
  selects_whitelisted hm round p v =
      let prng = λ (r i : ℕ). prng_number sha256 (generate_round_seed sha256 hm.bar r) i in
      let (ids, found, _, same) = find_nodes_lem prng hm.bar round v in
      rw found (ground (arith, same p))

  module _ (published : HandshakeMessage → Bool) (host : Host) (hm : HandshakeManager)
      (m : HandshakeMessage) (now later : ℕ) where
    abbrev after_ping : HandshakeManager
    after_ping = handle_ping sha256 published hm m now later

    pub handle_ping_eq :
        IsValid hm.bar
        → hm.host ≡ some host
        → m.to ≡ host.id
        → verify_round_seed sha256 hm m.round m.round_seed ≡ true
        → let hm' : HandshakeManager = record hm { bar = record hm.bar { round = m.round } } in
          after_ping ≡ (
            if has m.from hm.bar.whitelist
            then send_answers published host hm' m now later
            else penalise hm' m.from not_selected now)
    unfolding handle_ping
    handle_ping_eq v e to seed =
        rw (e, handle_ping)
          (ground (arith, ==_iff m.to host.id, to, seed, selects_whitelisted hm m.round m.from v))

    send_answers_sent :
        (h : HandshakeManager)
        → ((send_answers published host h m now later).sent
            ≡ h.sent ++ replies published host h m now later)
          × ((send_answers published host h m now later).bar ≡ h.bar)
    unfolding send_answers publish
    send_answers_sent h = ground (
      arith,
      append-nil h.sent,
      append_assoc h.sent (answer pong host h m now ∷ [])
          (answer ack host (record h { nonce = next_nonce h }) m later ∷ []),
    )

    -- A ping to this node with the seed of its round, on valid lists of peers, is answered exactly
    -- when its sender is whitelisted: by a pong, and an acknowledgement if the pong could be
    -- published. The sender of any other ping is penalised by one. Either way the round of the
    -- peers becomes the ping's.
    pub handle_ping_lem :
        IsValid hm.bar
        → hm.host ≡ some host
        → m.to ≡ host.id
        → verify_round_seed sha256 hm m.round m.round_seed ≡ true
        → (after_ping.sent
            ≡ hm.sent
              ++ (if has m.from hm.bar.whitelist
                  then replies published host hm m now later
                  else []))
          × (after_ping.bar ≡ (
              if has m.from hm.bar.whitelist
              then record hm.bar { round = m.round }
              else update_pom_score (record hm.bar { round = m.round }) m.from 1 not_selected now))
    handle_ping_lem v e to seed =
        let hm' : HandshakeManager = record hm { bar = record hm.bar { round = m.round } } in
        ground (arith, handle_ping_eq v e to seed, send_answers_sent hm', append-nil hm.sent)

  module _ (host : Host) (hm : HandshakeManager) (m : HandshakeMessage) (now : ℕ) where
    -- Does the pong's sender wait on the greylist, with room on the whitelist?
    abbrev pub rises : Bool
    rises =
        has m.from hm.bar.greylist
        && ltb (length hm.bar.whitelist) hm.bar.config.incoming_connections

    abbrev after_pong : HandshakeManager
    after_pong = handle_pong sha256 hm m now

    handle_pong_eq :
        hm.host ≡ some host
        → m.to ≡ host.id
        → verify_round_seed sha256 hm m.round m.round_seed ≡ true
        → m.client_version ≢ 0
        → after_pong ≡ promote_answered host hm m now
    unfolding handle_pong
    handle_pong_eq e to seed version =
        rw (e, handle_pong)
          (ground (arith, ==_iff m.to host.id, to, seed, ==_iff m.client_version 0, version))

    promote_answered-status :
        IsValid hm.bar
        → (q : PeerId)
        → status_of (promote_answered host hm m now).bar q
          ≡ (if rises && m.from == q then some whitelisted else status_of hm.bar q)
    unfolding promote_answered status_of get_peer_status promote_to_whitelist
    promote_answered-status v q = elim (Option-cases (lookup m.from hm.bar.greylist)) [
      | inl e ↦ ground (arith, v.stands m.from, e)
      | inr (info, e) ↦ ground (
        arith,
        v.stands m.from,
        v.stands q,
        e,
        lookup-insert m.from q (record info { status = whitelisted; handshake_at = now })
            hm.bar.whitelist,
        lookup-erase m.from q hm.bar.greylist,
        ==_iff m.from q,
      )
    ]

    promote_answered-notified :
        IsValid hm.bar
        → (promote_answered host hm m now).notified
          ≡ hm.notified ++ (if rises && host.on_handshake then (m.from, m.addr_from) ∷ [] else [])
    unfolding promote_answered get_peer_status promote_to_whitelist
    promote_answered-notified v = ground (arith, v.stands m.from, append-nil hm.notified)

    -- A pong to this node with the seed of its round and a client version, on valid lists of
    -- peers, whitelists its sender exactly when the sender is greylisted and the whitelist has
    -- room, and then reports it if somebody listens; it changes no other peer's status and leaves
    -- the status of a sender that does not rise.
    pub handle_pong_lem :
        IsValid hm.bar
        → hm.host ≡ some host
        → m.to ≡ host.id
        → verify_round_seed sha256 hm m.round m.round_seed ≡ true
        → m.client_version ≢ 0
        → ((q : PeerId)
            → status_of after_pong.bar q
              ≡ (if rises && m.from == q then some whitelisted else status_of hm.bar q))
          × (after_pong.notified
              ≡ hm.notified
                ++ (if rises && host.on_handshake then (m.from, m.addr_from) ∷ [] else []))
    handle_pong_lem v e to seed version =
        rw (handle_pong_eq e to seed version)
          (promote_answered-status v, promote_answered-notified v)
