-- ===== src/Handshake/Rounds.antt =====
-- handshake.go: the seed of a round, and the pings of one round of handshakes.
use dyphira_chain.Common.{
  ℕ, zero, suc, ◌+◌, ◌-◌, ◌≤◌, ◌≡◌, ◌↔◌, refl, sym, ap, ◌∙◌, Bool, true, not, List, [], ◌∷◌, ◌++◌,
  map, some, length, take, keep, ltb, leb, ==_iff, if◌then◌else◌, arith, Option-cases, Bool-cases,
  inl, inr, length-append,
}
use mathlib.Core.List.{append-nil, append_assoc, map-append}
use dyphira_chain.Bar.Peers.{PeerId, PeerInfo}
use dyphira_chain.Bar.{values}
use dyphira_chain.Bar.Seeds.{generate_round_seed}
use dyphira_chain.Network.{Host}
use dyphira_chain.Handshake.{
  HandshakeMessage, HandshakeManager, ping, next_nonce, own_version, publish, send_ping, visit,
  visit_all, perform_handshakes, verify_round_seed, same_start,
}

-- A seed is accepted exactly when it is as long as the seed of the round and has its first byte;
-- no other byte is compared.
pub verify_round_seed_iff :
    (sha256 : List ℕ → List ℕ) (hm : HandshakeManager) (round : ℕ) (seed : List ℕ)
    → let expected = generate_round_seed sha256 hm.bar round in
      (verify_round_seed sha256 hm round seed ≡ true) ↔ (
        (length seed ≡ length expected)
        × (a : ℕ) × (rest : List ℕ) × (others : List ℕ) × (seed ≡ a ∷ rest)
        × (expected ≡ a ∷ others))
unfolding verify_round_seed
verify_round_seed_iff sha256 hm round seed = by_bytes seed (generate_round_seed sha256 hm.bar round)
  where
    by_bytes :
        (s t : List ℕ)
        → (same_start s t ≡ true) ↔ (
            (length s ≡ length t)
            × (a : ℕ) × (rest : List ℕ) × (others : List ℕ) × (s ≡ a ∷ rest)
            × (t ≡ a ∷ others))
    by_bytes [] t = ((λ e. cc), λ h. absurd (ground arith))
    by_bytes (a ∷ s) [] = ((λ e. cc), λ h. absurd (ground arith))
    by_bytes (a ∷ s) (b ∷ t) = (
      (λ e. (ground arith, a, s, t, refl, ground arith)),
      λ h.
          let (len, x, r, o, e, f) = h in
          ground (arith, len, e, f, ==_iff a b, ==_iff (length s) (length t)),
    )

-- The peers that were not seen for ten seconds.
abbrev pub due : (now : ℕ) → List PeerInfo → List PeerInfo
due now = keep (λ info. not (ltb (now - info.last_seen) 10000000000))

-- The ping that a manager sends next to a peer.
abbrev next_ping : Host → HandshakeManager → PeerId → (now : ℕ) → HandshakeMessage
next_ping host hm p now = record {
  type = ping;
  from = host.id;
  to = p;
  round = hm.round;
  round_seed = hm.round_seed;
  timestamp = now;
  client_version = own_version;
  addr_received = 0;
  addr_from = host.listen_addr;
  last_round = hm.round;
  nonce = next_nonce hm;
}

take-nil : (n : ℕ) → take {A = PeerInfo} n [] ≡ []
take-nil zero = refl
take-nil (suc n) = refl

take_one :
    (count : ℕ) (x : PeerInfo) (xs : List PeerInfo)
    → count + 1 ≤ 3
    → take (3 - count) (x ∷ xs) ≡ x ∷ take (3 - (count + 1)) xs
take_one count x xs h =
    let e : 3 - count ≡ suc (3 - (count + 1)) = omega arith in ap (λ n. take n (x ∷ xs)) e

module _ (published : HandshakeMessage → Bool) (now : ℕ) where
  publish-length :
      (hm : HandshakeManager) (m : HandshakeMessage)
      → length (publish published hm m).0.sent
        ≡ length hm.sent + (if (publish published hm m).1 then 1 else 0)
  unfolding publish
  publish-length hm m = ground (arith, length-append hm.sent (m ∷ []))

  send_ping-length :
      (hm : HandshakeManager) (p : PeerId)
      → length (send_ping published hm p now).0.sent
        ≡ length hm.sent + (if (send_ping published hm p now).1 then 1 else 0)
  unfolding send_ping
  send_ping-length hm p = elim (Option-cases hm.host) [
    | inl e ↦ rw (e, send_ping) (omega arith)
    | inr (host, e) ↦ rw (e, send_ping) (publish-length hm (next_ping host hm p now))
  ]

  -- A visit counts what it sends.
  visit-count :
      (hm : HandshakeManager) (count : ℕ) (info : PeerInfo)
      → let (hm', count') = visit published hm count info now in
        (length hm'.sent + count ≡ length hm.sent + count') × (count' ≤ count + 1)
  unfolding visit
  visit-count hm count info = ground (arith, send_ping-length hm info.id)

  visit_all-count :
      (hm : HandshakeManager) (count : ℕ) (peers : List PeerInfo)
      → count ≤ 3
      → let (hm', count') = visit_all published hm count peers now in
        (length hm'.sent + count ≡ length hm.sent + count') × (count' ≤ 3)
  unfolding visit_all
  visit_all-count hm count [] h = omega arith
  visit_all-count hm count (info ∷ rest) h =
      let (hm', count') = visit published hm count info now in
      ground (arith, visit-count hm count info, visit_all-count hm' count' rest)

  module _ (host : Host) (always : (m : HandshakeMessage) → published m ≡ true) where
    visit_due :
        (hm : HandshakeManager) (count : ℕ) (info : PeerInfo)
        → hm.host ≡ some host
        → visit published hm count info now ≡ (
            if ltb (now - info.last_seen) 10000000000 then (hm, count) else (
              record hm {
                nonce = next_nonce hm;
                sent = hm.sent ++ next_ping host hm info.id now ∷ [];
              },
              count + 1,
            ))
    unfolding visit send_ping publish
    visit_due hm count info e = ground (arith, e, always (next_ping host hm info.id now))

    visit_all-to :
        (hm : HandshakeManager) (count : ℕ) (peers : List PeerInfo)
        → hm.host ≡ some host
        → count ≤ 3
        → let after = (visit_all published hm count peers now).0 in
          (map (λ m. m.to) after.sent
            ≡ map (λ m. m.to) hm.sent ++ map (λ i. i.id) (take (3 - count) (due now peers)))
          × (after.bar ≡ hm.bar)
    unfolding visit_all
    visit_all-to hm count [] e h = (
      sym (append-nil (map (λ m. m.to) hm.sent))
          ∙ ap (λ d. map (λ m. m.to) hm.sent ++ map (λ i. i.id) d) (sym (take-nil (3 - count))),
      refl,
    )
    visit_all-to hm count (info ∷ rest) e h = elim (Bool-cases (leb 3 count)) [
      | inl full ↦
          let three : count ≡ 3 = ground arith in
          rw (full, visit_all) (rw three (sym (append-nil (map (λ m. m.to) hm.sent)), refl))
      | inr more ↦ elim (Bool-cases (ltb (now - info.last_seen) 10000000000)) [
        | inl seen ↦
            rw (more, visit_all)
              (rw (visit_due hm count info e, seen) (visit_all-to hm count rest e h))
        | inr old ↦
            let hm' : HandshakeManager = record hm {
              nonce = next_nonce hm;
              sent = hm.sent ++ next_ping host hm info.id now ∷ [];
            } in
            let (ids, same) = visit_all-to hm' (count + 1) rest e (ground arith) in
            let later = map (λ i. i.id) (take (3 - (count + 1)) (due now rest)) in
            rw (more, visit_all)
              (rw (visit_due hm count info e, old)
                (
                  ids
                      ∙ ap (λ l. l ++ later)
                          (map-append (λ m. m.to) hm.sent (next_ping host hm info.id now ∷ []))
                      ∙ append_assoc (map (λ m. m.to) hm.sent) (info.id ∷ []) later
                      ∙ ap (λ l. map (λ m. m.to) hm.sent ++ map (λ i. i.id) l)
                          (sym (take_one count info (due now rest) (ground arith))),
                  same,
                ))
      ]
    ]

  -- A round of handshakes sends at most three pings, whatever is published.
  pub perform_handshakes-le :
      (hm : HandshakeManager)
      → length (perform_handshakes published hm now).sent ≤ length hm.sent + 3
  unfolding perform_handshakes
  perform_handshakes-le hm =
      omega (arith, visit_all-count hm 0 (values hm.bar.greylist) (omega arith))

-- Where every message is published, a round of handshakes pings the first three greylisted peers,
-- in the order of the loop, that were not seen for ten seconds, or all of them if they are fewer,
-- and changes no list of peers.
pub perform_handshakes_lem :
    (published : HandshakeMessage → Bool) (now : ℕ) (host : Host) (hm : HandshakeManager)
    → ((m : HandshakeMessage) → published m ≡ true)
    → hm.host ≡ some host
    → (map (λ m. m.to) (perform_handshakes published hm now).sent
        ≡ map (λ m. m.to) hm.sent ++ map (λ i. i.id) (take 3 (due now (values hm.bar.greylist))))
      × ((perform_handshakes published hm now).bar ≡ hm.bar)
unfolding perform_handshakes
perform_handshakes_lem published now host hm always e =
    visit_all-to published now host always hm 0 (values hm.bar.greylist) e (omega arith)
