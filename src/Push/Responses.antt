-- ===== src/Push/Responses.antt =====
-- optimistic_push.go: who is answered, with what, and who is asked.
use Prim.Native.Nat.{min}
use mathlib.Core.List.{append-nil, append_assoc, map-append}
use dyphira_chain.Common.{
  ℕ, ◌+◌, ◌-◌, ◌≡◌, ◌==◌, ◌≢◌, ◌⊎◌, refl, sym, ap, ◌∙◌, Bool, true, false, ◌&&◌, List, [], ◌∷◌,
  ◌++◌, map, none, some, if◌then◌else◌, arith, Option-cases, List-cases, inl, inr,
}
use dyphira_chain.Common.Dict.{has}
use dyphira_chain.Types.{Header, Block}
use dyphira_chain.Storage.{Storage}
use dyphira_chain.Blockchain.{get_block_by_height}
use dyphira_chain.Blockchain.Growth.{IsChain}
use dyphira_chain.Bar.Peers.{PeerInfo}
use dyphira_chain.Bar.{get_peer_status, values}
use dyphira_chain.Bar.Invariant.{IsValid}
use dyphira_chain.Network.{Host}
use dyphira_chain.Push.{
  push_response, PushMessage, PushManager, no_p2p, no_peers, request, get_block_data, response,
  publish, handle_push_request, request_all, request_optimistic_push,
}
use dyphira_chain.Push.Headers.{numbers, header_at, get_block_headers_lem}

-- The last 101 heights of a chain, or all if there are fewer.
abbrev pub last_heights : ℕ → List ℕ
last_heights height = numbers (height - 100) (min (height + 1) 101)

module _ {S : Type 0} (published : PushMessage → Bool) where
  module _ ⦃st : Storage S⦄ (host : Host) (pm : PushManager S) (m : PushMessage) (now : ℕ) where
    abbrev pub reply : PushMessage
    reply = response host pm m.from m.request_id m.is_light_node now

    -- On valid lists of peers a request is answered exactly when it is for this node, its sender is
    -- whitelisted and the answer is published, and nothing else changes.
    handle_push_request-sent :
        IsValid pm.bar
        → handle_push_request published host pm m now ≡ record pm {
          sent =
              pm.sent
              ++ (if (m.to == host.id) && (has m.from pm.bar.whitelist && published reply)
                  then reply ∷ []
                  else []);
        }
    unfolding handle_push_request publish get_peer_status
    handle_push_request-sent v = ground (arith, v.stands m.from, append-nil pm.sent)

  request_all-to :
      (host : Host) (pm : PushManager S) (peers : List PeerInfo) (request_id : ℕ) (light : Bool)
      (now : ℕ)
      → ((m : PushMessage) → published m ≡ true)
      → map (λ m. m.to) (request_all published host pm peers request_id light now).sent
        ≡ map (λ m. m.to) pm.sent ++ map (λ i. i.id) peers
  unfolding request_all publish
  request_all-to host pm [] request_id light now always = sym (append-nil (map (λ m. m.to) pm.sent))
  request_all-to host pm (info ∷ rest) request_id light now always =
      rw (always (request host info.id request_id light now), request_all)
        (request_all-to host
            (record pm { sent = pm.sent ++ request host info.id request_id light now ∷ [] }) rest
            request_id light now always
          ∙ ap (λ l. l ++ map (λ i. i.id) rest)
              (map-append (λ m. m.to) pm.sent (request host info.id request_id light now ∷ []))
          ∙ append_assoc (map (λ m. m.to) pm.sent) (info.id ∷ []) (map (λ i. i.id) rest))

  -- `RequestOptimisticPush` fails without a P2P layer and without whitelisted peers, and then sends
  -- nothing; where every message is published, it asks each whitelisted peer once, in their order.
  pub request_optimistic_push_lem :
      (pm : PushManager S) (light : Bool) (now : ℕ)
      → ((m : PushMessage) → published m ≡ true)
      → let (after, error) = request_optimistic_push published pm light now in
        ((pm.host ≡ none) × (error ≡ some no_p2p) × (after ≡ pm))
        ⊎ ((pm.host ≢ none) × (pm.bar.whitelist ≡ []) × (error ≡ some no_peers) × (after ≡ pm))
        ⊎ ((pm.host ≢ none)
            × (pm.bar.whitelist ≢ [])
            × (error ≡ none)
            × (map (λ m. m.to) after.sent
                ≡ map (λ m. m.to) pm.sent ++ map (λ i. i.id) (values pm.bar.whitelist)))
  unfolding request_optimistic_push
  request_optimistic_push_lem pm light now always = elim (Option-cases pm.host) [
    | inl e ↦
        let r : request_optimistic_push published pm light now ≡ (pm, some no_p2p) =
          ground (arith, e) in
        inl (e, ap (λ x. x.1) r, ap (λ x. x.0) r)
    | inr (host, e) ↦
        let online : pm.host ≢ none = λ off. cc in
        elim (List-cases pm.bar.whitelist) [
          | inl f ↦
              let r : request_optimistic_push published pm light now ≡ (pm, some no_peers) =
                ground (arith, e, f) in
              inr (inl (online, f, ap (λ x. x.1) r, ap (λ x. x.0) r))
          | inr (entry, rest, f) ↦
              let all = request_all published host pm (values pm.bar.whitelist) now light now in
              let r : request_optimistic_push published pm light now ≡ (all, none) =
                ground (arith, e, f) in
              inr (
                inr (
                  online,
                  (λ empty. cc),
                  ap (λ x. x.1) r,
                  ap (λ x. map (λ m. m.to) x.0.sent) r
                      ∙ request_all-to host pm (values pm.bar.whitelist) now light now always,
                ))
        ]
  ]

module _ {S : Type 0} ⦃st : Storage S⦄ where
  response-parts :
      (host : Host) (pm : PushManager S) (to request_id : ℕ) (light : Bool) (now : ℕ)
      → IsChain pm.chain
      → let r = response host pm to request_id light now in
        ((light ≡ true)
          × (r.block ≡ none)
          × (hs : List Header) × (r.block_headers ≡ some hs)
          × (map (λ h. h.block_number) hs ≡ last_heights pm.chain.current_height)
          × (map some hs ≡ map (header_at pm.chain) (last_heights pm.chain.current_height)))
        ⊎ ((light ≡ false)
            × (r.block_headers ≡ none)
            × (b : Block) × (r.block ≡ some b)
            × (get_block_by_height pm.chain pm.chain.current_height ≡ some b)
            × (b.header.block_number ≡ pm.chain.current_height)
            × (b.header.hash ≡ pm.chain.tip))
  unfolding response get_block_data
  response-parts host pm to request_id true now v =
      let (hs, found, _, are, all) = get_block_headers_lem pm.chain v in
      inl (refl, refl, hs, found, are, all)
  response-parts host pm to request_id false now v =
      let (b, found, number) = v.full pm.chain.current_height (omega arith) in
      inr (refl, refl, b, found, found, number, v.ends b found)

  -- On a valid chain and valid lists of peers, the one message that a request can bring about is
  -- sent exactly when the request is for this node, its sender is whitelisted and the message is
  -- published, and nothing else of the state changes. It is a response to the sender under the
  -- request's id, from this node and with its height: to a light node the headers that the chain
  -- has at the last 101 heights, or at all if there are fewer, in order and no block; to any other
  -- node the last block of the chain and no headers.
  pub handle_push_request_lem :
      (published : PushMessage → Bool) (host : Host) (pm : PushManager S) (m : PushMessage)
      (now : ℕ)
      → IsChain pm.chain
      → IsValid pm.bar
      → (r : PushMessage) × (handle_push_request published host pm m now ≡ record pm {
        sent =
            pm.sent
            ++ (if (m.to == host.id) && (has m.from pm.bar.whitelist && published r)
                then r ∷ []
                else []);
      })
        × ((r.type ≡ push_response) × (r.from ≡ host.id) × (r.to ≡ m.from))
        × ((r.request_id ≡ m.request_id) × (r.block_height ≡ pm.chain.current_height))
        × (((m.is_light_node ≡ true)
              × (r.block ≡ none)
              × (hs : List Header) × (r.block_headers ≡ some hs)
              × (map (λ h. h.block_number) hs ≡ last_heights pm.chain.current_height)
              × (map some hs ≡ map (header_at pm.chain) (last_heights pm.chain.current_height)))
            ⊎ ((m.is_light_node ≡ false)
                × (r.block_headers ≡ none)
                × (b : Block) × (r.block ≡ some b)
                × (get_block_by_height pm.chain pm.chain.current_height ≡ some b)
                × (b.header.block_number ≡ pm.chain.current_height)
                × (b.header.hash ≡ pm.chain.tip)))
  unfolding response
  handle_push_request_lem published host pm m now v bar = (
    response host pm m.from m.request_id m.is_light_node now,
    handle_push_request-sent published host pm m now bar,
    (refl, refl, refl),
    (refl, refl),
    response-parts host pm m.from m.request_id m.is_light_node now v,
  )
