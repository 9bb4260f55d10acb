-- ===== src/Blockchain/Growth.antt =====
-- A chain that grows by the blocks that `CreateBlock` makes, and its restart from the store.
use dyphira_chain.Common.{
  ℕ, ◌+◌, ◌≤◌, ◌<◌, ◌≡◌, ◌≢◌, inl, inr, refl, sym, ap, ◌∙◌, List, none, some, ◌==◌, if◌then◌else◌,
  add64, add64_exact, word_mod, arith, Bool-cases,
}
use dyphira_chain.Types.{Hash, Block, Transaction, Validator}
use dyphira_chain.Storage.{Storage}
use dyphira_chain.Blockchain.{
  Encoding, Blockchain, compute_hash, add_block, get_block_by_height, get_block_by_hash,
  get_last_block, next_header, create_block,
}
use dyphira_chain.Blockchain.Heights.{
  get_block_by_height-add_block, get_block-stored, add_block_height, add_block_tip,
}
use dyphira_chain.Blockchain.Hashes.{get_block_by_hash_lem}

next_header-fields :
    ⦃enc : Encoding⦄ (last : Block) (txs : List Transaction) (proposer : Validator) (now : ℕ)
    → ((next_header last txs proposer now).block_number ≡ add64 last.header.block_number 1)
      × ((next_header last txs proposer now).previous_hash ≡ last.header.hash)
      × ((next_header last txs proposer now).proposer ≡ proposer.address)
      × ((next_header last txs proposer now).hash
          ≡ compute_hash (next_header last txs proposer now))
unfolding next_header compute_hash
next_header-fields last txs proposer now = (refl, refl, refl, refl)

module _ {S : Type 0} ⦃st : Storage S⦄ where
  -- Every height up to the last has a block of that number, no two blocks have one hash, and the
  -- tip is the hash of the last block. A hash of zero, which the code takes for no tip, does not
  -- occur, and there is room for another height.
  pub record IsChain (bc : Blockchain S) : Type 0 where
    pub full :
        (h : ℕ)
        → h ≤ bc.current_height
        → (b : Block) × (get_block_by_height bc h ≡ some b) × (b.header.block_number ≡ h)
    pub unique :
        (h k : ℕ) (b c : Block)
        → get_block_by_height bc h ≡ some b
        → get_block_by_height bc k ≡ some c
        → b.header.hash ≡ c.header.hash
        → h ≡ k
    pub ends :
        (b : Block) → get_block_by_height bc bc.current_height ≡ some b → b.header.hash ≡ bc.tip
    pub tip_set : bc.tip ≢ 0
    pub room : bc.current_height + 1 < word_mod

  -- The last block of a chain is the one at its height.
  get_last_block-top :
      (bc : Blockchain S)
      → IsChain bc
      → get_last_block bc ≡ get_block_by_height bc bc.current_height
  unfolding get_last_block
  get_last_block-top bc v =
      let (top, at, _) = v.full bc.current_height (omega arith) in
      elim (get_block_by_hash_lem bc bc.tip) [
        | inl (h, b, found, (here, same), _) ↦
            let e = v.unique h bc.current_height b top here at (same ∙ sym (v.ends top at)) in
            ground (arith, v.tip_set, found, here, e, ap (get_block_by_height bc) e)
        | inr (_, nowhere) ↦ absurd (nowhere bc.current_height top at (v.ends top at))
      ]

  not_found :
      (bc : Blockchain S) (hash : Hash)
      → get_block_by_hash bc hash ≡ none
      → (k : ℕ) (c : Block) → get_block_by_height bc k ≡ some c
      → c.header.hash ≢ hash
  not_found bc hash e = elim (get_block_by_hash_lem bc hash) [
    | inl (_, b, found, _, _) ↦ absurd (ground (arith, e, found))
    | inr (_, nowhere) ↦ nowhere
  ]

  module _ ⦃enc : Encoding⦄ where
    create_block-on :
        (bc : Blockchain S) (last b : Block) (txs : List Transaction) (proposer : Validator)
        (now : ℕ)
        → get_last_block bc ≡ some last
        → create_block bc txs proposer now ≡ some b
        → (b.header ≡ next_header last txs proposer now) × (b.transactions ≡ txs)
    unfolding create_block
    create_block-on bc last b txs proposer now e made = ground arith

    -- A block created on a chain has the next number, points to the tip, and has the hash of its
    -- header.
    pub create_block_lem :
        (bc : Blockchain S) (b : Block) (txs : List Transaction) (proposer : Validator) (now : ℕ)
        → IsChain bc
        → create_block bc txs proposer now ≡ some b
        → (b.header.block_number ≡ bc.current_height + 1)
          × (b.header.previous_hash ≡ bc.tip)
          × (b.header.proposer ≡ proposer.address)
          × (b.header.hash ≡ compute_hash b.header)
          × (b.transactions ≡ txs)
    create_block_lem bc b txs proposer now v made =
        let (top, at, number) = v.full bc.current_height (omega arith) in
        let (same, txs_same) =
          create_block-on bc top b txs proposer now (get_last_block-top bc v ∙ at) made in
        let (n, p, a, h) = next_header-fields top txs proposer now in
        (
          ap (λ k. k.block_number) same
              ∙ n
              ∙ ap (λ k. add64 k 1) number
              ∙ add64_exact bc.current_height 1 v.room,
          ap (λ k. k.previous_hash) same ∙ p ∙ v.ends top at,
          ap (λ k. k.proposer) same ∙ a,
          ap (λ k. k.hash) same ∙ h ∙ ap compute_hash (sym same),
          txs_same,
        )

  -- Where an added block with the next number stands, and where the others do.
  add_block-at :
      (bc : Blockchain S) (b : Block) (h : ℕ)
      → b.header.block_number ≡ bc.current_height + 1
      → get_block_by_height (add_block bc b) h
        ≡ (if bc.current_height + 1 == h then some b else get_block_by_height bc h)
  add_block-at bc b h next =
      ground (arith, next, get_block_by_height-add_block bc b h, get_block-stored bc h)

  -- A chain stays a chain when a block with the next number and a fresh hash is added; the block
  -- is then the last, and every other height holds what it held.
  pub add_block-IsChain :
      (bc : Blockchain S) (b : Block)
      → IsChain bc
      → b.header.block_number ≡ bc.current_height + 1
      → b.header.hash ≢ 0
      → get_block_by_hash bc b.header.hash ≡ none
      → bc.current_height + 2 < word_mod
      → IsChain (add_block bc b)
        × (get_last_block (add_block bc b) ≡ some b)
        × ((h : ℕ)
            → get_block_by_height (add_block bc b) h
              ≡ (if bc.current_height + 1 == h then some b else get_block_by_height bc h))
  add_block-IsChain bc b v next set fresh small =
      let at = λ (h : ℕ). add_block-at bc b h next in
      let height = add_block_height bc b in
      let nowhere = not_found bc b.header.hash fresh in
      let chain : IsChain (add_block bc b) = record {
        full = λ h le. elim (Bool-cases (bc.current_height + 1 == h)) [
          | inl last ↦ (b, ground (arith, at h, last), ground (arith, next, last))
          | inr before ↦
              let (c, here, number) = v.full h (ground (arith, le, height, next, before)) in
              (c, ground (arith, at h, before, here), number)
        ];
        unique = λ h k c d e f same.
            ground (arith, at h, at k, e, f, same, nowhere h c, nowhere k d, v.unique h k c d);
        ends = λ c e.
            ground (arith, at (add_block bc b).current_height, height, next, e, add_block_tip bc b);
        tip_set = ground (arith, add_block_tip bc b, set);
        room = ground (arith, height, next, small);
      } in
      (
        chain,
        get_last_block-top (add_block bc b) chain
            ∙ ground (arith, at (add_block bc b).current_height, height, next),
        at,
      )
