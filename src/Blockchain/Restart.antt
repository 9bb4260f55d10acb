-- ===== src/Blockchain/Restart.antt =====
-- The start of a chain on an empty store, and its restart from the store.
use dyphira_chain.Common.{
  ℕ, ◌+◌, ◌≡◌, ◌≢◌, refl, sym, ap, ◌∙◌, none, some, ◌==◌, if◌then◌else◌, arith,
}
use dyphira_chain.Types.{Block}
use dyphira_chain.Storage.{
  Storage, block_key, tip_key, height_key, block_json, number_json, hash_bytes, same_key,
}
use dyphira_chain.Blockchain.{
  Encoding, Blockchain, create_genesis_block, add_block, load_height, start_chain, load_chain,
  new_blockchain, get_block_by_height,
}
use dyphira_chain.Blockchain.Heights.{
  get_block_by_height-add_block, add_block_height, add_block_tip,
}
use dyphira_chain.Blockchain.Growth.{IsChain}

pub genesis_number : ⦃enc : Encoding⦄ → create_genesis_block.header.block_number ≡ 0
unfolding create_genesis_block
genesis_number = refl

module _ {S : Type 0} ⦃st : Storage S⦄ where
  tip-add_block :
      (bc : Blockchain S) (b : Block)
      → st.get (add_block bc b).store tip_key ≡ some (hash_bytes b.header.hash)
  unfolding add_block same_key
  tip-add_block bc b = ground (
    arith,
    st.get-put
        (st.put (st.put bc.store (block_key b.header.block_number) (block_json b)) tip_key
          (hash_bytes b.header.hash))
        height_key tip_key (number_json b.header.block_number),
    st.get-put (st.put bc.store (block_key b.header.block_number) (block_json b)) tip_key tip_key
        (hash_bytes b.header.hash),
  )

  height-add_block :
      (bc : Blockchain S) (b : Block)
      → st.get (add_block bc b).store height_key ≡ some (number_json b.header.block_number)
  unfolding add_block same_key
  height-add_block bc b = ground (
    arith,
    st.get-put
        (st.put (st.put bc.store (block_key b.header.block_number) (block_json b)) tip_key
          (hash_bytes b.header.hash))
        height_key height_key (number_json b.header.block_number),
  )

  add_block-fields :
      (bc : Blockchain S) (b : Block)
      → record {
        store = (add_block bc b).store;
        current_height = b.header.block_number;
        tip = b.header.hash;
        genesis_block = bc.genesis_block;
      }
        ≡ add_block bc b
  unfolding add_block
  add_block-fields bc b = refl

  start_chain-at :
      (s : S) (g : Block) (h : ℕ)
      → g.header.block_number ≡ 0
      → (get_block_by_height (start_chain s g) h ≡ (if h == 0 then some g else none))
        × ((start_chain s g).current_height ≡ 0)
        × ((start_chain s g).tip ≡ g.header.hash)
  unfolding start_chain
  start_chain-at s g h zero_number =
      let bc : Blockchain S = record {
        store = st.put (st.put s tip_key (hash_bytes g.header.hash)) height_key (number_json 0);
        current_height = 0;
        tip = g.header.hash;
        genesis_block = g;
      } in
      (
        ground (arith, get_block_by_height-add_block bc g h, zero_number),
        add_block_height bc g ∙ zero_number,
        add_block_tip bc g,
      )

  start_chain-IsChain :
      (s : S) (g : Block)
      → g.header.block_number ≡ 0
      → g.header.hash ≢ 0
      → IsChain (start_chain s g)
        × (get_block_by_height (start_chain s g) 0 ≡ some g)
        × ((h : ℕ) → get_block_by_height (start_chain s g) (h + 1) ≡ none)
  start_chain-IsChain s g zero_number set =
      let at = λ (h : ℕ). (start_chain-at s g h zero_number).0 in
      let height = (start_chain-at s g 0 zero_number).1 in
      let tip = (start_chain-at s g 0 zero_number).2 in
      (
        record {
          full = λ h le.
              (g, ground (arith, at h, le, height), ground (arith, le, height, zero_number));
          unique = λ h k b c e f same. ground (arith, at h, at k, e, f);
          ends = λ b e. ground (arith, at (start_chain s g).current_height, e, height, tip);
          tip_set = ground (arith, tip, set);
          room = ground (arith, height);
        },
        ground (arith, at 0),
        λ h. ground (arith, at (h + 1)),
      )

  module _ ⦃enc : Encoding⦄ where
    -- A chain that is loaded from the store right after a block was added is the chain that was
    -- there, with its height, its tip and its blocks.
    pub new_blockchain-add_block :
        (bc : Blockchain S) (b : Block)
        → bc.genesis_block ≡ create_genesis_block
        → new_blockchain (add_block bc b).store ≡ add_block bc b
    unfolding new_blockchain load_chain load_height
    new_blockchain-add_block bc b same =
        rw (tip-add_block bc b, new_blockchain)
          (rw (height-add_block bc b) (
            ap
              (λ g. record {
                store = (add_block bc b).store;
                current_height = b.header.block_number;
                tip = b.header.hash;
                genesis_block = g;
              })
              (sym same)
            ∙ add_block-fields bc b))

    -- On a store without a tip the chain starts with the genesis block alone.
    pub new_blockchain-IsChain :
        (s : S)
        → st.get s tip_key ≡ none
        → (create_genesis_block).header.hash ≢ 0
        → IsChain (new_blockchain s)
          × (get_block_by_height (new_blockchain s) 0 ≡ some create_genesis_block)
          × ((h : ℕ) → get_block_by_height (new_blockchain s) (h + 1) ≡ none)
    unfolding new_blockchain load_chain
    new_blockchain-IsChain s nothing set =
        rw (nothing, new_blockchain) (start_chain-IsChain s create_genesis_block genesis_number set)
