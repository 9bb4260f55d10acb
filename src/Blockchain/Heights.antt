-- ===== src/Blockchain/Heights.antt =====
-- What the chain holds at each height, after a block is added and after a restart.
use dyphira_chain.Common.{ℕ, ◌≡◌, refl, Option, none, some, ltb, ◌==◌, if◌then◌else◌, arith}
use dyphira_chain.Types.{Block}
use dyphira_chain.Storage.{
  Storage, block_key, tip_key, height_key, block_json, number_json, hash_bytes, same_key,
}
use dyphira_chain.Blockchain.{Blockchain, decode_block, add_block, get_block_by_height}

module _ {S : Type 0} ⦃st : Storage S⦄ where
  -- The block that the store binds to a height.
  unfoldable pub stored : Blockchain S → ℕ → Option Block
  stored bc h = elim (st.get bc.store (block_key h)) [
    | none ↦ none
    | some bytes ↦ decode_block bytes
  ]

  -- An added block is stored under its number; the blocks at other heights stay.
  pub stored-add_block :
      (bc : Blockchain S) (b : Block) (h : ℕ)
      → stored (add_block bc b) h ≡ (if b.header.block_number == h then some b else stored bc h)
  unfolding stored add_block decode_block same_key
  stored-add_block bc b h = ground (
    arith,
    st.get-put
        (st.put (st.put bc.store (block_key b.header.block_number) (block_json b)) tip_key
          (hash_bytes b.header.hash))
        height_key (block_key h) (number_json b.header.block_number),
    st.get-put (st.put bc.store (block_key b.header.block_number) (block_json b)) tip_key
        (block_key h) (hash_bytes b.header.hash),
    st.get-put bc.store (block_key b.header.block_number) (block_key h) (block_json b),
  )

  pub get_block-stored :
      (bc : Blockchain S) (h : ℕ)
      → get_block_by_height bc h ≡ (
          if ltb bc.current_height h
          then none
          else (if h == 0 then some bc.genesis_block else stored bc h))
  unfolding get_block_by_height stored
  get_block-stored bc h = refl

  pub add_block_height :
      (bc : Blockchain S) (b : Block) → (add_block bc b).current_height ≡ b.header.block_number
  unfolding add_block
  add_block_height bc b = refl

  pub add_block_tip : (bc : Blockchain S) (b : Block) → (add_block bc b).tip ≡ b.header.hash
  unfolding add_block
  add_block_tip bc b = refl

  add_block_genesis :
      (bc : Blockchain S) (b : Block) → (add_block bc b).genesis_block ≡ bc.genesis_block
  unfolding add_block
  add_block_genesis bc b = refl

  -- After a block is added the chain ends at its number: there the block is found, below it what
  -- was stored before, at 0 the genesis block, and above it nothing.
  pub get_block_by_height-add_block :
      (bc : Blockchain S) (b : Block) (h : ℕ)
      → get_block_by_height (add_block bc b) h ≡ (
          if ltb b.header.block_number h
          then none
          else (if h == 0
              then some bc.genesis_block
              else (if b.header.block_number == h then some b else stored bc h)))
  unfolding get_block_by_height
  get_block_by_height-add_block bc b h = ground (
    arith,
    stored-add_block bc b h,
    add_block_height bc b,
    add_block_genesis bc b,
    get_block-stored (add_block bc b) h,
  )
