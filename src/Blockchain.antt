-- ===== src/Blockchain.antt =====
-- blockchain.go: the chain of blocks in a store, by height and by hash.
pub mod Heights
pub mod Hashes
pub mod Growth
pub mod Restart
pub mod Application
mod Tests
use dyphira_chain.Common.{
  ℕ, zero, suc, ◌+◌, ◌*◌, Bool, true, false, List, [], ◌∷◌, map, Option, none, some, ltb, ◌==◌,
  if◌then◌else◌, add64, length,
}
use dyphira_chain.Types.{Address, Hash, Header, Block, Transaction, Validator}
use dyphira_chain.Storage.{
  Storage, Key, validator_key, block_key, tip_key, height_key, other_key, Data, validator_json,
  block_json, number_json, hash_bytes, other_bytes,
}

-- The functions of libraries: `Header.ComputeHash` (SHA-3 of the header's JSON), SHA-3 of
-- concatenated hashes, and the length of an encoding.
pub record Encoding : Type 0 where
  pub header_hash : Header → Hash
  pub hash_of_hashes : List Hash → Hash
  pub block_size : Block → ℕ

-- `tempHeader := *h; tempHeader.Hash = Hash{}`: the hash of a header does not see its own field.
unfoldable pub compute_hash : ⦃enc : Encoding⦄ → Header → Hash
compute_hash ⦃enc⦄ h = enc.header_hash (record h { hash = 0 })

unfoldable pub create_genesis_block : ⦃enc : Encoding⦄ → Block
unfolding compute_hash
create_genesis_block =
    let header : Header = record {
      block_number = 0;
      previous_hash = 0;
      timestamp = 1672531200;
      proposer = 0;
      gas = 0;
      transaction_root = 0;
      hash = 0;
    } in
    record {
      header = record header { hash = compute_hash header };
      transactions = [];
      validator_list = [];
      signature = 0;
      size = 0;
    }

-- `Blockchain`, less its field `height`, which is written and never read.
pub record Blockchain (S : Type 0) : Type 0 where
  pub store : S
  pub current_height : ℕ
  pub tip : Hash
  pub genesis_block : Block

-- `decodeBlock`; what is not the text of a block is taken not to decode.
unfoldable pub decode_block : Data → Option Block
decode_block (block_json b) = some b
decode_block _ = none

-- The height that is loaded with a tip.
unfoldable pub load_height : Option Data → ℕ
load_height (some (number_json h)) = h
load_height _ = 0

-- `computeTransactionRoot`
unfoldable pub compute_transaction_root : ⦃enc : Encoding⦄ → List Transaction → Hash
compute_transaction_root [] = 0
compute_transaction_root ⦃enc⦄ (tx ∷ txs) = enc.hash_of_hashes (map (λ t. t.hash) (tx ∷ txs))

-- The header that `CreateBlock` makes on top of a block.
unfoldable pub next_header : ⦃enc : Encoding⦄ → Block → List Transaction → Validator → ℕ → Header
unfolding compute_hash compute_transaction_root
next_header last txs proposer now =
    let header : Header = record {
      block_number = add64 last.header.block_number 1;
      previous_hash = last.header.hash;
      timestamp = now;
      proposer = proposer.address;
      gas = 0;
      transaction_root = compute_transaction_root txs;
      hash = 0;
    } in
    record header { hash = compute_hash header }

-- The inner loop of `GetTransactionByHash`.
unfoldable pub find_in_block : List Transaction → Hash → Option Transaction
find_in_block [] hash = none
find_in_block (tx ∷ txs) hash =
    let rest = find_in_block txs hash in if tx.hash == hash then some tx else rest

module _ {S : Type 0} ⦃st : Storage S⦄ where
  -- `addBlock`; the operations of the store do not fail.
  unfoldable pub add_block : Blockchain S → Block → Blockchain S
  add_block bc b =
      let with_block = st.put bc.store (block_key b.header.block_number) (block_json b) in
      let with_tip = st.put with_block tip_key (hash_bytes b.header.hash) in
      let with_height = st.put with_tip height_key (number_json b.header.block_number) in
      record bc { store = with_height; current_height = b.header.block_number; tip = b.header.hash }

  -- The first run on an empty store.
  unfoldable pub start_chain : S → Block → Blockchain S
  unfolding add_block
  start_chain s genesis =
      let with_tip = st.put s tip_key (hash_bytes genesis.header.hash) in
      let with_height = st.put with_tip height_key (number_json 0) in
      add_block
        (record {
          store = with_height;
          current_height = 0;
          tip = genesis.header.hash;
          genesis_block = genesis;
        })
        genesis

  -- A store with a tip is loaded, any other is started.
  unfoldable pub load_chain : S → Block → Option Data → Blockchain S
  unfolding load_height start_chain
  load_chain s genesis (some (hash_bytes tip)) = record {
    store = s;
    current_height = load_height (st.get s height_key);
    tip = tip;
    genesis_block = genesis;
  }
  load_chain s genesis _ = start_chain s genesis

  unfoldable pub new_blockchain : ⦃enc : Encoding⦄ → S → Blockchain S
  unfolding create_genesis_block load_chain
  new_blockchain s = load_chain s create_genesis_block (st.get s tip_key)

  unfoldable pub get_block_by_height : Blockchain S → ℕ → Option Block
  unfolding decode_block
  get_block_by_height bc height =
      if ltb bc.current_height height
      then none
      else (if height == 0
          then some bc.genesis_block
          else (elim (st.get bc.store (block_key height)) [
            | none ↦ none
            | some bytes ↦ decode_block bytes
          ]))

  -- The loop of `GetBlockByHash`, over `n` heights from `i` on.
  unfoldable pub find_hash : Blockchain S → Hash → ℕ → ℕ → Option Block
  find_hash bc hash zero i = none
  find_hash bc hash (suc n) i =
      let rest = find_hash bc hash n (i + 1) in
      elim (get_block_by_height bc i) [
        | none ↦ rest
        | some b ↦ if b.header.hash == hash then some b else rest
      ]

  unfoldable pub get_block_by_hash : Blockchain S → Hash → Option Block
  get_block_by_hash bc hash = find_hash bc hash (bc.current_height + 1) 0

  unfoldable pub has_block : Blockchain S → Hash → Bool
  has_block bc hash = elim (get_block_by_hash bc hash) [ none ↦ false | some _ ↦ true ]

  unfoldable pub get_last_block : Blockchain S → Option Block
  get_last_block bc = if bc.tip == 0 then some bc.genesis_block else get_block_by_hash bc bc.tip

  -- `CreateBlock`; `none` is an error, for a missing last block or one above 256 MB.
  unfoldable pub create_block :
      ⦃enc : Encoding⦄ → Blockchain S → List Transaction → Validator → ℕ → Option Block
  create_block ⦃enc⦄ bc txs proposer now = elim (get_last_block bc) [
    | none ↦ none
    | some last ↦
        let block : Block = record {
          header = next_header last txs proposer now;
          transactions = txs;
          validator_list = [];
          signature = 0;
          size = 0;
        } in
        let size = enc.block_size block in
        if ltb (256 * 1024 * 1024) size then none else some (record block { size = size })
  ]

  -- The outer loop of `GetTransactionByHash`.
  unfoldable pub find_transaction : Blockchain S → Hash → ℕ → ℕ → Option (Transaction × ℕ)
  unfolding find_in_block
  find_transaction bc hash zero i = none
  find_transaction bc hash (suc n) i =
      let rest = find_transaction bc hash n (i + 1) in
      elim (get_block_by_height bc i) [
        | none ↦ rest
        | some b ↦ elim (find_in_block b.transactions hash) [ some tx ↦ some (tx, i) | none ↦ rest ]
      ]

  unfoldable pub get_transaction_by_hash : Blockchain S → Hash → Option (Transaction × ℕ)
  unfolding find_transaction
  get_transaction_by_hash bc hash = find_transaction bc hash (bc.current_height + 1) 0
