-- ===== src/Blockchain/Tests.antt =====
-- Runs of the chain at concrete inputs.
use dyphira_chain.Common.{
  ℕ, ◌+◌, ◌≡◌, ◌≢◌, refl, true, false, [], ◌∷◌, ◌++◌, none, some, ◌==◌, if◌then◌else◌, arith, add64,
  ◌⊎◌,
}
use dyphira_chain.Types.{
  Address, Block, Transaction, Account, Validator, register_validator, participation,
}
use dyphira_chain.Trie
use dyphira_chain.Trie.{Digest}
use dyphira_chain.State
use dyphira_chain.State.{
  State, new_state, get_account, apply_transaction, apply_all, check_sender, bytes_of, err, ok,
}
use dyphira_chain.Storage.{
  MemoryStore, memory_store, new_memory_store, tip_key, find, same_key, put_entry,
}
use dyphira_chain.Registry
use dyphira_chain.Registry.{get_validator, found, decode_validator}
use dyphira_chain.Registry.Lookups.{IsKeyed, register-IsKeyed}
use dyphira_chain.Blockchain.{
  Encoding, Blockchain, compute_hash, create_genesis_block, add_block, start_chain, load_chain,
  new_blockchain, get_block_by_height, find_hash, get_block_by_hash, get_last_block, next_header,
  create_block, compute_transaction_root,
}
use dyphira_chain.Blockchain.Growth.{IsChain, add_block-IsChain}
use dyphira_chain.Blockchain.Restart.{new_blockchain-add_block, new_blockchain-IsChain}
use dyphira_chain.Blockchain.Application.{
  apply_transactions, apply_transactions-state, refused_registration_raises_stake, refused,
  stake_of, update_registry,
}

-- Hashes that count blocks.
instance abbrev counting : Encoding
counting = record {
  header_hash = λ h. h.block_number + 1;
  hash_of_hashes = λ hs. 5;
  block_size = λ b. 100;
}

instance abbrev sample_digest : Digest Account
sample_digest = record { of_value = λ acc. acc.nonce; of_pair = λ a b. a + b }

abbrev fresh : Blockchain MemoryStore
fresh = new_blockchain new_memory_store

no_tip : memory_store.get new_memory_store tip_key ≡ none
unfolding find
no_tip = refl

genesis_hash : create_genesis_block.header.hash ≢ 0
unfolding create_genesis_block compute_hash
genesis_hash = λ e. omega (arith, e)

fresh-IsChain : IsChain fresh
fresh-IsChain = (new_blockchain-IsChain new_memory_store no_tip genesis_hash).0

-- The proposer of the first block.
abbrev proposer : Validator
proposer = record {
  address = 5;
  stake = 100;
  delegated_stake = 0;
  compute_reputation = 0;
  participating = true;
}

abbrev first_block : Block
first_block = record {
  header = record {
    block_number = 1;
    previous_hash = 1;
    timestamp = 77;
    proposer = 5;
    gas = 0;
    transaction_root = 0;
    hash = 2;
  };
  transactions = [];
  validator_list = [];
  signature = 0;
  size = 100;
}

first_block_made : create_block fresh [] proposer 77 ≡ some first_block
unfolding create_block get_last_block get_block_by_hash find_hash get_block_by_height new_blockchain
    load_chain start_chain add_block create_genesis_block compute_hash next_header
    compute_transaction_root add64 find same_key put_entry
first_block_made = refl

first_block_unknown : get_block_by_hash fresh 2 ≡ none
unfolding get_block_by_hash find_hash get_block_by_height new_blockchain load_chain start_chain
    add_block create_genesis_block compute_hash find same_key put_entry
first_block_unknown = refl

fresh_height : fresh.current_height ≡ 0
unfolding new_blockchain load_chain start_chain add_block create_genesis_block find
fresh_height = refl

add_block-IsChain_example :
    IsChain (add_block fresh first_block)
    × (get_last_block (add_block fresh first_block) ≡ some first_block)
    × ((h : ℕ)
        → get_block_by_height (add_block fresh first_block) h ≡ (
            if fresh.current_height + 1 == h
            then some first_block
            else get_block_by_height fresh h))
add_block-IsChain_example =
    add_block-IsChain fresh first_block fresh-IsChain (rw fresh_height refl) (λ e. omega (arith, e))
      first_block_unknown (rw fresh_height (omega arith))

fresh_genesis : fresh.genesis_block ≡ create_genesis_block
unfolding new_blockchain load_chain start_chain add_block find
fresh_genesis = refl

new_blockchain-add_block_example :
    new_blockchain (add_block fresh first_block).store ≡ add_block fresh first_block
new_blockchain-add_block_example = new_blockchain-add_block fresh first_block fresh_genesis

-- A registration with a nonce that is not the next one.
abbrev registration : Transaction
registration = record {
  from = 5;
  to = 0;
  value = 40;
  nonce = 7;
  fee = 0;
  timestamp = 0;
  type = register_validator;
  signature = 0;
  hash = 3;
  used = false;
}

abbrev registered : MemoryStore
registered = Registry.register_validator new_memory_store (some proposer)

registered-IsKeyed : IsKeyed registered
unfolding find get_validator
registered-IsKeyed =
    register-IsKeyed new_memory_store proposer (record { own = λ a v e. absurd (nobody a v e) })
  where
    nobody : (a : Address) (v : Validator) → get_validator new_memory_store a ≡ found v → ⊥
    nobody a v e = cc

registration_refused : apply_transaction new_state registration ≡ err State.invalid_nonce
unfolding apply_transaction new_state get_account check_sender bytes_of add64 Trie.new_merkle_trie
    Trie.get Trie.get_node Trie.value_found Trie.key_bit
registration_refused = refl

nothing_before : apply_transactions new_state registered [] ≡ (new_state, registered, none)
unfolding apply_transactions
nothing_before = refl

refused_registration_example :
    let (accounts, registry, error) =
      apply_transactions new_state registered ([] ++ registration ∷ []) in
    (accounts ≡ new_state)
    × (error ≡ some (refused State.invalid_nonce))
    × ((v : Validator) × (get_validator registry 5 ≡ found v)
        × (v.participating ≡ true)
        × (v.stake ≡ add64 (stake_of registered 5) 40))
    × ((a : Address) → (a ≡ 5) ⊎ (get_validator registry a ≡ get_validator registered a))
refused_registration_example =
    refused_registration_raises_stake new_state new_state registered registered [] [] registration
      State.invalid_nonce registered-IsKeyed nothing_before refl (omega arith) registration_refused

-- A validator announces that it takes part.
abbrev announcement : Transaction
announcement = record registration { value = 0; nonce = 1; type = participation }

announcement_applied : (apply_transactions new_state registered (announcement ∷ [])).2 ≡ none
unfolding apply_transactions update_registry Registry.register_validator get_validator
    decode_validator find same_key put_entry apply_transaction new_state get_account check_sender
    State.check_type bytes_of add64 Trie.new_merkle_trie Trie.get Trie.get_node Trie.value_found
    Trie.key_bit
announcement_applied = refl

apply_transactions-state_example :
    apply_all new_state (announcement ∷ [])
    ≡ ((apply_transactions new_state registered (announcement ∷ [])).0, none)
apply_transactions-state_example =
    apply_transactions-state new_state registered (announcement ∷ []) announcement_applied
