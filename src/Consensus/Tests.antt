-- ===== src/Consensus/Tests.antt =====
-- A node that is a committee of one: it receives a block, approves it and finalizes it.
use dyphira_chain.Common.{
  ℕ, ◌+◌, ◌<◌, ◌%◌, ◌≡◌, ◌≢◌, ◌⊎◌, ltb, Bool, refl, true, List, [], ◌∷◌, none, some, length,
  get_elem?, ◌==◌, if◌then◌else◌, arith, add64,
}
use dyphira_chain.Common.Dict.{lookup, insert, erase}
use dyphira_chain.Types.{Transaction, Block, Account, Validator, IsAddress}
use dyphira_chain.Trie.{Digest}
use dyphira_chain.State.{new_state, get_account, empty_account}
use dyphira_chain.Consensus.Messages.{announced}
use dyphira_chain.Consensus.Startup.{
  new_app_node, IsBlank, new_app_node_history, new_app_node_again, initial_account,
}
use dyphira_chain.Storage.{MemoryStore, memory_store, new_memory_store, find, put_entry, same_key}
use dyphira_chain.Registry
use dyphira_chain.Registry.{
  get_validator, found, missing, decode_validator, get_all_validators, collect,
}
use dyphira_chain.Committee.{
  select_committee, elect, candidates, to_member, sort_members, insert_member,
}
use dyphira_chain.Committee.Slots.{turn}
use dyphira_chain.Approval.{
  add_signature, is_committee_member, is_member, has_signature, is_approved, new_block_approval,
}
use dyphira_chain.Blockchain.{
  Encoding, new_blockchain, load_chain, start_chain, add_block, has_block, get_block_by_hash,
  find_hash, get_block_by_height, create_genesis_block, compute_hash, decode_block,
}
use dyphira_chain.Pool.{new_transaction_pool}
use dyphira_chain.Consensus.{
  Node, process_received_block, vote, settle_vote, add_buffered, finalize_approved_block,
  append_block, force_committee_and_proposer, scheduled_proposer, needs_election, epoch_start_of,
  committee_size, produce,
}
use dyphira_chain.Consensus.Quorums.{WasApproved}
use dyphira_chain.Blockchain.Heights.{stored}
use dyphira_chain.Consensus.Steps.{Reaches, IsFresh, facts, start, next, receive, finalize}
use dyphira_chain.Consensus.History.{Reaches-stored}
use dyphira_chain.Consensus.Epochs.{force-scheduled_proposer}

-- Hashes that count blocks and nonces.
instance abbrev counting : Encoding
counting = record {
  header_hash = λ h. h.block_number + 1;
  hash_of_hashes = λ hs. 5;
  block_size = λ b. 100;
}

instance abbrev sample_digest : Digest Account
sample_digest = record { of_value = λ acc. acc.nonce; of_pair = λ a b. a + b }

abbrev self : Validator
self = record {
  address = 5;
  stake = 100;
  delegated_stake = 0;
  compute_reputation = 0;
  participating = true;
}

abbrev fresh : Node MemoryStore
fresh = record {
  address = 5;
  chain = new_blockchain new_memory_store;
  state = new_state;
  registry = Registry.register_validator new_memory_store (some self);
  pool = new_transaction_pool;
  committee = self ∷ [];
  proposer_selector = none;
  pending_blocks = [];
  approval_buffer = [];
  ready = [];
  outbox = [];
}

fresh-IsFresh : IsFresh fresh
fresh-IsFresh = record { no_pending = refl; no_waiting = refl; no_ready = refl }

abbrev block : Block
block = record {
  header = record {
    block_number = 1;
    previous_hash = 1;
    timestamp = 77;
    proposer = 8;
    gas = 0;
    transaction_root = 0;
    hash = 2;
  };
  transactions = [];
  validator_list = [];
  signature = 0;
  size = 100;
}

abbrev received : Node MemoryStore
received = process_received_block fresh block 9

received_ready : get_elem? received.ready 0 ≡ some block
unfolding process_received_block vote settle_vote add_buffered add_signature is_committee_member
    is_member has_signature is_approved new_block_approval lookup insert erase has_block
    get_block_by_hash find_hash get_block_by_height new_blockchain load_chain start_chain add_block
    create_genesis_block compute_hash find put_entry same_key add64
received_ready = refl

abbrev finalized : Node MemoryStore
finalized = finalize_approved_block received block

finalized_stored : stored finalized.chain 1 ≡ some block
unfolding stored finalize_approved_block append_block decode_block process_received_block vote
    settle_vote add_buffered add_signature is_committee_member is_member has_signature is_approved
    new_block_approval lookup insert erase has_block get_block_by_hash find_hash get_block_by_height
    new_blockchain load_chain start_chain add_block create_genesis_block compute_hash find put_entry
    same_key add64
finalized_stored = refl

abbrev voted_and_finalized : Reaches fresh finalized
voted_and_finalized = next (next start (receive block 9)) (finalize 0 block received_ready)

Reaches-stored_example :
    (stored fresh.chain 1 ≡ some block)
    ⊎ WasApproved (facts voted_and_finalized) block
    ⊎ (block.header.proposer ≡ fresh.address)
Reaches-stored_example = Reaches-stored voted_and_finalized fresh-IsFresh 1 block finalized_stored

abbrev by_fee : Transaction → Transaction → Bool
by_fee a b = ltb b.fee a.fee

abbrev only : ℕ → List ℕ
only n = 0 ∷ []

fresh_height : fresh.chain.current_height ≡ 0
unfolding new_blockchain load_chain start_chain add_block create_genesis_block find
fresh_height = refl

fresh_due : needs_election fresh (epoch_start_of fresh.chain.current_height) ≡ true
unfolding needs_election
fresh_due = refl

fresh_elected : select_committee fresh.registry committee_size ≡ self ∷ []
unfolding select_committee elect candidates to_member sort_members insert_member get_all_validators
    collect decode_validator Registry.register_validator put_entry
fresh_elected = refl

force-scheduled_proposer_example :
    let committee = select_committee fresh.registry committee_size in
    let next_proposer = scheduled_proposer (force_committee_and_proposer only fresh) in
    ((fresh.chain.current_height % 270 ≡ 269)
      × (next_proposer ≡ none)
      × ((produce only by_fee 400 9 fresh).chain ≡ fresh.chain))
    ⊎ ((fresh.chain.current_height % 270 ≢ 269)
        × (v : Validator) × (i : ℕ) × (next_proposer ≡ some v)
        × (get_elem? committee i ≡ some v)
        × (turn committee (only (length committee)) (fresh.chain.current_height % 270 + 1)
            ≡ some v))
force-scheduled_proposer_example =
    force-scheduled_proposer only by_fee 400 9 fresh fresh_due (rw fresh_elected (omega arith))
      (rw fresh_elected (record { size = refl; inside = (omega arith, tt) }))
      (rw fresh_height (omega arith))

-- A node that starts on empty stores.
abbrev booted : Node MemoryStore
booted = new_app_node new_memory_store new_memory_store 5

booted-IsBlank : IsBlank new_memory_store
unfolding find
booted-IsBlank = record { no_tip = refl; no_block = λ h. refl }

booted-stored : stored (process_received_block booted block 9).chain 0 ≡ some create_genesis_block
unfolding stored new_app_node decode_block process_received_block vote settle_vote add_buffered
    add_signature is_committee_member is_member has_signature is_approved new_block_approval lookup
    insert erase has_block get_block_by_hash find_hash get_block_by_height new_blockchain load_chain
    start_chain add_block create_genesis_block compute_hash find put_entry same_key add64
booted-stored = refl

abbrev one_receipt : Reaches booted (process_received_block booted block 9)
one_receipt = next start (receive block 9)

new_app_node_history_example :
    ((◌≡◌ {A = ℕ} 0 0) × (create_genesis_block ≡ create_genesis_block))
    ⊎ WasApproved (facts one_receipt) create_genesis_block
    ⊎ (create_genesis_block.header.proposer ≡ 5)
new_app_node_history_example =
    new_app_node_history new_memory_store new_memory_store 5 (process_received_block booted block 9)
      0 create_genesis_block booted-IsBlank one_receipt booted-stored

genesis_kept : (new_blockchain new_memory_store).genesis_block ≡ create_genesis_block
unfolding new_blockchain load_chain start_chain add_block find
genesis_kept = refl

small-IsAddress : (a : ℕ) → a < 100 → IsAddress a
unfolding IsAddress
small-IsAddress a h = omega arith

new_app_node_again_example :
    let n =
      new_app_node (add_block (new_blockchain new_memory_store) block).store new_memory_store 5 in
    (n.chain ≡ add_block (new_blockchain new_memory_store) block)
    × (get_validator n.registry 8 ≡ (if 5 == 8 then found (announced 5 100) else missing))
    × (get_account n.state 8 ≡ (if 5 == 8 then initial_account 5 else empty_account 8))
new_app_node_again_example =
    new_app_node_again (new_blockchain new_memory_store) block new_memory_store 5 8 genesis_kept
      (small-IsAddress 5 (omega arith)) (small-IsAddress 8 (omega arith))
