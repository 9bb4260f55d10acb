-- ===== src/Consensus/Messages.antt =====
-- node.go: the other messages that a node handles: transactions, registrations of validators, and
-- requests for blocks. Metrics are not part of the model.
use dyphira_chain.Common.{
  ℕ, zero, suc, Bool, true, List, [], ◌∷◌, Option, none, some, ◌==◌, if◌then◌else◌, add64,
}
use dyphira_chain.Types.{Address, Block, Transaction, Validator, Account}
use dyphira_chain.Trie.{Digest}
use dyphira_chain.Storage.{Storage}
use dyphira_chain.State.{State, get_account, put_account}
use dyphira_chain.Registry
use dyphira_chain.Blockchain.{get_block_by_height}
use dyphira_chain.Pool.{add_transaction, added, refusal}
use dyphira_chain.Consensus.{Node, process_received_block, force_committee_and_proposer}

-- The validator that a registration message writes.
abbrev pub announced : Address → ℕ → Validator
announced address stake = record {
  address = address;
  stake = stake;
  delegated_stake = 0;
  compute_reputation = 0;
  participating = true;
}

-- The account of a new validator, if its balance is zero.
unfoldable pub fund_validator : ⦃d : Digest Account⦄ → State → Address → State
fund_validator state address =
    let acc = get_account state address in
    if acc.balance == 0 then put_account state (record acc { balance = 1000 }) else state

module _ {S : Type 0} where
  -- `handleTransaction` for a message that decodes: the node, and what its sender's score of
  -- misbehaviour rises by.
  unfoldable pub handle_transaction :
      Node S → Transaction → (verified : Bool) → (key_address : Address) → Node S × ℕ
  handle_transaction n tx verified key_address =
      elim (add_transaction n.pool tx verified key_address n.state) [
        | added pool ↦ (record n { pool = pool }, 0)
        | refusal r ↦ (n, 1)
      ]

  module _ ⦃st : Storage S⦄ where
    -- `handleBlockRequest`: the block that is sent, if any.
    unfoldable pub handle_block_request : Node S → (height : ℕ) → (sender : Address) → Option Block
    handle_block_request n height sender =
        if sender == n.address then none else get_block_by_height n.chain height

    unfoldable pub handle_block_response :
        Node S → Block → (sender : Address) → (own_signature : ℕ) → Node S
    handle_block_response n block sender own_signature =
        if sender == n.address then n else process_received_block n block own_signature

    -- The heights from `height` on that the chain lacks, among `count`.
    unfoldable pub missing_heights : Node S → (count height : ℕ) → List ℕ
    missing_heights n zero height = []
    missing_heights n (suc count) height =
        let rest = missing_heights n count (add64 height 1) in
        elim (get_block_by_height n.chain height) [ none ↦ height ∷ rest | some b ↦ rest ]

    -- `performBlockSync`: the heights that are requested.
    unfoldable pub perform_block_sync : Node S → List ℕ
    unfolding missing_heights
    perform_block_sync n = missing_heights n 3 (add64 n.chain.current_height 1)

    -- `handleValidatorRegistration`, whose write to the store does not fail.
    unfoldable pub handle_validator_registration :
        ⦃d : Digest Account⦄ → (perm : ℕ → List ℕ) → Node S → Address → (stake : ℕ) → Node S
    unfolding fund_validator
    handle_validator_registration perm n address stake =
        let registry = Registry.register_validator n.registry (some (announced address stake)) in
        let n' = force_committee_and_proposer perm (record n { registry = registry }) in
        record n' { state = fund_validator n'.state address }
