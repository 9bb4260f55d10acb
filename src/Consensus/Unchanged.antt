-- ===== src/Consensus/Unchanged.antt =====
-- The operations of a node that leave its chain and its address as they are: the receipt of a block,
-- of an approval, of a transaction and of a registration, and the watch on a block.
use dyphira_chain.Common.{ℕ, ◌≡◌, refl, Bool, List, some, ltb, ◌==◌, arith, add64}
use dyphira_chain.Common.Dict.{has, erase}
use dyphira_chain.Registry
use dyphira_chain.Consensus.Quorums.{if_keeps}
use dyphira_chain.Consensus.Messages.{
  announced, handle_transaction, handle_block_response, handle_validator_registration,
}
use dyphira_chain.Types.{Address, Block, Transaction, Account, Approval}
use dyphira_chain.Trie.{Digest}
use dyphira_chain.Storage.{Storage}
use dyphira_chain.Approval.{
  BlockApproval, Result, ok, err, add_signature, is_member, new_block_approval,
}
use dyphira_chain.Blockchain.{has_block}
use dyphira_chain.Consensus.{
  Node, process_received_block, process_approval, watch_tick, watch_timeout, vote, settle_vote,
  add_buffered, buffered,
}
use dyphira_chain.Consensus.Safety.{force-same}

-- The chain and the address of the node are as before.
abbrev pub Same : {S : Type 0} → Node S → Node S → Type 0
Same n m = (m.chain ≡ n.chain) × (m.address ≡ n.address)

module _ {S : Type 0} where
  vote-Same :
      (n : Node S) (block : Block) (ba : BlockApproval) (own : ℕ) → Same n (vote n block ba own)
  unfolding vote settle_vote
  vote-Same n block ba own =
      if_keeps (Same n) (is_member n.address n.committee) (counted (add_signature ba n.address own))
        (refl, refl)
    where
      counted :
          (r : Result)
          → Same n (elim r [
            | ok ba' ↦ settle_vote n block ba' own
            | err e ↦ record n { pending_blocks = erase block.header.hash n.pending_blocks }
          ])
      counted (ok ba') = (refl, refl)
      counted (err e) = (refl, refl)

  pub receive-Same :
      ⦃st : Storage S⦄ (n : Node S) (block : Block) (own : ℕ)
      → Same n (process_received_block n block own)
  unfolding process_received_block
  receive-Same n block own =
      if_keeps (Same n) (has block.header.hash n.pending_blocks) (refl, refl)
        (if_keeps (Same n) (has_block n.chain block.header.hash) (refl, refl)
          (if_keeps (Same n) (ltb (add64 n.chain.current_height 10) block.header.block_number)
            (refl, refl)
            (if_keeps (Same n) (ltb block.header.block_number n.chain.current_height) (refl, refl)
              (vote-Same (record n { approval_buffer = erase block.header.hash n.approval_buffer })
                block
                (add_buffered (new_block_approval block n.committee)
                  (buffered n.approval_buffer block.header.hash))
                own))))

  pub respond-Same :
      ⦃st : Storage S⦄ (n : Node S) (block : Block) (sender own : ℕ)
      → Same n (handle_block_response n block sender own)
  unfolding handle_block_response
  respond-Same n block sender own =
      if_keeps (Same n) (sender == n.address) (refl, refl) (receive-Same n block own)

  pub take_in-Same :
      (n : Node S) (tx : Transaction) (verified : Bool) (key : Address)
      → Same n (handle_transaction n tx verified key).0
  unfolding handle_transaction
  take_in-Same n tx verified key = ground arith

  pub register-Same :
      ⦃st : Storage S⦄ ⦃d : Digest Account⦄ (perm : ℕ → List ℕ) (n : Node S) (address stake : ℕ)
      → Same n (handle_validator_registration perm n address stake)
  unfolding handle_validator_registration
  register-Same perm n address stake =
      let e = force-same perm (record n {
        registry = Registry.register_validator n.registry (some (announced address stake));
      }) in
      (e.2, e.3)

  pub approve-Same : (n : Node S) (msg : Approval) → Same n (process_approval n msg)
  unfolding process_approval
  approve-Same n msg = ground arith

  pub tick-Same : (n : Node S) (block : Block) → Same n (watch_tick n block)
  unfolding watch_tick
  tick-Same n block = ground arith

  pub expire-Same : (n : Node S) (block : Block) → Same n (watch_timeout n block)
  unfolding watch_timeout
  expire-Same n block = (refl, refl)
