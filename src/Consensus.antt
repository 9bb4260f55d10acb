-- ===== src/Consensus.antt =====
-- node.go: block proposals, approvals and finalization at one node, and the choice of committee.
-- A goroutine that a handler starts is a step of its own: `ready` holds the blocks for which
-- `finalizeApprovedBlock` was started and has not run. Messages that are sent go to `outbox`.
-- Signing is a call of a library; the node's own signature of a block is an argument. The source
-- releases the node's lock inside `processReceivedBlock` and, after the claim, inside
-- `finalizeApprovedBlock`; each is one step here, so what other goroutines do between their parts
-- is not modelled.
pub mod Messages
pub mod Epochs
pub mod Quorums
pub mod Safety
pub mod Unchanged
pub mod Steps
pub mod History
pub mod Startup
mod Tests
use dyphira_chain.Common.{
  ℕ, zero, suc, ◌+◌, ◌*◌, ◌/◌, Bool, true, false, ◌&&◌, ◌||◌, not, List, [], ◌∷◌, ◌++◌, map, Option,
  none, some, length, ltb, leb, ◌==◌, if◌then◌else◌, add64, contains,
}
use dyphira_chain.Common.Dict.{Dict, lookup, has, insert, erase}
use dyphira_chain.Types.{Address, Hash, Header, Block, Transaction, Validator, Account, Approval}
use dyphira_chain.Trie.{Digest}
use dyphira_chain.Storage.{Storage}
use dyphira_chain.State.{State}
use dyphira_chain.Registry.{get_all_validators}
use dyphira_chain.Committee.{
  ProposerSelector, new_proposer_selector, proposer_for_block, select_committee,
}
use dyphira_chain.Approval.{
  BlockApproval, new_block_approval, add_signature, is_approved, Result, ok, err, is_member,
}
use dyphira_chain.Blockchain.{Blockchain, Encoding, has_block, add_block, create_block}
use dyphira_chain.Blockchain.Application.{apply_block_with_registry}
use dyphira_chain.Pool.{
  TransactionPool, remove_transaction, TransactionBatch, create_optimized_batch,
}

abbrev pub epoch_length : ℕ
epoch_length = 270

abbrev pub committee_size : ℕ
committee_size = 30

-- The part of `AppNode` that takes part in consensus, for stores of type `S`.
pub record Node (S : Type 0) : Type 0 where
  pub address : Address
  pub chain : Blockchain S
  pub state : State
  pub registry : S
  pub pool : TransactionPool
  pub committee : List Validator
  pub proposer_selector : Option ProposerSelector
  pub pending_blocks : Dict BlockApproval
  pub approval_buffer : Dict (List Approval)
  pub ready : List Block
  pub outbox : List Approval

-- The loop over buffered approvals; one that is refused is only logged.
unfoldable pub add_buffered : BlockApproval → List Approval → BlockApproval
add_buffered ba [] = ba
add_buffered ba (a ∷ rest) = elim (add_signature ba a.address a.signature) [
  | ok ba' ↦ add_buffered ba' rest
  | err e ↦ add_buffered ba rest
]

-- The approvals that wait for a block.
abbrev pub buffered : Dict (List Approval) → Hash → List Approval
buffered m hash = elim (lookup hash m) [ none ↦ [] | some l ↦ l ]

-- The loop that takes the transactions of a block out of the pool.
unfoldable pub remove_all : TransactionPool → List Transaction → TransactionPool
remove_all tp [] = tp
remove_all tp (tx ∷ txs) = remove_all (remove_transaction tp tx.hash) txs

-- The loop over the registry: is there a validator that takes part and has no seat?
unfoldable pub has_unseated : List Validator → List Validator → Bool
has_unseated committee [] = false
has_unseated committee (v ∷ vs) =
    (v.participating && not (is_member v.address committee)) || has_unseated committee vs

-- The first height of the epoch of a height.
abbrev pub epoch_start_of : ℕ → ℕ
epoch_start_of height = height / epoch_length * epoch_length

module _ {S : Type 0} where
  -- The end of `processReceivedBlock`: finalization if approved, and the broadcast.
  unfoldable pub settle_vote : Node S → Block → BlockApproval → (own_signature : ℕ) → Node S
  settle_vote n block ba own_signature =
      let sent : Approval = record {
        block_hash = block.header.hash;
        address = n.address;
        signature = own_signature;
      } in
      record n {
        pending_blocks = insert block.header.hash ba n.pending_blocks;
        ready = if is_approved ba then block ∷ n.ready else n.ready;
        outbox = sent ∷ n.outbox;
      }

  -- The middle: the node's own vote, where it is in the committee. A vote that is refused, as
  -- when the buffer already held it, drops the block.
  unfoldable pub vote : Node S → Block → BlockApproval → (own_signature : ℕ) → Node S
  unfolding settle_vote
  vote n block ba own_signature =
      if is_member n.address n.committee
      then (elim (add_signature ba n.address own_signature) [
        | ok ba' ↦ settle_vote n block ba' own_signature
        | err e ↦ record n { pending_blocks = erase block.header.hash n.pending_blocks }
      ])
      else settle_vote n block ba own_signature

  -- `processReceivedBlock`
  unfoldable pub process_received_block :
      ⦃st : Storage S⦄ → Node S → Block → (own_signature : ℕ) → Node S
  unfolding vote
  process_received_block n block own_signature =
      let hash = block.header.hash in
      let number = block.header.block_number in
      let ba =
        add_buffered (new_block_approval block n.committee) (buffered n.approval_buffer hash) in
      let received = record n { approval_buffer = erase hash n.approval_buffer } in
      if has hash n.pending_blocks
      then n
      else (if has_block n.chain hash
          then n
          else (if ltb (add64 n.chain.current_height 10) number
              then n
              else (if ltb number n.chain.current_height
                  then n
                  else vote received block ba own_signature)))

  -- `processApproval`
  unfoldable pub process_approval : Node S → Approval → Node S
  process_approval n msg = elim (lookup msg.block_hash n.pending_blocks) [
    | none ↦ record n {
      approval_buffer =
          insert msg.block_hash (buffered n.approval_buffer msg.block_hash ++ (msg ∷ []))
            n.approval_buffer;
    }
    | some ba ↦ elim (add_signature ba msg.address msg.signature) [
      | err e ↦ n
      | ok ba' ↦ record n {
        pending_blocks = insert msg.block_hash ba' n.pending_blocks;
        ready = if is_approved ba' then ba'.block ∷ n.ready else n.ready;
      }
    ]
  ]

  -- `watchBlockApproval`: its tick and its timeout.
  unfoldable pub watch_tick : Node S → Block → Node S
  watch_tick n block = elim (lookup block.header.hash n.pending_blocks) [
    | none ↦ n
    | some ba ↦ if is_approved ba then record n { ready = block ∷ n.ready } else n
  ]

  unfoldable pub watch_timeout : Node S → Block → Node S
  watch_timeout n block = record n { pending_blocks = erase block.header.hash n.pending_blocks }

  -- The end of `finalizeApprovedBlock` and of the producer's turn: the block joins the chain, is
  -- applied, and takes its transactions out of the pool unless applying it failed.
  unfoldable pub append_block : ⦃st : Storage S⦄ → ⦃d : Digest Account⦄ → Node S → Block → Node S
  append_block n block =
      let applied = apply_block_with_registry block n.state n.registry in
      record n {
        chain = add_block n.chain block;
        state = applied.0;
        registry = applied.1;
        pool = elim applied.2 [ none ↦ remove_all n.pool block.transactions | some e ↦ n.pool ];
      }

  -- `finalizeApprovedBlock`: the first run claims the pending entry, a later one finds none.
  unfoldable pub finalize_approved_block :
      ⦃st : Storage S⦄ → ⦃d : Digest Account⦄ → Node S → Block → Node S
  unfolding append_block
  finalize_approved_block n block =
      if has block.header.hash n.pending_blocks
      then append_block (record n { pending_blocks = erase block.header.hash n.pending_blocks })
          block
      else n

  -- The tests of `ForceCommitteeAndProposer`.
  unfoldable pub needs_election : ⦃st : Storage S⦄ → Node S → (epoch_start : ℕ) → Bool
  unfolding has_unseated
  needs_election n epoch_start =
      let stale : Bool = elim n.proposer_selector [
        | none ↦ true
        | some ps ↦ not (ps.epoch_start == epoch_start)
      ] in
      (length n.committee == 0)
      || (stale
          || (ltb (length n.committee) committee_size
              || has_unseated n.committee (get_all_validators n.registry)))

  -- `ForceCommitteeAndProposer`; `perm` is the shuffle of math/rand.
  unfoldable pub force_committee_and_proposer :
      ⦃st : Storage S⦄ → (perm : ℕ → List ℕ) → Node S → Node S
  unfolding needs_election
  force_committee_and_proposer perm n =
      let epoch_start = epoch_start_of n.chain.current_height in
      let elected = select_committee n.registry committee_size in
      let renewed = record n {
        committee = elected;
        proposer_selector = new_proposer_selector perm elected epoch_start epoch_length;
      } in
      if needs_election n epoch_start then (if length elected == 0 then n else renewed) else n

  -- The turn of the proposer: a batch of the pool becomes the next block, which joins the chain
  -- at once.
  unfoldable pub propose :
      ⦃st : Storage S⦄
      → ⦃d : Digest Account⦄ → ⦃enc : Encoding⦄ → (higher : Transaction → Transaction → Bool)
      → (now own_signature : ℕ) → Node S
      → Validator
      → Node S
  unfolding append_block
  propose higher now own_signature n proposer =
      let txs = (create_optimized_batch higher n.pool n.state).transactions in
      elim (create_block n.chain txs proposer now) [
        | none ↦ n
        | some block ↦ append_block n (record block { signature = own_signature })
      ]

  -- The proposer that the selector has for the next height.
  unfoldable pub scheduled_proposer : Node S → Option Validator
  scheduled_proposer n = elim n.proposer_selector [
    | none ↦ none
    | some ps ↦ proposer_for_block ps (add64 n.chain.current_height 1)
  ]

  -- The node proposes where it is scheduled.
  unfoldable pub take_turn :
      ⦃st : Storage S⦄
      → ⦃d : Digest Account⦄ → ⦃enc : Encoding⦄ → (higher : Transaction → Transaction → Bool)
      → (now own_signature : ℕ) → Node S
      → Option Validator
      → Node S
  unfolding propose
  take_turn higher now own_signature n none = n
  take_turn higher now own_signature n (some v) =
      if v.address == n.address then propose higher now own_signature n v else n

  -- The consensus part of a tick of `producerLoop`.
  unfoldable pub produce :
      ⦃st : Storage S⦄
      → ⦃d : Digest Account⦄ → ⦃enc : Encoding⦄ → (perm : ℕ → List ℕ)
      → (higher : Transaction → Transaction → Bool) → (now own_signature : ℕ) → Node S
      → Node S
  unfolding force_committee_and_proposer scheduled_proposer take_turn
  produce perm higher now own_signature n =
      let n' = force_committee_and_proposer perm n in
      if length n'.committee == 0
      then n'
      else take_turn higher now own_signature n' (scheduled_proposer n')
