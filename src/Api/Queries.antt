-- ===== src/Api/Queries.antt =====
-- api.go: the endpoints that read the chain, the accounts, the registry and the pool. Addresses and
-- hashes in a path are `none` where they do not parse. A block's counts by type are left out, since
-- the names of unknown types are not kept.
pub mod Listed
use dyphira_chain.Common.{
  ℕ, zero, suc, ◌+◌, Bool, true, false, not, ◌||◌, List, [], ◌∷◌, ◌++◌, map, Option, none, some,
  length, ltb, ◌==◌, if◌then◌else◌, add64,
}
use dyphira_chain.Types.{Address, Hash, Account, Validator, Block, Transaction}
use dyphira_chain.Trie.{Digest}
use dyphira_chain.State.{State, get_account, export_snapshot, import_snapshot}
use dyphira_chain.Storage.{Storage}
use dyphira_chain.Registry.{get_all_validators}
use dyphira_chain.Blockchain.{Blockchain, get_block_by_height, get_transaction_by_hash}
use dyphira_chain.Pool.{TransactionPool}

-- The loops of the totals.
abbrev pub add_values : ℕ → List Transaction → ℕ
add_values total [] = total
add_values total (tx ∷ txs) = add_values (add64 total tx.value) txs

abbrev pub add_fees : ℕ → List Transaction → ℕ
add_fees total [] = total
add_fees total (tx ∷ txs) = add_fees (add64 total tx.fee) txs

abbrev pub calculate_total_value : List Transaction → ℕ
calculate_total_value = add_values 0

abbrev pub calculate_total_fees : List Transaction → ℕ
calculate_total_fees = add_fees 0

-- What `handleBlocks` gives of a block.
pub record BlockSummary : Type 0 where
  pub height : ℕ
  pub hash : Hash
  pub previous_hash : Hash
  pub proposer : Address
  pub timestamp : ℕ
  pub transaction_count : ℕ
  pub total_value : ℕ
  pub total_fees : ℕ
  pub transactions : List Transaction

abbrev pub summary : Block → BlockSummary
summary b = record {
  height = b.header.block_number;
  hash = b.header.hash;
  previous_hash = b.header.previous_hash;
  proposer = b.header.proposer;
  timestamp = b.header.timestamp;
  transaction_count = length b.transactions;
  total_value = calculate_total_value b.transactions;
  total_fees = calculate_total_fees b.transactions;
  transactions = b.transactions;
}

-- The limit is 10, or what the query asks for if that is above 0, but 100 at most.
abbrev pub block_limit : Option ℕ → ℕ
block_limit none = 10
block_limit (some l) = if ltb 0 l then (if ltb 100 l then 100 else l) else 10

pub data Reply (A : Type 0) : Type 0 where
  success : A → Reply A
  bad_request not_found method_not_allowed : Reply A

-- What `handleTransactionPool` gives.
pub record PoolReport : Type 0 where
  pub pool_size : ℕ
  pub transactions : List Transaction
  pub total_value : ℕ
  pub total_fees : ℕ
  pub node_address : Address

-- What `handleTransactionByHash` gives.
pub record TransactionReport : Type 0 where
  pub transaction : Transaction
  pub block_height : ℕ
  pub in_pool : Bool

abbrev pub pooled : TransactionPool → List Transaction
pooled tp = map (λ e. e.1) tp.transactions

abbrev pub has_hash : Hash → List Transaction → Bool
has_hash hash [] = false
has_hash hash (tx ∷ txs) = (tx.hash == hash) || has_hash hash txs

unfoldable pub handle_transaction_pool : TransactionPool → Address → PoolReport
handle_transaction_pool tp address = record {
  pool_size = length tp.transactions;
  transactions = pooled tp;
  total_value = calculate_total_value (pooled tp);
  total_fees = calculate_total_fees (pooled tp);
  node_address = address;
}

-- `handleAccount`; the answer on a balance leaves the nonce out.
unfoldable pub handle_account :
    State → Option Address → (balance_only : Bool) → Reply (ℕ × Option ℕ)
handle_account s none balance_only = bad_request
handle_account s (some a) balance_only =
    let account = get_account s a in
    if balance_only
    then success (account.balance, none)
    else success (account.balance, some account.nonce)

-- `handleStateSnapshot` for GET, POST and any other method; the body is `none` where it does not
-- decode.
pub data Method : Type 0 where
  get_method post_method other_method : Method

unfoldable pub handle_state_snapshot :
    ⦃d : Digest Account⦄
    → State
    → Method
    → (body : Option (List Account)) → State × Reply (List Account)
handle_state_snapshot s get_method body = (s, success (export_snapshot s))
handle_state_snapshot s post_method none = (s, bad_request)
handle_state_snapshot s post_method (some accounts) = (import_snapshot s accounts, success [])
handle_state_snapshot s other_method body = (s, method_not_allowed)

module _ {S : Type 0} ⦃st : Storage S⦄ where
  unfoldable pub handle_validators : S → List Validator
  handle_validators s = get_all_validators s

  -- The loop of `handleBlocks` over the heights below `count`, downwards.
  unfoldable pub list_blocks :
      Blockchain S → (limit count : ℕ) → List BlockSummary → List BlockSummary
  list_blocks bc limit zero blocks = blocks
  list_blocks bc limit (suc i) blocks =
      let skipped = list_blocks bc limit i blocks in
      if ltb (length blocks) limit
      then elim (get_block_by_height bc i) [
        | none ↦ skipped
        | some b ↦ list_blocks bc limit i (blocks ++ summary b ∷ [])
      ]
      else blocks

  unfoldable pub handle_blocks : Blockchain S → (limit : Option ℕ) → List BlockSummary
  unfolding list_blocks
  handle_blocks bc limit = list_blocks bc (block_limit limit) (bc.current_height + 1) []

  unfoldable pub handle_block_by_height :
      Blockchain S → (is_get : Bool) → (height : Option ℕ) → Reply Block
  handle_block_by_height bc is_get height =
      if not is_get then method_not_allowed else (elim height [
        | none ↦ bad_request
        | some h ↦ elim (get_block_by_height bc h) [ none ↦ not_found | some b ↦ success b ]
      ])

  unfoldable pub handle_transaction_by_hash :
      Blockchain S → TransactionPool → (is_get : Bool) → Option Hash → Reply TransactionReport
  handle_transaction_by_hash bc tp is_get hash =
      if not is_get then method_not_allowed else (elim hash [
        | none ↦ bad_request
        | some h ↦ elim (get_transaction_by_hash bc h) [
          | none ↦ not_found
          | some (tx, height) ↦
              success (record {
                transaction = tx;
                block_height = height;
                in_pool = has_hash h (pooled tp);
              })
        ]
      ])
