-- ===== src/Pool/Tests.antt =====
-- A pool with one funded transaction.
use dyphira_chain.Common.{◌≡◌, ◌⊎◌, refl, true, false, [], All, arith}
use dyphira_chain.Common.Dict.{lookup, insert}
use dyphira_chain.Types.{Transaction, participation}
use dyphira_chain.State.{new_state, get_account}
use dyphira_chain.Pool.{
  TransactionPool, new_transaction_pool, add_transaction, admit, put_transaction, added,
  create_optimized_batch,
}
use dyphira_chain.Pool.Entry.{Gains, Funds, add_transaction_lem}
use dyphira_chain.Pool.Batches.{Selectable, Keeps, FeeFits, contents, create_optimized_batch_lem}

abbrev announcement : Transaction
announcement = record {
  from = 5;
  to = 0;
  value = 0;
  nonce = 1;
  fee = 0;
  timestamp = 0;
  type = participation;
  signature = 0;
  hash = 3;
  used = false;
}

-- The pool after the announcement.
abbrev one : TransactionPool
one = record new_transaction_pool { transactions = insert 3 announcement [] }

one_added : add_transaction new_transaction_pool announcement true 5 new_state ≡ added one
unfolding add_transaction admit put_transaction new_transaction_pool lookup insert
one_added = refl

add_transaction_example :
    (true ≡ true)
    × Gains new_transaction_pool announcement one
    × ((participation ≡ participation) ⊎ Funds (get_account new_state 5) announcement)
add_transaction_example =
    add_transaction_lem new_transaction_pool announcement true 5 new_state one_added

one-FeeFits : All (FeeFits one) (contents one)
unfolding new_transaction_pool insert
one-FeeFits = (omega arith, tt)

create_optimized_batch_example :
    Keeps one 0 0 0 (create_optimized_batch (λ a b. false) one new_state)
    × All (Selectable new_state) (create_optimized_batch (λ a b. false) one new_state).transactions
create_optimized_batch_example = create_optimized_batch_lem (λ a b. false) one new_state one-FeeFits
