-- ===== src/Pool.antt =====
-- transaction_pool.go: the transactions that wait for a block, by their hashes.
-- A priority is a float64 of fee, value, age and type. It only orders transactions, so its order
-- is a parameter.
pub mod Batches
pub mod Entry
mod Tests
use dyphira_chain.Common.{
  ℕ, zero, suc, ◌+◌, Bool, true, false, ◌&&◌, List, [], ◌∷◌, map, Option, none, some, length, keep,
  take, not, ltb, leb, ◌==◌, if◌then◌else◌, add64,
}
use dyphira_chain.Common.Dict.{Dict, lookup, has, insert, erase}
use dyphira_chain.Types.{
  Address, Hash, Account, Transaction, TxType, transfer, participation, register_validator,
  delegate, unknown,
}
use dyphira_chain.State.{State, get_account}

-- `TransactionPool`, less the map of priority scores, which nothing reads or writes.
pub record TransactionPool : Type 0 where
  pub transactions : Dict Transaction
  pub max_batch_size : ℕ
  pub max_batch_fee : ℕ
  pub batch_timeout : ℕ

unfoldable pub new_transaction_pool : TransactionPool
new_transaction_pool = record {
  transactions = [];
  max_batch_size = 100;
  max_batch_fee = 1000;
  batch_timeout = 5000000000;
}

pub data Refusal : Type 0 where
  invalid_signature already_in_pool zero_stake zero_delegation invalid_nonce insufficient_balance :
      Refusal

pub data Admission : Type 0 where
  added : TransactionPool → Admission
  refusal : Refusal → Admission

-- `tp.transactions[tx.Hash] = tx`
unfoldable pub put_transaction : TransactionPool → Transaction → Admission
put_transaction tp tx = added (record tp { transactions = insert tx.hash tx tp.transactions })

-- The tests against the account of the key's address, which `GetAccount` finds without error.
unfoldable pub admit_funded : TransactionPool → Transaction → Account → Admission
unfolding put_transaction
admit_funded tp tx sender =
    if tx.nonce == add64 sender.nonce 1
    then (if ltb sender.balance (add64 tx.value tx.fee)
        then refusal insufficient_balance
        else put_transaction tp tx)
    else refusal invalid_nonce

-- The last case tests for a duplicate after the account.
unfoldable pub admit_transfer : TransactionPool → Transaction → Account → Admission
unfolding put_transaction
admit_transfer tp tx sender =
    if tx.nonce == add64 sender.nonce 1
    then (if ltb sender.balance (add64 tx.value tx.fee)
        then refusal insufficient_balance
        else (if has tx.hash tp.transactions
            then refusal already_in_pool
            else put_transaction tp tx))
    else refusal invalid_nonce

-- The `switch` on the type, for a verified transaction.
unfoldable pub admit : TransactionPool → TxType → Transaction → Account → Admission
unfolding admit_funded admit_transfer put_transaction
admit tp participation tx sender =
    if has tx.hash tp.transactions then refusal already_in_pool else put_transaction tp tx
admit tp register_validator tx sender =
    if has tx.hash tp.transactions
    then refusal already_in_pool
    else (if tx.value == 0 then refusal zero_stake else admit_funded tp tx sender)
admit tp delegate tx sender =
    if has tx.hash tp.transactions
    then refusal already_in_pool
    else (if tx.value == 0 then refusal zero_delegation else admit_funded tp tx sender)
admit tp transfer tx sender = admit_transfer tp tx sender
admit tp unknown tx sender = admit_transfer tp tx sender

-- `AddTransaction`: whether the signature verifies under the key, and the key's address, come
-- from libraries.
unfoldable pub add_transaction :
    TransactionPool → Transaction → (verified : Bool) → (key_address : Address) → State → Admission
add_transaction tp tx verified key_address state =
    if verified
    then admit tp tx.type tx (get_account state key_address)
    else refusal invalid_signature

unfoldable pub remove_transaction : TransactionPool → Hash → TransactionPool
remove_transaction tp hash = record tp { transactions = erase hash tp.transactions }

unfoldable pub mark_transaction_as_used : TransactionPool → Hash → TransactionPool
mark_transaction_as_used tp hash = elim (lookup hash tp.transactions) [
  | none ↦ tp
  | some tx ↦ record tp { transactions = insert hash (record tx { used = true }) tp.transactions }
]

-- The tests at selection time.
unfoldable pub is_selectable : State → Transaction → Bool
is_selectable state tx =
    let sender = get_account state tx.from in
    not tx.used && (tx.nonce == add64 sender.nonce 1) && leb (add64 tx.value tx.fee) sender.balance

-- `sort.Slice` by priority: a stable insertion sort, one of the orders that the sort may give.
unfoldable pub insert_by :
    (Transaction → Transaction → Bool) → Transaction → List Transaction → List Transaction
insert_by higher tx [] = tx ∷ []
insert_by higher tx (t ∷ ts) =
    let rest = insert_by higher tx ts in if higher t tx then t ∷ rest else tx ∷ t ∷ ts

unfoldable pub sort_by : (Transaction → Transaction → Bool) → List Transaction → List Transaction
sort_by higher [] = []
sort_by higher (t ∷ ts) = insert_by higher t (sort_by higher ts)

-- The selectable transactions of the pool, the highest priority first.
unfoldable pub ranked :
    (Transaction → Transaction → Bool) → TransactionPool → State → List Transaction
ranked higher tp state =
    sort_by higher (keep (is_selectable state) (map (λ e. e.1) tp.transactions))

-- `TransactionBatch`, less its priority, which is only printed.
pub record TransactionBatch : Type 0 where
  pub transactions : List Transaction
  pub total_fee : ℕ
  pub total_size : ℕ

-- The greedy loop, from a batch of `count` transactions with a fee and a size.
unfoldable pub fill_batch :
    TransactionPool → List Transaction → (count fee size : ℕ) → TransactionBatch
fill_batch tp [] count fee size = record { transactions = []; total_fee = fee; total_size = size }
fill_batch tp (tx ∷ txs) count fee size =
    let skip = fill_batch tp txs count fee size in
    let rest = fill_batch tp txs (count + 1) (add64 fee tx.fee) (size + 200) in
    if leb tp.max_batch_size count
    then record { transactions = []; total_fee = fee; total_size = size }
    else (if ltb tp.max_batch_fee (add64 fee tx.fee)
        then skip
        else (if ltb 1000000 (size + 200)
            then skip
            else record rest { transactions = tx ∷ rest.transactions }))

unfoldable pub create_optimized_batch :
    (Transaction → Transaction → Bool) → TransactionPool → State → TransactionBatch
create_optimized_batch higher tp state = fill_batch tp (ranked higher tp state) 0 0 0

unfoldable pub select_transactions :
    (Transaction → Transaction → Bool) → ℕ → TransactionPool → State → List Transaction
select_transactions higher n tp state = take n (ranked higher tp state)

-- transaction_batching.go: `NextBatch`, with the size limit of the batcher; nil is the empty list.
unfoldable pub mark_all : TransactionPool → List Transaction → TransactionPool
mark_all tp [] = tp
mark_all tp (tx ∷ txs) = mark_all (mark_transaction_as_used tp tx.hash) txs

unfoldable pub next_batch :
    (Transaction → Transaction → Bool)
    → (batch_size : ℕ) → TransactionPool
    → State
    → List Transaction × TransactionPool
unfolding mark_all
next_batch higher batch_size tp state =
    let selected = take batch_size (create_optimized_batch higher tp state).transactions in
    (selected, mark_all tp selected)
