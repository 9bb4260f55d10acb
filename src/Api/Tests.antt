-- ===== src/Api/Tests.antt =====
-- Requests at concrete inputs.
use dyphira_chain.Common.{
  ℕ, ◌+◌, ◌*◌, ◌<◌, ◌^◌, ◌≡◌, refl, ap, Bool, true, false, List, [], ◌∷◌, All, none, some, inr,
  arith, add64, sub64, ◌==◌,
}
use dyphira_chain.Types.{IsAddress, Account, Block, Transaction, transfer}
use dyphira_chain.Common.Dict.{lookup, insert}
use dyphira_chain.Storage.{MemoryStore, memory_store, new_memory_store, find, same_key, put_entry}
use dyphira_chain.Blockchain.{
  Encoding, Blockchain, compute_hash, create_genesis_block, new_blockchain, load_chain, start_chain,
  add_block, decode_block, get_block_by_height,
}
use dyphira_chain.Trie.{Digest}
use dyphira_chain.State.{
  State, new_state, get_account, import_snapshot, settle, apply_transaction, check_type, err,
  invalid_nonce,
}
use dyphira_chain.State.Apply.{IsValid, HasAddresses, IsApplicable, apply_transaction_applicable}
use dyphira_chain.State.Snapshots.{
  IsAccount, new_state-IsValid, import_snapshot-IsValid, import_snapshot_accounts,
}
use dyphira_chain.Pool.{
  TransactionPool, new_transaction_pool, put_transaction, admit_transfer, admit, add_transaction,
}
use dyphira_chain.Pool.Entry.{Gains}
use dyphira_chain.Api.Transactions.{
  Keys, TransactionMessage, Body, Request, Wallet, transfer_name, created, bare, encode, sign,
  submit, create, handle_create_transaction,
}
use dyphira_chain.Api.Transactions.Transfers.{transfer_created, transfer_tx, after_transfer, cost}
use dyphira_chain.Api.Transactions.Twice.{create_twice}
use dyphira_chain.Api.History.{Query, history, handle_transaction_history}
use dyphira_chain.Api.History.Answers.{history_lem, history_runs_on}

-- Hashes that count blocks.
instance abbrev counting : Encoding
counting = record {
  header_hash = λ h. h.block_number + 1;
  hash_of_hashes = λ hs. 5;
  block_size = λ b. 100;
}

abbrev fresh : Blockchain MemoryStore
fresh = new_blockchain new_memory_store

abbrev payment : (from to hash : ℕ) → Transaction
payment from to hash = record {
  from = from;
  to = to;
  value = 5;
  nonce = 1;
  fee = 1;
  timestamp = 0;
  type = transfer;
  signature = 0;
  hash = hash;
  used = false;
}

abbrev first_block : Block
first_block = record {
  header = record {
    block_number = 1;
    previous_hash = 1;
    timestamp = 77;
    proposer = 5;
    gas = 0;
    transaction_root = 0;
    hash = 2;
  };
  transactions = payment 7 8 70 ∷ payment 8 9 71 ∷ [];
  validator_list = [];
  signature = 0;
  size = 100;
}

abbrev busy : Blockchain MemoryStore
busy = add_block fresh first_block

-- The first transaction of an address, and the default page of all.
abbrev one_of : ℕ → Query
one_of a = record { address = some (some a); limit = some 1; offset = none }

abbrev any : Query
any = record { address = none; limit = none; offset = none }

history_example :
    handle_transaction_history 102 busy (one_of 9)
    ≡ some (history (record { transaction = payment 8 9 71; block = 1 } ∷ []) 1 1)
unfolding get_block_by_height new_blockchain load_chain start_chain add_block create_genesis_block
    compute_hash decode_block find same_key put_entry
history_example =
    history_lem busy (one_of 9) (some 9) 102 (omega arith) (omega arith) refl (inr (omega arith))
      (omega arith)

history_runs_on_example : handle_transaction_history (2 ^ 64) fresh any ≡ none
unfolding get_block_by_height new_blockchain load_chain start_chain add_block create_genesis_block
    compute_hash decode_block find same_key put_entry
history_runs_on_example =
    history_runs_on fresh any none (2 ^ 64) (omega arith) (omega arith) refl (omega arith)
      (omega arith)

instance abbrev sample_digest : Digest Account
sample_digest = record { of_value = λ acc. acc.balance; of_pair = λ a b. 3 * a + b }

abbrev alice : Account
alice = record { address = 17; balance = 1000; nonce = 0 }

alice-IsAccount : All IsAccount (alice ∷ [])
unfolding IsAddress
alice-IsAccount = omega arith

start : State
start = import_snapshot new_state (alice ∷ [])

start-IsValid : IsValid start
unfolding start
start-IsValid = import_snapshot-IsValid new_state (alice ∷ []) new_state-IsValid alice-IsAccount

small-IsAddress : (a : ℕ) → a < 256 → IsAddress a
unfolding IsAddress
small-IsAddress a h = omega arith

alice_in_start : get_account start 17 ≡ alice
unfolding start
alice_in_start =
    import_snapshot_accounts new_state (alice ∷ []) 17 alice-IsAccount
      (small-IsAddress 17 (omega arith))

-- Hashes that are the time of the transaction, and signatures that are hashes.
abbrev keys : Keys
keys = record { hash_of = λ tx. some tx.timestamp; signature_of = λ h. h; verifies = λ h s. h == s }

abbrev online : TransactionMessage → Bool
online m = true

abbrev wallet : Wallet
wallet = record {
  address = 17;
  state = start;
  pool = new_transaction_pool;
  sent = [];
  recorded = 0;
}

abbrev pay_body : Body
pay_body = record {
  to = some (some 23);
  value = record { is_positive = true; as_uint64 = 100 };
  fee = record { is_positive = true; as_uint64 = 2 };
  type = transfer_name;
}

abbrev pay : Request
pay = record { is_post = true; body = some pay_body }

abbrev sent_at : ℕ → Transaction
sent_at now = record {
  from = 17;
  to = 23;
  value = 100;
  nonce = 1;
  fee = 2;
  timestamp = now;
  type = transfer;
  signature = now;
  hash = now;
  used = false;
}

abbrev pool_of : List Transaction → TransactionPool
pool_of [] = new_transaction_pool
pool_of (tx ∷ txs) = record (pool_of txs) {
  transactions = insert tx.hash tx (pool_of txs).transactions;
}

abbrev once : Wallet
once = record wallet {
  pool = pool_of (sent_at 70 ∷ []);
  sent = bare (encode (sent_at 70)) ∷ [];
  recorded = 1;
}

abbrev twice : Wallet
twice = record wallet {
  pool = pool_of (sent_at 71 ∷ sent_at 70 ∷ []);
  sent = bare (encode (sent_at 70)) ∷ bare (encode (sent_at 71)) ∷ [];
  recorded = 2;
}

first_created :
    handle_create_transaction keys online wallet pay 70 ≡ (once, created (sent_at 70) 102 1000 898)
unfolding handle_create_transaction create submit sign add_transaction admit admit_transfer
    put_transaction new_transaction_pool add64 sub64 lookup insert
first_created =
    rw (alice_in_start, submit, add_transaction, admit, admit_transfer) (rw alice_in_start refl)

second_created :
    handle_create_transaction keys online once pay 71 ≡ (twice, created (sent_at 71) 102 1000 898)
unfolding handle_create_transaction create submit sign add_transaction admit admit_transfer
    put_transaction new_transaction_pool add64 sub64 lookup insert
second_created =
    rw (alice_in_start, submit, add_transaction, admit, admit_transfer) (rw alice_in_start refl)

first-HasAddresses : HasAddresses (sent_at 70)
unfolding IsAddress
first-HasAddresses = omega arith

first-IsApplicable : IsApplicable start (sent_at 70)
unfolding add64 check_type
first-IsApplicable = record {
  next = rw alice_in_start refl;
  covered = rw alice_in_start (omega arith);
  allowed = refl;
}

wallet_balance : (get_account wallet.state wallet.address).balance ≡ 1000
wallet_balance = ap (λ a. a.balance) alice_in_start

transfer_created_example :
    let tx = transfer_tx keys wallet 23 pay_body 70 70 in
    let after = after_transfer keys online wallet 23 pay_body 70 70 in
    let balance = (get_account start 17).balance in
    (handle_create_transaction keys online wallet pay 70
      ≡ (after, created tx (cost pay_body) balance (sub64 balance (cost pay_body))))
    × (tx.nonce ≡ add64 (get_account start 17).nonce 1)
    × (tx.from ≡ wallet.address)
    × Gains new_transaction_pool tx after.pool
    × (sub64 balance (cost pay_body) + cost pay_body ≡ balance)
unfolding new_transaction_pool lookup add64
transfer_created_example =
    transfer_created keys online wallet 23 pay_body 70 70 pay refl refl refl refl refl (omega arith)
      (omega (arith, wallet_balance)) (omega (arith, wallet_balance)) refl refl refl

create_twice_example :
    apply_transaction (settle start transfer (sent_at 70)) (sent_at 71) ≡ err invalid_nonce
create_twice_example =
    create_twice keys online wallet once twice pay pay 70 71 (sent_at 70) (sent_at 71) 102 1000 898
      102 1000 898 (settle start transfer (sent_at 70)) start-IsValid
      (rw alice_in_start (omega arith)) first-HasAddresses first_created second_created
      (apply_transaction_applicable start (sent_at 70) first-IsApplicable)
