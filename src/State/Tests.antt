-- ===== src/State/Tests.antt =====
-- Sample accounts and transactions, and the theorems at them.
use dyphira_chain.Common.{
  some, ◌⊎◌, ℕ, ◌+◌, ◌*◌, ◌-◌, ◌≤◌, ◌<◌, ◌≡◌, refl, false, List, [], ◌∷◌, none, All, word_mod,
  arith, add64,
}
use dyphira_chain.Types.{IsAddress, Account, Transaction, transfer}
use dyphira_chain.Trie
use dyphira_chain.Trie.{Digest}
use dyphira_chain.Trie.Totals.{node_total}
use dyphira_chain.State.{
  State, new_state, get_account, put_account, import_snapshot, settle, bytes_of, apply_transaction,
  Error, apply_all, ok, err, invalid_nonce, check_type,
}
use dyphira_chain.State.Apply.{
  IsValid, HasAddresses, account_after, IsApplicable, apply_transaction_accounts,
  apply_transaction_replay, apply_transaction_applicable,
}
use dyphira_chain.State.Supply.{supply, apply_transaction-supply, wrapping_transfer_mints}
use dyphira_chain.State.Blocks.{apply_all-supply}
use dyphira_chain.State.Snapshots.{
  IsAccount, new_state-IsValid, import_snapshot-IsValid, import_snapshot_accounts,
}

instance abbrev sample_digest : Digest Account
sample_digest = record { of_value = λ acc. acc.balance; of_pair = λ a b. 3 * a + b }

abbrev alice : Account
alice = record { address = 17; balance = 1000; nonce = 0 }

abbrev bob : Account
bob = record { address = 23; balance = 5; nonce = 4 }

abbrev two_accounts : List Account
two_accounts = alice ∷ bob ∷ []

two_accounts-IsAccount : All IsAccount two_accounts
unfolding IsAddress
two_accounts-IsAccount = omega arith

start : State
start = import_snapshot new_state two_accounts

start-IsValid : IsValid start
unfolding start
start-IsValid =
    import_snapshot-IsValid new_state two_accounts new_state-IsValid two_accounts-IsAccount

abbrev payment : Transaction
payment = record {
  from = 17;
  to = 23;
  value = 100;
  nonce = 1;
  fee = 2;
  timestamp = 0;
  type = transfer;
  signature = 0;
  hash = 99;
  used = false;
}

payment-HasAddresses : HasAddresses payment
unfolding IsAddress
payment-HasAddresses = omega arith

small_IsAddress : (a : ℕ) → a < 256 → IsAddress a
unfolding IsAddress
small_IsAddress a h = omega arith

alice_in_start : get_account start 17 ≡ alice
unfolding start
alice_in_start =
    import_snapshot_accounts new_state two_accounts 17 two_accounts-IsAccount
      (small_IsAddress 17 (omega arith))

bob_in_start : get_account start 23 ≡ bob
unfolding start
bob_in_start =
    import_snapshot_accounts new_state two_accounts 23 two_accounts-IsAccount
      (small_IsAddress 23 (omega arith))

payment-IsApplicable : IsApplicable start payment
unfolding add64 check_type
payment-IsApplicable = record {
  next = rw alice_in_start refl;
  covered = rw alice_in_start (omega arith);
  allowed = refl;
}

paid : State
paid = settle start transfer payment

payment_accepted : apply_transaction start payment ≡ ok paid
unfolding paid
payment_accepted = apply_transaction_applicable start payment payment-IsApplicable

apply_transaction_accounts_example : get_account paid 23 ≡ account_after start payment 23
apply_transaction_accounts_example =
    apply_transaction_accounts start payment 23 start-IsValid payment-HasAddresses
      (small_IsAddress 23 (omega arith)) payment_accepted

apply_transaction_replay_example : apply_transaction paid payment ≡ err invalid_nonce
apply_transaction_replay_example =
    apply_transaction_replay start payment start-IsValid payment-HasAddresses payment_accepted

supply-start : supply start ≡ 1005
unfolding start import_snapshot put_account new_state supply bytes_of Trie.insert Trie.insert_node
    Trie.key_bit Trie.put_kv Trie.new_merkle_trie node_total
supply-start = refl

apply_transaction-supply_example : supply paid + 2 ≡ supply start
apply_transaction-supply_example =
    apply_transaction-supply start start-IsValid payment payment-HasAddresses
      (rw supply-start (omega arith)) (omega arith) payment_accepted

apply_all-supply_example :
    (((apply_all start (payment ∷ [])).1 ≡ none)
        × (supply (apply_all start (payment ∷ [])).0 + 2 ≡ supply start)
      ⊎ (x : Error) × ((apply_all start (payment ∷ [])).1 ≡ some x))
    × (supply (apply_all start (payment ∷ [])).0 ≤ supply start)
    × (supply start ≤ supply (apply_all start (payment ∷ [])).0 + 2)
apply_all-supply_example =
    apply_all-supply start (payment ∷ []) start-IsValid (payment-HasAddresses, tt) (omega arith)
      (rw supply-start (omega arith))

-- The value and the fee sum to 2^64, which wraps to 0.
abbrev minting : Transaction
minting = record payment { value = word_mod - 1000; fee = 1000 }

minting-HasAddresses : HasAddresses minting
unfolding IsAddress
minting-HasAddresses = omega arith

minting-IsApplicable : IsApplicable start minting
unfolding add64 check_type
minting-IsApplicable = record {
  next = rw alice_in_start refl;
  covered = rw alice_in_start (omega arith);
  allowed = refl;
}

wrapping_transfer_mints_example :
    supply (settle start transfer minting) + 1000 ≡ supply start + word_mod
wrapping_transfer_mints_example =
    wrapping_transfer_mints start start-IsValid minting minting-HasAddresses refl (omega arith)
      (omega arith) (omega arith) (omega arith) (rw bob_in_start (omega arith))
      (apply_transaction_applicable start minting minting-IsApplicable)
