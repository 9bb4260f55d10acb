-- ===== src/State.antt =====
-- state.go: accounts in the trie, and the application of transactions and blocks.
-- The trie's values are JSON texts of accounts; they are kept as the accounts that they encode,
-- so `json.Unmarshal` of what `PutAccount` wrote gives that account back and does not fail.
pub mod Accounts
pub mod Apply
pub mod Supply
pub mod Blocks
pub mod Snapshots
mod Tests
use dyphira_chain.Common.{
  ℕ, zero, suc, ◌+◌, ◌-◌, ◌*◌, ◌/◌, ◌%◌, ◌^◌, Bool, List, [], ◌∷◌, Option, none, some, map, add64,
  sub64, ltb, ◌==◌, if◌then◌else◌,
}
use dyphira_chain.Types.{
  Address, Account, Transaction, TxType, transfer, participation, register_validator, delegate,
  unknown, Block,
}
use dyphira_chain.Trie
use dyphira_chain.Trie.{Digest, MerkleTrie}

abbrev pub State : Type 0
State = MerkleTrie Account

-- `addr[:]`, the last `n` bytes of a number, the first byte first.
unfoldable pub bytes_of : ℕ → ℕ → List ℕ
bytes_of zero a = []
bytes_of (suc n) a = a / 256 ^ n ∷ bytes_of n (a % 256 ^ n)

abbrev pub address_bytes : Address → List ℕ
address_bytes a = bytes_of 20 a

unfoldable pub new_state : State
new_state = Trie.new_merkle_trie

abbrev pub empty_account : Address → Account
empty_account a = record { address = a; balance = 0; nonce = 0 }

abbrev pub or_empty : Address → Option Account → Account
or_empty a none = empty_account a
or_empty a (some acc) = acc

-- `GetAccount`: a missing account reads as an empty one.
unfoldable pub get_account : State → Address → Account
get_account s addr = or_empty addr (Trie.get s (address_bytes addr))

pub data Error : Type 0 where
  invalid_nonce insufficient_balance zero_stake zero_delegation unknown_type : Error

pub data Result : Type 0 where
  ok : State → Result
  err : Error → Result

-- The `switch` on the type: what it refuses.
unfoldable pub check_type : TxType → ℕ → Option Error
check_type participation value = none
check_type register_validator value = if value == 0 then some zero_stake else none
check_type delegate value = if value == 0 then some zero_delegation else none
check_type transfer value = none
check_type unknown value = some unknown_type

-- `sender.Balance -= tx.Value + tx.Fee; sender.Nonce += 1`
unfoldable pub debit : Account → Transaction → Account
debit sender tx = record sender {
  balance = sub64 sender.balance (add64 tx.value tx.fee);
  nonce = add64 sender.nonce 1;
}

-- `toAcc.Balance += tx.Value`
unfoldable pub credit : Account → Transaction → Account
credit to_acc tx = record to_acc { balance = add64 to_acc.balance tx.value }

-- The test of a transaction against its sender's account.
unfoldable pub check_sender : Account → Transaction → Option Error
check_sender sender tx =
    if add64 sender.nonce 1 == tx.nonce
    then (if ltb sender.balance (add64 tx.value tx.fee) then some insufficient_balance else none)
    else some invalid_nonce

module _ ⦃d : Digest Account⦄ where
  -- `PutAccount`
  unfoldable pub put_account : State → Account → State
  put_account s acc = Trie.insert s (address_bytes acc.address) acc

  -- The writes of `ApplyTransaction`: the recipient first, then the sender as it was read.
  unfoldable pub settle : State → TxType → Transaction → State
  unfolding debit credit
  settle s transfer tx =
      put_account (put_account s (credit (get_account s tx.to) tx))
        (debit (get_account s tx.from) tx)
  settle s participation tx = put_account s (debit (get_account s tx.from) tx)
  settle s register_validator tx = put_account s (debit (get_account s tx.from) tx)
  settle s delegate tx = put_account s (debit (get_account s tx.from) tx)
  settle s unknown tx = put_account s (debit (get_account s tx.from) tx)

  -- `ApplyTransaction`; it writes nothing before its last test.
  unfoldable pub apply_transaction : State → Transaction → Result
  unfolding check_sender
  apply_transaction s tx = elim (check_sender (get_account s tx.from) tx) [
    | some e ↦ err e
    | none ↦ elim (check_type tx.type tx.value) [ some e ↦ err e | none ↦ ok (settle s tx.type tx) ]
  ]

  -- The loop of `ApplyBlock`: what was applied before an error stays applied.
  unfoldable pub apply_all : State → List Transaction → State × Option Error
  apply_all s [] = (s, none)
  apply_all s (tx ∷ txs) = elim (apply_transaction s tx) [
    | ok s' ↦ apply_all s' txs
    | err e ↦ (s, some e)
  ]

  unfoldable pub apply_block : State → Block → State × Option Error
  unfolding apply_all
  apply_block s block = apply_all s block.transactions

  -- `ImportSnapshot`, whose `PutAccount` does not fail.
  unfoldable pub import_snapshot : State → List Account → State
  import_snapshot s [] = s
  import_snapshot s (acc ∷ accs) = import_snapshot (put_account s acc) accs

-- `ExportSnapshot`
unfoldable pub export_snapshot : State → List Account
export_snapshot s = map (λ e. e.1) (Trie.all s)
