-- ===== src/Pool/Entry.antt =====
-- What it says of a transaction that `AddTransaction` has accepted it.
use dyphira_chain.Common.{
  ℕ, ◌≤◌, ◌≡◌, ◌⊎◌, refl, Bool, true, false, none, some, if◌then◌else◌, ◌==◌, arith, add64, inl,
  inr,
}
use dyphira_chain.Common.Dict.{lookup, has, lookup-insert}
use dyphira_chain.Types.{
  Address, Account, Transaction, TxType, transfer, participation, register_validator, delegate,
  unknown,
}
use dyphira_chain.State.{State, get_account}
use dyphira_chain.Pool.{
  TransactionPool, added, put_transaction, admit_funded, admit_transfer, admit, add_transaction,
}

-- The account has the nonce before the transaction's, and covers its value and fee.
abbrev pub Funds : Account → Transaction → Type 0
Funds acc tx = (tx.nonce ≡ add64 acc.nonce 1) × (add64 tx.value tx.fee ≤ acc.balance)

-- A pool with one more transaction, which it did not hold before.
abbrev pub Gains : TransactionPool → Transaction → TransactionPool → Type 0
Gains tp tx tp' =
    (lookup tx.hash tp.transactions ≡ none)
    × ((h : ℕ)
        → lookup h tp'.transactions ≡ (if tx.hash == h then some tx else lookup h tp.transactions))

put-Gains :
    (tp : TransactionPool) (tx : Transaction) {tp' : TransactionPool}
    → has tx.hash tp.transactions ≡ false
    → put_transaction tp tx ≡ added tp'
    → Gains tp tx tp'
unfolding put_transaction
put-Gains tp tx {tp'} absent e =
    (ground (arith, absent), λ h. ground (arith, e, lookup-insert tx.hash h tx tp.transactions))

admit_funded-put :
    (tp : TransactionPool) (tx : Transaction) (acc : Account) {tp' : TransactionPool}
    → admit_funded tp tx acc ≡ added tp'
    → Funds acc tx × (put_transaction tp tx ≡ added tp')
unfolding admit_funded
admit_funded-put tp tx acc e = ground (arith, e)

admit_transfer-put :
    (tp : TransactionPool) (tx : Transaction) (acc : Account) {tp' : TransactionPool}
    → admit_transfer tp tx acc ≡ added tp'
    → Funds acc tx × (has tx.hash tp.transactions ≡ false) × (put_transaction tp tx ≡ added tp')
unfolding admit_transfer
admit_transfer-put tp tx acc e = ground (arith, e)

admit-Gains :
    (tp : TransactionPool) (ty : TxType) (tx : Transaction) (acc : Account) {tp' : TransactionPool}
    → admit tp ty tx acc ≡ added tp'
    → Gains tp tx tp' × ((ty ≡ participation) ⊎ Funds acc tx)
unfolding admit
admit-Gains tp participation tx acc {tp'} e =
    let (absent, put) : (has tx.hash tp.transactions ≡ false)
        × (put_transaction tp tx ≡ added tp') =
      ground (arith, e) in
    (put-Gains tp tx absent put, inl refl)
admit-Gains tp register_validator tx acc {tp'} e =
    let (absent, funded) : (has tx.hash tp.transactions ≡ false)
        × (admit_funded tp tx acc ≡ added tp') =
      ground (arith, e) in
    let (funds, put) = admit_funded-put tp tx acc funded in (put-Gains tp tx absent put, inr funds)
admit-Gains tp delegate tx acc {tp'} e =
    let (absent, funded) : (has tx.hash tp.transactions ≡ false)
        × (admit_funded tp tx acc ≡ added tp') =
      ground (arith, e) in
    let (funds, put) = admit_funded-put tp tx acc funded in (put-Gains tp tx absent put, inr funds)
admit-Gains tp transfer tx acc e =
    let (funds, absent, put) = admit_transfer-put tp tx acc e in
    (put-Gains tp tx absent put, inr funds)
admit-Gains tp unknown tx acc e =
    let (funds, absent, put) = admit_transfer-put tp tx acc e in
    (put-Gains tp tx absent put, inr funds)

-- An accepted transaction verified under its key, was not in the pool and is there now, and no
-- other entry has changed; unless it announces participation, the account of the key's address
-- has the nonce before its own and covers its value and fee, their sum taken modulo 2^64.
pub add_transaction_lem :
    (tp : TransactionPool) (tx : Transaction) (verified : Bool) (key_address : Address) (s : State)
    {tp' : TransactionPool}
    → add_transaction tp tx verified key_address s ≡ added tp'
    → (verified ≡ true)
      × Gains tp tx tp'
      × ((tx.type ≡ participation) ⊎ Funds (get_account s key_address) tx)
unfolding add_transaction
add_transaction_lem tp tx true key_address s e =
    let (gains, funds) = admit-Gains tp tx.type tx (get_account s key_address) e in
    (refl, gains, funds)
add_transaction_lem tp tx false key_address s e = absurd (ground (arith, e))
