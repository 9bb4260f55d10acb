-- ===== src/Api/Transactions/Transfers.antt =====
-- A request for a transfer that meets the handler's tests succeeds.
use dyphira_chain.Common.{
  ℕ, ◌≡◌, ◌≢◌, ◌≤◌, ◌<◌, ◌+◌, refl, ap, ◌∙◌, Bool, true, some, none, [], ◌∷◌, ◌++◌, ==_iff,
  if◌then◌else◌, arith, add64, sub64, word_mod,
}
use dyphira_chain.Common.Dict.{lookup, insert}
use dyphira_chain.Types.{Address, Transaction, transfer}
use dyphira_chain.State.{get_account}
use dyphira_chain.Pool.{added, put_transaction, admit_transfer, admit, add_transaction}
use dyphira_chain.Pool.Entry.{Gains}
use dyphira_chain.Api.Transactions.{
  Keys, TransactionMessage, Body, Wallet, Request, transfer_name, created, bare, encode, sign,
  verify, unsigned, accepted_type, fee_of, submit, create, handle_create_transaction,
}
use dyphira_chain.Api.Transactions.Created.{created_lem}

-- The value and the fee.
abbrev pub cost : Body → ℕ
cost body = add64 body.value.as_uint64 (fee_of body.fee)

-- The transaction that the node makes.
abbrev pub transfer_tx : Keys → Wallet → (to : Address) → Body → (hash now : ℕ) → Transaction
transfer_tx keys w to body hash now = record (unsigned w to body transfer now) {
  hash = hash;
  signature = keys.signature_of hash;
}

module _ (keys : Keys) (published : TransactionMessage → Bool) (w : Wallet) (to : Address)
    (body : Body) (hash now : ℕ) where
  abbrev tx : Transaction
  tx = transfer_tx keys w to body hash now

  abbrev balance : ℕ
  balance = (get_account w.state w.address).balance

  -- The wallet after the call.
  abbrev pub after_transfer : Wallet
  after_transfer = record w {
    pool = record w.pool { transactions = insert hash tx w.pool.transactions };
    sent = if published (bare (encode tx)) then w.sent ++ bare (encode tx) ∷ [] else w.sent;
    recorded = w.recorded + 1;
  }

  admitted :
      cost body ≤ balance
      → lookup hash w.pool.transactions ≡ none
      → keys.verifies hash (keys.signature_of hash) ≡ true
      → add_transaction w.pool tx (verify keys tx) w.address w.state ≡ added after_transfer.pool
  unfolding add_transaction admit admit_transfer put_transaction
  admitted covered fresh verified = ground (arith, covered, fresh, verified)

  submitted :
      cost body ≤ balance
      → lookup hash w.pool.transactions ≡ none
      → keys.verifies hash (keys.signature_of hash) ≡ true
      → submit keys published w tx
        ≡ (after_transfer, created tx (cost body) balance (sub64 balance (cost body)))
  unfolding submit
  submitted covered fresh verified = rw (admitted covered fresh verified, submit) refl

  create_transfer :
      body.type ≡ transfer_name
      → to ≢ w.address
      → cost body ≤ balance
      → keys.hash_of (encode (unsigned w to body transfer now)) ≡ some hash
      → create keys published w to body now ≡ submit keys published w tx
  unfolding create sign
  create_transfer e other covered hashed =
      let kind : accepted_type body.type ≡ some transfer = ap accepted_type e in
      let signed : sign keys (unsigned w to body transfer now) ≡ some tx = rw (hashed, sign) refl in
      ground (arith, ==_iff to w.address, other, covered, kind, signed)

  -- A POST of a transfer to another address, of a value above 0 that the account covers together
  -- with the fee (their sum taken modulo 2^64), is created, where the hash is new to the pool and
  -- the key's signature verifies: from the node's account, with its next nonce. The pool gains it,
  -- and the accounts stay.
  pub transfer_created :
      (request : Request)
      → request.is_post ≡ true
      → request.body ≡ some body
      → body.to ≡ some (some to)
      → body.value.is_positive ≡ true
      → body.type ≡ transfer_name
      → to ≢ w.address
      → cost body ≤ balance
      → balance < word_mod
      → keys.hash_of (encode (unsigned w to body transfer now)) ≡ some hash
      → lookup hash w.pool.transactions ≡ none
      → keys.verifies hash (keys.signature_of hash) ≡ true
      → (handle_create_transaction keys published w request now
          ≡ (after_transfer, created tx (cost body) balance (sub64 balance (cost body))))
        × (tx.nonce ≡ add64 (get_account w.state w.address).nonce 1)
        × (tx.from ≡ w.address)
        × Gains w.pool tx after_transfer.pool
        × (sub64 balance (cost body) + (cost body) ≡ balance)
  unfolding handle_create_transaction
  transfer_created request post sent target positive e other covered bound hashed fresh verified =
      let made : handle_create_transaction keys published w request now
          ≡ (after_transfer, created tx (cost body) balance (sub64 balance (cost body))) =
        rw (post, sent, target, positive, handle_create_transaction)
          (create_transfer e other covered hashed ∙ submitted covered fresh verified) in
      let (_, _, _, _, gains, _, _, _, sums) =
        created_lem keys published w request now tx (cost body) balance (sub64 balance (cost body))
          bound made in
      (made, refl, refl, gains, sums)
