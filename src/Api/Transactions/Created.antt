-- ===== src/Api/Transactions/Created.antt =====
-- What it says of a request that the node has created a transaction for it.
use dyphira_chain.Common.{
  ℕ, ◌≡◌, ◌≢◌, ◌≤◌, ◌<◌, word_mod, ◌+◌, sym, ap, ◌∙◌, Bool, true, some, ==_iff, if◌then◌else◌,
  arith, add64, sub64, sub64_exact, inl, inr, Option-cases, [], ◌∷◌, ◌++◌,
}
use mathlib.Core.List.{append-nil}
use dyphira_chain.Types.{Address, Transaction, TxType, participation}
use dyphira_chain.State.{get_account}
use dyphira_chain.Pool.{add_transaction, added}
use dyphira_chain.Pool.Entry.{Gains, Funds, add_transaction_lem}
use dyphira_chain.Api.Transactions.{
  Keys, TransactionMessage, Body, TypeName, absent, transfer_name, stake_name, unstake_name,
  delegate_name, register_name, other_name, Wallet, Request, created, submit, create, sign, verify,
  unsigned, accepted_type, handle_create_transaction, bare, encode,
}

module _ (keys : Keys) (published : TransactionMessage → Bool) (w : Wallet) where
  submit_lem :
      (tx tx' : Transaction) (total before left : ℕ) {w' : Wallet}
      → submit keys published w tx ≡ (w', created tx' total before left)
      → (tx' ≡ tx)
        × (add_transaction w.pool tx (verify keys tx) w.address w.state ≡ added w'.pool)
        × (w'.state ≡ w.state)
        × (w'.address ≡ w.address)
        × (w'.sent ≡ w.sent ++ (if published (bare (encode tx)) then bare (encode tx) ∷ [] else []))
        × (total ≡ add64 tx.value tx.fee)
        × (before ≡ (get_account w.state w.address).balance)
        × (left ≡ sub64 before total)
  unfolding submit
  submit_lem tx tx' total before left e = ground (arith, e, append-nil w.sent)

  create_lem :
      (to : Address) (body : Body) (now : ℕ) (tx : Transaction) (total before left : ℕ)
      {w' : Wallet}
      → create keys published w to body now ≡ (w', created tx total before left)
      → (to ≢ w.address)
        × (type : TxType) × (accepted_type body.type ≡ some type)
        × (signed : Transaction) × (sign keys (unsigned w to body type now) ≡ some signed)
        × (submit keys published w signed ≡ (w', created tx total before left))
  unfolding create
  create_lem to body now tx total before left e =
      let other : to ≢ w.address = ground (arith, ==_iff to w.address, e) in
      elim (Option-cases (accepted_type body.type)) [
        | inl none_accepted ↦ absurd (ground (arith, none_accepted, e))
        | inr (type, t) ↦ elim (Option-cases (sign keys (unsigned w to body type now))) [
          | inl unsigned_still ↦ absurd (ground (arith, t, unsigned_still, e))
          | inr (signed, s) ↦ (other, type, t, signed, s, ground (arith, t, s, e))
        ]
      ]

  handle_lem :
      (request : Request) (now : ℕ) (tx : Transaction) (total before left : ℕ) {w' : Wallet}
      → handle_create_transaction keys published w request now ≡ (w', created tx total before left)
      → (to : Address) × (body : Body) × (create keys published w to body now
          ≡ (w', created tx total before left))
  unfolding handle_create_transaction
  handle_lem request now tx total before left e = elim (Option-cases request.body) [
    | inl no_body ↦ absurd (ground (arith, no_body, e))
    | inr (body, b) ↦ elim (Option-cases body.to) [
      | inl no_to ↦ absurd (ground (arith, b, no_to, e))
      | inr (parsed, p) ↦ elim (Option-cases parsed) [
        | inl no_address ↦ absurd (ground (arith, b, p, no_address, e))
        | inr (to, a) ↦ (to, body, ground (arith, b, p, a, e))
      ]
    ]
  ]

  sign_lem :
      (tx tx' : Transaction)
      → sign keys tx ≡ some tx'
      → tx' ≡ record tx { hash = tx'.hash; signature = tx'.signature }
  unfolding sign
  sign_lem tx tx' e = ground (arith, e)

  not_participation :
      (name : TypeName) (type : TxType) → accepted_type name ≡ some type → type ≢ participation
  not_participation absent type e h = cc
  not_participation transfer_name type e h = cc
  not_participation stake_name type e h = cc
  not_participation unstake_name type e h = cc
  not_participation delegate_name type e h = cc
  not_participation register_name type e h = cc
  not_participation other_name type e h = cc

  -- A created transaction is from the node's account to another, with the account's next nonce; its
  -- value and fee, their sum taken modulo 2^64, are covered; it is verified, was not in the pool and
  -- is there now, and no other entry and no account has changed. With a balance below 2^64, what
  -- the answer gives as cost and as balance after it add up to the balance before it.
  pub created_lem :
      (request : Request) (now : ℕ) (tx : Transaction) (total before left : ℕ) {w' : Wallet}
      → (get_account w.state w.address).balance < word_mod
      → handle_create_transaction keys published w request now ≡ (w', created tx total before left)
      → (tx.from ≡ w.address)
        × (tx.to ≢ w.address)
        × Funds (get_account w.state w.address) tx
        × (verify keys tx ≡ true)
        × Gains w.pool tx w'.pool
        × (w'.state ≡ w.state)
        × (w'.address ≡ w.address)
        × (before ≡ (get_account w.state w.address).balance)
        × (left + total ≡ before)
  created_lem request now tx total before left {w'} bound e =
      let (to, body, made) = handle_lem request now tx total before left e in
      let (other, type, named, signed, s, submitted) =
        create_lem to body now tx total before left made in
      let (same, admitted, state, address, _, cost, owned, rest) =
        submit_lem signed tx total before left submitted in
      let form = sign_lem (unsigned w to body type now) signed s in
      let (verified, gains, funds) =
        add_transaction_lem w.pool signed (verify keys signed) w.address w.state admitted in
      let kind : signed.type ≡ type = ap (λ t. t.type) form in
      let funded : Funds (get_account w.state w.address) signed = elim funds [
        | inl p ↦ absurd (not_participation body.type type named (sym kind ∙ p))
        | inr f ↦ f
      ] in
      let to_other : signed.to ≢ w.address = λ h. other (sym (ap (λ t. t.to) form) ∙ h) in
      let fits : total ≤ before = omega (arith, cost, owned, funded.1) in
      let exact = sub64_exact before total fits (omega (arith, owned, bound)) in
      rw same (
        ap (λ t. t.from) form,
        to_other,
        funded,
        verified,
        gains,
        state,
        address,
        owned,
        omega (arith, rest, exact, fits),
      )
