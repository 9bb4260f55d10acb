-- ===== src/Api/Transactions/Twice.antt =====
-- Two transactions that a node creates between two blocks.
use dyphira_chain.Common.{ℕ, Bool, ◌≡◌, ◌<◌, sym, ap, ◌∙◌, arith, add64, add64_ne_self, word_mod}
use dyphira_chain.Types.{Account, Transaction}
use dyphira_chain.Trie.{Digest}
use dyphira_chain.State.{
  State, get_account, apply_transaction, check_sender, ok, err, invalid_nonce,
}
use dyphira_chain.State.Apply.{IsValid, HasAddresses, sender_nonce_after}
use dyphira_chain.Api.Transactions.{
  Keys, TransactionMessage, Wallet, Request, created, handle_create_transaction,
}
use dyphira_chain.Api.Transactions.Created.{created_lem}

module _ ⦃d : Digest Account⦄ (keys : Keys) (published : TransactionMessage → Bool) where
  -- The nonce of a created transaction comes from the account and not from the pool: of two that a
  -- node creates one after the other, on valid accounts, the second is refused, for its nonce, by
  -- the accounts that have applied the first.
  pub create_twice :
      (w w1 w2 : Wallet) (r1 r2 : Request) (t1 t2 : ℕ) (tx1 tx2 : Transaction)
      (c1 b1 l1 c2 b2 l2 : ℕ) (s : State)
      → IsValid w.state
      → (get_account w.state w.address).balance < word_mod
      → HasAddresses tx1
      → handle_create_transaction keys published w r1 t1 ≡ (w1, created tx1 c1 b1 l1)
      → handle_create_transaction keys published w1 r2 t2 ≡ (w2, created tx2 c2 b2 l2)
      → apply_transaction w.state tx1 ≡ ok s
      → apply_transaction s tx2 ≡ err invalid_nonce
  unfolding apply_transaction check_sender
  create_twice w w1 w2 r1 r2 t1 t2 tx1 tx2 c1 b1 l1 c2 b2 l2 s v bound h e1 e2 applied =
      let (from1, _, (nonce1, _), _, _, state, address, _, _) =
        created_lem keys published w r1 t1 tx1 c1 b1 l1 bound e1 in
      let same : get_account w1.state w1.address ≡ get_account w.state w.address =
        ap (λ x. get_account x w1.address) state ∙ ap (get_account w.state) address in
      let (from2, _, (nonce2, _), _, _, _, _, _, _) =
        created_lem keys published w1 r2 t2 tx2 c2 b2 l2
          (omega (arith, bound, ap (λ a. a.balance) same)) e2 in
      let from : tx2.from ≡ tx1.from = from2 ∙ address ∙ sym from1 in
      let nonce : tx2.nonce ≡ tx1.nonce = nonce2 ∙ ap (λ a. add64 a.nonce 1) same ∙ sym nonce1 in
      let used : (get_account s tx2.from).nonce ≡ tx2.nonce =
        ap (λ a. (get_account s a).nonce) from
        ∙ sender_nonce_after w.state tx1 v h applied
        ∙ sym nonce in
      ground (arith, used, add64_ne_self tx2.nonce)
