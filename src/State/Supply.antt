-- ===== src/State/Supply.antt =====
-- The sum of all balances: what an accepted transaction does to it.
use dyphira_chain.Common.{
  ℕ, ◌+◌, ◌≤◌, ◌<◌, ◌≡◌, ◌≢◌, refl, not, ◌&&◌, Option, none, some, ◌==◌, if◌then◌else◌, add64,
  add64_exact, add64_wraps, sub64_exact, word_mod, arith, subst, sym, ap, ◌∙◌, ==_iff,
}
use dyphira_chain.Types.{
  Address, IsAddress, Account, Transaction, TxType, transfer, participation, register_validator,
  delegate, unknown,
}
use dyphira_chain.Trie
use dyphira_chain.Trie.{Digest}
use dyphira_chain.Trie.Totals.{node_total, measured, total-insert, total-get}
use dyphira_chain.State.{
  State, get_account, put_account, debit, credit, settle, apply_transaction, ok, address_bytes,
  or_empty, empty_account,
}
use dyphira_chain.State.Accounts.{get-put_ne}
use dyphira_chain.State.Apply.{
  IsValid, HasAddresses, apply_transaction-eq-ok, is_transfer, debit-address, credit-address,
  get-credit,
}

-- The sum of the balances of all accounts in the trie.
unfoldable pub supply : State → ℕ
supply s = node_total (λ acc. acc.balance) s.root

-- What an accepted transaction takes out of circulation: its fee, and its value unless that is
-- credited to another account.
abbrev pub burned : Transaction → ℕ
burned tx = if is_transfer tx.type && not (tx.from == tx.to) then tx.fee else tx.value + tx.fee

measured-balance :
    (a : Address) (o : Option Account) → measured (λ acc. acc.balance) o ≡ (or_empty a o).balance
measured-balance a none = refl
measured-balance a (some acc) = refl

module _ ⦃d : Digest Account⦄ where
  -- Storing an account changes the sum by the change of that account's balance.
  pub supply-put :
      (s : State) (acc : Account)
      → supply (put_account s acc) + (get_account s acc.address).balance ≡ supply s + acc.balance
  unfolding supply put_account get_account
  supply-put s acc =
      rw (← measured-balance acc.address (Trie.get s (address_bytes acc.address)))
        (total-insert (λ acc. acc.balance) s (address_bytes acc.address) acc)

  balance-le-supply : (s : State) (a : Address) → (get_account s a).balance ≤ supply s
  unfolding supply get_account
  balance-le-supply s a =
      rw (← measured-balance a (Trie.get s (address_bytes a)))
        (total-get (λ acc. acc.balance) s (address_bytes a))

  -- Two accounts hold no more than the sum.
  two_balances :
      (s : State) (a b : Address)
      → IsValid s
      → IsAddress a
      → IsAddress b
      → a ≢ b
      → (get_account s a).balance + (get_account s b).balance ≤ supply s
  two_balances s a b v ha hb ne = omega (
    arith,
    supply-put s (empty_account a),
    balance-le-supply (put_account s (empty_account a)) b,
    ap (λ acc. acc.balance) (get-put_ne s (empty_account a) b ha hb (λ e. ne (sym e))),
  )

  module _ (s : State) (v : IsValid s) (tx : Transaction) (h : HasAddresses tx) where
    supply-debit :
        (s' : State)
        → supply (put_account s' (debit (get_account s tx.from) tx))
            + (get_account s' tx.from).balance
          ≡ supply s' + (debit (get_account s tx.from) tx).balance
    supply-debit s' =
        subst
          (λ k.
            supply (put_account s' (debit (get_account s tx.from) tx)) + (get_account s' k).balance
            ≡ supply s' + (debit (get_account s tx.from) tx).balance)
          (debit-address (get_account s tx.from) tx ∙ v.keyed tx.from h.from_ok)
          (supply-put s' (debit (get_account s tx.from) tx))

    supply-credit :
        supply (put_account s (credit (get_account s tx.to) tx)) + (get_account s tx.to).balance
        ≡ supply s + (credit (get_account s tx.to) tx).balance
    supply-credit =
        subst
          (λ k.
            supply (put_account s (credit (get_account s tx.to) tx)) + (get_account s k).balance
            ≡ supply s + (credit (get_account s tx.to) tx).balance)
          (credit-address (get_account s tx.to) tx ∙ v.keyed tx.to h.to_ok)
          (supply-put s (credit (get_account s tx.to) tx))

    -- The sender's balance after the debit, when nothing wraps.
    debit-balance :
        tx.value + tx.fee < word_mod
        → add64 tx.value tx.fee ≤ (get_account s tx.from).balance
        → (debit (get_account s tx.from) tx).balance + (tx.value + tx.fee)
          ≡ (get_account s tx.from).balance
    unfolding debit
    debit-balance small covered = omega (
      arith,
      add64_exact tx.value tx.fee small,
      v.bounded tx.from h.from_ok,
      sub64_exact (get_account s tx.from).balance (add64 tx.value tx.fee) covered,
    )

    -- A debit alone takes the value and the fee out of the sum.
    supply-settle_debit :
        tx.value + tx.fee < word_mod
        → add64 tx.value tx.fee ≤ (get_account s tx.from).balance
        → supply (put_account s (debit (get_account s tx.from) tx)) + (tx.value + tx.fee) ≡ supply s
    supply-settle_debit small covered = omega (arith, supply-debit s, debit-balance small covered)

    -- The recipient's balance after the credit does not wrap, since the sum does not.
    credit-balance :
        supply s < word_mod
        → tx.value + tx.fee < word_mod
        → add64 tx.value tx.fee ≤ (get_account s tx.from).balance
        → tx.from ≢ tx.to
        → (credit (get_account s tx.to) tx).balance ≡ (get_account s tx.to).balance + tx.value
    unfolding credit
    credit-balance total small covered ne = omega (
      arith,
      add64_exact tx.value tx.fee small,
      add64_exact (get_account s tx.to).balance tx.value,
      two_balances s tx.from tx.to v h.from_ok h.to_ok ne,
    )

    supply-settle_transfer :
        supply s < word_mod
        → tx.value + tx.fee < word_mod
        → add64 tx.value tx.fee ≤ (get_account s tx.from).balance
        → supply (settle s transfer tx) + (if tx.from == tx.to then tx.value + tx.fee else tx.fee)
          ≡ supply s
    unfolding settle
    supply-settle_transfer total small covered = ground (
      arith,
      supply-debit (put_account s (credit (get_account s tx.to) tx)),
      supply-credit,
      debit-balance small covered,
      credit-balance total small covered,
      get-credit s v tx tx.from h h.from_ok,
      ==_iff tx.from tx.to,
      ==_iff tx.to tx.from,
    )

    supply-settle :
        (ty : TxType)
        → tx.type ≡ ty
        → supply s < word_mod
        → tx.value + tx.fee < word_mod
        → add64 tx.value tx.fee ≤ (get_account s tx.from).balance
        → supply (settle s ty tx) + burned tx ≡ supply s
    unfolding settle
    supply-settle transfer e total small covered =
        rw e (ground (arith, supply-settle_transfer total small covered))
    supply-settle participation e total small covered = rw e (supply-settle_debit small covered)
    supply-settle register_validator e total small covered =
        rw e (supply-settle_debit small covered)
    supply-settle delegate e total small covered = rw e (supply-settle_debit small covered)
    supply-settle unknown e total small covered = rw e (supply-settle_debit small covered)

    -- On valid accounts whose balances add up to less than 2^64, an accepted transaction between
    -- addresses, whose value and fee add up to less than 2^64, lowers the sum of all balances by
    -- exactly what it burns.
    pub apply_transaction-supply :
        {s' : State}
        → supply s < word_mod
        → tx.value + tx.fee < word_mod
        → apply_transaction s tx ≡ ok s'
        → supply s' + burned tx ≡ supply s
    apply_transaction-supply {s'} total small e =
        let (able, same) = apply_transaction-eq-ok s tx e in
        subst (λ t. supply t + burned tx ≡ supply s) (sym same)
          (supply-settle tx.type refl total small able.covered)

    supply-settle_wrapping :
        tx.from ≢ tx.to
        → tx.value < word_mod
        → tx.fee < word_mod
        → word_mod ≤ tx.value + tx.fee
        → (get_account s tx.to).balance + tx.value < word_mod
        → add64 tx.value tx.fee ≤ (get_account s tx.from).balance
        → supply (settle s transfer tx) + tx.fee ≡ supply s + word_mod
    unfolding settle debit credit
    supply-settle_wrapping ne vb fb wraps room covered = ground (
      arith,
      supply-debit (put_account s (credit (get_account s tx.to) tx)),
      supply-credit,
      add64_wraps tx.value tx.fee vb fb wraps,
      add64_exact (get_account s tx.to).balance tx.value room,
      v.bounded tx.from h.from_ok,
      sub64_exact (get_account s tx.from).balance (add64 tx.value tx.fee) covered,
      get-credit s v tx tx.from h h.from_ok,
      ==_iff tx.to tx.from,
    )

    -- The test of the balance compares a sum that may wrap. On valid accounts, an accepted transfer
    -- to another address, whose value and fee fit 64 bits each and add up to 2^64 or more, and whose
    -- value still fits 64 bits on top of the recipient's balance, raises the sum of all balances by
    -- 2^64 less the fee.
    pub wrapping_transfer_mints :
        {s' : State}
        → tx.type ≡ transfer
        → tx.from ≢ tx.to
        → tx.value < word_mod
        → tx.fee < word_mod
        → word_mod ≤ tx.value + tx.fee
        → (get_account s tx.to).balance + tx.value < word_mod
        → apply_transaction s tx ≡ ok s'
        → supply s' + tx.fee ≡ supply s + word_mod
    wrapping_transfer_mints {s'} ty ne vb fb wraps room e =
        let (able, same) = apply_transaction-eq-ok s tx e in
        subst (λ t. supply t + tx.fee ≡ supply s + word_mod)
          (sym (subst (λ k. s' ≡ settle s k tx) ty same))
          (supply-settle_wrapping ne vb fb wraps room able.covered)
