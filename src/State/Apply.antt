-- ===== src/State/Apply.antt =====
-- What `ApplyTransaction` does to every account, and the invariant of the accounts.
use dyphira_chain.Common.{
  ◌+◌, ◌-◌, ◌%◌, ◌≤◌, ◌<◌, ◌≡◌, refl, Bool, true, false, ◌&&◌, none, ◌==◌, if◌then◌else◌, add64,
  add64-lt, sub64-lt, add64_ne_self, sub64_exact, ==_iff, word_mod, arith, subst, sym, ◌∙◌,
}
use dyphira_chain.Types.{
  Address, IsAddress, Account, Transaction, TxType, transfer, participation, register_validator,
  delegate, unknown,
}
use dyphira_chain.Trie.{Digest}
use dyphira_chain.State.{
  State, get_account, put_account, debit, credit, settle, check_type, apply_transaction, ok, err,
  invalid_nonce,
}
use dyphira_chain.State.Accounts.{get-put}

-- Every address reads as an account of that address, with a balance of 64 bits.
pub record IsValid (s : State) : Type 0 where
  pub keyed : (a : Address) → IsAddress a → (get_account s a).address ≡ a
  pub bounded : (a : Address) → IsAddress a → (get_account s a).balance < word_mod

pub record HasAddresses (tx : Transaction) : Type 0 where
  pub from_ok : IsAddress tx.from
  pub to_ok : IsAddress tx.to

abbrev pub is_transfer : TxType → Bool
is_transfer transfer = true
is_transfer _ = false

-- The account that the writes leave at `a`: the sender's wins over the recipient's.
abbrev pub written : State → Transaction → Address → Account
written s tx a =
    if tx.from == a
    then debit (get_account s tx.from) tx
    else (if is_transfer tx.type && (tx.to == a)
        then credit (get_account s tx.to) tx
        else get_account s a)

-- The account at `a` after a transaction is accepted.
abbrev pub account_after : State → Transaction → Address → Account
account_after s tx a =
    if tx.from == a
    then record {
      address = a;
      balance = (get_account s a).balance - (tx.value + tx.fee) % word_mod;
      nonce = tx.nonce;
    }
    else (if is_transfer tx.type && (tx.to == a)
        then record {
          address = a;
          balance = ((get_account s a).balance + tx.value) % word_mod;
          nonce = (get_account s a).nonce;
        }
        else get_account s a)

module _ ⦃d : Digest Account⦄ where
  pub debit-address : (acc : Account) (tx : Transaction) → (debit acc tx).address ≡ acc.address
  unfolding debit
  debit-address acc tx = refl

  pub credit-address : (acc : Account) (tx : Transaction) → (credit acc tx).address ≡ acc.address
  unfolding credit
  credit-address acc tx = refl

  module _ (s : State) (v : IsValid s) where
    get-debit :
        (s' : State) (tx : Transaction) (a : Address)
        → HasAddresses tx
        → IsAddress a
        → get_account (put_account s' (debit (get_account s tx.from) tx)) a
          ≡ (if tx.from == a then debit (get_account s tx.from) tx else get_account s' a)
    get-debit s' tx a h ha =
        let e : (debit (get_account s tx.from) tx).address ≡ tx.from =
          debit-address (get_account s tx.from) tx ∙ v.keyed tx.from h.from_ok in
        subst
          (λ k.
            get_account (put_account s' (debit (get_account s tx.from) tx)) a
            ≡ (if k == a then debit (get_account s tx.from) tx else get_account s' a))
          e (get-put s' (debit (get_account s tx.from) tx) a (subst IsAddress (sym e) h.from_ok) ha)

    pub get-credit :
        (tx : Transaction) (a : Address)
        → HasAddresses tx
        → IsAddress a
        → get_account (put_account s (credit (get_account s tx.to) tx)) a
          ≡ (if tx.to == a then credit (get_account s tx.to) tx else get_account s a)
    get-credit tx a h ha =
        let e : (credit (get_account s tx.to) tx).address ≡ tx.to =
          credit-address (get_account s tx.to) tx ∙ v.keyed tx.to h.to_ok in
        subst
          (λ k.
            get_account (put_account s (credit (get_account s tx.to) tx)) a
            ≡ (if k == a then credit (get_account s tx.to) tx else get_account s a))
          e (get-put s (credit (get_account s tx.to) tx) a (subst IsAddress (sym e) h.to_ok) ha)

    -- The writes change the sender, and the recipient of a transfer, and nobody else.
    pub get-settle :
        (ty : TxType) (tx : Transaction) (a : Address)
        → HasAddresses tx
        → IsAddress a
        → tx.type ≡ ty
        → get_account (settle s ty tx) a ≡ written s tx a
    unfolding settle
    get-settle transfer tx a h ha e = rw (get-debit _ tx a h ha, get-credit tx a h ha, e) refl
    get-settle participation tx a h ha e = rw (get-debit s tx a h ha, e) refl
    get-settle register_validator tx a h ha e = rw (get-debit s tx a h ha, e) refl
    get-settle delegate tx a h ha e = rw (get-debit s tx a h ha, e) refl
    get-settle unknown tx a h ha e = rw (get-debit s tx a h ha, e) refl

-- When `ApplyTransaction` accepts: the next nonce, a covered sum (taken modulo 2^64), a known
-- type, and a stake or delegation that is not zero.
pub record IsApplicable (s : State) (tx : Transaction) : Type 0 where
  pub next : add64 (get_account s tx.from).nonce 1 ≡ tx.nonce
  pub covered : add64 tx.value tx.fee ≤ (get_account s tx.from).balance
  pub allowed : check_type tx.type tx.value ≡ none

module _ ⦃d : Digest Account⦄ (s : State) (tx : Transaction) where
  pub apply_transaction_applicable :
      IsApplicable s tx → apply_transaction s tx ≡ ok (settle s tx.type tx)
  unfolding apply_transaction
  apply_transaction_applicable h = ground arith

  pub apply_transaction-eq-ok :
      {s' : State} → apply_transaction s tx ≡ ok s' → IsApplicable s tx × (s' ≡ settle s tx.type tx)
  unfolding apply_transaction
  apply_transaction-eq-ok e = ground arith

  -- The writes of an accepted transaction, read back.
  apply_transaction-written :
      {s' : State} (a : Address)
      → IsValid s
      → HasAddresses tx
      → IsAddress a
      → apply_transaction s tx ≡ ok s'
      → get_account s' a ≡ written s tx a
  apply_transaction-written a v h ha e =
      rw (apply_transaction-eq-ok e).1 (get-settle s v tx.type tx a h ha refl)

  -- What an accepted transaction leaves at every address. The sender has paid the value and the
  -- fee, their sum taken modulo 2^64, and has the transaction's nonce; the recipient of a transfer,
  -- unless it is the sender, has gained the value, modulo 2^64; no other account has changed.
  pub apply_transaction_accounts :
      {s' : State} (a : Address)
      → IsValid s
      → HasAddresses tx
      → IsAddress a
      → apply_transaction s tx ≡ ok s'
      → get_account s' a ≡ account_after s tx a
  unfolding debit credit add64
  apply_transaction_accounts a v h ha e =
      let able = (apply_transaction-eq-ok e).0 in
      apply_transaction-written a v h ha e
      ∙ ground (
        arith,
        able.next,
        able.covered,
        v.keyed a ha,
        v.bounded a ha,
        ==_iff tx.from a,
        ==_iff tx.to a,
        sub64_exact (get_account s a).balance (add64 tx.value tx.fee),
      )

  -- An accepted transaction keeps the accounts valid.
  pub apply_transaction-IsValid :
      {s' : State} → IsValid s → HasAddresses tx → apply_transaction s tx ≡ ok s' → IsValid s'
  unfolding debit credit
  apply_transaction-IsValid {s'} v h e = record {
    keyed = λ a ha. rw (apply_transaction-written a v h ha e) (
        ground (
          arith,
          v.keyed tx.from h.from_ok,
          v.keyed tx.to h.to_ok,
          v.keyed a ha,
          ==_iff tx.from a,
          ==_iff tx.to a,
        ));
    bounded = λ a ha. rw (apply_transaction-written a v h ha e) (
        ground (
          arith,
          v.bounded a ha,
          sub64-lt (get_account s tx.from).balance (add64 tx.value tx.fee),
          add64-lt (get_account s tx.to).balance tx.value,
        ));
  }

  pub sender_nonce_after :
      {s' : State}
      → IsValid s
      → HasAddresses tx
      → apply_transaction s tx ≡ ok s'
      → (get_account s' tx.from).nonce ≡ tx.nonce
  unfolding debit
  sender_nonce_after v h e =
      rw (apply_transaction-written tx.from v h h.from_ok e)
        (ground (arith, (apply_transaction-eq-ok e).0.next))

  -- An accepted transaction is refused when it comes again: its nonce is used up.
  pub apply_transaction_replay :
      {s' : State}
      → IsValid s
      → HasAddresses tx
      → apply_transaction s tx ≡ ok s'
      → apply_transaction s' tx ≡ err invalid_nonce
  unfolding apply_transaction
  apply_transaction_replay v h e = ground (arith, sender_nonce_after v h e, add64_ne_self tx.nonce)
