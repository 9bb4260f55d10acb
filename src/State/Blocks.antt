-- ===== src/State/Blocks.antt =====
-- Whole blocks: the loop of `ApplyBlock`.
use dyphira_chain.Common.{
  ℕ, ◌+◌, ◌≤◌, ◌<◌, ◌≡◌, refl, List, [], ◌∷◌, none, some, All, word_mod, arith, inl, inr, ◌⊎◌,
}
use dyphira_chain.Types.{Account, Transaction}
use dyphira_chain.Trie.{Digest}
use dyphira_chain.State.{State, apply_transaction, apply_all, Result, ok, err, Error}
use dyphira_chain.State.Apply.{IsValid, HasAddresses, apply_transaction-IsValid}
use dyphira_chain.State.Supply.{supply, burned, apply_transaction-supply}

-- The value and the fee fit 64 bits together.
abbrev pub FitsWord : Transaction → Type 0
FitsWord tx = tx.value + tx.fee < word_mod

abbrev pub burned_all : List Transaction → ℕ
burned_all [] = 0
burned_all (tx ∷ txs) = burned tx + burned_all txs

Result-cases : (r : Result) → ((s : State) × (r ≡ ok s)) ⊎ ((e : Error) × (r ≡ err e))
Result-cases (ok s) = inl (s, refl)
Result-cases (err e) = inr (e, refl)

module _ ⦃d : Digest Account⦄ where
  -- The accounts stay valid through any list of transactions, also one that ends in an error.
  pub apply_all-IsValid :
      (s : State) (txs : List Transaction)
      → IsValid s
      → All HasAddresses txs
      → IsValid (apply_all s txs).0
  unfolding apply_all
  apply_all-IsValid s [] v h = v
  apply_all-IsValid s (tx ∷ txs) v h = elim (Result-cases (apply_transaction s tx)) [
    | inl (s', e) ↦
        rw (e, apply_all) (apply_all-IsValid s' txs (apply_transaction-IsValid s tx v h.0 e) h.1)
    | inr (x, e) ↦ rw (e, apply_all) v
  ]

  -- What a list of transactions does to the sum of all balances of a valid state, when the
  -- transactions have addresses, each value fits 64 bits together with its fee, and the sum fits 64
  -- bits: no error, and the sum falls by what they burn together; or an error, and the sum falls by
  -- no more than that.
  pub apply_all-supply :
      (s : State) (txs : List Transaction)
      → IsValid s
      → All HasAddresses txs
      → All FitsWord txs
      → supply s < word_mod
      → (((apply_all s txs).1 ≡ none) × (supply (apply_all s txs).0 + burned_all txs ≡ supply s)
          ⊎ (x : Error) × ((apply_all s txs).1 ≡ some x))
        × (supply (apply_all s txs).0 ≤ supply s)
        × (supply s ≤ supply (apply_all s txs).0 + burned_all txs)
  unfolding apply_all
  apply_all-supply s [] v h f small = (inl (refl, omega arith), omega arith, omega arith)
  apply_all-supply s (tx ∷ txs) v h f small = elim (Result-cases (apply_transaction s tx)) [
    | inl (s', e) ↦
        let spent = apply_transaction-supply s v tx h.0 small f.0 e in
        let (all_spent, fell, bound) =
          apply_all-supply s' txs (apply_transaction-IsValid s tx v h.0 e) h.1 f.1 (omega arith) in
        rw (e, apply_all)
          (
            elim all_spent [
              | inl (none_left, total) ↦ inl (none_left, omega (arith, total))
              | inr stopped ↦ inr stopped
            ],
            omega arith,
            omega arith,
          )
    | inr (x, e) ↦ rw (e, apply_all) (inr (x, refl), omega arith, omega arith)
  ]
