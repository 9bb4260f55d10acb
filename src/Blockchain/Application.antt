-- ===== src/Blockchain/Application.antt =====
-- blockchain.go: `ApplyBlockWithRegistry`, which applies a block to the accounts and to the
-- registry of validators.
use dyphira_chain.Common.{
  ℕ, ◌≡◌, ◌<◌, word_mod, add64_exact, refl, sym, ap, subst, ◌∙◌, ==_iff, Bool-cases, true, List, [],
  ◌∷◌, ◌++◌, Option, none, some, ◌==◌, if◌then◌else◌, add64, arith, ◌⊎◌, inl, inr, Option-cases,
}
use dyphira_chain.Types.{
  Address, Account, Transaction, TxType, transfer, participation, register_validator, delegate,
  unknown, Validator, Block,
}
use dyphira_chain.Trie.{Digest}
use dyphira_chain.Storage.{Storage}
use dyphira_chain.State.{State, apply_transaction, apply_all, Result, ok, err}
use dyphira_chain.State
use dyphira_chain.Registry
use dyphira_chain.Registry.{Lookup, found, missing, failed, get_validator}
use dyphira_chain.Registry.Lookups.{get-register, IsKeyed, register-IsKeyed, Lookup-cases}

pub data ApplyError : Type 0 where
  unregistered : ApplyError
  refused : State.Error → ApplyError

-- The validator that a first registration makes.
abbrev pub first_registration : Transaction → Validator
first_registration tx = record {
  address = tx.from;
  stake = tx.value;
  delegated_stake = 0;
  compute_reputation = 0;
  participating = true;
}

abbrev pub raised_stake : Validator → ℕ → Validator
raised_stake v value = record v { stake = add64 v.stake value; participating = true }

Result-cases : (r : Result) → ((s : State) × (r ≡ ok s)) ⊎ ((e : State.Error) × (r ≡ err e))
Result-cases (ok s) = inl (s, refl)
Result-cases (err e) = inr (e, refl)

module _ {S : Type 0} ⦃st : Storage S⦄ where
  -- The `switch` on the type: the registry after it; `none` is its error.
  unfoldable pub update_registry : S → TxType → Transaction → Option S
  update_registry s participation tx = elim (get_validator s tx.from) [
    | found v ↦
        if v.participating
        then some s
        else some (Registry.register_validator s (some (record v { participating = true })))
    | missing ↦ some s
    | failed ↦ some s
  ]
  update_registry s register_validator tx = elim (get_validator s tx.from) [
    | found v ↦ some (Registry.register_validator s (some (raised_stake v tx.value)))
    | missing ↦ some (Registry.register_validator s (some (first_registration tx)))
    | failed ↦ some (Registry.register_validator s (some (first_registration tx)))
  ]
  update_registry s delegate tx = elim (get_validator s tx.to) [
    | found v ↦ some (
        Registry.register_validator s
          (some (record v { delegated_stake = add64 v.delegated_stake tx.value })))
    | missing ↦ none
    | failed ↦ none
  ]
  update_registry s transfer tx = some s
  update_registry s unknown tx = some s

  -- The loop: the registry first, then the accounts; an error ends it and undoes nothing.
  unfoldable pub apply_transactions :
      ⦃d : Digest Account⦄ → State → S → List Transaction → State × S × Option ApplyError
  apply_transactions state s [] = (state, s, none)
  apply_transactions state s (tx ∷ txs) = elim (update_registry s tx.type tx) [
    | none ↦ (state, s, some unregistered)
    | some s' ↦ elim (apply_transaction state tx) [
      | err e ↦ (state, s', some (refused e))
      | ok state' ↦ apply_transactions state' s' txs
    ]
  ]

  unfoldable pub apply_block_with_registry :
      ⦃d : Digest Account⦄ → Block → State → S → State × S × Option ApplyError
  unfolding apply_transactions
  apply_block_with_registry block state s = apply_transactions state s block.transactions

  module _ ⦃d : Digest Account⦄ where
    -- A block that is applied without error leaves the accounts that applying its transactions
    -- alone leaves.
    pub apply_transactions-state :
        (state : State) (s : S) (txs : List Transaction)
        → (apply_transactions state s txs).2 ≡ none
        → apply_all state txs ≡ ((apply_transactions state s txs).0, none)
    unfolding apply_transactions apply_all
    apply_transactions-state state s [] e = refl
    apply_transactions-state state s (tx ∷ txs) e =
        elim (Option-cases (update_registry s tx.type tx)) [
          | inl stopped ↦ absurd (ground (arith, e, stopped))
          | inr (s', updated) ↦ elim (Result-cases (apply_transaction state tx)) [
            | inr (x, wrong) ↦ absurd (ground (arith, e, updated, wrong))
            | inl (state', right) ↦
                ground (arith, e, updated, right, apply_transactions-state state' s' txs)
          ]
        ]

    -- The stake of an address, which is 0 where the registry knows no validator.
    abbrev pub stake_of : S → Address → ℕ
    stake_of s a = elim (get_validator s a) [ found v ↦ v.stake | missing ↦ 0 | failed ↦ 0 ]

    apply_transactions-append :
        (state state' : State) (s s' : S) (front back : List Transaction)
        → apply_transactions state s front ≡ (state', s', none)
        → apply_transactions state s (front ++ back) ≡ apply_transactions state' s' back
    unfolding apply_transactions
    apply_transactions-append state state' s s' [] back e =
        ap (λ x. apply_transactions x s back) (ap (λ x. x.0) e)
        ∙ ap (λ x. apply_transactions state' x back) (ap (λ x. x.1) e)
    apply_transactions-append state state' s s' (tx ∷ front) back e =
        elim (Option-cases (update_registry s tx.type tx)) [
          | inl stopped ↦ absurd (ground (arith, e, stopped))
          | inr (s1, updated) ↦ elim (Result-cases (apply_transaction state tx)) [
            | inr (x, wrong) ↦ absurd (ground (arith, e, updated, wrong))
            | inl (state1, right) ↦
                rw (updated, apply_transactions)
                  (rw right (
                    apply_transactions-append state1 state' s1 s' front back
                      (ground (arith, e, updated, right))))
          ]
        ]

    update_registry-IsKeyed :
        (s s' : S) (ty : TxType) (tx : Transaction)
        → IsKeyed s
        → update_registry s ty tx ≡ some s'
        → IsKeyed s'
    unfolding update_registry
    update_registry-IsKeyed s s' transfer tx k e = subst IsKeyed (ground (arith, e)) k
    update_registry-IsKeyed s s' unknown tx k e = subst IsKeyed (ground (arith, e)) k
    update_registry-IsKeyed s s' participation tx k e =
        elim (Lookup-cases (get_validator s tx.from)) [
          | inl absent ↦ subst IsKeyed (ground (arith, absent, e)) k
          | inr (inl absent) ↦ subst IsKeyed (ground (arith, absent, e)) k
          | inr (inr (v, at)) ↦ elim (Bool-cases v.participating) [
            | inl here ↦ subst IsKeyed (ground (arith, at, here, e)) k
            | inr away ↦
                subst IsKeyed (ground (arith, at, away, e))
                  (register-IsKeyed s (record v { participating = true }) k)
          ]
        ]
    update_registry-IsKeyed s s' register_validator tx k e =
        elim (Lookup-cases (get_validator s tx.from)) [
          | inl absent ↦
              subst IsKeyed (ground (arith, absent, e))
                (register-IsKeyed s (first_registration tx) k)
          | inr (inl absent) ↦
              subst IsKeyed (ground (arith, absent, e))
                (register-IsKeyed s (first_registration tx) k)
          | inr (inr (v, at)) ↦
              subst IsKeyed (ground (arith, at, e)) (register-IsKeyed s (raised_stake v tx.value) k)
        ]
    update_registry-IsKeyed s s' delegate tx k e = elim (Lookup-cases (get_validator s tx.to)) [
      | inl absent ↦ absurd (ground (arith, absent, e))
      | inr (inl absent) ↦ absurd (ground (arith, absent, e))
      | inr (inr (v, at)) ↦
          subst IsKeyed (ground (arith, at, e))
            (register-IsKeyed s (record v { delegated_stake = add64 v.delegated_stake tx.value }) k)
    ]

    apply_transactions-IsKeyed :
        (state : State) (s : S) (txs : List Transaction)
        → IsKeyed s
        → IsKeyed (apply_transactions state s txs).1
    unfolding apply_transactions
    apply_transactions-IsKeyed state s [] k = k
    apply_transactions-IsKeyed state s (tx ∷ txs) k =
        elim (Option-cases (update_registry s tx.type tx)) [
          | inl stopped ↦ rw (stopped, apply_transactions) k
          | inr (s1, updated) ↦
              let k1 = update_registry-IsKeyed s s1 tx.type tx k updated in
              elim (Result-cases (apply_transaction state tx)) [
                | inr (x, wrong) ↦ rw (updated, apply_transactions) (rw wrong k1)
                | inl (state1, right) ↦
                    rw (updated, apply_transactions)
                      (rw right (apply_transactions-IsKeyed state1 s1 txs k1))
              ]
        ]

    apply_refused :
        (state : State) (s s' : S) (tx : Transaction) (txs : List Transaction) (e : State.Error)
        → update_registry s tx.type tx ≡ some s'
        → apply_transaction state tx ≡ err e
        → apply_transactions state s (tx ∷ txs) ≡ (state, s', some (refused e))
    unfolding apply_transactions
    apply_refused state s s' tx txs e updated wrong =
        rw (updated, apply_transactions) (rw wrong refl)

    -- What a registration leaves in the registry.
    Registers : S → Transaction → S → Type 0
    Registers s tx s' =
        ((v : Validator) × (get_validator s' tx.from ≡ found v)
          × (v.participating ≡ true)
          × (v.stake ≡ add64 (stake_of s tx.from) tx.value))
        × ((a : Address) → (a ≡ tx.from) ⊎ (get_validator s' a ≡ get_validator s a))

    register-Registers :
        (s : S) (tx : Transaction) (v : Validator)
        → v.address ≡ tx.from
        → v.participating ≡ true
        → v.stake ≡ add64 (stake_of s tx.from) tx.value
        → Registers s tx (Registry.register_validator s (some v))
    unfolding Registers
    register-Registers s tx v own part stake = (
      (v, ground (arith, get-register s v tx.from, own, ==_iff v.address tx.from), part, stake),
      λ a. elim (Bool-cases (v.address == a)) [
        | inl same ↦ inl (sym ((==_iff v.address a).0 same) ∙ own)
        | inr other ↦ inr (get-register s v a ∙ (rw other refl))
      ],
    )

    update_registry-Registers :
        (s : S) (tx : Transaction)
        → IsKeyed s
        → tx.value < word_mod
        → (s' : S) × (update_registry s register_validator tx ≡ some s') × Registers s tx s'
    unfolding update_registry
    update_registry-Registers s tx k small = elim (Lookup-cases (get_validator s tx.from)) [
      | inl e ↦ (
        Registry.register_validator s (some (first_registration tx)),
        ground (arith, e),
        register-Registers s tx (first_registration tx) refl refl
            (ground (arith, e, add64_exact 0 tx.value (omega arith))),
      )
      | inr (inl e) ↦ (
        Registry.register_validator s (some (first_registration tx)),
        ground (arith, e),
        register-Registers s tx (first_registration tx) refl refl
            (ground (arith, e, add64_exact 0 tx.value (omega arith))),
      )
      | inr (inr (v, e)) ↦ (
        Registry.register_validator s (some (raised_stake v tx.value)),
        ground (arith, e),
        register-Registers s tx (raised_stake v tx.value) (k.own tx.from v e) refl
            (ground (arith, e)),
      )
    ]

    -- A block with a registration that the accounts refuse, after transactions that were applied, on
    -- a registry that the program wrote and with a value below 2^64: the block ends with the error,
    -- the accounts keep what the transactions before it did, and so does the registry; and the
    -- refused sender is registered there and takes part, whether it was known before or not, its
    -- stake raised by the value, modulo 2^64. No other validator differs.
    pub refused_registration_raises_stake :
        (state state' : State) (s s' : S) (front back : List Transaction) (tx : Transaction)
        (e : State.Error)
        → IsKeyed s
        → apply_transactions state s front ≡ (state', s', none)
        → tx.type ≡ register_validator
        → tx.value < word_mod
        → apply_transaction state' tx ≡ err e
        → let (accounts, registry, error) = apply_transactions state s (front ++ tx ∷ back) in
          (accounts ≡ state')
          × (error ≡ some (refused e))
          × ((v : Validator) × (get_validator registry tx.from ≡ found v)
              × (v.participating ≡ true)
              × (v.stake ≡ add64 (stake_of s' tx.from) tx.value))
          × ((a : Address) → (a ≡ tx.from) ⊎ (get_validator registry a ≡ get_validator s' a))
    unfolding Registers
    refused_registration_raises_stake state state' s s' front back tx e k before ty small wrong =
        let k' : IsKeyed s' =
          subst IsKeyed (ap (λ x. x.1) before) (apply_transactions-IsKeyed state s front k) in
        let (last, updated, (registered, others)) = update_registry-Registers s' tx k' small in
        let stops : apply_transactions state s (front ++ tx ∷ back)
            ≡ (state', last, some (refused e)) =
          apply_transactions-append state state' s s' front (tx ∷ back) before
          ∙ apply_refused state' s' last tx back e (ap (λ y. update_registry s' y tx) ty ∙ updated)
              wrong in
        rw stops (refl, refl, registered, others)
