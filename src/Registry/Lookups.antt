-- ===== src/Registry/Lookups.antt =====
-- What a lookup finds after each update of the registry.
use dyphira_chain.Common.{
  ℕ, ◌≡◌, ◌⊎◌, inl, inr, refl, some, ◌==◌, ==_iff, if◌then◌else◌, add64, arith, subst,
}
use dyphira_chain.Types.{Address, Validator}
use dyphira_chain.Storage.{validator_key, validator_json, Storage, same_key}
use dyphira_chain.Registry.{
  Lookup, found, missing, failed, done, error, panic, decode_validator, register_validator,
  get_validator, update_stake, delegate_stake, update_reputation,
}

module _ {S : Type 0} ⦃st : Storage S⦄ where
  -- A registered validator is found under its address, and every other lookup is unchanged.
  pub get-register :
      (s : S) (v : Validator) (a : Address)
      → get_validator (register_validator s (some v)) a
        ≡ (if v.address == a then found v else get_validator s a)
  unfolding get_validator register_validator decode_validator same_key
  get-register s v a =
      ground (arith, st.get-put s (validator_key v.address) (validator_key a) (validator_json v))

  -- Validators are stored under their own addresses.
  pub record IsKeyed (s : S) : Type 0 where
    pub own : (a : Address) (v : Validator) → get_validator s a ≡ found v → v.address ≡ a

  pub register-IsKeyed :
      (s : S) (v : Validator) → IsKeyed s → IsKeyed (register_validator s (some v))
  register-IsKeyed s v k = record {
    own = λ a w e. ground (arith, get-register s v a, k.own a w, ==_iff v.address a);
  }

  -- The store in which the validator at `a` has become `w` and all others are as before.
  abbrev pub Replaces : S → Address → Validator → S → Type 0
  Replaces s a w s' =
      (b : Address) → get_validator s' b ≡ (if a == b then found w else get_validator s b)

  register-Replaces :
      (s : S) (a : Address) (w : Validator)
      → w.address ≡ a
      → Replaces s a w (register_validator s (some w))
  register-Replaces s a w e b =
      subst
        (λ k.
          get_validator (register_validator s (some w)) b
          ≡ (if k == b then found w else get_validator s b))
        e (get-register s w b)

pub Lookup-cases : (l : Lookup) → (l ≡ missing) ⊎ (l ≡ failed) ⊎ ((v : Validator) × (l ≡ found v))
Lookup-cases (found v) = inr (inr (v, refl))
Lookup-cases missing = inl refl
Lookup-cases failed = inr (inl refl)

module _ {S : Type 0} ⦃st : Storage S⦄ (s : S) (k : IsKeyed s) where
  -- `UpdateStake` panics on an unknown validator, fails on a corrupt one, and else gives the
  -- validator its new stake, keeping its other fields and all other validators.
  pub update_stake_lem :
      (a : Address) (stake : ℕ)
      → ((get_validator s a ≡ missing) × (update_stake s a stake ≡ panic))
        ⊎ ((get_validator s a ≡ failed) × (update_stake s a stake ≡ error))
        ⊎ ((v : Validator) × (s' : S) × (get_validator s a ≡ found v)
            × (update_stake s a stake ≡ done s')
            × Replaces s a (record v { stake = stake }) s')
  unfolding update_stake
  update_stake_lem a stake = elim (Lookup-cases (get_validator s a)) [
    | inl e ↦ inl (e, rw (e, update_stake))
    | inr (inl e) ↦ inr (inl (e, rw (e, update_stake)))
    | inr (inr (v, e)) ↦
        let w : Validator = record v { stake = stake } in
        inr (
          inr (
            v,
            register_validator s (some w),
            e,
            rw (e, update_stake),
            register-Replaces s a w (k.own a v e),
          ))
  ]

  -- `DelegateStake` to an unknown validator succeeds and changes nothing; to a known one it adds
  -- the amount to the delegated stake, keeping the other fields and all other validators.
  pub delegate_stake_lem :
      (delegator a : Address) (amount : ℕ)
      → ((get_validator s a ≡ missing) × (delegate_stake s delegator a amount ≡ done s))
        ⊎ ((get_validator s a ≡ failed) × (delegate_stake s delegator a amount ≡ error))
        ⊎ ((v : Validator) × (s' : S) × (get_validator s a ≡ found v)
            × (delegate_stake s delegator a amount ≡ done s')
            × Replaces s a (record v { delegated_stake = add64 v.delegated_stake amount }) s')
  unfolding delegate_stake
  delegate_stake_lem delegator a amount = elim (Lookup-cases (get_validator s a)) [
    | inl e ↦ inl (e, rw (e, delegate_stake))
    | inr (inl e) ↦ inr (inl (e, rw (e, delegate_stake)))
    | inr (inr (v, e)) ↦
        let w : Validator = record v { delegated_stake = add64 v.delegated_stake amount } in
        inr (
          inr (
            v,
            register_validator s (some w),
            e,
            rw (e, delegate_stake),
            register-Replaces s a w (k.own a v e),
          ))
  ]

  -- `UpdateReputation` panics on an unknown validator, fails on a corrupt one, and else changes
  -- that validator's reputation alone.
  pub update_reputation_lem :
      (a : Address) (rep : ℕ)
      → ((get_validator s a ≡ missing) × (update_reputation s a rep ≡ panic))
        ⊎ ((get_validator s a ≡ failed) × (update_reputation s a rep ≡ error))
        ⊎ ((v : Validator) × (s' : S) × (get_validator s a ≡ found v)
            × (update_reputation s a rep ≡ done s')
            × Replaces s a (record v { compute_reputation = rep }) s')
  unfolding update_reputation
  update_reputation_lem a rep = elim (Lookup-cases (get_validator s a)) [
    | inl e ↦ inl (e, rw (e, update_reputation))
    | inr (inl e) ↦ inr (inl (e, rw (e, update_reputation)))
    | inr (inr (v, e)) ↦
        let w : Validator = record v { compute_reputation = rep } in
        inr (
          inr (
            v,
            register_validator s (some w),
            e,
            rw (e, update_reputation),
            register-Replaces s a w (k.own a v e),
          ))
  ]
