-- ===== src/Registry.antt =====
-- validator_registry.go: the validators, stored under their addresses in a `Storage`.
pub mod Lookups
pub mod Listing
pub mod Clearing
mod Tests
use dyphira_chain.Common.{
  ℕ, Bool, true, false, List, [], ◌∷◌, Option, none, some, add64, if◌then◌else◌,
}
use dyphira_chain.Types.{Address, Validator}
use dyphira_chain.Storage.{
  Key, validator_key, block_key, tip_key, height_key, other_key, Data, validator_json, block_json,
  number_json, hash_bytes, other_bytes, Entries, Storage,
}

-- What `GetValidator` returns: a validator, nil with no error, or an error of json.Unmarshal.
pub data Lookup : Type 0 where
  found : Validator → Lookup
  missing : Lookup
  failed : Lookup

-- How an update ends: with the store that it leaves, with an error, or in a panic on a nil
-- pointer.
pub data Outcome (S : Type 0) : Type 0 where
  done : S → Outcome S
  error : Outcome S
  panic : Outcome S

-- The zero value of `Validator`.
abbrev pub zero_validator : Validator
zero_validator = record {
  address = 0;
  stake = 0;
  delegated_stake = 0;
  compute_reputation = 0;
  participating = false;
}

-- `json.Unmarshal` into a `Validator`. The object of a block has no field of a validator, so it
-- leaves the zero value and gives no error.
unfoldable pub decode_validator : Data → Lookup
decode_validator (validator_json v) = found v
decode_validator (block_json b) = found zero_validator
decode_validator _ = failed

module _ {S : Type 0} ⦃st : Storage S⦄ where
  -- `RegisterValidator`; a nil pointer is ignored.
  unfoldable pub register_validator : S → Option Validator → S
  register_validator s none = s
  register_validator s (some v) = st.put s (validator_key v.address) (validator_json v)

  unfoldable pub get_validator : S → Address → Lookup
  unfolding decode_validator
  get_validator s addr = elim (st.get s (validator_key addr)) [
    | none ↦ missing
    | some bytes ↦ decode_validator bytes
  ]

  -- `UpdateStake`, which writes to the validator without a test for nil.
  unfoldable pub update_stake : S → Address → ℕ → Outcome S
  update_stake s addr stake = elim (get_validator s addr) [
    | found v ↦ done (register_validator s (some (record v { stake = stake })))
    | missing ↦ panic
    | failed ↦ error
  ]

  -- `DelegateStake`; for an unknown validator it returns the nil error of the lookup.
  unfoldable pub delegate_stake : S → Address → Address → ℕ → Outcome S
  delegate_stake s delegator validator amount = elim (get_validator s validator) [
    | found v ↦ done (
        register_validator s (some (record v { delegated_stake = add64 v.delegated_stake amount })))
    | missing ↦ done s
    | failed ↦ error
  ]

  unfoldable pub update_reputation : S → Address → ℕ → Outcome S
  update_reputation s addr rep = elim (get_validator s addr) [
    | found v ↦ done (register_validator s (some (record v { compute_reputation = rep })))
    | missing ↦ panic
    | failed ↦ error
  ]

-- The keys with the prefix "validator_".
abbrev pub is_validator_key : Key → Bool
is_validator_key (validator_key a) = true
is_validator_key _ = false

-- The loop of `GetAllValidators`; what does not decode is passed over.
unfoldable pub collect : Entries → List Validator
unfolding decode_validator
collect [] = []
collect ((validator_key a, bytes) ∷ m) =
    let rest = collect m in
    elim (decode_validator bytes) [ found v ↦ v ∷ rest | missing ↦ rest | failed ↦ rest ]
collect ((_, bytes) ∷ m) = collect m

module _ {S : Type 0} ⦃st : Storage S⦄ where
  unfoldable pub get_all_validators : S → List Validator
  get_all_validators s = collect (st.list s)

  -- The loop of `ClearAllValidators` over the listed keys.
  unfoldable pub clear_keys : S → Entries → S
  clear_keys s [] = s
  clear_keys s ((k, _) ∷ m) = clear_keys (if is_validator_key k then st.delete s k else s) m

  unfoldable pub clear_all_validators : S → S
  unfolding clear_keys
  clear_all_validators s = clear_keys s (st.list s)
