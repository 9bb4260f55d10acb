-- ===== src/Registry/Clearing.antt =====
-- What `ClearAllValidators` removes, and that registering keeps the registry sound.
use dyphira_chain.Common.{◌≡◌, ◌&&◌, [], ◌∷◌, none, some, if◌then◌else◌, arith}
use dyphira_chain.Types.{Validator}
use dyphira_chain.Storage.{
  Key, validator_key, validator_json, Entries, Storage, same_key, same_key_iff, has_key,
}
use dyphira_chain.Registry.{is_validator_key, clear_keys, clear_all_validators, register_validator}
use dyphira_chain.Registry.Listing.{IsSound, not_has_key}

module _ {S : Type 0} ⦃st : Storage S⦄ where
  get-clear_keys :
      (s : S) (m : Entries) (k : Key)
      → st.get (clear_keys s m) k ≡ (if is_validator_key k && has_key k m then none else st.get s k)
  unfolding clear_keys
  get-clear_keys s [] k = ground arith
  get-clear_keys s ((j, bytes) ∷ m) k = ground (
    arith,
    get-clear_keys s m k,
    get-clear_keys (st.delete s j) m k,
    st.get-delete s j k,
    same_key_iff j k,
  )

  -- Clearing removes every validator's key and leaves every other key as it was.
  pub clear_all_validators_lem :
      (s : S) (k : Key)
      → st.get (clear_all_validators s) k ≡ (if is_validator_key k then none else st.get s k)
  unfolding clear_all_validators
  clear_all_validators_lem s k =
      ground (arith, get-clear_keys s (st.list s) k, not_has_key k (st.list s), st.find-list s k)

  -- Registering a validator keeps the registry sound.
  pub register-IsSound :
      (s : S) (v : Validator) → IsSound s → IsSound (register_validator s (some v))
  unfolding register_validator same_key
  register-IsSound s v h = record {
    holds = λ a bytes e. ground (
      arith,
      st.get-put s (validator_key v.address) (validator_key a) (validator_json v),
      h.holds a bytes,
    );
  }
