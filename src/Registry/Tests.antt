-- ===== src/Registry/Tests.antt =====
-- A sample registry in a memory store, and the theorems at it.
use dyphira_chain.Common.{ℕ, ◌≡◌, refl, true, none, some, [], ◌∷◌}
use dyphira_chain.Types.{Address, Validator}
use dyphira_chain.Storage.{MemoryStore, memory_store, new_memory_store, find, same_key, put_entry}
use dyphira_chain.Registry.{
  found, missing, register_validator, get_validator, get_all_validators, collect,
}
use dyphira_chain.Registry.Lookups.{IsKeyed, register-IsKeyed}
use dyphira_chain.Registry.Listing.{IsSound, find_validator, get_all_validators_complete}
use dyphira_chain.Registry.Clearing.{register-IsSound}

abbrev validator : Address → ℕ → Validator
validator a stake = record {
  address = a;
  stake = stake;
  delegated_stake = 0;
  compute_reputation = 0;
  participating = true;
}

abbrev first : MemoryStore
first = register_validator new_memory_store (some (validator 5 100))

abbrev both : MemoryStore
both = register_validator first (some (validator 6 70))

empty-IsSound : IsSound new_memory_store
unfolding find
empty-IsSound = record { holds = λ a bytes e. cc }

both-IsSound : IsSound both
both-IsSound =
    register-IsSound first (validator 6 70)
      (register-IsSound new_memory_store (validator 5 100) empty-IsSound)

empty-IsKeyed : IsKeyed new_memory_store
unfolding find get_validator
empty-IsKeyed = record { own = λ a v e. cc }

both-IsKeyed : IsKeyed both
both-IsKeyed =
    register-IsKeyed first (validator 6 70)
      (register-IsKeyed new_memory_store (validator 5 100) empty-IsKeyed)

get_all_validators_complete_example :
    get_validator both 6
    ≡ (elim (find_validator 6 (get_all_validators both)) [ none ↦ missing | some v ↦ found v ])
get_all_validators_complete_example = get_all_validators_complete both 6 both-IsSound

listed : get_all_validators both ≡ validator 5 100 ∷ validator 6 70 ∷ []
unfolding get_all_validators register_validator put_entry same_key collect
listed = refl
