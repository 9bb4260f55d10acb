-- ===== src/Registry/Listing.antt =====
-- What `GetAllValidators` and `ClearAllValidators` list and remove.
use dyphira_chain.Common.{
  ◌≡◌, refl, false, List, [], ◌∷◌, map, Option, none, some, ◌==◌, if◌then◌else◌, contains,
  IsDistinct, arith, sym, ◌∙◌,
}
use dyphira_chain.Types.{Address, Validator}
use dyphira_chain.Storage.{
  Key, validator_key, block_key, tip_key, height_key, other_key, Data, validator_json, Entries,
  Storage, same_key, same_key_iff, find, has_key, HasDistinctKeys,
}
use dyphira_chain.Registry.{
  Lookup, found, missing, decode_validator, get_validator, collect, get_all_validators,
}

-- The first validator in a list with this address.
unfoldable pub find_validator : Address → List Validator → Option Validator
find_validator a [] = none
find_validator a (v ∷ vs) = if v.address == a then some v else find_validator a vs

-- Every entry under a validator's key holds a validator with that address.
abbrev pub AreKeyed : Entries → Type 0
AreKeyed [] = Unit
AreKeyed ((validator_key a, bytes) ∷ m) =
    ((v : Validator) × (bytes ≡ validator_json v) × (v.address ≡ a)) × AreKeyed m
AreKeyed ((_, bytes) ∷ m) = AreKeyed m

abbrev as_lookup : Option Data → Lookup
as_lookup none = missing
as_lookup (some bytes) = decode_validator bytes

abbrev of_option : Option Validator → Lookup
of_option none = missing
of_option (some v) = found v

find-collect :
    (a : Address) (m : Entries)
    → AreKeyed m
    → of_option (find_validator a (collect m)) ≡ as_lookup (find (validator_key a) m)
unfolding find_validator collect find same_key decode_validator
find-collect a [] k = refl
find-collect a ((validator_key b, bytes) ∷ m) k = ground (arith, find-collect a m k.1, k.0.1, k.0.2)
find-collect a ((block_key b, bytes) ∷ m) k = find-collect a m k
find-collect a ((tip_key, bytes) ∷ m) k = find-collect a m k
find-collect a ((height_key, bytes) ∷ m) k = find-collect a m k
find-collect a ((other_key b, bytes) ∷ m) k = find-collect a m k

abbrev Holds : Address → Data → Type 0
Holds a bytes = (v : Validator) × (bytes ≡ validator_json v) × (v.address ≡ a)

pub not_has_key : (k : Key) (m : Entries) → has_key k m ≡ false → find k m ≡ none
unfolding find
not_has_key k [] h = refl
not_has_key k ((j, v) ∷ m) h = ground (arith, not_has_key k m)

-- A bound key is not the head's, where keys are distinct.
find-tail :
    (j k : Key) (v bytes : Data) (m : Entries)
    → has_key j m ≡ false
    → find k m ≡ some bytes
    → find k ((j, v) ∷ m) ≡ some bytes
unfolding find
find-tail j k v bytes m h e = ground (arith, not_has_key j m h, same_key_iff j k)

AreKeyed-of-find :
    (m : Entries)
    → HasDistinctKeys m
    → ((a : Address) (bytes : Data) → find (validator_key a) m ≡ some bytes → Holds a bytes)
    → AreKeyed m
unfolding find same_key
AreKeyed-of-find [] d h = tt
AreKeyed-of-find ((validator_key b, bytes) ∷ m) d h = (
  h b bytes (ground arith),
  AreKeyed-of-find m d.1
      (λ a x e. h a x (find-tail (validator_key b) (validator_key a) bytes x m d.0 e)),
)
AreKeyed-of-find ((block_key b, bytes) ∷ m) d h =
    AreKeyed-of-find m d.1
      (λ a x e. h a x (find-tail (block_key b) (validator_key a) bytes x m d.0 e))
AreKeyed-of-find ((tip_key, bytes) ∷ m) d h =
    AreKeyed-of-find m d.1 (λ a x e. h a x (find-tail tip_key (validator_key a) bytes x m d.0 e))
AreKeyed-of-find ((height_key, bytes) ∷ m) d h =
    AreKeyed-of-find m d.1 (λ a x e. h a x (find-tail height_key (validator_key a) bytes x m d.0 e))
AreKeyed-of-find ((other_key b, bytes) ∷ m) d h =
    AreKeyed-of-find m d.1
      (λ a x e. h a x (find-tail (other_key b) (validator_key a) bytes x m d.0 e))

contains-collect :
    (a : Address) (m : Entries)
    → AreKeyed m
    → has_key (validator_key a) m ≡ false
    → contains a (map (λ v. v.address) (collect m)) ≡ false
unfolding collect same_key decode_validator
contains-collect a [] k h = refl
contains-collect a ((validator_key b, bytes) ∷ m) k h =
    ground (arith, contains-collect a m k.1, k.0.1, k.0.2)
contains-collect a ((block_key b, bytes) ∷ m) k h = contains-collect a m k h
contains-collect a ((tip_key, bytes) ∷ m) k h = contains-collect a m k h
contains-collect a ((height_key, bytes) ∷ m) k h = contains-collect a m k h
contains-collect a ((other_key b, bytes) ∷ m) k h = contains-collect a m k h

collect-IsDistinct :
    (m : Entries) → AreKeyed m → HasDistinctKeys m → IsDistinct (map (λ v. v.address) (collect m))
unfolding collect decode_validator
collect-IsDistinct [] k d = tt
collect-IsDistinct ((validator_key b, bytes) ∷ m) k d =
    ground (arith, collect-IsDistinct m k.1 d.1, contains-collect b m k.1 d.0, k.0.1, k.0.2)
collect-IsDistinct ((block_key b, bytes) ∷ m) k d = collect-IsDistinct m k d.1
collect-IsDistinct ((tip_key, bytes) ∷ m) k d = collect-IsDistinct m k d.1
collect-IsDistinct ((height_key, bytes) ∷ m) k d = collect-IsDistinct m k d.1
collect-IsDistinct ((other_key b, bytes) ∷ m) k d = collect-IsDistinct m k d.1

module _ {S : Type 0} ⦃st : Storage S⦄ where
  -- Every validator's key holds the text of a validator with that address.
  pub record IsSound (s : S) : Type 0 where
    pub holds :
        (a : Address) (bytes : Data)
        → st.get s (validator_key a) ≡ some bytes
        → (v : Validator) × (bytes ≡ validator_json v) × (v.address ≡ a)

  pub list-AreKeyed : (s : S) → IsSound s → AreKeyed (st.list s)
  list-AreKeyed s h =
      AreKeyed-of-find (st.list s) (st.list-distinct s)
        (λ a bytes e. h.holds a bytes (sym (st.find-list s (validator_key a)) ∙ e))

  -- The list of all validators holds, for each address, what a lookup finds there.
  pub get_all_validators_complete :
      (s : S) (a : Address)
      → IsSound s
      → get_validator s a
        ≡ (elim (find_validator a (get_all_validators s)) [ none ↦ missing | some v ↦ found v ])
  unfolding get_all_validators get_validator
  get_all_validators_complete s a h =
      ground
        (arith, find-collect a (st.list s) (list-AreKeyed s h), st.find-list s (validator_key a))

  -- It lists no address twice.
  pub get_all_validators-IsDistinct :
      (s : S) → IsSound s → IsDistinct (map (λ v. v.address) (get_all_validators s))
  unfolding get_all_validators
  get_all_validators-IsDistinct s h =
      collect-IsDistinct (st.list s) (list-AreKeyed s h) (st.list-distinct s)
