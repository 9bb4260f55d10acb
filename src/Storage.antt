-- ===== src/Storage.antt =====
-- storage.go: the interface `Storage` of a key-value store, and `MemoryStore`, which meets it.
-- Keys are byte strings that the program forms in few ways; they are kept as how they are formed.
-- Values are what json.Marshal or a slice of a hash gave; they are kept as what was encoded.
mod Tests
use dyphira_chain.Common.{
  ℕ, ◌≡◌, ◌↔◌, refl, Bool, true, false, ◌||◌, List, [], ◌∷◌, map, Option, none, some, ◌==◌,
  if◌then◌else◌, arith,
}
use dyphira_chain.Types.{Address, Hash, Validator, Block}

-- "validator_" and an address; "block_" and a height in decimal; "tip"; "height"; other strings
-- without these prefixes.
pub data Key : Type 0 where
  validator_key : Address → Key
  block_key : ℕ → Key
  tip_key height_key : Key
  other_key : ℕ → Key

-- Validators, blocks and numbers as JSON; the bytes of a hash, and other bytes, that are not JSON.
pub data Data : Type 0 where
  validator_json : Validator → Data
  block_json : Block → Data
  number_json : ℕ → Data
  hash_bytes : Hash → Data
  other_bytes : ℕ → Data

unfoldable pub same_key : Key → Key → Bool
same_key (validator_key a) (validator_key b) = a == b
same_key (block_key a) (block_key b) = a == b
same_key tip_key tip_key = true
same_key height_key height_key = true
same_key (other_key a) (other_key b) = a == b
same_key _ _ = false

pub same_key_iff : (j k : Key) → (same_key j k ≡ true) ↔ (j ≡ k)
unfolding same_key
same_key_iff (validator_key a) (validator_key b) = ground arith
same_key_iff (block_key a) (block_key b) = ground arith
same_key_iff (other_key a) (other_key b) = ground arith
same_key_iff _ _ = ground arith

abbrev pub Entries : Type 0
Entries = List (Key × Data)

unfoldable pub find : Key → Entries → Option Data
find k [] = none
find k ((j, v) ∷ m) = let rest = find k m in if same_key j k then some v else rest

-- Is the key bound in the list?
abbrev pub has_key : Key → Entries → Bool
has_key k [] = false
has_key k ((j, v) ∷ m) = same_key j k || has_key k m

-- No key is bound twice.
abbrev pub HasDistinctKeys : Entries → Type 0
HasDistinctKeys [] = Unit
HasDistinctKeys ((k, v) ∷ m) = (has_key k m ≡ false) × HasDistinctKeys m

-- `Storage`: its operations, with what callers rely on. `Get` reports a missing key by an error
-- that says "not found", which is `none`. The operations do not fail otherwise.
pub record Storage (S : Type 0) : Type 0 where
  pub put : S → Key → Data → S
  pub get : S → Key → Option Data
  pub delete : S → Key → S
  pub list : S → Entries
  pub get-put :
      (s : S) (k j : Key) (v : Data)
      → get (put s k v) j ≡ (if same_key k j then some v else get s j)
  pub get-delete :
      (s : S) (k j : Key) → get (delete s k) j ≡ (if same_key k j then none else get s j)
  pub find-list : (s : S) (k : Key) → find k (list s) ≡ get s k
  pub list-distinct : (s : S) → HasDistinctKeys (list s)

-- `MemoryStore`, whose map is a list of entries.
unfoldable pub put_entry : Key → Data → Entries → Entries
put_entry k v [] = (k, v) ∷ []
put_entry k v ((j, w) ∷ m) = if same_key j k then (k, v) ∷ m else (j, w) ∷ put_entry k v m

unfoldable pub delete_entry : Key → Entries → Entries
delete_entry k [] = []
delete_entry k ((j, w) ∷ m) =
    let rest = delete_entry k m in if same_key j k then rest else (j, w) ∷ rest

pub find-put :
    (k j : Key) (v : Data) (m : Entries)
    → find j (put_entry k v m) ≡ (if same_key k j then some v else find j m)
unfolding find put_entry
find-put k j v [] = ground arith
find-put k j v ((i, w) ∷ m) =
    ground (arith, find-put k j v m, same_key_iff i k, same_key_iff k j, same_key_iff i j)

pub find-delete :
    (k j : Key) (m : Entries)
    → find j (delete_entry k m) ≡ (if same_key k j then none else find j m)
unfolding find delete_entry
find-delete k j [] = ground arith
find-delete k j ((i, w) ∷ m) =
    ground (arith, find-delete k j m, same_key_iff i k, same_key_iff k j, same_key_iff i j)

has_key-put :
    (k j : Key) (v : Data) (m : Entries)
    → has_key j (put_entry k v m) ≡ (same_key k j || has_key j m)
unfolding put_entry
has_key-put k j v [] = refl
has_key-put k j v ((i, w) ∷ m) =
    ground (arith, has_key-put k j v m, same_key_iff i k, same_key_iff k j, same_key_iff i j)

has_key-delete :
    (k j : Key) (m : Entries) → has_key j m ≡ false → has_key j (delete_entry k m) ≡ false
unfolding delete_entry
has_key-delete k j [] h = refl
has_key-delete k j ((i, w) ∷ m) h = ground (arith, has_key-delete k j m)

pub put-HasDistinctKeys :
    (k : Key) (v : Data) (m : Entries) → HasDistinctKeys m → HasDistinctKeys (put_entry k v m)
unfolding put_entry
put-HasDistinctKeys k v [] h = (refl, tt)
put-HasDistinctKeys k v ((i, w) ∷ m) h =
    ground (
      arith,
      put-HasDistinctKeys k v m h.1,
      has_key-put k i v m,
      same_key_iff i k,
      same_key_iff k i,
    )

pub delete-HasDistinctKeys :
    (k : Key) (m : Entries) → HasDistinctKeys m → HasDistinctKeys (delete_entry k m)
unfolding delete_entry
delete-HasDistinctKeys k [] h = tt
delete-HasDistinctKeys k ((i, w) ∷ m) h =
    ground (arith, delete-HasDistinctKeys k m h.1, has_key-delete k i m h.0)

-- The map of a memory store, in which Go keeps one value for a key.
abbrev pub MemoryStore : Type 0
MemoryStore = (m : Entries) × HasDistinctKeys m

instance abbrev pub memory_store : Storage MemoryStore
memory_store = record {
  put = λ s k v. (put_entry k v s.0, put-HasDistinctKeys k v s.0 s.1);
  get = λ s k. find k s.0;
  delete = λ s k. (delete_entry k s.0, delete-HasDistinctKeys k s.0 s.1);
  list = λ s. s.0;
  get-put = λ s k j v. find-put k j v s.0;
  get-delete = λ s k j. find-delete k j s.0;
  find-list = λ s k. refl;
  list-distinct = λ s. s.1;
}

-- `NewMemoryStore`
abbrev pub new_memory_store : MemoryStore
new_memory_store = ([], tt)
