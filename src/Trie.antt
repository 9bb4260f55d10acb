-- ===== src/Trie.antt =====
-- merkle_trie.go: a binary trie over the bits of a byte-string key.
-- A nil pointer is `nil`. Keys are lists of bytes, values are of any type. The digests that
-- sha3.Sum256 gives for a value and for two joined digests are a parameter, `Digest`.
pub mod Bits
pub mod Paths
pub mod Laws
pub mod Totals
mod Tests
use dyphira_chain.Common.{
  ℕ, zero, suc, ◌+◌, ◌-◌, ◌*◌, ◌/◌, ◌%◌, ◌^◌, Bool, List, [], ◌∷◌, Option, none, some, length,
  get_or, ◌==◌, if◌then◌else◌,
}
use dyphira_chain.Types.{Hash}

pub record Digest (V : Type 0) : Type 0 where
  pub of_value : V → Hash
  pub of_pair : Hash → Hash → Hash

-- `Node`: its hash, value, key and children.
pub data Node (V : Type 0) : Type 0 where
  nil : Node V
  node : Hash → Option V → List ℕ → Node V → Node V → Node V

-- `MerkleTrie` with its second copy of the bindings, `kvMap`.
pub record MerkleTrie (V : Type 0) : Type 0 where
  pub root : Node V
  pub kv_map : List (List ℕ × V)

-- `(key[depth/8] >> (7 - (depth % 8))) & 1`
unfoldable pub key_bit : List ℕ → ℕ → ℕ
key_bit key depth = (get_or key (depth / 8) 0) / 2 ^ (7 - depth % 8) % 2

-- Are two byte strings the same?
unfoldable pub same_bytes : List ℕ → List ℕ → Bool
same_bytes [] [] = Bool.true
same_bytes [] (y ∷ ys) = Bool.false
same_bytes (x ∷ xs) [] = Bool.false
same_bytes (x ∷ xs) (y ∷ ys) = let rest = same_bytes xs ys in if x == y then rest else Bool.false

module _ {V : Type 0} where
  abbrev pub node_hash : Node V → Hash
  node_hash nil = 0
  node_hash (node h v k l r) = h

  abbrev pub node_value : Node V → Option V
  node_value nil = none
  node_value (node h v k l r) = v

  abbrev pub node_key : Node V → List ℕ
  node_key nil = []
  node_key (node h v k l r) = k

  abbrev pub left : Node V → Node V
  left nil = nil
  left (node h v k l r) = l

  abbrev pub right : Node V → Node V
  right nil = nil
  right (node h v k l r) = r

  unfoldable pub new_merkle_trie : MerkleTrie V
  new_merkle_trie = record { root = node 0 none [] nil nil; kv_map = [] }

  -- `kvMap[string(key)] = value`
  unfoldable pub put_kv : List ℕ → V → List (List ℕ × V) → List (List ℕ × V)
  put_kv k v [] = (k, v) ∷ []
  put_kv k v ((j, w) ∷ m) =
      let rest = put_kv k v m in if same_bytes j k then (k, v) ∷ m else (j, w) ∷ rest

  -- `(*MerkleTrie).get`. The fuel bounds the levels still to go down; `none` is out of fuel.
  unfoldable pub get_node : ℕ → Node V → List ℕ → ℕ → Option (Node V)
  get_node zero t key depth = none
  get_node (suc fuel) nil key depth = some nil
  get_node (suc fuel) (node h v k l r) key depth =
      let go_left = get_node fuel l key (depth + 1) in
      let go_right = get_node fuel r key (depth + 1) in
      if depth == length key * 8
      then some (node h v k l r)
      else (if key_bit key depth == 0 then go_left else go_right)

  -- `Get`'s own test: a node with a value was found.
  unfoldable pub value_found : Option (Node V) → Option V
  value_found none = none
  value_found (some n) = node_value n

  -- `Get`, with fuel for every level of the key.
  unfoldable pub get : MerkleTrie V → List ℕ → Option V
  get t key = value_found (get_node (length key * 8 + 1) t.root key 0)

  -- `All`
  unfoldable pub all : MerkleTrie V → List (List ℕ × V)
  all t = t.kv_map

module _ {V : Type 0} ⦃d : Digest V⦄ where
  -- `recalculateHash`: a missing child counts as the zero hash.
  abbrev pub recalculate_hash : Node V → Node V → Hash
  recalculate_hash l r = d.of_pair (node_hash l) (node_hash r)

  -- `(*MerkleTrie).insert`; a nil node is first replaced by an empty one. Out of fuel the node
  -- is left as it is.
  unfoldable pub insert_node : ℕ → Node V → List ℕ → V → ℕ → Node V
  insert_node zero t key value depth = t
  insert_node (suc fuel) t key value depth =
      let new_left = insert_node fuel (left t) key value (depth + 1) in
      let new_right = insert_node fuel (right t) key value (depth + 1) in
      if depth == length key * 8
      then node (d.of_value value) (some value) key (left t) (right t)
      else (if key_bit key depth == 0
          then node (recalculate_hash new_left (right t)) (node_value t) (node_key t) new_left
              (right t)
          else node (recalculate_hash (left t) new_right) (node_value t) (node_key t) (left t)
              new_right)

  -- `Insert`
  unfoldable pub insert : MerkleTrie V → List ℕ → V → MerkleTrie V
  insert t key value = record {
    root = insert_node (length key * 8 + 1) t.root key value 0;
    kv_map = put_kv key value t.kv_map;
  }
