-- ===== src/Trie/Paths.antt =====
-- The trie's walks by key and depth are walks along a list of turns.
use dyphira_chain.Common.{
  ℕ, zero, suc, ◌+◌, ◌*◌, ◌≡◌, refl, Bool, List, [], ◌∷◌, some, length, if◌then◌else◌, arith,
}
use dyphira_chain.Trie.{
  Digest, Node, nil, node, MerkleTrie, node_value, node_key, left, right, get_node, get,
  value_found, insert_node, insert, recalculate_hash,
}
use dyphira_chain.Trie.Bits.{bits_from, bits}

module _ {V : Type 0} where
  -- The node at the end of a path; true goes left.
  unfoldable pub get_path : List Bool → Node V → Node V
  get_path [] t = t
  get_path (b ∷ p) nil = nil
  get_path (b ∷ p) (node h v k l r) =
      let go_left = get_path p l in let go_right = get_path p r in if b then go_left else go_right

  pub get_path-nil : (p : List Bool) → get_path p nil ≡ nil
  unfolding get_path
  get_path-nil [] = refl
  get_path-nil (b ∷ p) = refl

  -- With fuel for the levels that are left, the walk by depth ends at the end of the path.
  get_node-path :
      (n depth : ℕ) (t : Node V) (key : List ℕ)
      → depth + n ≡ length key * 8
      → get_node (suc n) t key depth ≡ some (get_path (bits_from key n depth) t)
  unfolding get_node get_path bits_from
  get_node-path zero depth nil key e = refl
  get_node-path zero depth (node h v k l r) key e = ground arith
  get_node-path (suc n) depth nil key e = refl
  get_node-path (suc n) depth (node h v k l r) key e = ground (
    arith,
    get_node-path n (depth + 1) l key (omega arith),
    get_node-path n (depth + 1) r key (omega arith),
  )

  -- `Get` never runs out of fuel and reads the value at the key's path.
  pub get-path :
      (t : MerkleTrie V) (key : List ℕ) → get t key ≡ node_value (get_path (bits key) t.root)
  unfolding get value_found
  get-path t key =
      let e : length key * 8 + 1 ≡ suc (length key * 8) = omega arith in
      rw (e, get_node-path (length key * 8) 0 t.root key (omega arith)) refl

module _ {V : Type 0} ⦃d : Digest V⦄ where
  -- A write at the end of a path, with the hashes on the way computed anew.
  unfoldable pub insert_path : List Bool → List ℕ → V → Node V → Node V
  insert_path [] key value t = node (d.of_value value) (some value) key (left t) (right t)
  insert_path (b ∷ p) key value t =
      let new_left = insert_path p key value (left t) in
      let new_right = insert_path p key value (right t) in
      if b
      then node (recalculate_hash new_left (right t)) (node_value t) (node_key t) new_left (right t)
      else node (recalculate_hash (left t) new_right) (node_value t) (node_key t) (left t) new_right

  insert_node-path :
      (n depth : ℕ) (t : Node V) (key : List ℕ) (value : V)
      → depth + n ≡ length key * 8
      → insert_node (suc n) t key value depth ≡ insert_path (bits_from key n depth) key value t
  unfolding insert_node insert_path bits_from
  insert_node-path zero depth t key value e = ground arith
  insert_node-path (suc n) depth t key value e = ground (
    arith,
    insert_node-path n (depth + 1) (left t) key value (omega arith),
    insert_node-path n (depth + 1) (right t) key value (omega arith),
  )

  -- `Insert` writes at the key's path.
  pub insert-path :
      (t : MerkleTrie V) (key : List ℕ) (value : V)
      → (insert t key value).root ≡ insert_path (bits key) key value t.root
  unfolding insert
  insert-path t key value =
      let e : length key * 8 + 1 ≡ suc (length key * 8) = omega arith in
      rw (e, insert_node-path (length key * 8) 0 t.root key value (omega arith)) refl
