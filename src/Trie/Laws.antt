-- ===== src/Trie/Laws.antt =====
-- The trie is a map: what `Get` finds after `Insert`.
use dyphira_chain.Common.{
  ℕ, ◌*◌, ◌<◌, ◌≡◌, ◌≢◌, refl, Bool, true, false, List, [], ◌∷◌, none, some, length, if◌then◌else◌,
  All, arith,
}
use dyphira_chain.Trie.{
  Digest, Node, nil, node, MerkleTrie, node_value, left, right, get, insert, new_merkle_trie,
}
use dyphira_chain.Trie.Bits.{bits, bits-injective, length-bits_from}
use dyphira_chain.Trie.Paths.{get_path, get_path-nil, insert_path, get-path, insert-path}

module _ {V : Type 0} ⦃d : Digest V⦄ where
  get_path-cons :
      (b : Bool) (p : List Bool) (t : Node V)
      → node_value (get_path (b ∷ p) t)
        ≡ (if b then node_value (get_path p (left t)) else node_value (get_path p (right t)))
  unfolding get_path
  get_path-cons true p nil = rw get_path-nil
  get_path-cons false p nil = rw get_path-nil
  get_path-cons b p (node h v k l r) = ground arith

  get_path-insert_self :
      (p : List Bool) (key : List ℕ) (value : V) (t : Node V)
      → node_value (get_path p (insert_path p key value t)) ≡ some value
  unfolding get_path insert_path
  get_path-insert_self [] key value t = refl
  get_path-insert_self (true ∷ p) key value t = get_path-insert_self p key value (left t)
  get_path-insert_self (false ∷ p) key value t = get_path-insert_self p key value (right t)

  get_path-insert_ne :
      (p q : List Bool) (key : List ℕ) (value : V) (t : Node V)
      → length p ≡ length q
      → p ≢ q
      → node_value (get_path q (insert_path p key value t)) ≡ node_value (get_path q t)
  unfolding insert_path
  get_path-insert_ne [] [] key value t n h = absurd (h refl)
  get_path-insert_ne [] (c ∷ q) key value t n h = absurd (omega arith)
  get_path-insert_ne (b ∷ p) [] key value t n h = absurd (omega arith)
  get_path-insert_ne (b ∷ p) (c ∷ q) key value t n h = ground (
    arith,
    get_path-cons c q (insert_path (b ∷ p) key value t),
    get_path-cons c q t,
    get_path-insert_ne p q key value (left t) (omega arith),
    get_path-insert_ne p q key value (right t) (omega arith),
  )

  -- After `Insert`, the key is bound to the value.
  pub get-insert_self :
      (t : MerkleTrie V) (key : List ℕ) (value : V) → get (insert t key value) key ≡ some value
  get-insert_self t key value =
      rw (get-path (insert t key value) key, insert-path t key value)
        (get_path-insert_self (bits key) key value t.root)

  -- `Insert` leaves every other key of the same length alone.
  pub get-insert_ne :
      (t : MerkleTrie V) (key other : List ℕ) (value : V)
      → length key ≡ length other
      → All (λ b. b < 256) key
      → All (λ b. b < 256) other
      → key ≢ other
      → get (insert t key value) other ≡ get t other
  get-insert_ne t key other value n hk ho ne =
      rw (get-path (insert t key value) other, get-path t other, insert-path t key value)
        (get_path-insert_ne (bits key) (bits other) key value t.root
          (omega (
            arith,
            length-bits_from key (length key * 8) 0,
            length-bits_from other (length other * 8) 0,
          ))
          (λ e. ne (bits-injective key other n hk ho e)))

  new_path : (p : List Bool) → node_value (get_path p (new_merkle_trie {V = V}).root) ≡ none
  unfolding new_merkle_trie get_path
  new_path [] = refl
  new_path (true ∷ p) = rw get_path-nil
  new_path (false ∷ p) = rw get_path-nil

  -- A new trie binds nothing.
  pub get-new : (key : List ℕ) → get (new_merkle_trie {V = V}) key ≡ none
  unfolding new_merkle_trie
  get-new key = rw get-path (new_path (bits key))
