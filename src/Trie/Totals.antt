-- ===== src/Trie/Totals.antt =====
-- Sums over all values of a trie, and the second copy of the bindings, `kvMap`.
use dyphira_chain.Common.{
  ℕ, ◌+◌, ◌<◌, ◌≤◌, ◌≡◌, refl, Bool, true, false, List, [], ◌∷◌, Option, none, some, length,
  if◌then◌else◌, All, arith, Bool-cases, inl, inr, ◌∙◌, sym, subst,
}
use dyphira_chain.Trie.{
  Digest, Node, nil, node, MerkleTrie, node_value, get, insert, new_merkle_trie, same_bytes, put_kv,
  all,
}
use dyphira_chain.Trie.Bits.{bits}
use dyphira_chain.Trie.Paths.{get_path, insert_path, get_path-nil, get-path, insert-path}
use dyphira_chain.Trie.Laws.{get-insert_self, get-insert_ne, get-new}

abbrev pub measured : {V : Type 0} → (V → ℕ) → Option V → ℕ
measured f none = 0
measured f (some v) = f v

-- The sum of `f` over the values in a tree.
unfoldable pub node_total : {V : Type 0} → (V → ℕ) → Node V → ℕ
node_total f nil = 0
node_total f (node h v k l r) = measured f v + node_total f l + node_total f r

module _ {V : Type 0} ⦃d : Digest V⦄ (f : V → ℕ) where
  node_total-insert :
      (p : List Bool) (key : List ℕ) (value : V) (t : Node V)
      → node_total f (insert_path p key value t) + measured f (node_value (get_path p t))
        ≡ node_total f t + f value
  unfolding node_total insert_path get_path
  node_total-insert [] key value nil = omega arith
  node_total-insert [] key value (node h v k l r) = omega arith
  node_total-insert (true ∷ p) key value nil =
      let ih = node_total-insert p key value nil in omega (arith, rw get_path-nil at ih)
  node_total-insert (false ∷ p) key value nil =
      let ih = node_total-insert p key value nil in omega (arith, rw get_path-nil at ih)
  node_total-insert (true ∷ p) key value (node h v k l r) =
      omega (arith, node_total-insert p key value l)
  node_total-insert (false ∷ p) key value (node h v k l r) =
      omega (arith, node_total-insert p key value r)

  -- `Insert` changes the sum by what the key's new value measures more than its old one.
  pub total-insert :
      (t : MerkleTrie V) (key : List ℕ) (value : V)
      → node_total f (insert t key value).root + measured f (get t key)
        ≡ node_total f t.root + f value
  total-insert t key value =
      rw (insert-path t key value, get-path t key) (node_total-insert (bits key) key value t.root)

  path-le-total :
      (p : List Bool) (t : Node V) → measured f (node_value (get_path p t)) ≤ node_total f t
  unfolding get_path node_total
  path-le-total [] nil = omega arith
  path-le-total [] (node h v k l r) = omega arith
  path-le-total (b ∷ p) nil = omega arith
  path-le-total (true ∷ p) (node h v k l r) = omega (arith, path-le-total p l)
  path-le-total (false ∷ p) (node h v k l r) = omega (arith, path-le-total p r)

  -- No value measures more than the sum.
  pub total-get : (t : MerkleTrie V) (key : List ℕ) → measured f (get t key) ≤ node_total f t.root
  total-get t key = rw get-path (path-le-total (bits key) t.root)

same_bytes_iff : (ks js : List ℕ) → same_bytes ks js ≡ true → ks ≡ js
unfolding same_bytes
same_bytes_iff [] [] h = refl
same_bytes_iff [] (j ∷ js) h = cc
same_bytes_iff (k ∷ ks) [] h = cc
same_bytes_iff (k ∷ ks) (j ∷ js) h = ground (arith, same_bytes_iff ks js)

same_bytes_refl : (ks : List ℕ) → same_bytes ks ks ≡ true
unfolding same_bytes
same_bytes_refl [] = refl
same_bytes_refl (k ∷ ks) = ground (arith, same_bytes_refl ks)

-- `kvMap[string(key)]`
pub kv_lookup : {V : Type 0} → List ℕ → List (List ℕ × V) → Option V
kv_lookup k [] = none
kv_lookup k ((j, v) ∷ m) = let rest = kv_lookup k m in if same_bytes j k then some v else rest

kv_lookup-put :
    {V : Type 0} (k j : List ℕ) (v : V) (m : List (List ℕ × V))
    → kv_lookup j (put_kv k v m) ≡ (if same_bytes k j then some v else kv_lookup j m)
unfolding kv_lookup put_kv
kv_lookup-put k j v [] = ground arith
kv_lookup-put k j v ((i, w) ∷ m) =
    ground (arith, kv_lookup-put k j v m, same_bytes_iff i k, same_bytes_iff k j, same_bytes_refl k)

-- The tree and `kvMap` bind keys of `n` bytes alike.
abbrev pub Agrees : {V : Type 0} → ℕ → MerkleTrie V → Type 0
Agrees n t =
    (key : List ℕ) → length key ≡ n → All (λ b. b < 256) key → get t key ≡ kv_lookup key (all t)

module _ {V : Type 0} ⦃d : Digest V⦄ where
  all-insert :
      (t : MerkleTrie V) (key : List ℕ) (value : V)
      → all (insert t key value) ≡ put_kv key value (all t)
  unfolding all insert
  all-insert t key value = refl

  -- `Insert` keeps the two copies of the bindings alike.
  pub insert-Agrees :
      (n : ℕ) (t : MerkleTrie V) (key : List ℕ) (value : V)
      → Agrees n t
      → length key ≡ n
      → All (λ b. b < 256) key
      → Agrees n (insert t key value)
  insert-Agrees n t key value agree lk bk other lo bo =
      rw (all-insert t key value, kv_lookup-put key other value (all t))
        (elim (Bool-cases (same_bytes key other)) [
          | inl e ↦ rw e (
              subst (λ k. get (insert t key value) k ≡ some value) (same_bytes_iff key other e)
                (get-insert_self t key value))
          | inr e ↦ rw e (
              get-insert_ne t key other value (lk ∙ sym lo) bk bo
                (λ same. cc (subst (λ k. same_bytes key k ≡ true) same (same_bytes_refl key)))
              ∙ agree other lo bo)
        ])

  -- A new trie has no bindings in either copy.
  pub new-Agrees : (n : ℕ) → Agrees n (new_merkle_trie {V = V})
  unfolding all kv_lookup new_merkle_trie
  new-Agrees n key lk bk = get-new key
