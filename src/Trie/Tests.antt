-- ===== src/Trie/Tests.antt =====
-- Sample tries with one-byte keys and numbers for values, and the theorems at them.
use dyphira_chain.Common.{ℕ, ◌+◌, ◌*◌, ◌≡◌, refl, [], ◌∷◌, some, arith}
use dyphira_chain.Trie.{
  Digest, MerkleTrie, new_merkle_trie, get, insert, get_node, insert_node, key_bit, value_found,
  put_kv,
}
use dyphira_chain.Trie.Totals.{Agrees, insert-Agrees, new-Agrees}

instance abbrev sample_digest : Digest ℕ
sample_digest = record { of_value = λ v. v + 1; of_pair = λ a b. 3 * a + b }

abbrev one : MerkleTrie ℕ
one = insert new_merkle_trie (5 ∷ []) 50

get_runs : get (insert one (6 ∷ []) 60) (5 ∷ []) ≡ some 50
unfolding get insert get_node insert_node key_bit value_found new_merkle_trie put_kv
get_runs = refl

insert-Agrees_example : Agrees {V = ℕ} 1 (insert new_merkle_trie (5 ∷ []) 50)
insert-Agrees_example =
    insert-Agrees 1 new_merkle_trie (5 ∷ []) 50 (new-Agrees 1) refl (omega arith)
