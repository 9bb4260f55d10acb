-- ===== src/Api/Queries/Listed.antt =====
-- What the endpoint of blocks lists, and what the totals are.
use Prim.Native.Nat.{min}
use dyphira_chain.Common.{
  ℕ, zero, suc, ◌+◌, ◌-◌, ◌≤◌, ◌<◌, ◌≡◌, ◌%◌, sym, ap, ◌∙◌, List, [], ◌∷◌, ◌++◌, map, Option,
  length, ltb, arith, add64, word_mod, length-append, Bool-cases, inl, inr,
}
use mathlib.Core.List.{append-nil, append_assoc, map-append}
use dyphira_chain.Types.{Transaction}
use dyphira_chain.Storage.{Storage}
use dyphira_chain.Blockchain.{Blockchain}
use dyphira_chain.Blockchain.Growth.{IsChain}
use dyphira_chain.Api.Queries.{
  add_values, calculate_total_value, BlockSummary, summary, block_limit, list_blocks, handle_blocks,
}

-- The sum of the values, without wrap-around.
abbrev pub sum_of_values : List Transaction → ℕ
sum_of_values [] = 0
sum_of_values (tx ∷ txs) = tx.value + sum_of_values txs

add_values_lem :
    (total : ℕ) (txs : List Transaction)
    → total < word_mod
    → add_values total txs ≡ (total + sum_of_values txs) % word_mod
unfolding add64
add_values_lem total [] h = omega arith
add_values_lem total (tx ∷ txs) h =
    omega (arith, add_values_lem ((total + tx.value) % word_mod) txs (omega arith))

-- The total is the sum of the values modulo 2^64.
pub calculate_total_value_lem :
    (txs : List Transaction) → calculate_total_value txs ≡ sum_of_values txs % word_mod
calculate_total_value_lem txs = omega (arith, add_values_lem 0 txs (omega arith))

-- `count` numbers downwards, the first just below `top`.
abbrev pub below : (top count : ℕ) → List ℕ
below top zero = []
below top (suc count) = (top - 1) ∷ below (top - 1) count

module _ {S : Type 0} ⦃st : Storage S⦄ (bc : Blockchain S) (v : IsChain bc) where
  list_blocks_lem :
      (limit count : ℕ) (blocks : List BlockSummary)
      → count ≤ bc.current_height + 1
      → map (λ b. b.height) (list_blocks bc limit count blocks)
        ≡ map (λ b. b.height) blocks ++ below count (min count (limit - length blocks))
  unfolding list_blocks
  list_blocks_lem limit zero blocks h =
      let nothing : 0 ≡ min 0 (limit - length blocks) = omega arith in
      sym (append-nil (map (λ b. b.height) blocks))
      ∙ ap (λ n. map (λ b. b.height) blocks ++ below 0 n) nothing
  list_blocks_lem limit (suc i) blocks h = elim (Bool-cases (ltb (length blocks) limit)) [
    | inl room ↦
        let (b, found, number) = v.full i (omega arith) in
        let heights = map (λ b. b.height) blocks in
        let more = blocks ++ summary b ∷ [] in
        let left = min i (limit - length more) in
        let one : length more ≡ length blocks + 1 = length-append blocks (summary b ∷ []) in
        let count : suc left ≡ min (suc i) (limit - length blocks) = ground (arith, one, room) in
        let top : i ≡ suc i - 1 = omega arith in
        rw (room, found)
          (list_blocks_lem limit i more (omega arith)
            ∙ ap (λ l. l ++ below i left) (map-append (λ b. b.height) blocks (summary b ∷ []))
            ∙ append_assoc heights (b.header.block_number ∷ []) (below i left)
            ∙ ap (λ n. heights ++ n ∷ below i left) number
            ∙ ap (λ n. heights ++ n ∷ below n left) top
            ∙ ap (λ n. heights ++ below (suc i) n) count)
    | inr full ↦
        let none_left : 0 ≡ min (suc i) (limit - length blocks) = ground (arith, full) in
        rw full (
          sym (append-nil (map (λ b. b.height) blocks))
          ∙ ap (λ n. map (λ b. b.height) blocks ++ below (suc i) n) none_left)
  ]

  -- On a valid chain the endpoint lists the heights of the chain from the top down, as many as the
  -- limit allows.
  pub handle_blocks_lem :
      (limit : Option ℕ)
      → map (λ b. b.height) (handle_blocks bc limit)
        ≡ below (bc.current_height + 1) (min (bc.current_height + 1) (block_limit limit))
  unfolding handle_blocks
  handle_blocks_lem limit =
      let whole : block_limit limit - 0 ≡ block_limit limit = omega arith in
      list_blocks_lem (block_limit limit) (bc.current_height + 1) [] (omega arith)
      ∙ ap (λ n. below (bc.current_height + 1) (min (bc.current_height + 1) n)) whole
