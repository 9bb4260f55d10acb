-- ===== src/Push/Headers.antt =====
-- optimistic_push.go: the headers that a light node gets.
use Prim.Native.Nat.{min}
use dyphira_chain.Common.{
  ℕ, zero, suc, ◌+◌, ◌-◌, ◌≤◌, ◌<◌, ◌≡◌, refl, sym, ap, ◌∙◌, List, [], ◌∷◌, map, some, length,
  length-map, add64, add64_exact, arith, Option, none,
}
use dyphira_chain.Types.{Header}
use dyphira_chain.Storage.{Storage}
use dyphira_chain.Blockchain.{Blockchain, get_block_by_height}
use dyphira_chain.Blockchain.Growth.{IsChain}
use dyphira_chain.Push.{headers_up_to, start_height, get_block_headers}

-- `count` numbers from `start` on.
abbrev pub numbers : (start count : ℕ) → List ℕ
numbers start zero = []
numbers start (suc count) = start ∷ numbers (start + 1) count

length-numbers : (start count : ℕ) → length (numbers start count) ≡ count
length-numbers start zero = refl
length-numbers start (suc count) = ap suc (length-numbers (start + 1) count)

-- The header of the block at a height.
abbrev pub header_at : {S : Type 0} ⦃st : Storage S⦄ → Blockchain S → ℕ → Option Header
header_at bc h = elim (get_block_by_height bc h) [ none ↦ none | some b ↦ some b.header ]

module _ {S : Type 0} ⦃st : Storage S⦄ (bc : Blockchain S) (v : IsChain bc) where
  headers_lem :
      (count fuel i height : ℕ)
      → i + count ≡ height + 1
      → count < fuel
      → height ≤ bc.current_height
      → (hs : List Header) × (headers_up_to fuel bc i height ≡ some hs)
        × (map (λ h. h.block_number) hs ≡ numbers i count)
        × (map some hs ≡ map (header_at bc) (numbers i count))
  unfolding headers_up_to
  headers_lem count zero i height e enough top = absurd (omega arith)
  headers_lem zero (suc fuel) i height e enough top = ([], (ground arith), refl, refl)
  headers_lem (suc count) (suc fuel) i height e enough top =
      let (b, found, number) = v.full i (omega arith) in
      let next : add64 i 1 ≡ i + 1 = add64_exact i 1 (omega (arith, v.room)) in
      let (hs, rest, are, all) =
        headers_lem count fuel (i + 1) height (omega arith) (omega arith) top in
      (
        b.header ∷ hs,
        ground (arith, found, rest, ap (λ k. headers_up_to fuel bc k height) next),
        ap (λ n. n ∷ map (λ h. h.block_number) hs) number ∙ ap (λ l. i ∷ l) are,
        ground (arith, found, all),
      )

  -- On a valid chain `getBlockHeaders` of the chain's height ends and gives the headers of the
  -- last 101 heights, or of all heights if there are fewer, in order, each as the chain has it.
  pub get_block_headers_lem :
      (hs : List Header) × (get_block_headers bc bc.current_height ≡ some hs)
      × (length hs ≡ min (bc.current_height + 1) 101)
      × (map (λ h. h.block_number) hs
          ≡ numbers (bc.current_height - 100) (min (bc.current_height + 1) 101))
      × (map some hs
          ≡ map
              (header_at bc)
              (numbers (bc.current_height - 100) (min (bc.current_height + 1) 101)))
  unfolding get_block_headers
  get_block_headers_lem =
      let top = bc.current_height in
      let count = min (top + 1) 101 in
      let first : start_height top ≡ top - 100 = ground arith in
      let (hs, e, are, all) =
        headers_lem count 102 (top - 100) top (omega arith) (omega arith) (omega arith) in
      (
        hs,
        ap (λ i. headers_up_to 102 bc i top) first ∙ e,
        sym (length-map (λ h. h.block_number) hs)
            ∙ ap length are
            ∙ length-numbers (top - 100) count,
        are,
        all,
      )
