-- ===== src/Blockchain/Hashes.antt =====
-- The search for a block by its hash.
use dyphira_chain.Common.{
  ℕ, zero, suc, ◌+◌, ◌≤◌, ◌<◌, ◌≡◌, ◌≢◌, ◌⊎◌, inl, inr, refl, ap, ◌∙◌, Option, none, some, ltb,
  ◌==◌, ==_iff, arith, Option-cases, Bool-cases,
}
use dyphira_chain.Types.{Hash, Block}
use dyphira_chain.Storage.{Storage}
use dyphira_chain.Blockchain.{Blockchain, get_block_by_height, find_hash, get_block_by_hash}

module _ {S : Type 0} ⦃st : Storage S⦄ (bc : Blockchain S) (hash : Hash) where
  -- The block at height `h` is `b` and has the hash.
  abbrev pub HasHashAt : ℕ → Block → Type 0
  HasHashAt h b = (get_block_by_height bc h ≡ some b) × (b.header.hash ≡ hash)

  -- No block from `i` to before `j` has the hash.
  abbrev pub NoneFrom : ℕ → ℕ → Type 0
  NoneFrom i j =
      (k : ℕ) (c : Block) → i ≤ k → k < j → get_block_by_height bc k ≡ some c → c.header.hash ≢ hash

  NoneFrom-step :
      (i j : ℕ)
      → ((c : Block) → get_block_by_height bc i ≡ some c → c.header.hash ≢ hash)
      → NoneFrom (i + 1) j
      → NoneFrom i j
  NoneFrom-step i j here later k c low high e = elim (Bool-cases (i == k)) [
    | inl same ↦ here c (ap (get_block_by_height bc) ((==_iff i k).0 same) ∙ e)
    | inr differ ↦ later k c (ground (arith, differ)) high e
  ]

  -- What a search of `n` heights from `i` on may result in: the first block with the hash, or
  -- nothing where there is none.
  abbrev Finds : Option Block → ℕ → ℕ → Type 0
  Finds result i n =
      ((h : ℕ) × (b : Block) × (result ≡ some b)
        × (i ≤ h)
        × (h < i + n)
        × HasHashAt h b
        × NoneFrom i h)
      ⊎ ((result ≡ none) × NoneFrom i (i + n))

  Finds-step :
      (result : Option Block) (i n : ℕ)
      → ((c : Block) → get_block_by_height bc i ≡ some c → c.header.hash ≢ hash)
      → Finds result (i + 1) n
      → Finds result i (suc n)
  Finds-step result i n here (inl (h, b, e, low, high, at, before)) =
      inl (h, b, e, omega arith, omega arith, at, NoneFrom-step i h here before)
  Finds-step result i n here (inr (e, later)) = inr (
    e,
    NoneFrom-step i (i + suc n) here (λ k c low high found. later k c low (omega arith) found),
  )

  find_hash-Finds : (n i : ℕ) → Finds (find_hash bc hash n i) i n
  unfolding find_hash
  find_hash-Finds zero i = inr (refl, λ k c low high e. absurd (omega arith))
  find_hash-Finds (suc n) i = elim (Option-cases (get_block_by_height bc i)) [
    | inl nothing ↦
        rw (nothing, find_hash)
          (Finds-step (find_hash bc hash n (i + 1)) i n (λ c e. absurd (ground (arith, e, nothing)))
            (find_hash-Finds n (i + 1)))
    | inr (b, at) ↦ elim (Bool-cases (b.header.hash == hash)) [
      | inl same ↦
          rw (at, find_hash)
            (rw same (
              inl (
                i,
                b,
                refl,
                omega arith,
                omega arith,
                (at, (==_iff b.header.hash hash).0 same),
                λ k c low high e. absurd (omega arith),
              )))
      | inr differ ↦
          rw (at, find_hash)
            (rw differ (
              Finds-step (find_hash bc hash n (i + 1)) i n
                (λ c e same. absurd (ground (arith, e, at, differ, same)))
                (find_hash-Finds n (i + 1))))
    ]
  ]

  beyond_height : (h : ℕ) → bc.current_height < h → get_block_by_height bc h ≡ none
  unfolding get_block_by_height
  beyond_height h above = ground (arith, above)

  -- The search by hash gives the block with that hash at the lowest height, and nothing exactly
  -- where no block of the chain has it.
  pub get_block_by_hash_lem :
      ((h : ℕ) × (b : Block) × (get_block_by_hash bc hash ≡ some b) × HasHashAt h b × NoneFrom 0 h)
      ⊎ ((get_block_by_hash bc hash ≡ none)
          × ((k : ℕ) (c : Block) → get_block_by_height bc k ≡ some c → c.header.hash ≢ hash))
  unfolding get_block_by_hash
  get_block_by_hash_lem = elim (find_hash-Finds (bc.current_height + 1) 0) [
    | inl (h, b, e, low, high, at, before) ↦ inl (h, b, e, at, before)
    | inr (e, nowhere) ↦ inr (
      e,
      λ k c found same. elim (Bool-cases (ltb bc.current_height k)) [
        | inl above ↦ absurd (ground (arith, found, beyond_height k (ground (arith, above))))
        | inr within ↦ nowhere k c (omega arith) (ground (arith, within)) found same
      ],
    )
  ]
