-- ===== src/Bar/Selection.antt =====
-- `FindNodes` picks distinct indices, and its search for a free one always ends.
use native.Mathlib.Nat.{mod-lt, add-zero, mod-eq_of_lt, add-mod_right, mod-add-mod}
use dyphira_chain.Common.{
  ℕ, zero, suc, ◌+◌, ◌-◌, ◌%◌, ◌≤◌, ◌<◌, ◌≡◌, ◌⊎◌, inl, inr, refl, false, List, [], ◌∷◌, some,
  length, contains, IsDistinct, All, ==_iff, arith, leb, subst, sym, ap, ◌∙◌, Bool-cases,
}
use dyphira_chain.Common.Distinct.{IsSubset, length-le_of_subset}
use dyphira_chain.Bar.FindNodes.{next_free, pick}

-- The numbers below `n`, the largest first.
abbrev below : ℕ → List ℕ
below zero = []
below (suc n) = n ∷ below n

length-below : (n : ℕ) → length (below n) ≡ n
length-below zero = refl
length-below (suc n) = omega (arith, length-below n)

contains-below : (n k : ℕ) → n ≤ k → contains k (below n) ≡ false
contains-below zero k h = refl
contains-below (suc n) k h = ground (arith, contains-below n k)

below-IsDistinct : (n : ℕ) → IsDistinct (below n)
below-IsDistinct zero = tt
below-IsDistinct (suc n) = (contains-below n n (omega arith), below-IsDistinct n)

free_or_full :
    (n : ℕ) (used : List ℕ)
    → ((j : ℕ) × (j < n) × (contains j used ≡ false)) ⊎ IsSubset (below n) used
free_or_full zero used = inr tt
free_or_full (suc n) used = elim (Bool-cases (contains n used)) [
  | inr free ↦ inl (n, omega arith, free)
  | inl taken ↦ elim (free_or_full n used) [
    | inl (j, lt, free) ↦ inl (j, omega arith, free)
    | inr full ↦ inr (taken, full)
  ]
]

-- Fewer than `n` used indices leave one below `n` free.
free_index :
    (n : ℕ) (used : List ℕ) → length used < n → (j : ℕ) × (j < n) × (contains j used ≡ false)
free_index n used h = elim (free_or_full n used) [
  | inl found ↦ found
  | inr full ↦
      absurd (
        omega (arith, length-le_of_subset (below n) used (below-IsDistinct n) full, length-below n))
]

-- The search from `index` ends at the free index at distance `d`, or at one before it.
next_free_within :
    (d fuel : ℕ) (used : List ℕ) (index n : ℕ)
    → index < n
    → d < fuel
    → contains ((index + d) % n) used ≡ false
    → (r : ℕ) × (next_free fuel used index n ≡ some r) × (r < n) × (contains r used ≡ false)
unfolding next_free
next_free_within d zero used index n lt df free = absurd (omega arith)
next_free_within zero (suc fuel) used index n lt df free =
    let e : (index + 0) % n ≡ index = ap (λ k. k % n) (add-zero index) ∙ mod-eq_of_lt lt in
    let here : contains index used ≡ false = subst (λ k. contains k used ≡ false) e free in
    (index, rw here, lt, here)
next_free_within (suc d) (suc fuel) used index n lt df free =
    elim (Bool-cases (contains index used)) [
      | inr here ↦ (index, rw here, lt, here)
      | inl taken ↦
          let e : (index + suc d) % n ≡ ((index + 1) % n + d) % n =
            sym (mod-add-mod (index + 1) n d ∙ ap (λ k. k % n) (omega arith)) in
          rw taken (
            next_free_within d fuel used ((index + 1) % n) n (mod-lt (index + 1) (omega arith))
              (omega arith) (subst (λ k. contains k used ≡ false) e free))
    ]

-- How far the search goes round from `index` to `j`.
distance : (index j n : ℕ) → index < n → j < n → (d : ℕ) × (d < n) × ((index + d) % n ≡ j)
distance index j n hi hj = elim (Bool-cases (leb index j)) [
  | inl up ↦ (j - index, ground arith, ap (λ k. k % n) (ground arith) ∙ mod-eq_of_lt hj)
  | inr down ↦ (
    j + n - index,
    ground arith,
    ap (λ k. k % n) (ground arith) ∙ add-mod_right j n ∙ mod-eq_of_lt hj,
  )
]

-- With an index to spare, `n` steps of the search suffice.
pub next_free_total :
    (used : List ℕ) (index n : ℕ)
    → index < n
    → length used < n
    → (r : ℕ) × (next_free n used index n ≡ some r) × (r < n) × (contains r used ≡ false)
next_free_total used index n lt room =
    let (j, jn, free) = free_index n used room in
    let (d, dn, there) = distance index j n lt jn in
    next_free_within d n used index n lt dn (subst (λ k. contains k used ≡ false) (sym there) free)

abbrev pub Picks : ℕ → List ℕ → ℕ → List ℕ → Type 0
Picks n used rounds is =
    (length is ≡ rounds)
    × IsDistinct is
    × All (λ i. i < n) is
    × All (λ i. contains i used ≡ false) is

-- An index fresh to `r ∷ used` is fresh to both.
fresh_apart :
    (r : ℕ) (used is : List ℕ)
    → All (λ i. contains i (r ∷ used) ≡ false) is
    → (contains r is ≡ false) × All (λ i. contains i used ≡ false) is
fresh_apart r used [] h = (refl, tt)
fresh_apart r used (i ∷ is) (h, hs) =
    let (a, b) = fresh_apart r used is hs in
    (ground (arith, a, h, ==_iff r i, ==_iff i r), (ground (arith, h), b))

pick-done : (prng : ℕ → ℕ) (n i : ℕ) (used : List ℕ) → pick prng n zero i used ≡ some []
unfolding pick
pick-done prng n i used = refl

pick-some :
    (prng : ℕ → ℕ) (n rounds i r : ℕ) (used is : List ℕ)
    → next_free n used (prng i % n) n ≡ some r
    → pick prng n rounds (i + 1) (r ∷ used) ≡ some is
    → pick prng n (suc rounds) i used ≡ some (r ∷ is)
unfolding pick
pick-some prng n rounds i r used is found more = rw (found, pick) (rw more refl)

-- The choice of `rounds` indices succeeds: they are different, in range and not used before.
pub pick_total :
    (prng : ℕ → ℕ) (n rounds i : ℕ) (used : List ℕ)
    → rounds + length used ≤ n
    → (is : List ℕ) × (pick prng n rounds i used ≡ some is) × Picks n used rounds is
unfolding pick
pick_total prng n zero i used h = ([], pick-done prng n i used, (refl, tt, tt, tt))
pick_total prng n (suc rounds) i used h =
    let (r, found, rn, fresh) =
      next_free_total used (prng i % n) n (mod-lt (prng i) (omega arith)) (omega arith) in
    let (is, more, (len, distinct, bound, fresh_all)) =
      pick_total prng n rounds (i + 1) (r ∷ used) (omega arith) in
    let (apart, fresh_is) = fresh_apart r used is fresh_all in
    (
      r ∷ is,
      pick-some prng n rounds i r used is found more,
      (ap suc len, (apart, distinct), (rn, bound), (fresh, fresh_is)),
    )
