-- ===== src/Common/Distinct.antt =====
-- Lists of numbers as finite sets: inclusion, counting, and the overlap of two subsets.
use Prim.Native.Nat.{ℕ, suc, ◌+◌, ◌≤◌}
use mathlib.Core.Path.{◌≡◌, refl, sym, ◌∙◌}
use mathlib.Core.Bool.{Bool, true, false, not, ◌&&◌, ◌||◌}
use mathlib.Core.List.{List, [], ◌∷◌, ◌++◌}
use native.Mathlib.Omega.{arith}
use dyphira_chain.Common.Tests.{◌==◌, ==_iff, Bool-cases, if◌then◌else◌}
use mathlib.Core.Logic.{inl, inr}
use dyphira_chain.Common.Lists.{length, contains, IsDistinct, All, keep, length-append, All-append}

-- Every item of the first list is in the second.
abbrev pub IsSubset : List ℕ → List ℕ → Type 0
IsSubset xs ys = All (λ a. contains a ys ≡ true) xs

-- The list less one occurrence of the number.
drop_one : ℕ → List ℕ → List ℕ
drop_one a [] = []
drop_one a (y ∷ ys) = let rest = drop_one a ys in if y == a then ys else y ∷ rest

contains-drop_one :
    (a z : ℕ) (ys : List ℕ) → (a == z) ≡ false → contains z (drop_one a ys) ≡ contains z ys
unfolding drop_one
contains-drop_one a z [] h = refl
contains-drop_one a z (y ∷ ys) h = ground (arith, contains-drop_one a z ys)

length-drop_one :
    (a : ℕ) (ys : List ℕ) → contains a ys ≡ true → suc (length (drop_one a ys)) ≡ length ys
unfolding drop_one
length-drop_one a [] h = cc
length-drop_one a (y ∷ ys) h = ground (arith, length-drop_one a ys)

IsSubset-drop_one :
    (a : ℕ) (xs ys : List ℕ) → contains a xs ≡ false → IsSubset xs ys → IsSubset xs (drop_one a ys)
IsSubset-drop_one a [] ys n h = tt
IsSubset-drop_one a (x ∷ xs) ys n h =
    ground (arith, IsSubset-drop_one a xs ys, contains-drop_one a x ys)

-- A list without repetitions is no longer than a list that contains it.
pub length-le_of_subset : (xs ys : List ℕ) → IsDistinct xs → IsSubset xs ys → length xs ≤ length ys
length-le_of_subset [] ys d h = omega arith
length-le_of_subset (x ∷ xs) ys d h = omega (
  arith,
  length-le_of_subset xs (drop_one x ys) d.1 (IsSubset-drop_one x xs ys d.0 h.1),
  length-drop_one x ys h.0,
)

pub contains-append :
    (a : ℕ) (xs ys : List ℕ) → contains a (xs ++ ys) ≡ (contains a xs || contains a ys)
contains-append a [] ys = refl
contains-append a (x ∷ xs) ys = ground (arith, contains-append a xs ys)

pub contains-keep :
    (p : ℕ → Bool) (a : ℕ) (xs : List ℕ) → contains a (keep p xs) ≡ (p a && contains a xs)
contains-keep p a [] = ground arith
contains-keep p a (x ∷ xs) = ground (arith, contains-keep p a xs)

pub IsDistinct-keep : (p : ℕ → Bool) (xs : List ℕ) → IsDistinct xs → IsDistinct (keep p xs)
IsDistinct-keep p [] h = tt
IsDistinct-keep p (x ∷ xs) h = ground (arith, IsDistinct-keep p xs h.1, contains-keep p x xs)

pub IsDistinct-append :
    (xs ys : List ℕ)
    → IsDistinct xs
    → IsDistinct ys
    → All (λ a. contains a ys ≡ false) xs
    → IsDistinct (xs ++ ys)
IsDistinct-append [] ys hx hy n = hy
IsDistinct-append (x ∷ xs) ys hx hy n =
    ground (arith, IsDistinct-append xs ys hx.1 hy n.1, contains-append x xs ys)

-- The items that two lists share.
abbrev pub common : List ℕ → List ℕ → List ℕ
common xs ys = keep (λ a. contains a ys) xs

only : List ℕ → List ℕ → List ℕ
only xs ys = keep (λ a. not (contains a ys)) xs

length-common-only : (xs ys : List ℕ) → length (common xs ys) + length (only xs ys) ≡ length xs
unfolding only
length-common-only [] ys = refl
length-common-only (x ∷ xs) ys = ground (arith, length-common-only xs ys)

All-only : (xs ys : List ℕ) → All (λ a. contains a ys ≡ false) (only xs ys)
unfolding only
All-only [] ys = tt
All-only (x ∷ xs) ys = ground (arith, All-only xs ys)

IsSubset-only : (xs ys us : List ℕ) → IsSubset xs us → IsSubset (only xs ys) us
unfolding only
IsSubset-only [] ys us h = tt
IsSubset-only (x ∷ xs) ys us h = ground (arith, IsSubset-only xs ys us h.1)

-- Two subsets of `us` share at least as many items as their sizes exceed that of `us`.
pub overlap :
    (xs ys us : List ℕ)
    → IsDistinct xs
    → IsDistinct ys
    → IsSubset xs us
    → IsSubset ys us
    → length xs + length ys ≤ length us + length (common xs ys)
unfolding only
overlap xs ys us dx dy hx hy = omega (
  arith,
  length-common-only xs ys,
  length-append (only xs ys) ys,
  length-le_of_subset (only xs ys ++ ys) us
      (IsDistinct-append (only xs ys) ys (IsDistinct-keep _ xs dx) dy (All-only xs ys))
      (All-append _ (only xs ys) ys (IsSubset-only xs ys us hx) hy),
)

pub contains-IsSubset :
    (a : ℕ) (xs ys : List ℕ) → IsSubset xs ys → contains a xs ≡ true → contains a ys ≡ true
contains-IsSubset a [] ys h e = cc
contains-IsSubset a (x ∷ xs) ys h e = ground (arith, contains-IsSubset a xs ys h.1, h.0, ==_iff x a)

-- A list without repetitions that is no shorter than a list that contains it has all its items.
pub contains-subset :
    (a : ℕ) (xs ys : List ℕ)
    → IsDistinct xs
    → IsSubset xs ys
    → length ys ≤ length xs
    → contains a xs ≡ contains a ys
contains-subset a xs ys d h le = elim (Bool-cases (contains a xs)) [
  | inl e ↦ e ∙ sym (contains-IsSubset a xs ys h e)
  | inr e ↦ elim (Bool-cases (contains a ys)) [
    | inr n ↦ e ∙ sym n
    | inl y ↦ absurd (omega (arith, length-le_of_subset (a ∷ xs) ys (e, d) (y, h)))
  ]
]

-- The list with the last occurrence of each number.
abbrev pub distinct : List ℕ → List ℕ
distinct [] = []
distinct (x ∷ xs) = let rest = distinct xs in if contains x xs then rest else x ∷ rest

contains-distinct : (a : ℕ) (xs : List ℕ) → contains a (distinct xs) ≡ contains a xs
contains-distinct a [] = refl
contains-distinct a (x ∷ xs) = ground (arith, contains-distinct a xs, ==_iff x a)

distinct-IsDistinct : (xs : List ℕ) → IsDistinct (distinct xs)
distinct-IsDistinct [] = tt
distinct-IsDistinct (x ∷ xs) = ground (arith, contains-distinct x xs, distinct-IsDistinct xs)

subset_of :
    (xs ys : List ℕ) → ((a : ℕ) → contains a xs ≡ true → contains a ys ≡ true) → IsSubset xs ys
subset_of [] ys h = tt
subset_of (x ∷ xs) ys h =
    (h x (ground (arith, ==_iff x x)), subset_of xs ys (λ a e. h a (ground (arith, e))))

-- A list without repetitions is as long as the distinct items of a list of the same numbers.
pub length-distinct :
    (xs ys : List ℕ)
    → IsDistinct xs
    → ((a : ℕ) → contains a xs ≡ contains a ys)
    → length xs ≡ length (distinct ys)
length-distinct xs ys d h =
    let same = λ (a : ℕ). h a ∙ sym (contains-distinct a ys) in
    omega (
      arith,
      length-le_of_subset xs (distinct ys) d (subset_of xs (distinct ys) (λ a e. sym (same a) ∙ e)),
      length-le_of_subset (distinct ys) xs (distinct-IsDistinct ys)
          (subset_of (distinct ys) xs (λ a e. same a ∙ e)),
    )
