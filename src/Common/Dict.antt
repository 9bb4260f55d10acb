-- ===== src/Common/Dict.antt =====
-- A Go map keyed by numbers, as an association list. Go leaves the order of iteration open;
-- where code iterates, the list's order stands for one such order.
use Prim.Native.Nat.{ℕ, ◌+◌, ◌≤◌}
use mathlib.Core.Path.{◌≡◌, refl}
use mathlib.Core.Bool.{Bool, true, false}
use mathlib.Core.List.{List, [], ◌∷◌, map}
use mathlib.Core.Option.{Option, none, some}
use native.Mathlib.Omega.{arith}
use mathlib.Core.Logic.{inl, inr}
use dyphira_chain.Common.Tests.{◌==◌, if◌then◌else◌, Bool-cases, ==_iff}
use dyphira_chain.Common.Lists.{length, contains, IsDistinct, All}

abbrev pub Dict {ℓ} : Type ℓ → Type ℓ
Dict V = List (ℕ × V)

module _ {ℓ} {V : Type ℓ} where
  abbrev pub keys : Dict V → List ℕ
  keys = map (λ e. e.0)

  unfoldable pub lookup : ℕ → Dict V → Option V
  lookup key [] = none
  lookup key ((at, val) ∷ d) = if at == key then some val else lookup key d

  -- `_, ok := m[k]`
  abbrev pub has : ℕ → Dict V → Bool
  has key d = elim (lookup key d) [ none ↦ false | some _ ↦ true ]

  -- `m[k] = v`
  unfoldable pub insert : ℕ → V → Dict V → Dict V
  insert key val [] = (key, val) ∷ []
  insert key val ((at, old) ∷ d) =
      if at == key then (key, val) ∷ d else (at, old) ∷ insert key val d

  -- `delete(m, k)`
  unfoldable pub erase : ℕ → Dict V → Dict V
  erase key [] = []
  erase key ((at, old) ∷ d) = let rest = erase key d in if at == key then rest else (at, old) ∷ rest

  pub lookup-insert :
      (key at : ℕ) (val : V) (d : Dict V)
      → lookup at (insert key val d) ≡ (if key == at then some val else lookup at d)
  unfolding lookup insert
  lookup-insert key at val [] = refl
  lookup-insert key at val ((head, old) ∷ d) = ground (arith, lookup-insert key at val d)

  pub lookup-erase :
      (key at : ℕ) (d : Dict V)
      → lookup at (erase key d) ≡ (if key == at then none else lookup at d)
  unfolding lookup erase
  lookup-erase key at [] = ground arith
  lookup-erase key at ((head, old) ∷ d) = ground (arith, lookup-erase key at d)

  pub length-insert_new :
      (key : ℕ) (val : V) (d : Dict V)
      → lookup key d ≡ none
      → length (insert key val d) ≡ length d + 1
  unfolding lookup insert
  length-insert_new key val [] h = refl
  length-insert_new key val ((at, old) ∷ d) h = ground (arith, length-insert_new key val d)

  pub length-erase-le : (key : ℕ) (d : Dict V) → length (erase key d) ≤ length d
  unfolding erase
  length-erase-le key [] = omega arith
  length-erase-le key ((at, old) ∷ d) = ground (arith, length-erase-le key d)

  pub length-insert_old :
      (key : ℕ) (val old : V) (d : Dict V)
      → lookup key d ≡ some old
      → length (insert key val d) ≡ length d
  unfolding lookup insert
  length-insert_old key val old [] h = cc
  length-insert_old key val old ((at, prev) ∷ d) h = ground (arith, length-insert_old key val old d)

  pub length-erase-lt :
      (key : ℕ) (old : V) (d : Dict V)
      → lookup key d ≡ some old
      → length (erase key d) + 1 ≤ length d
  unfolding lookup erase
  length-erase-lt key old [] h = cc
  length-erase-lt key old ((at, prev) ∷ d) h =
      ground (arith, length-erase-lt key old d, length-erase-le key d)

  -- A key is bound exactly when it occurs among the keys.
  pub contains-keys : (key : ℕ) (d : Dict V) → contains key (keys d) ≡ has key d
  unfolding lookup
  contains-keys key [] = refl
  contains-keys key ((at, old) ∷ d) = ground (arith, contains-keys key d)

  contains-keys-insert :
      (key at : ℕ) (val : V) (d : Dict V)
      → contains at (keys (insert key val d)) ≡ (if key == at then true else contains at (keys d))
  contains-keys-insert key at val d =
      ground
        (arith, contains-keys at (insert key val d), contains-keys at d, lookup-insert key at val d)

  pub insert-IsDistinct :
      (key : ℕ) (val : V) (d : Dict V) → IsDistinct (keys d) → IsDistinct (keys (insert key val d))
  unfolding insert
  insert-IsDistinct key val [] h = (refl, tt)
  insert-IsDistinct key val ((at, old) ∷ d) h =
      ground (arith, insert-IsDistinct key val d h.1, contains-keys-insert key at val d)

  pub All-keys-insert {κ} :
      (P : ℕ → Type κ) (key : ℕ) (val : V) (d : Dict V)
      → P key
      → All P (keys d)
      → All P (keys (insert key val d))
  unfolding insert
  All-keys-insert P key val [] p h = (p, tt)
  All-keys-insert P key val ((at, old) ∷ d) p h =
      let rest = All-keys-insert P key val d p h.1 in
      elim (Bool-cases (at == key)) [ inl e ↦ rw e (p, h.1) | inr e ↦ rw e (h.0, rest) ]

  contains-keys-erase :
      (key at : ℕ) (d : Dict V)
      → contains at (keys d) ≡ false
      → contains at (keys (erase key d)) ≡ false
  contains-keys-erase key at d h =
      ground (arith, contains-keys at (erase key d), contains-keys at d, lookup-erase key at d)

  pub erase-IsDistinct :
      (key : ℕ) (d : Dict V) → IsDistinct (keys d) → IsDistinct (keys (erase key d))
  unfolding erase
  erase-IsDistinct key [] h = tt
  erase-IsDistinct key ((at, old) ∷ d) h =
      ground (arith, erase-IsDistinct key d h.1, contains-keys-erase key at d h.0)

  -- A property of every binding that a lookup finds holds of every entry, where keys are distinct.
  pub All-entries {κ} :
      (P : ℕ → V → Type κ) (d : Dict V)
      → IsDistinct (keys d)
      → ((key : ℕ) (val : V) → lookup key d ≡ some val → P key val)
      → All (λ e. P e.0 e.1) d
  unfolding lookup
  All-entries P [] distinct h = tt
  All-entries P ((at, old) ∷ d) distinct h = (
    h at old (ground arith),
    All-entries P d distinct.1 (λ key val e.
        h key val (ground (arith, e, contains-keys key d, ==_iff at key, distinct.0))),
  )
