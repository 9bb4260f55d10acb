-- ===== src/Committee/Rotation.antt =====
-- `NewProposerSelectorWithRotation` and `ProposerForBlock` over a whole epoch.

use native.Mathlib.Nat.{mod-lt}
use dyphira_chain.Common.{
  ℕ, ◌+◌, ◌-◌, ◌*◌, ◌/◌, ◌%◌, ◌<◌, ◌≡◌, refl, sym, subst, ◌∙◌, true, false, ◌&&◌, List, [], Option,
  none, some, length, get_elem?, All, All-get, ltb, leb, ◌==◌, if◌then◌else◌, arith, add64,
  add64_exact, word_mod, Bool-cases, inl, inr,
}
use dyphira_chain.Common.Dict.{Dict, lookup}
use dyphira_chain.Types.{Validator}
use dyphira_chain.Committee.{
  rotate, fill_slots, ProposerSelector, new_proposer_selector, proposer_for_block,
}
use dyphira_chain.Committee.Slots.{
  turn, get_elem?-some, TakesTurns, Holds, rotate-Holds, fill_slots-Holds,
}

-- What `rand.Perm` gives for a committee: as many indices as it has members, all in range.
pub record IsShuffle (committee : List Validator) (indices : List ℕ) : Type 0 where
  pub size : length indices ≡ length committee
  pub inside : All (λ i. i < length committee) indices

module _ (committee : List Validator) (indices : List ℕ) (start epoch : ℕ) where
  abbrev scheduled : ℕ → Option Validator
  scheduled h = turn committee indices (h - start)

  scheduled-TakesTurns : TakesTurns committee indices 0 start scheduled
  scheduled-TakesTurns i k nine below =
      let e : (start + 9 * (0 + i) + k - start) / 9 ≡ i = omega arith in ground (arith, e)

  filled-Holds :
      IsShuffle committee indices
      → 0 < length committee
      → start + epoch < word_mod
      → (given : ℕ × Dict Validator) × (slots : Dict Validator) × (rotate committee indices
            (start + epoch)
            start
            []
          ≡ some given)
        × (fill_slots epoch committee start (start + epoch) given.0 given.1 ≡ some slots)
        × Holds start (start + epoch) slots scheduled
  unfolding lookup
  filled-Holds sh some_one small =
      let (given, ran, stop, held) =
        rotate-Holds committee indices 0 start (start + epoch) start [] scheduled sh.inside
          (omega arith) small scheduled-TakesTurns (omega arith) (λ h. ground arith) in
      let (slots, filled, all_held) =
        fill_slots-Holds epoch committee start (start + epoch) given.0 given.1 scheduled some_one
          (omega (arith, stop)) (omega (arith, stop)) small (omega (arith, stop))
          (λ h low high. ground (arith, stop, low, high)) held in
      (given, slots, ran, filled, all_held)

proposer_for_block-lookup :
    (ps : ProposerSelector) (h : ℕ) {o : Option Validator}
    → lookup h ps.slots ≡ o
    → proposer_for_block ps h ≡ o
unfolding proposer_for_block
proposer_for_block-lookup ps h e = e

empty_slots : (h : ℕ) {V : Type 0} → lookup {V = V} h [] ≡ none
unfolding lookup
empty_slots h = refl

module _ (perm : ℕ → List ℕ) (committee : List Validator) (start epoch : ℕ) where
  new_proposer_selector-filled :
      (given : ℕ × Dict Validator) (slots : Dict Validator)
      → (length committee == 0) ≡ false
      → (epoch == 0) ≡ false
      → start + epoch < word_mod
      → rotate committee (perm (length committee)) (start + epoch) start [] ≡ some given
      → fill_slots epoch committee start (start + epoch) given.0 given.1 ≡ some slots
      → new_proposer_selector perm committee start epoch
        ≡ some (record {
          committee = committee;
          slots = slots;
          epoch_start = start;
          epoch_length = epoch;
        })
  unfolding new_proposer_selector
  new_proposer_selector-filled given slots some_one some_block small ran filled =
      let exact : start + epoch ≡ add64 start epoch = sym (add64_exact start epoch small) in
      let ran' =
        subst (λ limit. rotate committee (perm (length committee)) limit start [] ≡ some given)
          exact ran in
      let filled' =
        subst (λ limit. fill_slots epoch committee start limit given.0 given.1 ≡ some slots) exact
          filled in
      rw (some_one, new_proposer_selector) (rw some_block (rw ran' (rw filled' refl)))

  new_proposer_selector-empty :
      (epoch == 0) ≡ true
      → new_proposer_selector perm committee start epoch
        ≡ some (record {
          committee = committee;
          slots = [];
          epoch_start = start;
          epoch_length = epoch;
        })
  unfolding new_proposer_selector
  new_proposer_selector-empty empty = ground (arith, empty)

  -- With a committee that is not empty the selector is built, and it schedules exactly the
  -- heights of its epoch: nine in a row for each member in the order of the shuffle, round-robin
  -- after that, and nobody outside the epoch.
  pub proposer_for_block_lem :
      0 < length committee
      → IsShuffle committee (perm (length committee))
      → start + epoch < word_mod
      → (ps : ProposerSelector) × (new_proposer_selector perm committee start epoch ≡ some ps)
        × (ps.epoch_start ≡ start)
        × ((h : ℕ)
            → proposer_for_block ps h ≡ (
                if leb start h && ltb h (start + epoch)
                then turn committee (perm (length committee)) (h - start)
                else none))
  proposer_for_block_lem some_one sh small = elim (Bool-cases (epoch == 0)) [
    | inl empty ↦ (
      record { committee = committee; slots = []; epoch_start = start; epoch_length = epoch },
      new_proposer_selector-empty empty,
      refl,
      λ h. proposer_for_block-lookup _ h (empty_slots h ∙ ground (arith, empty)),
    )
    | inr some_block ↦
        let (given, slots, ran, filled, held) =
          filled-Holds committee (perm (length committee)) start epoch sh some_one small in
        (
          record {
            committee = committee;
            slots = slots;
            epoch_start = start;
            epoch_length = epoch;
          },
          new_proposer_selector-filled given slots (ground arith) some_block small ran filled,
          refl,
          λ h. proposer_for_block-lookup _ h (held h),
        )
  ]

-- The validator of every turn is a member of the committee.
turn-some :
    (committee : List Validator) (indices : List ℕ) (k : ℕ)
    → 0 < length committee
    → IsShuffle committee indices
    → (v : Validator) × (i : ℕ) × (turn committee indices k ≡ some v)
      × (get_elem? committee i ≡ some v)
turn-some committee indices k some_one sh = elim (Bool-cases (ltb k (9 * length indices))) [
  | inl early ↦
      let (i, got) = get_elem?-some indices (k / 9) (ground (arith, early)) in
      let (v, member) =
        get_elem?-some committee i
          (All-get (λ j. j < length committee) indices (k / 9) i sh.inside got) in
      (v, i, rw early (rw got member), member)
  | inr late ↦
      let (v, member) = get_elem?-some committee (k % length committee) (mod-lt k some_one) in
      (v, k % length committee, rw late member, member)
]
