-- ===== src/Committee.antt =====
-- committee.go: the election of a committee, and the proposer of each height of an epoch.
pub mod Order
pub mod Election
pub mod Slots
pub mod Rotation
pub mod Replacement
mod Tests
use mathlib.Core.Option
use dyphira_chain.Common.{
  ℕ, zero, suc, ◌+◌, ◌%◌, Bool, true, false, ◌||◌, List, [], ◌∷◌, map, Option, none, some, length,
  take, keep, get_elem?, ltb, ◌==◌, if◌then◌else◌, add64, sub64,
}
use dyphira_chain.Common.Dict.{Dict, lookup, insert}
use dyphira_chain.Types.{Address, Validator, weight}
use dyphira_chain.Storage.{Storage}
use dyphira_chain.Registry.{get_all_validators}

pub record CommitteeMember : Type 0 where
  pub validator : Validator
  pub weight : ℕ

-- The order of the sort. `bytes.Compare` of two addresses compares them as numbers.
unfoldable pub ahead : CommitteeMember → CommitteeMember → Bool
ahead a b =
    if a.weight == b.weight
    then ltb a.validator.address b.validator.address
    else ltb b.weight a.weight

-- `sort.Slice` by that order. Its algorithm is open; what it gives is unique where the members
-- have different addresses, since the order is then total.
unfoldable pub insert_member : CommitteeMember → List CommitteeMember → List CommitteeMember
insert_member a [] = a ∷ []
insert_member a (b ∷ ms) =
    let rest = insert_member a ms in if ahead a b then a ∷ b ∷ ms else b ∷ rest

unfoldable pub sort_members : List CommitteeMember → List CommitteeMember
sort_members [] = []
sort_members (a ∷ ms) = insert_member a (sort_members ms)

unfoldable pub to_member : Validator → CommitteeMember
to_member v = record { validator = v; weight = weight v }

-- The validators that take part, with their weights.
unfoldable pub candidates : List Validator → List CommitteeMember
candidates vs = map to_member (keep (λ v. v.participating) vs)

-- `SelectCommittee` after the registry is read; a nil slice is the empty list.
unfoldable pub elect : ℕ → List Validator → List Validator
unfolding candidates
elect n vs = map (λ m. m.validator) (take n (sort_members (candidates vs)))

unfoldable pub select_committee : {S : Type 0} ⦃st : Storage S⦄ → S → ℕ → List Validator
select_committee s n = elect n (get_all_validators s)

-- `ProposerSelector`
pub record ProposerSelector : Type 0 where
  pub committee : List Validator
  pub slots : Dict Validator
  pub epoch_start : ℕ
  pub epoch_length : ℕ

-- The inner loop: up to `n` consecutive heights for one validator, within the epoch.
unfoldable pub give_slots : ℕ → ℕ → ℕ → Validator → Dict Validator → ℕ × Dict Validator
give_slots zero limit block v slots = (block, slots)
give_slots (suc n) limit block v slots =
    let rest = give_slots n limit (add64 block 1) v (insert block v slots) in
    if ltb block limit then rest else (block, slots)

-- The loop over the shuffled indices, nine heights for each; `none` is an index out of range,
-- which panics.
unfoldable pub rotate :
    List Validator → List ℕ → ℕ → ℕ → Dict Validator → Option (ℕ × Dict Validator)
rotate committee [] limit block slots = some (block, slots)
rotate committee (index ∷ indices) limit block slots = elim (get_elem? committee index) [
  | none ↦ none
  | some v ↦
      let given = give_slots 9 limit block v slots in rotate committee indices limit given.0 given.1
]

-- The loop over the heights that are left, round-robin. The first number is fuel; `none` is a
-- panic or out of fuel. The offset fits Go's int.
unfoldable pub fill_slots :
    ℕ → List Validator → ℕ → ℕ → ℕ → Dict Validator → Option (Dict Validator)
fill_slots zero committee start limit block slots = if ltb block limit then none else some slots
fill_slots (suc fuel) committee start limit block slots = elim (ltb block limit) [
  | false ↦ some slots
  | true ↦ elim (get_elem? committee (sub64 block start % length committee)) [
    | none ↦ none
    | some v ↦ fill_slots fuel committee start limit (add64 block 1) (insert block v slots)
  ]
]

-- `NewProposerSelectorWithRotation`; `perm n` is what `rand.Perm` gives for the seed 0.
unfoldable pub new_proposer_selector :
    (ℕ → List ℕ) → List Validator → ℕ → ℕ → Option ProposerSelector
new_proposer_selector perm committee epoch_start epoch_length =
    let with_slots : Dict Validator → ProposerSelector = λ slots. record {
      committee = committee;
      slots = slots;
      epoch_start = epoch_start;
      epoch_length = epoch_length;
    } in
    let limit = add64 epoch_start epoch_length in
    let filled : Option (Dict Validator) =
      elim (rotate committee (perm (length committee)) limit epoch_start []) [
        | none ↦ none
        | some given ↦ fill_slots epoch_length committee epoch_start limit given.0 given.1
      ] in
    if (length committee == 0) || (epoch_length == 0)
    then some (with_slots [])
    else Option.map with_slots filled

unfoldable pub proposer_for_block : ProposerSelector → ℕ → Option Validator
proposer_for_block ps block_height = lookup block_height ps.slots
