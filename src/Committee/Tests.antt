-- ===== src/Committee/Tests.antt =====
-- Runs of the election and of the rotation at concrete inputs.
use mathlib.Core.List.{Permᴰ}
use Prim.Native.Nat.{min}
use dyphira_chain.Common.{
  ℕ, ◌+◌, ◌-◌, ◌≡◌, ◌⊎◌, ◌||◌, not, ◌==◌, contains, IsDistinct, refl, true, false, ◌&&◌, List, [],
  ◌∷◌, ◌++◌, none, some, length, ltb, leb, if◌then◌else◌, arith, add64,
}
use dyphira_chain.Types.{Address, Validator, weight}
use dyphira_chain.Committee.{
  ahead, insert_member, sort_members, to_member, candidates, elect, ProposerSelector,
  new_proposer_selector, proposer_for_block,
}
use dyphira_chain.Committee.Slots.{turn}
use dyphira_chain.Committee.Rotation.{IsShuffle, proposer_for_block_lem}
use dyphira_chain.Committee.Replacement.{unseated, reseated, replace_inactive, replace_inactive_lem}
use dyphira_chain.Committee.Election.{addresses, taking_part, IsRanked, elect_unordered, elect_lem}

abbrev small : Validator
small = record {
  address = 3;
  stake = 10;
  delegated_stake = 0;
  compute_reputation = 0;
  participating = true;
}

abbrev large : Validator
large = record {
  address = 9;
  stake = 10;
  delegated_stake = 5;
  compute_reputation = 0;
  participating = true;
}

abbrev idle : Validator
idle = record {
  address = 1;
  stake = 900;
  delegated_stake = 0;
  compute_reputation = 0;
  participating = false;
}

abbrev three : List Validator
three = small ∷ idle ∷ large ∷ []

elected : elect 1 three ≡ large ∷ []
unfolding elect candidates to_member sort_members insert_member ahead weight add64
elected = refl

elect_unordered_example : elect 1 three ≡ elect 1 (idle ∷ small ∷ large ∷ [])
elect_unordered_example = elect_unordered 1 (Permᴰ.swap refl refl) (refl, (refl, (refl, tt)))

elect_lem_example :
    (others : List Validator) × (length (elect 1 three) ≡ min 1 2)
    × Permᴰ (elect 1 three ++ others) (taking_part three)
    × IsRanked (elect 1 three ++ others)
elect_lem_example = elect_lem 1 three (refl, (refl, (refl, tt)))

-- A shuffle that keeps the order.
abbrev in_order : ℕ → List ℕ
in_order _ = 0 ∷ 1 ∷ []

abbrev pair : List Validator
pair = small ∷ large ∷ []

pair-IsShuffle : IsShuffle pair (in_order 2)
pair-IsShuffle = record { size = refl; inside = (omega arith, (omega arith, tt)) }

proposer_for_block_example :
    (ps : ProposerSelector) × (new_proposer_selector in_order pair 270 270 ≡ some ps)
    × (ps.epoch_start ≡ 270)
    × ((h : ℕ)
        → proposer_for_block ps h
          ≡ (if leb 270 h && ltb h (270 + 270) then turn pair (in_order 2) (h - 270) else none))
proposer_for_block_example =
    proposer_for_block_lem in_order pair 270 270 (omega arith) pair-IsShuffle (omega arith)

abbrev spare : Validator
spare = record small { address = 4; stake = 12 }

replace_inactive_example :
    let free = unseated (small ∷ large ∷ []) 3 (spare ∷ three) in
    ((replace_inactive (small ∷ large ∷ []) 3 (spare ∷ three) ≡ none) × (free ≡ []))
    ⊎ (v : Validator) × (others : List Validator) × (after : List Validator) × (replace_inactive
          (small ∷ large ∷ [])
          3
          (spare ∷ three)
        ≡ some after)
      × Permᴰ (v ∷ others) free
      × IsRanked (v ∷ others)
      × (after ≡ reseated 3 v (small ∷ large ∷ []))
      × ((contains 3 (addresses (small ∷ large ∷ [])) ≡ true) ⊎ (after ≡ small ∷ large ∷ []))
      × (length after ≡ 2)
      × IsDistinct (addresses after)
      × ((a : Address)
          → contains a (addresses after) ≡ (
              if contains 3 (addresses (small ∷ large ∷ []))
              then (v.address == a) || (contains a (addresses (small ∷ large ∷ [])) && not (a == 3))
              else contains a (addresses (small ∷ large ∷ []))))
replace_inactive_example =
    replace_inactive_lem (small ∷ large ∷ []) 3 (spare ∷ three) (refl, (refl, tt))
      (refl, (refl, (refl, (refl, tt))))
