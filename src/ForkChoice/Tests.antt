-- ===== src/ForkChoice/Tests.antt =====
-- Votes of three validators, and the head by their weight.
use mathlib.Core.List.{Permᴰ}
use dyphira_chain.Common.{ℕ, ◌≤◌, ◌<◌, ◌≡◌, refl, true, List, [], ◌∷◌, arith, add64, word_mod}
use dyphira_chain.Common.Dict.{insert, lookup}
use dyphira_chain.Types.{Address, Validator, weight}
use dyphira_chain.ForkChoice.{Votes, record_vote, latest_vote, weight_of, tally, heaviest}
use dyphira_chain.ForkChoice.Support.{support, total_weight, heaviest_lem}

abbrev voter : Address → ℕ → Validator
voter a stake = record {
  address = a;
  stake = stake;
  delegated_stake = 0;
  compute_reputation = 0;
  participating = true;
}

abbrev voters : List Validator
voters = voter 1 10 ∷ voter 2 20 ∷ voter 3 15 ∷ []

abbrev votes : Votes
votes = record_vote (record_vote (record_vote [] 7 (voter 1 10)) 8 (voter 2 20)) 7 (voter 3 15)

counted : tally votes voters [] ≡ (7, 25) ∷ (8, 20) ∷ []
unfolding tally record_vote latest_vote weight_of weight insert lookup add64
counted = refl

voters_fit : total_weight voters < word_mod
unfolding weight add64
voters_fit = omega arith

-- The map read from its other end.
heaviest_lem_example :
    support votes voters 8 ≤ support votes voters (heaviest ((8, 20) ∷ (7, 25) ∷ []) 0 0)
heaviest_lem_example =
    heaviest_lem votes voters ((8, 20) ∷ (7, 25) ∷ []) 8 voters_fit
      (rw counted (Permᴰ.swap refl refl))
