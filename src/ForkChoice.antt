-- ===== src/ForkChoice.antt =====
-- fork_choice.go: the votes of validators, and the head of the chain by their weight.
pub mod Support
mod Tests
use dyphira_chain.Common.{
  ℕ, zero, suc, ◌+◌, Bool, true, false, List, [], ◌∷◌, Option, none, some, ltb, ◌==◌, if◌then◌else◌,
  add64,
}
use dyphira_chain.Common.Dict.{Dict, lookup, insert}
use dyphira_chain.Types.{Address, Hash, Validator, weight}
use dyphira_chain.Storage.{Storage}
use dyphira_chain.Registry.{get_all_validators}

-- `ParticipationTracker`
abbrev pub Votes : Type 0
Votes = Dict Hash

unfoldable pub record_vote : Votes → Hash → Validator → Votes
record_vote votes block_hash validator = insert validator.address block_hash votes

unfoldable pub latest_vote : Votes → Address → Option Hash
latest_vote votes validator = lookup validator votes

-- `weightMap[h]`, zero for a missing key.
unfoldable pub weight_of : Hash → Dict ℕ → ℕ
weight_of h m = elim (lookup h m) [ none ↦ 0 | some w ↦ w ]

-- The loop over the validators.
unfoldable pub tally : Votes → List Validator → Dict ℕ → Dict ℕ
unfolding latest_vote weight_of
tally votes [] m = m
tally votes (v ∷ vs) m = elim (latest_vote votes v.address) [
  | none ↦ tally votes vs m
  | some vote ↦ tally votes vs (insert vote (add64 (weight_of vote m) (weight v)) m)
]

-- The loop over the map, from the best hash and weight so far.
unfoldable pub heaviest : Dict ℕ → Hash → ℕ → Hash
heaviest [] max_hash max_weight = max_hash
heaviest ((h, w) ∷ m) max_hash max_weight =
    let take_it = heaviest m h w in
    let keep_it = heaviest m max_hash max_weight in if ltb max_weight w then take_it else keep_it

-- `SelectHead`, with the validators of the registry.
unfoldable pub head_of : Votes → List Validator → Hash
unfolding tally heaviest
head_of votes validators = heaviest (tally votes validators []) 0 0

unfoldable pub select_head : {S : Type 0} ⦃st : Storage S⦄ → Votes → S → Hash
unfolding head_of
select_head votes registry = head_of votes (get_all_validators registry)
