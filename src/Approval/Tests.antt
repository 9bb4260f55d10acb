-- ===== src/Approval/Tests.antt =====
-- Sample approvals: a committee of three, and the theorems at them.
use dyphira_chain.Common.{ℕ, ◌*◌, ◌<◌, ◌≡◌, refl, true, List, [], ◌∷◌, length, arith}
use dyphira_chain.Common.Distinct.{common}
use dyphira_chain.Common.Dict.{keys, insert, lookup}
use dyphira_chain.Types.{Block, Validator}
use dyphira_chain.Approval.{BlockApproval, ok, new_block_approval, add_signature, is_approved}
use dyphira_chain.Approval.Members.{IsValid}
use dyphira_chain.Approval.Quorum.{quorums_overlap}

abbrev seat : ℕ → Validator
seat a = record {
  address = a;
  stake = 100;
  delegated_stake = 0;
  compute_reputation = 0;
  participating = true;
}

abbrev three : List Validator
three = seat 1 ∷ seat 2 ∷ seat 3 ∷ []

abbrev sample_block : Block
sample_block = record {
  header = record {
    block_number = 1;
    previous_hash = 7;
    timestamp = 0;
    proposer = 1;
    gas = 0;
    transaction_root = 0;
    hash = 8;
  };
  transactions = [];
  validator_list = [];
  signature = 0;
  size = 0;
}

-- All three have signed.
abbrev full : BlockApproval
full = record {
  block = sample_block;
  committee = three;
  signatures = (1, 11) ∷ (2, 12) ∷ (3, 13) ∷ [];
  threshold = 3;
}

abbrev partial : BlockApproval
partial = record full { signatures = (1, 11) ∷ (2, 12) ∷ [] }

full-IsValid : IsValid full
full-IsValid = record { distinct = ground arith; members = ground arith; majority = refl }

partial-IsValid : IsValid partial
partial-IsValid = record { distinct = ground arith; members = ground arith; majority = refl }

new_approval_threshold : (new_block_approval sample_block three).threshold ≡ 3
unfolding new_block_approval
new_approval_threshold = refl

third_signature : add_signature partial 3 13 ≡ ok full
unfolding add_signature lookup insert
third_signature = refl

full_approved : is_approved full ≡ true
unfolding is_approved
full_approved = refl

quorums_overlap_example : 3 < 3 * length (common (keys full.signatures) (keys full.signatures))
quorums_overlap_example =
    quorums_overlap full full full-IsValid full-IsValid refl full_approved full_approved
