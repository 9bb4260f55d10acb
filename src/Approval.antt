-- ===== src/Approval.antt =====
-- block_approval.go: the signatures that a committee gives to one block.
-- `Signatures`, a map from hexadecimal addresses, is keyed by the address itself.
pub mod Members
pub mod Quorum
mod Tests
use dyphira_chain.Common.{
  ℕ, ◌+◌, ◌*◌, ◌/◌, Bool, true, false, ◌||◌, List, [], ◌∷◌, length, ◌==◌, leb, if◌then◌else◌,
}
use dyphira_chain.Common.Dict.{Dict, has, insert}
use dyphira_chain.Types.{Address, Block, Validator}

pub record BlockApproval : Type 0 where
  pub block : Block
  pub committee : List Validator
  pub signatures : Dict ℕ
  pub threshold : ℕ

pub data Error : Type 0 where
  not_in_committee already_signed : Error

pub data Result : Type 0 where
  ok : BlockApproval → Result
  err : Error → Result

-- `NewBlockApproval`: Go's `2 * len(committee) / 3 + 1`.
unfoldable pub new_block_approval : Block → List Validator → BlockApproval
new_block_approval block committee = record {
  block = block;
  committee = committee;
  signatures = [];
  threshold = (2 * length committee) / 3 + 1;
}

-- The loop of `isCommitteeMember`.
unfoldable pub is_member : Address → List Validator → Bool
is_member addr [] = false
is_member addr (v ∷ vs) = (v.address == addr) || is_member addr vs

unfoldable pub is_committee_member : BlockApproval → Address → Bool
unfolding is_member
is_committee_member ba addr = is_member addr ba.committee

unfoldable pub has_signature : BlockApproval → Address → Bool
has_signature ba addr = has addr ba.signatures

unfoldable pub add_signature : BlockApproval → Address → ℕ → Result
unfolding is_committee_member has_signature
add_signature ba addr signature =
    if is_committee_member ba addr
    then (if has_signature ba addr
        then err already_signed
        else ok (record ba { signatures = insert addr signature ba.signatures }))
    else err not_in_committee

unfoldable pub is_approved : BlockApproval → Bool
is_approved ba = leb ba.threshold (length ba.signatures)
