-- ===== src/Approval/Members.antt =====
-- Who has signed: every signature in an approval is of a different member of its committee.
use dyphira_chain.Common.{
  ℕ, ◌+◌, ◌*◌, ◌/◌, ◌≡◌, refl, true, false, List, [], ◌∷◌, length, contains, IsDistinct, map, subst,
  sym, arith, ◌⊎◌,
}
use dyphira_chain.Common.Distinct.{IsSubset}
use dyphira_chain.Common.Dict.{has, insert, keys, insert-IsDistinct, All-keys-insert}
use dyphira_chain.Types.{Address, Block, Validator}
use dyphira_chain.Approval.{
  BlockApproval, ok, err, not_in_committee, already_signed, new_block_approval, is_member,
  add_signature,
}

abbrev pub addresses : List Validator → List Address
addresses = map (λ v. v.address)

pub is_member-contains :
    (a : Address) (vs : List Validator) → is_member a vs ≡ contains a (addresses vs)
unfolding is_member
is_member-contains a [] = refl
is_member-contains a (v ∷ vs) = ground (arith, is_member-contains a vs)

-- The signers are distinct, all are members, and the threshold is the one of the committee.
pub record IsValid (ba : BlockApproval) : Type 0 where
  pub distinct : IsDistinct (keys ba.signatures)
  pub members : IsSubset (keys ba.signatures) (addresses ba.committee)
  pub majority : ba.threshold ≡ (2 * length ba.committee) / 3 + 1

pub new_block_approval-IsValid :
    (block : Block) (committee : List Validator) → IsValid (new_block_approval block committee)
unfolding new_block_approval
new_block_approval-IsValid block committee = record { distinct = tt; members = tt; majority = refl }

insert-IsValid :
    (ba : BlockApproval) (addr signature : ℕ)
    → IsValid ba
    → is_member addr ba.committee ≡ true
    → IsValid (record ba { signatures = insert addr signature ba.signatures })
insert-IsValid ba addr signature v m = record {
  distinct = insert-IsDistinct addr signature ba.signatures v.distinct;
  members = All-keys-insert _ addr signature ba.signatures (rw is_member-contains at m) v.members;
  majority = v.majority;
}

-- The three outcomes: a stranger and a second signature are refused, and else the signature is
-- recorded under its signer.
pub add_signature-cases :
    (ba : BlockApproval) (addr signature : ℕ)
    → ((is_member addr ba.committee ≡ false)
        × (add_signature ba addr signature ≡ err not_in_committee))
      ⊎ ((is_member addr ba.committee ≡ true)
          × (has addr ba.signatures ≡ true)
          × (add_signature ba addr signature ≡ err already_signed))
      ⊎ ((is_member addr ba.committee ≡ true)
          × (has addr ba.signatures ≡ false)
          × (add_signature ba addr signature
              ≡ ok (record ba { signatures = insert addr signature ba.signatures })))
unfolding add_signature
add_signature-cases ba addr signature = ground arith

-- What a recorded signature says of the call.
pub add_signature-eq-ok :
    (ba : BlockApproval) (addr signature : ℕ) {ba' : BlockApproval}
    → add_signature ba addr signature ≡ ok ba'
    → (is_member addr ba.committee ≡ true)
      × (has addr ba.signatures ≡ false)
      × (ba' ≡ record ba { signatures = insert addr signature ba.signatures })
unfolding add_signature
add_signature-eq-ok ba addr signature e = ground arith

-- A recorded signature keeps the approval valid: signers stay distinct members.
pub add_signature-IsValid :
    (ba : BlockApproval) (addr signature : ℕ) {ba' : BlockApproval}
    → IsValid ba
    → add_signature ba addr signature ≡ ok ba'
    → IsValid ba'
add_signature-IsValid ba addr signature {ba'} v e =
    let (member, _, same) = add_signature-eq-ok ba addr signature e in
    subst IsValid (sym same) (insert-IsValid ba addr signature v member)
