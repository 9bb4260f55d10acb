-- ===== src/Approval/Quorum.antt =====
-- How many signatures make a block approved, and why two approvals of one committee agree.
use dyphira_chain.Common.{
  ℕ, ◌+◌, ◌*◌, ◌≤◌, ◌<◌, ◌≡◌, ◌↔◌, refl, true, List, [], ◌∷◌, length, arith, ap, subst,
}
use dyphira_chain.Common.Distinct.{common, overlap, length-le_of_subset, IsSubset}
use dyphira_chain.Common.Dict.{Dict, keys, length-insert_new}
use dyphira_chain.Types.{Validator}
use dyphira_chain.Approval.{BlockApproval, ok, add_signature, is_approved}
use dyphira_chain.Approval.Members.{IsValid, addresses, add_signature-eq-ok}

pub length-keys {ℓ} : {V : Type ℓ} (m : Dict V) → length (keys m) ≡ length m
length-keys [] = refl
length-keys (e ∷ m) = omega (arith, length-keys m)

length-addresses : (vs : List Validator) → length (addresses vs) ≡ length vs
length-addresses [] = refl
length-addresses (v ∷ vs) = omega (arith, length-addresses vs)

-- A valid approval is approved exactly when more than two thirds of the seats have signed.
pub is_approved_iff :
    (ba : BlockApproval)
    → IsValid ba
    → (is_approved ba ≡ true) ↔ (2 * length ba.committee < 3 * length ba.signatures)
unfolding is_approved
is_approved_iff ba v = ground arith

-- A valid approval has at most one signature for each seat of its committee.
pub signatures-le-committee :
    (ba : BlockApproval) → IsValid ba → length ba.signatures ≤ length ba.committee
signatures-le-committee ba v = omega (
  arith,
  length-le_of_subset (keys ba.signatures) (addresses ba.committee) v.distinct v.members,
  length-keys ba.signatures,
  length-addresses ba.committee,
)

-- Two approved blocks of one committee have common signers, more than a third of the seats.
pub quorums_overlap :
    (ba bb : BlockApproval)
    → IsValid ba
    → IsValid bb
    → bb.committee ≡ ba.committee
    → is_approved ba ≡ true
    → is_approved bb ≡ true
    → length ba.committee < 3 * length (common (keys ba.signatures) (keys bb.signatures))
quorums_overlap ba bb va vb same pa pb = omega (
  arith,
  (is_approved_iff ba va).0 pa,
  (is_approved_iff bb vb).0 pb,
  ap length same,
  length-addresses ba.committee,
  length-keys ba.signatures,
  length-keys bb.signatures,
  overlap (keys ba.signatures) (keys bb.signatures) (addresses ba.committee) va.distinct vb.distinct
      va.members (subst (λ c. IsSubset (keys bb.signatures) (addresses c)) same vb.members),
)

-- Each recorded signature raises the count by one.
pub length-add_signature :
    (ba : BlockApproval) (addr signature : ℕ) {ba' : BlockApproval}
    → add_signature ba addr signature ≡ ok ba'
    → length ba'.signatures ≡ length ba.signatures + 1
length-add_signature ba addr signature e =
    ground (
      arith,
      add_signature-eq-ok ba addr signature e,
      length-insert_new addr signature ba.signatures,
    )
