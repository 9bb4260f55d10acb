-- ===== src/Consensus/Quorums.antt =====
-- The approvals that a node holds: what keeps them valid, who has signed them, and which blocks they
-- approve.
use dyphira_chain.Common.{
  ℕ, ◌*◌, ◌<◌, ◌≡◌, ◌⊎◌, inl, inr, refl, sym, Option-cases, ap, subst, ◌∙◌, Bool, true, false, List,
  [], ◌∷◌, some, All, All-map, IsDistinct, length, if◌then◌else◌, ◌==◌, ==_iff, arith, Bool-cases,
}
use dyphira_chain.Common.Distinct.{IsSubset}
use dyphira_chain.Common.Dict.{
  Dict, lookup, insert, erase, keys, lookup-insert, lookup-erase, All-keys-insert,
}
use dyphira_chain.Types.{Address, Hash, Block, Validator, Approval}
use dyphira_chain.Approval.{
  BlockApproval, new_block_approval, add_signature, is_approved, Result, ok, err,
}
use dyphira_chain.Approval
use dyphira_chain.Approval.Members
use dyphira_chain.Approval.Members.{
  addresses, new_block_approval-IsValid, add_signature-IsValid, add_signature-eq-ok,
}
use dyphira_chain.Approval.Quorum.{is_approved_iff, length-keys}
use dyphira_chain.Consensus.{add_buffered, buffered}

pub Result-cases :
    (r : Result) → ((ba : BlockApproval) × (r ≡ ok ba)) ⊎ ((e : Approval.Error) × (r ≡ err e))
Result-cases (ok ba) = inl (ba, refl)
Result-cases (err e) = inr (e, refl)

pub if_keeps {ℓ κ} :
    {A : Type ℓ} → (P : A → Type κ) (b : Bool) {x y : A} → P x → P y → P (if b then x else y)
if_keeps P true px py = px
if_keeps P false px py = py

-- What a history says: which committees the node has had, and who has signed which hash.
pub record Facts : Type 1 where
  pub seated : List Validator → Type 0
  pub signed : Hash → Address → Type 0

-- A longer history says all that a shorter one does.
pub record Extends (f g : Facts) : Type 0 where
  pub seats : (c : List Validator) → f.seated c → g.seated c
  pub signs : (h : Hash) (a : Address) → f.signed h a → g.signed h a

-- More than two thirds of the seats of a committee that the node has had have signed the block's
-- hash, each seat by another member.
abbrev pub WasApproved : Facts → Block → Type 0
WasApproved f b =
    (committee : List Validator) × (signers : List Address) × f.seated committee
    × IsDistinct signers
    × IsSubset signers (addresses committee)
    × All (f.signed b.header.hash) signers
    × (2 * length committee < 3 * length signers)

-- A valid approval of a block with the hash, of a committee that the node has had, in which only
-- those have signed who did.
abbrev pub Approves : Facts → Hash → BlockApproval → Type 0
Approves f hash ba =
    Members.IsValid ba
    × (ba.block.header.hash ≡ hash)
    × f.seated ba.committee
    × All (f.signed hash) (keys ba.signatures)

-- Every entry approves the block of its key.
abbrev pub AllApprove : Facts → Dict BlockApproval → Type 0
AllApprove f m = (h : Hash) (ba : BlockApproval) → lookup h m ≡ some ba → Approves f h ba

-- Every approval that waits for a block was signed for its hash.
abbrev pub AllSigned : Facts → Dict (List Approval) → Type 0
AllSigned f m =
    (h : Hash) (l : List Approval) → lookup h m ≡ some l → All (λ a. f.signed h a.address) l

pub WasApproved-extends :
    (f g : Facts) (b : Block) → Extends f g → WasApproved f b → WasApproved g b
WasApproved-extends f g b le (c, signers, seat, distinct, members, signed, many) = (
  c,
  signers,
  le.seats c seat,
  distinct,
  members,
  All-map (le.signs b.header.hash) signers signed,
  many,
)

pub Approves-extends :
    (f g : Facts) (hash : Hash) (ba : BlockApproval)
    → Extends f g
    → Approves f hash ba
    → Approves g hash ba
Approves-extends f g hash ba le (v, e, seat, signed) =
    (v, e, le.seats ba.committee seat, All-map (le.signs hash) (keys ba.signatures) signed)

module _ (f : Facts) where
  pub add_signature-Approves :
      (hash : Hash) (ba : BlockApproval) (addr signature : ℕ) {ba' : BlockApproval}
      → Approves f hash ba
      → f.signed hash addr
      → add_signature ba addr signature ≡ ok ba'
      → Approves f hash ba'
  add_signature-Approves hash ba addr signature (v, e, seat, all) signs signed =
      let (_, _, same) = add_signature-eq-ok ba addr signature signed in
      (
        add_signature-IsValid ba addr signature v signed,
        ap (λ k. k.block.header.hash) same ∙ e,
        subst (λ k. f.seated k.committee) (sym same) seat,
        subst (λ k. All (f.signed hash) (keys k.signatures)) (sym same)
            (All-keys-insert (f.signed hash) addr signature ba.signatures signs all),
      )

  pub add_buffered-Approves :
      (hash : Hash) (ba : BlockApproval) (l : List Approval)
      → Approves f hash ba
      → All (λ a. f.signed hash a.address) l
      → Approves f hash (add_buffered ba l)
  unfolding add_buffered
  add_buffered-Approves hash ba [] v all = v
  add_buffered-Approves hash ba (a ∷ l) v (signs, all) =
      elim (Result-cases (add_signature ba a.address a.signature)) [
        | inl (ba', e) ↦
            rw (e, add_buffered)
              (add_buffered-Approves hash ba' l
                (add_signature-Approves hash ba a.address a.signature v signs e) all)
        | inr (x, e) ↦ rw (e, add_buffered) (add_buffered-Approves hash ba l v all)
      ]

  pub new-Approves :
      (block : Block) (committee : List Validator)
      → f.seated committee
      → Approves f block.header.hash (new_block_approval block committee)
  unfolding new_block_approval
  new-Approves block committee seat = (new_block_approval-IsValid block committee, refl, seat, tt)

  pub buffered-signed :
      (m : Dict (List Approval)) (hash : Hash)
      → AllSigned f m
      → All (λ a. f.signed hash a.address) (buffered m hash)
  buffered-signed m hash all = elim (Option-cases (lookup hash m)) [
    | inl nothing ↦
        let none_wait : buffered m hash ≡ [] = rw (nothing, buffered) refl in
        subst (All (λ a. f.signed hash a.address)) (sym none_wait) tt
    | inr (l, found) ↦
        let they_wait : buffered m hash ≡ l = rw (found, buffered) refl in
        subst (All (λ a. f.signed hash a.address)) (sym they_wait) (all hash l found)
  ]

  pub AllApprove-insert :
      (m : Dict BlockApproval) (hash : Hash) (ba : BlockApproval)
      → AllApprove f m
      → Approves f hash ba
      → AllApprove f (insert hash ba m)
  AllApprove-insert m hash ba all v h bb e = elim (Bool-cases (hash == h)) [
    | inl same ↦
        let ba_bb : ba ≡ bb = ground (arith, lookup-insert hash h ba m, e, same) in
        subst (λ k. Approves f k bb) ((==_iff hash h).0 same) (subst (Approves f hash) ba_bb v)
    | inr differ ↦ all h bb (ground (arith, lookup-insert hash h ba m, e, differ))
  ]

  pub AllApprove-erase :
      (m : Dict BlockApproval) (hash : Hash) → AllApprove f m → AllApprove f (erase hash m)
  AllApprove-erase m hash all h bb e = all h bb (ground (arith, lookup-erase hash h m, e))

  pub AllSigned-insert :
      (m : Dict (List Approval)) (hash : Hash) (l : List Approval)
      → AllSigned f m
      → All (λ a. f.signed hash a.address) l
      → AllSigned f (insert hash l m)
  AllSigned-insert m hash l all signs h k e = elim (Bool-cases (hash == h)) [
    | inl same ↦
        let l_k : l ≡ k = ground (arith, lookup-insert hash h l m, e, same) in
        subst (λ x. All (λ a. f.signed x a.address) k) ((==_iff hash h).0 same)
          (subst (All (λ a. f.signed hash a.address)) l_k signs)
    | inr differ ↦ all h k (ground (arith, lookup-insert hash h l m, e, differ))
  ]

  pub AllSigned-erase :
      (m : Dict (List Approval)) (hash : Hash) → AllSigned f m → AllSigned f (erase hash m)
  AllSigned-erase m hash all h l e = all h l (ground (arith, lookup-erase hash h m, e))

  -- An approval with its quorum approves every block of its hash.
  pub Approves-quorum :
      (b : Block) (ba : BlockApproval)
      → Approves f b.header.hash ba
      → is_approved ba ≡ true
      → WasApproved f b
  Approves-quorum b ba (v, e, seat, all) quorum = (
    ba.committee,
    keys ba.signatures,
    seat,
    v.distinct,
    v.members,
    all,
    omega (arith, (is_approved_iff ba v).0 quorum, length-keys ba.signatures),
  )

  -- The blocks that wait, with one more if its approval has the quorum.
  pub ready-approved :
      (ready : List Block) (block : Block) (ba : BlockApproval)
      → All (WasApproved f) ready
      → Approves f block.header.hash ba
      → All (WasApproved f) (if is_approved ba then block ∷ ready else ready)
  ready-approved ready block ba all v = elim (Bool-cases (is_approved ba)) [
    | inl quorum ↦ rw quorum (Approves-quorum block ba v quorum, all)
    | inr short ↦ rw short all
  ]
