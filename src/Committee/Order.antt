-- ===== src/Committee/Order.antt =====
-- The sort of the candidates: sorted, complete, and blind to the order in which they came.
use mathlib.Core.List.{Permᴰ}
use mathlib.Core.List.Permᴰ
use dyphira_chain.Common.{
  ◌≡◌, ◌≢◌, refl, ap, ◌∙◌, true, false, List, [], ◌∷◌, map, All, All-map, contains, IsDistinct,
  ==_iff, arith, Bool-cases, inl, inr,
}
use dyphira_chain.Common.Perm.{All-Perm, map-Perm, IsDistinct-Perm, contains-Perm}
use dyphira_chain.Types.{Address}
use dyphira_chain.Committee.{CommitteeMember, ahead, insert_member, sort_members}

abbrev pub member_addresses : List CommitteeMember → List Address
member_addresses = map (λ m. m.validator.address)

-- Of two members with different addresses exactly one is ahead.
pub ahead-total :
    (a b : CommitteeMember)
    → a.validator.address ≢ b.validator.address
    → ahead a b ≡ false
    → ahead b a ≡ true
unfolding ahead
ahead-total a b ne h = ground (arith, ne, h)

pub ahead_trans : (a b c : CommitteeMember) → ahead a b ≡ true → ahead b c ≡ true → ahead a c ≡ true
unfolding ahead
ahead_trans a b c h k = ground (arith, h, k)

pub ahead_asym : (a b : CommitteeMember) → ahead a b ≡ true → ahead b a ≡ false
unfolding ahead
ahead_asym a b h = ground (arith, h)

insert_member_comm :
    (a b : CommitteeMember) (ms : List CommitteeMember)
    → a.validator.address ≢ b.validator.address
    → insert_member a (insert_member b ms) ≡ insert_member b (insert_member a ms)
unfolding insert_member
insert_member_comm a b [] ne = ground (arith, ahead-total a b ne, ahead_asym a b)
insert_member_comm a b (m ∷ ms) ne = ground (
  arith,
  insert_member_comm a b ms ne,
  ahead-total a b ne,
  ahead_asym a b,
  ahead_trans a b m,
  ahead_trans b a m,
)

-- Inserting leaves the other members as they are, up to order.
pub insert_member-Perm :
    (a : CommitteeMember) (ms : List CommitteeMember) → Permᴰ (insert_member a ms) (a ∷ ms)
unfolding insert_member
insert_member-Perm a [] = Permᴰ.refl (a ∷ [])
insert_member-Perm a (b ∷ ms) = elim (Bool-cases (ahead a b)) [
  | inl h ↦ rw h (Permᴰ.refl (a ∷ b ∷ ms))
  | inr h ↦ rw h (Permᴰ.trans (Permᴰ.cons refl (insert_member-Perm a ms)) (Permᴰ.swap refl refl))
]

pub sort_members-Perm : (ms : List CommitteeMember) → Permᴰ (sort_members ms) ms
unfolding sort_members
sort_members-Perm [] = Permᴰ.nil
sort_members-Perm (a ∷ ms) =
    Permᴰ.trans (insert_member-Perm a (sort_members ms)) (Permᴰ.cons refl (sort_members-Perm ms))

-- Members with different addresses come out in one order, however they come in.
pub sort_members_unordered :
    {ms ns : List CommitteeMember}
    → Permᴰ ms ns
    → IsDistinct (member_addresses ms)
    → sort_members ms ≡ sort_members ns
unfolding sort_members
sort_members_unordered Permᴰ.nil d = refl
sort_members_unordered (Permᴰ.cons {a} {b} {l₁} {l₂} e p) d =
    ap (λ m. insert_member m (sort_members l₁)) e
    ∙ ap (insert_member b) (sort_members_unordered p d.1)
sort_members_unordered (Permᴰ.swap {a} {b} {a'} {b'} {l} e f) d =
    insert_member_comm a b (sort_members l) (λ same. absurd (ground (arith, same, d.0)))
    ∙ ap (λ m. insert_member m (insert_member a (sort_members l))) f
    ∙ ap (λ m. insert_member a' (insert_member m (sort_members l))) e
sort_members_unordered (Permᴰ.trans p q) d =
    sort_members_unordered p d
    ∙ sort_members_unordered q (IsDistinct-Perm (map-Perm (λ m. m.validator.address) p) d)

-- Each member is ahead of all that follow.
abbrev pub IsSorted : List CommitteeMember → Type 0
IsSorted [] = Unit
IsSorted (a ∷ ms) = All (λ b. ahead a b ≡ true) ms × IsSorted ms

insert_member-IsSorted :
    (a : CommitteeMember) (ms : List CommitteeMember)
    → contains a.validator.address (member_addresses ms) ≡ false
    → IsSorted ms
    → IsSorted (insert_member a ms)
unfolding insert_member
insert_member-IsSorted a [] fresh s = (tt, tt)
insert_member-IsSorted a (b ∷ ms) fresh (first, rest) = elim (Bool-cases (ahead a b)) [
  | inl h ↦ rw h ((h, All-map (λ c k. ahead_trans a b c h k) ms first), (first, rest))
  | inr h ↦
      let behind : ahead b a ≡ true =
        ahead-total a b
          (λ same.
            absurd (ground (arith, same, fresh, ==_iff b.validator.address a.validator.address)))
          h in
      rw h (
        All-Perm (λ c. ahead b c ≡ true) (Permᴰ.symm (insert_member-Perm a ms)) (behind, first),
        insert_member-IsSorted a ms (ground (arith, fresh)) rest,
      )
]

pub sort_members-IsSorted :
    (ms : List CommitteeMember) → IsDistinct (member_addresses ms) → IsSorted (sort_members ms)
unfolding sort_members
sort_members-IsSorted [] d = tt
sort_members-IsSorted (a ∷ ms) (fresh, d) =
    insert_member-IsSorted a (sort_members ms)
      (contains-Perm a.validator.address
          (map-Perm (λ m. m.validator.address) (sort_members-Perm ms))
        ∙ fresh)
      (sort_members-IsSorted ms d)
