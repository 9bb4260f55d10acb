-- ===== src/Committee/Election.antt =====
-- `SelectCommittee`: who is elected, and that all nodes elect the same committee.
use mathlib.Core.List.{Permᴰ}
use mathlib.Core.List.Permᴰ
use Prim.Native.Nat.{min}
use dyphira_chain.Common.{
  ℕ, zero, suc, ◌≡◌, ◌⊎◌, ◌<◌, inl, inr, refl, sym, ap, subst, ◌∙◌, true, false, List, [], ◌∷◌,
  ◌++◌, map, length, take, keep, All, contains, IsDistinct, arith, Bool-cases, length-take,
  length-map,
}
use dyphira_chain.Common.Perm.{keep-Perm, All-Perm, map-Perm, length-Perm}
use dyphira_chain.Types.{Address, Validator, weight}
use dyphira_chain.Committee.{CommitteeMember, ahead, sort_members, to_member, candidates, elect}
use dyphira_chain.Committee.Order.{
  member_addresses, IsSorted, sort_members-Perm, sort_members-IsSorted, sort_members_unordered,
}

-- The validators that take part.
abbrev pub taking_part : List Validator → List Validator
taking_part = keep (λ v. v.participating)

abbrev pub addresses : List Validator → List Address
addresses = map (λ v. v.address)

addresses-taking_part :
    (a : Address) (vs : List Validator)
    → contains a (addresses vs) ≡ false
    → contains a (addresses (taking_part vs)) ≡ false
addresses-taking_part a [] h = refl
addresses-taking_part a (v ∷ vs) h = ground (arith, h, addresses-taking_part a vs)

taking_part-IsDistinct :
    (vs : List Validator) → IsDistinct (addresses vs) → IsDistinct (addresses (taking_part vs))
taking_part-IsDistinct [] d = tt
taking_part-IsDistinct (v ∷ vs) (fresh, d) = elim (Bool-cases v.participating) [
  | inl h ↦ rw h (addresses-taking_part v.address vs fresh, taking_part-IsDistinct vs d)
  | inr h ↦ rw h (taking_part-IsDistinct vs d)
]

member_addresses-to_member :
    (vs : List Validator) → member_addresses (map to_member vs) ≡ addresses vs
unfolding to_member
member_addresses-to_member [] = refl
member_addresses-to_member (v ∷ vs) = ap (λ rest. v.address ∷ rest) (member_addresses-to_member vs)

candidates-IsDistinct :
    (vs : List Validator)
    → IsDistinct (addresses vs)
    → IsDistinct (member_addresses (candidates vs))
unfolding candidates
candidates-IsDistinct vs d =
    subst IsDistinct (sym (member_addresses-to_member (taking_part vs)))
      (taking_part-IsDistinct vs d)

-- The committee does not depend on the order in which the registry lists its validators.
pub elect_unordered :
    (n : ℕ) {vs ws : List Validator}
    → Permᴰ vs ws
    → IsDistinct (addresses vs)
    → elect n vs ≡ elect n ws
unfolding elect candidates
elect_unordered n {vs} {ws} p d =
    ap (λ ms. map (λ m. m.validator) (take n ms))
      (sort_members_unordered (map-Perm to_member (keep-Perm (λ v. v.participating) p))
        (candidates-IsDistinct vs d))

-- `v` comes before `w`: it has the greater weight, or the same and the smaller address.
abbrev pub Outranks : Validator → Validator → Type 0
Outranks v w = (weight w < weight v) ⊎ ((weight v ≡ weight w) × (v.address < w.address))

-- Each validator outranks all that follow.
abbrev pub IsRanked : List Validator → Type 0
IsRanked [] = Unit
IsRanked (v ∷ vs) = All (Outranks v) vs × IsRanked vs

abbrev Weighs : CommitteeMember → Type 0
Weighs m = m.weight ≡ weight m.validator

to_member-Weighs : (vs : List Validator) → All Weighs (map to_member vs)
unfolding to_member
to_member-Weighs [] = tt
to_member-Weighs (v ∷ vs) = (refl, to_member-Weighs vs)

validators-to_member : (vs : List Validator) → map (λ m. m.validator) (map to_member vs) ≡ vs
unfolding to_member
validators-to_member [] = refl
validators-to_member (v ∷ vs) = ap (λ ws. v ∷ ws) (validators-to_member vs)

ahead-Outranks :
    (a b : CommitteeMember)
    → Weighs a
    → Weighs b
    → ahead a b ≡ true
    → Outranks a.validator b.validator
unfolding ahead
ahead-Outranks a b ha hb h = ground (arith, ha, hb, h)

All-Outranks :
    (a : CommitteeMember) (ms : List CommitteeMember)
    → Weighs a
    → All Weighs ms
    → All (λ b. ahead a b ≡ true) ms
    → All (Outranks a.validator) (map (λ m. m.validator) ms)
All-Outranks a [] ha hs h = tt
All-Outranks a (b ∷ ms) ha (hb, hs) (h, more) =
    (ahead-Outranks a b ha hb h, All-Outranks a ms ha hs more)

IsSorted-IsRanked :
    (ms : List CommitteeMember) → All Weighs ms → IsSorted ms → IsRanked (map (λ m. m.validator) ms)
IsSorted-IsRanked [] h s = tt
IsSorted-IsRanked (a ∷ ms) (h, hs) (first, more) =
    (All-Outranks a ms h hs first, IsSorted-IsRanked ms hs more)

-- What `take` leaves.
abbrev drop {ℓ} : {A : Type ℓ} → ℕ → List A → List A
drop zero xs = xs
drop (suc n) [] = []
drop (suc n) (x ∷ xs) = drop n xs

map-take-drop {ℓ κ} :
    {A : Type ℓ}
    → {B : Type κ} → (f : A → B) (n : ℕ) (xs : List A)
    → map f (take n xs) ++ map f (drop n xs) ≡ map f xs
map-take-drop f zero xs = refl
map-take-drop f (suc n) [] = refl
map-take-drop f (suc n) (x ∷ xs) = ap (λ ys. f x ∷ ys) (map-take-drop f n xs)

length-elect : (n : ℕ) (vs : List Validator) → length (elect n vs) ≡ min n (length (taking_part vs))
unfolding elect candidates
length-elect n vs =
    length-map (λ m. m.validator) (take n (sort_members (map to_member (taking_part vs))))
    ∙ length-take n (sort_members (map to_member (taking_part vs)))
    ∙ ap (min n) (
        length-Perm (sort_members-Perm (map to_member (taking_part vs)))
        ∙ length-map to_member (taking_part vs))

-- The committee has `n` members, or all that take part if they are fewer. With the others that
-- take part it makes up exactly those that take part, and each member outranks all later members
-- and all others.
pub elect_lem :
    (n : ℕ) (vs : List Validator)
    → IsDistinct (addresses vs)
    → (others : List Validator) × (length (elect n vs) ≡ min n (length (taking_part vs)))
      × Permᴰ (elect n vs ++ others) (taking_part vs)
      × IsRanked (elect n vs ++ others)
unfolding elect candidates
elect_lem n vs d =
    let ms = map to_member (taking_part vs) in
    let sorted = sort_members ms in
    let whole : map (λ m. m.validator) (take n sorted) ++ map (λ m. m.validator) (drop n sorted)
        ≡ map (λ m. m.validator) sorted =
      map-take-drop (λ m. m.validator) n sorted in
    let same : Permᴰ (map (λ m. m.validator) sorted) (taking_part vs) =
      subst (Permᴰ (map (λ m. m.validator) sorted)) (validators-to_member (taking_part vs))
        (map-Perm (λ m. m.validator) (sort_members-Perm ms)) in
    let ranked : IsRanked (map (λ m. m.validator) sorted) =
      IsSorted-IsRanked sorted
        (All-Perm Weighs (Permᴰ.symm (sort_members-Perm ms)) (to_member-Weighs (taking_part vs)))
        (sort_members-IsSorted ms (candidates-IsDistinct vs d)) in
    (
      map (λ m. m.validator) (drop n sorted),
      length-elect n vs,
      subst (λ l. Permᴰ l (taking_part vs)) (sym whole) same,
      subst IsRanked (sym whole) ranked,
    )
