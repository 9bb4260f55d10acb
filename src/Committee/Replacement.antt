-- ===== src/Committee/Replacement.antt =====
-- node.go: `ReplaceInactiveValidator`, the seat of a committee member that does nothing.
use mathlib.Core.List.{Permᴰ}
use mathlib.Core.List.Permᴰ
use dyphira_chain.Common.Perm.{All-Perm}
use dyphira_chain.Common.{
  ◌≡◌, ◌⊎◌, refl, ap, map, ◌∙◌, Bool-cases, true, subst, Bool, false, not, ◌&&◌, ◌||◌, List, [],
  ◌∷◌, ◌++◌, Option, none, some, length, keep, List-cases, All-keep, contains, IsDistinct, ◌==◌,
  ==_iff, if◌then◌else◌, arith, inl, inr,
}
use dyphira_chain.Types.{Address, Validator}
use dyphira_chain.Storage.{Storage}
use dyphira_chain.Registry.{get_all_validators}
use dyphira_chain.Approval.{is_member}
use dyphira_chain.Committee.{elect}
use dyphira_chain.Committee.Election.{addresses, taking_part, IsRanked, elect_lem}

-- The validators that may take the seat; those that do not take part are left out by `elect`.
abbrev pub unseated : List Validator → Address → List Validator → List Validator
unseated committee inactive =
    keep
      (λ v. v.participating && (not (is_member v.address committee) && not (v.address == inactive)))

-- The loop that replaces the first member with the address.
unfoldable pub replace_first : List Validator → Address → Validator → List Validator
replace_first [] inactive v = []
replace_first (m ∷ ms) inactive v =
    let rest = replace_first ms inactive v in if m.address == inactive then v ∷ ms else m ∷ rest

-- `ReplaceInactiveValidator`, with the registry's list; `none` is the error that nobody may take
-- the seat. The sort is that of `SelectCommittee`.
unfoldable pub replace_inactive :
    List Validator → Address → List Validator → Option (List Validator)
unfolding replace_first
replace_inactive committee inactive all = elim (elect 1 (unseated committee inactive all)) [
  | [] ↦ none
  | v ∷ _ ↦ some (replace_first committee inactive v)
]

unfoldable pub replace_inactive_validator :
    {S : Type 0} ⦃st : Storage S⦄ → List Validator → Address → S → Option (List Validator)
unfolding replace_inactive
replace_inactive_validator committee inactive s =
    replace_inactive committee inactive (get_all_validators s)

length-replace_first :
    (ms : List Validator) (inactive : Address) (v : Validator)
    → length (replace_first ms inactive v) ≡ length ms
unfolding replace_first
length-replace_first [] inactive v = refl
length-replace_first (m ∷ ms) inactive v = ground (arith, length-replace_first ms inactive v)

contains-replace_first :
    (ms : List Validator) (inactive : Address) (v : Validator) (a : Address)
    → IsDistinct (addresses ms)
    → contains a (addresses (replace_first ms inactive v)) ≡ (
        if contains inactive (addresses ms)
        then (v.address == a) || (contains a (addresses ms) && not (a == inactive))
        else contains a (addresses ms))
unfolding replace_first
contains-replace_first [] inactive v a d = refl
contains-replace_first (m ∷ ms) inactive v a d = ground (
  arith,
  contains-replace_first ms inactive v a d.1,
  ==_iff m.address inactive,
  ==_iff m.address a,
  ==_iff a inactive,
  d.0,
)

replace_first-IsDistinct :
    (ms : List Validator) (inactive : Address) (v : Validator)
    → IsDistinct (addresses ms)
    → contains v.address (addresses ms) ≡ false
    → IsDistinct (addresses (replace_first ms inactive v))
unfolding replace_first
replace_first-IsDistinct [] inactive v d fresh = tt
replace_first-IsDistinct (m ∷ ms) inactive v d fresh = ground (
  arith,
  replace_first-IsDistinct ms inactive v d.1,
  contains-replace_first ms inactive v m.address d.1,
  d.0,
  fresh,
  ==_iff v.address m.address,
  ==_iff m.address v.address,
  ==_iff m.address inactive,
)

-- The seat of one address given to another member, the other seats as they are.
abbrev pub reseated : Address → Validator → List Validator → List Validator
reseated inactive v = map (λ m. if m.address == inactive then v else m)

map-fresh :
    (ms : List Validator) (inactive : Address) (v : Validator)
    → contains inactive (addresses ms) ≡ false
    → reseated inactive v ms ≡ ms
map-fresh [] inactive v fresh = refl
map-fresh (m ∷ ms) inactive v fresh =
    ground (arith, map-fresh ms inactive v, fresh, ==_iff m.address inactive)

replace_first-map :
    (ms : List Validator) (inactive : Address) (v : Validator)
    → IsDistinct (addresses ms)
    → replace_first ms inactive v ≡ reseated inactive v ms
unfolding replace_first
replace_first-map [] inactive v d = refl
replace_first-map (m ∷ ms) inactive v d = ground (
  arith,
  replace_first-map ms inactive v d.1,
  map-fresh ms inactive v,
  d.0,
  ap (λ a. contains a (addresses ms)),
  ==_iff m.address inactive,
)

is_member-contains :
    (a : Address) (ms : List Validator) → is_member a ms ≡ contains a (addresses ms)
unfolding is_member
is_member-contains a [] = refl
is_member-contains a (m ∷ ms) = ap (λ b. (m.address == a) || b) (is_member-contains a ms)

contains-keep-le :
    (p : Validator → Bool) (a : Address) (vs : List Validator)
    → contains a (addresses vs) ≡ false
    → contains a (addresses (keep p vs)) ≡ false
contains-keep-le p a [] h = refl
contains-keep-le p a (v ∷ vs) h = ground (arith, h, contains-keep-le p a vs)

keep-IsDistinct :
    (p : Validator → Bool) (vs : List Validator)
    → IsDistinct (addresses vs)
    → IsDistinct (addresses (keep p vs))
keep-IsDistinct p [] d = tt
keep-IsDistinct p (v ∷ vs) d =
    ground (arith, keep-IsDistinct p vs d.1, contains-keep-le p v.address vs d.0)

taking_part-keep :
    (p : Validator → Bool) (vs : List Validator)
    → taking_part (keep (λ v. v.participating && p v) vs) ≡ keep (λ v. v.participating && p v) vs
taking_part-keep p [] = refl
taking_part-keep p (v ∷ vs) = ground (arith, taking_part-keep p vs)

nil_of_length : (vs : List Validator) → length vs ≡ 0 → vs ≡ []
nil_of_length [] h = refl
nil_of_length (v ∷ vs) h = absurd (omega arith)

module _ (committee : List Validator) (inactive : Address) (all : List Validator) where
  abbrev pub free : List Validator
  free = unseated committee inactive all

  -- In a committee and a registry without repeated addresses, the seat of the inactive member goes
  -- to the validator that outranks all others who take part, have no seat and are not the inactive
  -- one; where there is none the call fails. The new committee is the old one with that validator
  -- in the seat of the inactive member, every other seat with the member and the data it had; it
  -- has the old size, no address is in it twice, and its addresses are those of the old one
  -- without the inactive member's and with the new one's. Where the address has no seat the
  -- committee stays as it is.
  pub replace_inactive_lem :
      IsDistinct (addresses committee)
      → IsDistinct (addresses all)
      → ((replace_inactive committee inactive all ≡ none) × (free ≡ []))
        ⊎ (v : Validator) × (others : List Validator) × (after : List Validator) × (replace_inactive
              committee inactive all
            ≡ some after)
          × Permᴰ (v ∷ others) free
          × IsRanked (v ∷ others)
          × (after ≡ reseated inactive v committee)
          × ((contains inactive (addresses committee) ≡ true) ⊎ (after ≡ committee))
          × (length after ≡ length committee)
          × IsDistinct (addresses after)
          × ((a : Address)
              → contains a (addresses after) ≡ (
                  if contains inactive (addresses committee)
                  then (v.address == a) || (contains a (addresses committee) && not (a == inactive))
                  else contains a (addresses committee)))
  unfolding replace_inactive
  replace_inactive_lem d e =
      let chooses =
        λ (v : Validator). not (is_member v.address committee) && not (v.address == inactive) in
      let (others, size, perm, ranked) = elect_lem 1 free (keep-IsDistinct _ all e) in
      let whole : taking_part free ≡ free = taking_part-keep chooses all in
      elim (List-cases (elect 1 free)) [
        | inl none_found ↦
            let empty : length free ≡ 0 =
              omega (arith, size, ap length none_found, ap length whole) in
            inl (rw (none_found, replace_inactive), nil_of_length free empty)
        | inr (v, rest, found) ↦
            let perm' : Permᴰ (v ∷ (rest ++ others)) free =
              subst (λ l. Permᴰ (v ∷ (rest ++ others)) l) whole
                (subst (λ l. Permᴰ (l ++ others) (taking_part free)) found perm) in
            let ranked' = subst (λ l. IsRanked (l ++ others)) found ranked in
            let fits = All-Perm _ (Permᴰ.symm perm') (All-keep _ all) in
            let fresh : contains v.address (addresses committee) ≡ false =
              ground (arith, fits.0, is_member-contains v.address committee) in
            inr (
              v,
              rest ++ others,
              replace_first committee inactive v,
              rw (found, replace_inactive),
              perm',
              ranked',
              replace_first-map committee inactive v d,
              (elim (Bool-cases (contains inactive (addresses committee))) [
                | inl seated ↦ inl seated
                | inr absent ↦ inr (
                    replace_first-map committee inactive v d
                    ∙ map-fresh committee inactive v absent)
              ]),
              length-replace_first committee inactive v,
              replace_first-IsDistinct committee inactive v d fresh,
              λ a. contains-replace_first committee inactive v a d,
            )
      ]
