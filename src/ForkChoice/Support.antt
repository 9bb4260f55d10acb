-- ===== src/ForkChoice/Support.antt =====
-- The head has the greatest support: no hash has a greater weight of votes.
use dyphira_chain.Common.{
  ℕ, ◌+◌, ◌≤◌, ◌<◌, ◌≡◌, refl, sym, ap, subst, ◌∙◌, List, [], ◌∷◌, none, some, ltb, ◌==◌, ==_iff,
  if◌then◌else◌, add64, add64_exact, word_mod, arith, Bool-cases, Option-cases, inl, inr,
  IsDistinct,
}
use dyphira_chain.Common.Dict.{
  Dict, lookup, insert, keys, lookup-insert, insert-IsDistinct, contains-keys,
}
use mathlib.Core.List.{Permᴰ}
use dyphira_chain.Common.Perm.{map-Perm, IsDistinct-Perm}
use dyphira_chain.Types.{Hash, Validator, weight}
use dyphira_chain.ForkChoice.{Votes, latest_vote, weight_of, tally, heaviest}

-- The weight of the validators whose latest vote is the hash.
abbrev pub support : Votes → List Validator → Hash → ℕ
support votes [] h = 0
support votes (v ∷ vs) h =
    let rest = support votes vs h in
    elim (latest_vote votes v.address) [
      | none ↦ rest
      | some vote ↦ if vote == h then weight v + rest else rest
    ]

-- The weight of all validators.
abbrev pub total_weight : List Validator → ℕ
total_weight [] = 0
total_weight (v ∷ vs) = weight v + total_weight vs

weight_of-insert :
    (k h : Hash) (w : ℕ) (m : Dict ℕ)
    → weight_of h (insert k w m) ≡ (if k == h then w else weight_of h m)
unfolding weight_of
weight_of-insert k h w m = ground (arith, lookup-insert k h w m)

-- The tally of a hash is its support on top of what the map held.
tally-support :
    (votes : Votes) (vs : List Validator) (m : Dict ℕ) (bound : ℕ)
    → ((h : Hash) → weight_of h m ≤ bound)
    → bound + total_weight vs < word_mod
    → (h : Hash) → weight_of h (tally votes vs m) ≡ weight_of h m + support votes vs h
unfolding tally
tally-support votes [] m bound le small h = omega arith
tally-support votes (v ∷ vs) m bound le small h =
    elim (Option-cases (latest_vote votes v.address)) [
      | inl silent ↦
          rw (silent, tally)
            (ground (arith, tally-support votes vs m bound le (omega arith) h, silent))
      | inr (vote, voted) ↦
          let sum : add64 (weight_of vote m) (weight v) ≡ weight_of vote m + weight v =
            add64_exact (weight_of vote m) (weight v) (omega (arith, le vote)) in
          let m' = insert vote (add64 (weight_of vote m) (weight v)) m in
          let bounded : (k : Hash) → weight_of k m' ≤ bound + weight v = λ k. ground (
            arith,
            weight_of-insert vote k (add64 (weight_of vote m) (weight v)) m,
            sum,
            le k,
            le vote,
          ) in
          let ih = tally-support votes vs m' (bound + weight v) bounded (omega arith) h in
          rw (voted, tally)
            (ground (
              arith,
              ih,
              sum,
              weight_of-insert vote h (add64 (weight_of vote m) (weight v)) m,
              ==_iff vote h,
              ap (λ k. weight_of k m),
            ))
    ]

-- The weight of the hash that the loop over a map picks.
heaviest-most :
    (m full : Dict ℕ) (max_hash : Hash) (max_weight : ℕ)
    → max_weight ≤ weight_of max_hash full
    → ((h : Hash) (w : ℕ) → lookup h m ≡ some w → w ≤ weight_of h full)
    → IsDistinct (keys m)
    → (max_weight ≤ weight_of (heaviest m max_hash max_weight) full)
      × ((h : Hash) (w : ℕ)
          → lookup h m ≡ some w
          → w ≤ weight_of (heaviest m max_hash max_weight) full)
unfolding heaviest lookup
heaviest-most [] full max_hash max_weight le all d = (le, λ h w e. cc)
heaviest-most ((k, v) ∷ m) full max_hash max_weight le all (new, d) =
    let below = λ (h : Hash) (w : ℕ) (e : lookup h m ≡ some w).
      all h w (ground (arith, e, new, contains-keys k m, ==_iff k h)) in
    elim (Bool-cases (ltb max_weight v)) [
      | inl more ↦
          let (most, rest) =
            heaviest-most m full k v (all k v (ground (arith, ==_iff k k))) below d in
          rw more (
            ground (arith, more, most),
            λ h w e. elim (Bool-cases (k == h)) [
              | inl here ↦ ground (arith, e, here, most)
              | inr there ↦ rest h w (ground (arith, e, there))
            ],
          )
      | inr less ↦
          let (most, rest) = heaviest-most m full max_hash max_weight le below d in
          rw less (
            most,
            λ h w e. elim (Bool-cases (k == h)) [
              | inl here ↦ ground (arith, e, here, less, most)
              | inr there ↦ rest h w (ground (arith, e, there))
            ],
          )
    ]

tally-IsDistinct :
    (votes : Votes) (vs : List Validator) (m : Dict ℕ)
    → IsDistinct (keys m)
    → IsDistinct (keys (tally votes vs m))
unfolding tally
tally-IsDistinct votes [] m d = d
tally-IsDistinct votes (v ∷ vs) m d = elim (Option-cases (latest_vote votes v.address)) [
  | inl silent ↦ rw (silent, tally) (tally-IsDistinct votes vs m d)
  | inr (vote, voted) ↦
      rw (voted, tally)
        (tally-IsDistinct votes vs (insert vote (add64 (weight_of vote m) (weight v)) m)
          (insert-IsDistinct vote (add64 (weight_of vote m) (weight v)) m d))
]

weight_of-some : (h : Hash) (w : ℕ) (m : Dict ℕ) → lookup h m ≡ some w → weight_of h m ≡ w
unfolding weight_of
weight_of-some h w m e = rw (e, weight_of) refl

weight_of-none : (h : Hash) (m : Dict ℕ) → lookup h m ≡ none → weight_of h m ≡ 0
unfolding weight_of
weight_of-none h m e = rw (e, weight_of) refl

empty_lookup : (k : ℕ) → lookup {V = ℕ} k [] ≡ none
unfolding lookup
empty_lookup k = refl

lookup-Perm : (h : ℕ) {m n : Dict ℕ} → Permᴰ m n → IsDistinct (keys m) → lookup h m ≡ lookup h n
unfolding lookup
lookup-Perm h Permᴰ.nil d = refl
lookup-Perm h (Permᴰ.cons {a} {b} {l₁} {l₂} e p) d =
    subst (λ x. lookup h (a ∷ l₁) ≡ lookup h (x ∷ l₂)) e (ground (arith, lookup-Perm h p d.1))
lookup-Perm h (Permᴰ.swap {a} {b} {a'} {b'} {l} e f) d =
    subst (λ x. lookup h (a ∷ b ∷ l) ≡ lookup h (x ∷ b' ∷ l)) f
      (subst (λ y. lookup h (a ∷ b ∷ l) ≡ lookup h (b ∷ y ∷ l)) e
        (ground (arith, d.0, ==_iff a.0 b.0)))
lookup-Perm h (Permᴰ.trans p q) d =
    lookup-Perm h p d ∙ lookup-Perm h q (IsDistinct-Perm (map-Perm (λ e. e.0) p) d)

-- Where the weights of all validators add up within 64 bits, the head that is selected has at
-- least the support of every other hash, in whatever order the map of the tally is read.
pub heaviest_lem :
    (votes : Votes) (vs : List Validator) (order : Dict ℕ) (h : Hash)
    → total_weight vs < word_mod
    → Permᴰ (tally votes vs []) order
    → support votes vs h ≤ support votes vs (heaviest order 0 0)
heaviest_lem votes vs order h small p =
    let full = tally votes vs [] in
    let distinct : IsDistinct (keys full) = tally-IsDistinct votes vs [] tt in
    let counted = λ (k : Hash).
      tally-support votes vs [] 0 (λ j. omega (arith, weight_of-none j [] (empty_lookup j)))
        (omega arith) k in
    let zero_of = λ (k : Hash). weight_of-none k [] (empty_lookup k) in
    let most =
      (heaviest-most order full 0 0 (omega arith)
        (λ k w e. omega (arith, weight_of-some k w full (lookup-Perm k p distinct ∙ e)))
        (IsDistinct-Perm (map-Perm (λ e. e.0) p) distinct)).1 in
    elim (Option-cases (lookup h full)) [
      | inl nothing ↦ omega (arith, weight_of-none h full nothing, counted h, zero_of h)
      | inr (w, found) ↦ omega (
        arith,
        weight_of-some h w full found,
        most h w (sym (lookup-Perm h p distinct) ∙ found),
        counted h,
        zero_of h,
        counted (heaviest order 0 0),
        zero_of (heaviest order 0 0),
      )
    ]
