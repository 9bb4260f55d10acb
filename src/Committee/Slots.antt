-- ===== src/Committee/Slots.antt =====
-- The slots of an epoch: which validator proposes at which height.
use Prim.Native.Nat.{min}
use native.Mathlib.Nat.{mod-lt}
use dyphira_chain.Common.{
  ℕ, zero, suc, ◌+◌, ◌-◌, ◌*◌, ◌/◌, ◌%◌, ◌≤◌, ◌<◌, ◌≡◌, refl, ap, subst, ◌∙◌, true, ◌&&◌, List, [],
  ◌∷◌, Option, none, some, length, get_elem?, All, ltb, leb, ==_iff, if◌then◌else◌, arith,
  add64_exact, sub64_exact, word_mod, Bool-cases, inl, inr,
}
use dyphira_chain.Common.Dict.{Dict, lookup, insert, lookup-insert}
use dyphira_chain.Types.{Validator}
use dyphira_chain.Committee.{give_slots, rotate, fill_slots}

-- The slots bind exactly the heights from `start` to before `block`, each as `f` says.
abbrev pub Holds : ℕ → ℕ → Dict Validator → (ℕ → Option Validator) → Type 0
Holds start block slots f =
    (h : ℕ) → lookup h slots ≡ (if leb start h && ltb h block then f h else none)

Holds-insert :
    (start block : ℕ) (v : Validator) (slots : Dict Validator) (f : ℕ → Option Validator)
    → start ≤ block
    → f block ≡ some v
    → Holds start block slots f
    → Holds start (block + 1) (insert block v slots) f
Holds-insert start block v slots f le e holds h =
    ground (arith, lookup-insert block h v slots, holds h, ==_iff block h, e, ap f)

give_slots-Holds :
    (n limit block start : ℕ) (v : Validator) (slots : Dict Validator) (f : ℕ → Option Validator)
    → start ≤ block
    → block ≤ limit
    → limit < word_mod
    → ((h : ℕ) → block ≤ h → h < block + n → h < limit → f h ≡ some v)
    → Holds start block slots f
    → ((give_slots n limit block v slots).0 ≡ min (block + n) limit)
      × Holds start (give_slots n limit block v slots).0 (give_slots n limit block v slots).1 f
unfolding give_slots
give_slots-Holds zero limit block start v slots f le lim small fv holds = (omega arith, holds)
give_slots-Holds (suc n) limit block start v slots f le lim small fv holds =
    elim (Bool-cases (ltb block limit)) [
      | inr done ↦ rw done (ground arith, holds)
      | inl more ↦
          let (stop, filled) =
            give_slots-Holds n limit (block + 1) start v (insert block v slots) f (omega arith)
              (ground (arith, more)) small
              (λ h low high inside. fv h (omega arith) (omega arith) inside)
              (Holds-insert start block v slots f le
                (fv block (omega arith) (omega arith) (ground (arith, more))) holds) in
          rw more (rw (add64_exact block 1 (ground (arith, more))) (omega (arith, stop), filled))
    ]

-- The validator whose turn is at an offset from the start of an epoch: nine heights for each
-- index of the shuffle, and round-robin after that.
abbrev pub turn : List Validator → List ℕ → ℕ → Option Validator
turn committee indices k =
    if ltb k (9 * length indices)
    then (elim (get_elem? indices (k / 9)) [ none ↦ none | some i ↦ get_elem? committee i ])
    else get_elem? committee (k % length committee)

pub get_elem?-some {ℓ} :
    {A : Type ℓ} → (xs : List A) (i : ℕ) → i < length xs → (x : A) × (get_elem? xs i ≡ some x)
get_elem?-some [] i h = absurd (omega arith)
get_elem?-some (x ∷ xs) zero h = (x, refl)
get_elem?-some (x ∷ xs) (suc i) h = get_elem?-some xs i (omega arith)

-- What `f` says from the `j`-th index on: nine heights for each of these indices.
abbrev pub TakesTurns : List Validator → List ℕ → ℕ → ℕ → (ℕ → Option Validator) → Type 0
TakesTurns committee indices j start f =
    (i k : ℕ)
    → k < 9
    → i < length indices
    → f (start + 9 * (j + i) + k)
      ≡ (elim (get_elem? indices i) [ none ↦ none | some m ↦ get_elem? committee m ])

rotate-step :
    (committee : List Validator) (index : ℕ) (indices : List ℕ) (limit block : ℕ)
    (slots : Dict Validator) (m : Validator) (given : ℕ × Dict Validator)
    → get_elem? committee index ≡ some m
    → rotate committee indices limit
        (give_slots 9 limit block m slots).0
        (give_slots 9 limit block m slots).1
      ≡ some given
    → rotate committee (index ∷ indices) limit block slots ≡ some given
unfolding rotate
rotate-step committee index indices limit block slots m given got ran = rw (got, rotate) ran

fill_slots-step :
    (fuel : ℕ) (committee : List Validator) (start limit block : ℕ) (slots slots' : Dict Validator)
    (v : Validator)
    → ltb block limit ≡ true
    → start ≤ block
    → block + 1 < word_mod
    → get_elem? committee ((block - start) % length committee) ≡ some v
    → fill_slots fuel committee start limit (block + 1) (insert block v slots) ≡ some slots'
    → fill_slots (suc fuel) committee start limit block slots ≡ some slots'
unfolding fill_slots
fill_slots-step fuel committee start limit block slots slots' v more le small got ran =
    rw (more, fill_slots)
      (rw (sub64_exact block start le (omega arith))
        (rw (got, fill_slots) (rw (add64_exact block 1 small) ran)))

-- The loop over the shuffle, from its `j`-th index on.
pub rotate-Holds :
    (committee : List Validator) (indices : List ℕ) (j start limit block : ℕ)
    (slots : Dict Validator) (f : ℕ → Option Validator)
    → All (λ i. i < length committee) indices
    → start ≤ limit
    → limit < word_mod
    → TakesTurns committee indices j start f
    → block ≡ min (start + 9 * j) limit
    → Holds start block slots f
    → (given : ℕ × Dict Validator) × (rotate committee indices limit block slots ≡ some given)
      × (given.0 ≡ min (start + 9 * (j + length indices)) limit)
      × Holds start given.0 given.1 f
unfolding rotate
rotate-Holds committee [] j start limit block slots f inside le small turns e holds =
    ((block, slots), refl, omega (arith, e), holds)
rotate-Holds committee (index ∷ indices) j start limit block slots f (here, inside) le small turns e
      holds =
    let (m, got) = get_elem?-some committee index here in
    let (stop, filled) =
      give_slots-Holds 9 limit block start m slots f (omega (arith, e)) (omega (arith, e)) small
        (λ h low high below.
          subst (λ n. f n ≡ some m) (omega (arith, e))
            (turns 0 (h - block) (omega arith) (omega arith) ∙ got))
        holds in
    let (given, ran, stop', filled') =
      rotate-Holds committee indices (suc j) start limit (give_slots 9 limit block m slots).0
        (give_slots 9 limit block m slots).1 f inside le small
        (λ i k nine below.
          subst
            (λ n.
              f (start + 9 * n + k)
              ≡ (elim (get_elem? indices i) [ none ↦ none | some m ↦ get_elem? committee m ]))
            (omega arith) (turns (suc i) k nine (omega arith)))
        (omega (arith, e, stop)) filled in
    (
      given,
      rotate-step committee index indices limit block slots m given got ran,
      omega (arith, stop'),
      filled',
    )

-- The loop over what is left.
pub fill_slots-Holds :
    (fuel : ℕ) (committee : List Validator) (start limit block : ℕ) (slots : Dict Validator)
    (f : ℕ → Option Validator)
    → 0 < length committee
    → start ≤ block
    → block ≤ limit
    → limit < word_mod
    → limit ≤ block + fuel
    → ((h : ℕ) → block ≤ h → h < limit → f h ≡ get_elem? committee ((h - start) % length committee))
    → Holds start block slots f
    → (slots' : Dict Validator) × (fill_slots fuel committee start limit block slots ≡ some slots')
      × Holds start limit slots' f
unfolding fill_slots
fill_slots-Holds zero committee start limit block slots f some_one le lim small fuel robin holds =
    (slots, ground arith, subst (λ b. Holds start b slots f) (omega arith) holds)
fill_slots-Holds (suc fuel) committee start limit block slots f some_one le lim small enough robin
      holds =
    elim (Bool-cases (ltb block limit)) [
      | inr done ↦ (
        slots,
        rw (done, fill_slots) refl,
        subst (λ b. Holds start b slots f) (ground (arith, done)) holds,
      )
      | inl more ↦
          let below : block < limit = ground (arith, more) in
          let (v, got) =
            get_elem?-some committee ((block - start) % length committee)
              (mod-lt (block - start) some_one) in
          let (slots', ran, filled) =
            fill_slots-Holds fuel committee start limit (block + 1) (insert block v slots) f
              some_one (omega arith) (omega arith) small (omega arith)
              (λ h low high. robin h (omega arith) high)
              (Holds-insert start block v slots f le (robin block (omega arith) below ∙ got)
                holds) in
          (
            slots',
            fill_slots-step fuel committee start limit block slots slots' v more le (omega arith)
                got ran,
            filled,
          )
    ]
