-- ===== src/Api/History/Pages.antt =====
-- Pages of a list: what a page holds after some entries, and after one more.
use dyphira_chain.Common.{
  ℕ, zero, suc, ◌+◌, ◌-◌, ◌≤◌, ◌≡◌, refl, sym, ap, ◌∙◌, List, [], ◌∷◌, ◌++◌, length, take, ltb, leb,
  if◌then◌else◌, arith, length-take, length-append,
}
use Prim.Native.Nat.{min}
use mathlib.Core.List.{append-nil, append_assoc}
use dyphira_chain.Api.History.{Entry, Page}

module _ {ℓ} {A : Type ℓ} where
  -- The list without its first items.
  abbrev pub drop : ℕ → List A → List A
  drop zero l = l
  drop (suc n) [] = []
  drop (suc n) (x ∷ l) = drop n l

  pub length-drop : (n : ℕ) (l : List A) → length (drop n l) ≡ length l - n
  length-drop zero l = omega arith
  length-drop (suc n) [] = omega arith
  length-drop (suc n) (x ∷ l) = omega (arith, length-drop n l)

  drop-append :
      (n : ℕ) (l : List A) (x : A)
      → drop n (l ++ x ∷ []) ≡ (if ltb (length l) n then drop n l else drop n l ++ x ∷ [])
  drop-append zero l x = ground arith
  drop-append (suc zero) [] x = refl
  drop-append (suc (suc n)) [] x = ground arith
  drop-append (suc n) (y ∷ l) x = ground (arith, drop-append n l x)

  take-append :
      (n : ℕ) (l : List A) (x : A)
      → take n (l ++ x ∷ []) ≡ (if ltb (length l) n then take n l ++ x ∷ [] else take n l)
  take-append zero [] x = refl
  take-append zero (y ∷ l) x = ground arith
  take-append (suc zero) [] x = ground arith
  take-append (suc (suc n)) [] x = ground arith
  take-append (suc n) (y ∷ l) x = ground (arith, take-append n l x)

-- The page for some entries: at most `limit` of them after the first `offset`.
abbrev pub page_of : (limit offset : ℕ) → List Entry → Page
page_of limit offset l = record {
  transactions = take limit (drop offset l);
  offset = offset - length l;
}

pub length-page_of :
    (limit offset : ℕ) (l : List Entry)
    → length (page_of limit offset l).transactions ≡ min limit (length l - offset)
length-page_of limit offset l =
    length-take limit (drop offset l) ∙ ap (min limit) (length-drop offset l)

-- One more entry is skipped, or added, or there is no room for it.
pub page_of-append :
    (limit offset : ℕ) (l : List Entry) (e : Entry)
    → page_of limit offset (l ++ e ∷ []) ≡ (
        if ltb 0 (offset - length l)
        then record (page_of limit offset l) { offset = offset - length l - 1 }
        else (if leb limit (length (page_of limit offset l).transactions)
            then page_of limit offset l
            else record (page_of limit offset l) {
              transactions = (page_of limit offset l).transactions ++ e ∷ [];
            }))
page_of-append limit offset l e = ground (
  arith,
  drop-append offset l e,
  take-append limit (drop offset l) e,
  length-drop offset l,
  length-page_of limit offset l,
  length-append l (e ∷ []),
)

-- A full page does not change.
pub page_of_full :
    (limit offset : ℕ) (l m : List Entry)
    → limit + offset ≤ length l
    → page_of limit offset (l ++ m) ≡ page_of limit offset l
page_of_full limit offset l [] h = ap (page_of limit offset) (append-nil l)
page_of_full limit offset l (e ∷ m) h =
    ap (page_of limit offset) (sym (append_assoc l (e ∷ []) m))
    ∙ page_of_full limit offset (l ++ e ∷ []) m (omega (arith, length-append l (e ∷ [])))
    ∙ page_of-append limit offset l e
    ∙ (ground (arith, length-page_of limit offset l))

-- The page at the start of the handler.
pub page_of_new :
    (limit offset : ℕ) → page_of limit offset [] ≡ record { transactions = []; offset = offset }
page_of_new zero zero = refl
page_of_new (suc limit) zero = refl
page_of_new zero (suc offset) = ground arith
page_of_new (suc limit) (suc offset) = ground arith
