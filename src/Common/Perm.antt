-- ===== src/Common/Perm.antt =====
-- Lists that differ in their order: what does not see it.
use Prim.Native.Nat.{ℕ, suc}
use mathlib.Core.Path.{◌≡◌, refl, ap, ◌∙◌, subst}
use mathlib.Core.Bool.{Bool, true, false}
use mathlib.Core.List.{List, ◌∷◌, map, Permᴰ}
use mathlib.Core.List.Permᴰ
use mathlib.Core.Logic.{inl, inr}
use native.Mathlib.Omega.{arith}
use dyphira_chain.Common.Tests.{Bool-cases}
use dyphira_chain.Common.Lists.{length, contains, IsDistinct, All, keep}

module _ {ℓ} {A : Type ℓ} where
  keep-swap :
      (p : A → Bool) (a b : A) (l : List A) → Permᴰ (keep p (a ∷ b ∷ l)) (keep p (b ∷ a ∷ l))
  keep-swap p a b l = elim (Bool-cases (p a)) [
    | inl ha ↦ elim (Bool-cases (p b)) [
      | inl hb ↦ rw ha (rw hb (Permᴰ.swap refl refl))
      | inr hb ↦ rw ha (rw hb (Permᴰ.refl (a ∷ keep p l)))
    ]
    | inr ha ↦ elim (Bool-cases (p b)) [
      | inl hb ↦ rw ha (rw hb (Permᴰ.refl (b ∷ keep p l)))
      | inr hb ↦ rw ha (rw hb (Permᴰ.refl (keep p l)))
    ]
  ]

  pub keep-Perm : (p : A → Bool) {xs ys : List A} → Permᴰ xs ys → Permᴰ (keep p xs) (keep p ys)
  keep-Perm p Permᴰ.nil = Permᴰ.nil
  keep-Perm p (Permᴰ.cons {a} {b} {l₁} {l₂} e d) = elim (Bool-cases (p a)) [
    | inl h ↦ rw h (rw (subst (λ x. p x ≡ true) e h) (Permᴰ.cons e (keep-Perm p d)))
    | inr h ↦ rw h (rw (subst (λ x. p x ≡ false) e h) (keep-Perm p d))
  ]
  keep-Perm p (Permᴰ.swap {a} {b} {a'} {b'} {l} e f) =
      subst (λ x. Permᴰ (keep p (a ∷ b ∷ l)) (keep p (x ∷ b' ∷ l))) f
        (subst (λ y. Permᴰ (keep p (a ∷ b ∷ l)) (keep p (b ∷ y ∷ l))) e (keep-swap p a b l))
  keep-Perm p (Permᴰ.trans d e) = Permᴰ.trans (keep-Perm p d) (keep-Perm p e)

  pub map-Perm {κ} :
      {B : Type κ} → (f : A → B) {xs ys : List A} → Permᴰ xs ys → Permᴰ (map f xs) (map f ys)
  map-Perm f Permᴰ.nil = Permᴰ.nil
  map-Perm f (Permᴰ.cons e d) = Permᴰ.cons (ap f e) (map-Perm f d)
  map-Perm f (Permᴰ.swap e g) = Permᴰ.swap (ap f e) (ap f g)
  map-Perm f (Permᴰ.trans d e) = Permᴰ.trans (map-Perm f d) (map-Perm f e)

  pub All-Perm {κ} : (P : A → Type κ) {xs ys : List A} → Permᴰ xs ys → All P xs → All P ys
  All-Perm P Permᴰ.nil h = h
  All-Perm P (Permᴰ.cons e d) (h, hs) = (subst P e h, All-Perm P d hs)
  All-Perm P (Permᴰ.swap e f) (h, (k, hs)) = (subst P f k, (subst P e h, hs))
  All-Perm P (Permᴰ.trans d e) h = All-Perm P e (All-Perm P d h)

  pub length-Perm : {xs ys : List A} → Permᴰ xs ys → length xs ≡ length ys
  length-Perm Permᴰ.nil = refl
  length-Perm (Permᴰ.cons e d) = ap suc (length-Perm d)
  length-Perm (Permᴰ.swap e f) = refl
  length-Perm (Permᴰ.trans d e) = length-Perm d ∙ length-Perm e

pub contains-Perm : (a : ℕ) {xs ys : List ℕ} → Permᴰ xs ys → contains a xs ≡ contains a ys
contains-Perm a Permᴰ.nil = refl
contains-Perm a (Permᴰ.cons e d) = ground (arith, e, contains-Perm a d)
contains-Perm a (Permᴰ.swap e f) = ground (arith, e, f)
contains-Perm a (Permᴰ.trans d e) = contains-Perm a d ∙ contains-Perm a e

pub IsDistinct-Perm : {xs ys : List ℕ} → Permᴰ xs ys → IsDistinct xs → IsDistinct ys
IsDistinct-Perm Permᴰ.nil h = h
IsDistinct-Perm (Permᴰ.cons {a} {b} {l₁} {l₂} e d) h =
    ground (arith, e, contains-Perm b d, h.0, IsDistinct-Perm d h.1)
IsDistinct-Perm (Permᴰ.swap e f) h = ground (arith, e, f, h)
IsDistinct-Perm (Permᴰ.trans d e) h = IsDistinct-Perm e (IsDistinct-Perm d h)
