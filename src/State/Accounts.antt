-- ===== src/State/Accounts.antt =====
-- Reading and writing single accounts.
use dyphira_chain.Common.{
  ℕ, zero, suc, ◌+◌, ◌*◌, ◌/◌, ◌%◌, ◌^◌, ◌<◌, ◌≡◌, ◌≢◌, refl, ◌∙◌, sym, length, All, arith, ◌==◌,
  if◌then◌else◌, Bool-cases, ==_iff, inl, inr, subst,
}
use native.Mathlib.Nat.{mod-lt, div-add-mod, div-lt_iff_lt-mul, one-le-pow, pow-succ'}
use dyphira_chain.Types.{Address, IsAddress, Account}
use dyphira_chain.Trie.{Digest}
use dyphira_chain.Trie.Laws.{get-insert_self, get-insert_ne}
use dyphira_chain.State.{State, bytes_of, address_bytes, get_account, put_account}

pub pow_pos : (n : ℕ) → 0 < 256 ^ n
pow_pos n = one-le-pow n 256 (omega arith)

pub length-bytes_of : (n a : ℕ) → length (bytes_of n a) ≡ n
unfolding bytes_of
length-bytes_of zero a = refl
length-bytes_of (suc n) a = omega (arith, length-bytes_of n (a % 256 ^ n))

pub bytes_of-bytes : (n a : ℕ) → a < 256 ^ n → All (λ b. b < 256) (bytes_of n a)
unfolding bytes_of
bytes_of-bytes zero a h = tt
bytes_of-bytes (suc n) a h = (
  (div-lt_iff_lt-mul (pow_pos n)).1 (rw (← pow-succ' 256 n) h),
  bytes_of-bytes n (a % 256 ^ n) (mod-lt a (pow_pos n)),
)

pub bytes_of-injective :
    (n a b : ℕ) → a < 256 ^ n → b < 256 ^ n → bytes_of n a ≡ bytes_of n b → a ≡ b
unfolding bytes_of
bytes_of-injective zero a b ha hb e = omega arith
bytes_of-injective (suc n) a b ha hb e =
    let rest : a % 256 ^ n ≡ b % 256 ^ n =
      bytes_of-injective n (a % 256 ^ n) (b % 256 ^ n) (mod-lt a (pow_pos n)) (mod-lt b (pow_pos n))
        (cc) in
    let first : a / 256 ^ n ≡ b / 256 ^ n = cc in
    let same : 256 ^ n * (a / 256 ^ n) + a % 256 ^ n ≡ 256 ^ n * (b / 256 ^ n) + b % 256 ^ n =
      rw (first, rest) refl in
    sym (div-add-mod a (256 ^ n)) ∙ same ∙ div-add-mod b (256 ^ n)

module _ ⦃d : Digest Account⦄ where
  -- An account that was put is read back under its address.
  pub get-put_self : (s : State) (acc : Account) → get_account (put_account s acc) acc.address ≡ acc
  unfolding get_account put_account
  get-put_self s acc = rw (get-insert_self s (address_bytes acc.address) acc) refl

  -- Every other address reads as before.
  pub get-put_ne :
      (s : State) (acc : Account) (a : Address)
      → IsAddress acc.address
      → IsAddress a
      → a ≢ acc.address
      → get_account (put_account s acc) a ≡ get_account s a
  unfolding get_account put_account IsAddress
  get-put_ne s acc a hk ha ne =
      rw
        (get-insert_ne s (address_bytes acc.address) (address_bytes a) acc
          (length-bytes_of 20 acc.address ∙ sym (length-bytes_of 20 a))
          (bytes_of-bytes 20 acc.address hk) (bytes_of-bytes 20 a ha)
          (λ e. ne (bytes_of-injective 20 a acc.address ha hk (sym e))))
        refl

  -- Both at once, over the addresses.
  pub get-put :
      (s : State) (acc : Account) (a : Address)
      → IsAddress acc.address
      → IsAddress a
      → get_account (put_account s acc) a ≡ (if acc.address == a then acc else get_account s a)
  get-put s acc a hk ha = elim (Bool-cases (acc.address == a)) [
    | inl e ↦ rw e (
        subst (λ k. get_account (put_account s acc) k ≡ acc) ((==_iff _ _).0 e)
          (get-put_self s acc))
    | inr e ↦ rw e (get-put_ne s acc a hk ha (ground arith))
  ]
