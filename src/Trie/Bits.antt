-- ===== src/Trie/Bits.antt =====
-- The bits of a key: their order of visit, and that they tell byte strings of one length apart.
use dyphira_chain.Common.{
  ℕ, zero, suc, ◌+◌, ◌*◌, ◌/◌, ◌%◌, ◌^◌, ◌<◌, ◌≡◌, refl, ap, ◌∙◌, List, [], ◌∷◌, ◌++◌, length,
  get_or, All, sym, ◌&&◌, ==_iff, Bool, true, ◌==◌, if◌then◌else◌, arith,
}
use dyphira_chain.Trie.{key_bit}

-- The turns at `n` levels from `depth` on: is the bit 0, so that the walk goes left?
unfoldable pub bits_from : List ℕ → ℕ → ℕ → List Bool
bits_from key zero depth = []
bits_from key (suc n) depth = (key_bit key depth == 0) ∷ bits_from key n (depth + 1)

-- The turns at all levels of the key.
abbrev pub bits : List ℕ → List Bool
bits key = bits_from key (length key * 8) 0

pub length-bits_from : (key : List ℕ) (n depth : ℕ) → length (bits_from key n depth) ≡ n
unfolding bits_from
length-bits_from key zero depth = refl
length-bits_from key (suc n) depth = omega (arith, length-bits_from key n (depth + 1))

get_or-suc : (x : ℕ) (xs : List ℕ) (n m : ℕ) → n ≡ suc m → get_or (x ∷ xs) n 0 ≡ get_or xs m 0
get_or-suc x xs n m e = rw e refl

key_bit-cons : (x : ℕ) (xs : List ℕ) (depth : ℕ) → key_bit (x ∷ xs) (depth + 8) ≡ key_bit xs depth
unfolding key_bit
key_bit-cons x xs depth =
    let e : (depth + 8) % 8 ≡ depth % 8 = omega arith in
    rw (e, get_or-suc x xs ((depth + 8) / 8) (depth / 8) (omega arith)) refl

bits_from-cons :
    (x : ℕ) (xs : List ℕ) (n depth : ℕ) → bits_from (x ∷ xs) n (depth + 8) ≡ bits_from xs n depth
unfolding bits_from
bits_from-cons x xs zero depth = refl
bits_from-cons x xs (suc n) depth =
    let e : depth + 8 + 1 ≡ depth + 1 + 8 = omega arith in
    rw (e, key_bit-cons x xs depth, bits_from-cons x xs n (depth + 1)) refl

-- The eight turns for one byte.
byte_bits : ℕ → List Bool
byte_bits x =
    (x / 128 % 2 == 0)
    ∷ (x / 64 % 2 == 0)
    ∷ (x / 32 % 2 == 0)
    ∷ (x / 16 % 2 == 0)
    ∷ (x / 8 % 2 == 0)
    ∷ (x / 4 % 2 == 0)
    ∷ (x / 2 % 2 == 0)
    ∷ (x / 1 % 2 == 0)
    ∷ []

byte_of : List Bool → ℕ
byte_of [] = 0
byte_of (b ∷ bs) = (if b then 0 else 2 ^ length bs) + byte_of bs

-- Is every byte below the bound the byte of its own bits?
returns_below : ℕ → Bool
returns_below zero = true
returns_below (suc bound) =
    let rest = returns_below bound in (byte_of (byte_bits bound) == bound) && rest

byte_of-byte_bits_below :
    (bound x : ℕ) → x < bound → returns_below bound ≡ true → byte_of (byte_bits x) ≡ x
unfolding returns_below
byte_of-byte_bits_below zero x small table = absurd (omega arith)
byte_of-byte_bits_below (suc bound) x small table = ground (
  arith,
  byte_of-byte_bits_below bound x,
  ==_iff bound x,
  ==_iff (byte_of (byte_bits bound)) bound,
)

byte_table : returns_below 256 ≡ true
unfolding returns_below byte_of byte_bits
byte_table = refl

byte_of-byte_bits : (x : ℕ) → x < 256 → byte_of (byte_bits x) ≡ x
byte_of-byte_bits x small = byte_of-byte_bits_below 256 x small byte_table

bits-cons : (x : ℕ) (xs : List ℕ) → bits (x ∷ xs) ≡ byte_bits x ++ bits xs
unfolding bits_from byte_bits key_bit
bits-cons x xs =
    let e : length (x ∷ xs) * 8 ≡ suc (suc (suc (suc (suc (suc (suc (suc (length xs * 8)))))))) =
      omega arith in
    rw e (rw (bits_from-cons x xs (length xs * 8) 0) refl)

-- Equal byte parts and equal rests.
split_byte :
    (x y : ℕ) (ps qs : List Bool)
    → byte_bits x ++ ps ≡ byte_bits y ++ qs
    → (byte_bits x ≡ byte_bits y) × (ps ≡ qs)
unfolding byte_bits
split_byte x y ps qs h = (cc, cc)

-- Byte strings of one length with the same bits are the same.
pub bits-injective :
    (ks js : List ℕ)
    → length ks ≡ length js
    → All (λ b. b < 256) ks
    → All (λ b. b < 256) js
    → bits ks ≡ bits js
    → ks ≡ js
bits-injective [] [] n hk hj e = refl
bits-injective [] (j ∷ js) n hk hj e = absurd (omega arith)
bits-injective (k ∷ ks) [] n hk hj e = absurd (omega arith)
bits-injective (k ∷ ks) (j ∷ js) n hk hj e =
    let (first, rest) =
      split_byte k j (bits ks) (bits js) (sym (bits-cons k ks) ∙ e ∙ bits-cons j js) in
    let head : k ≡ j =
      sym (byte_of-byte_bits k hk.0) ∙ ap byte_of first ∙ byte_of-byte_bits j hj.0 in
    cc (bits-injective ks js (omega arith) hk.1 hj.1 rest)
