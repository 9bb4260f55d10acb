-- ===== src/Hex/RoundTrip.antt =====
-- Hexadecimal forms read back.
use dyphira_chain.Common.{
  ℕ, zero, suc, ◌+◌, ◌*◌, ◌/◌, ◌%◌, ◌^◌, ◌<◌, ◌≡◌, refl, ap, ◌∙◌, List, [], ◌∷◌, some, length, All,
  arith,
}
use native.Mathlib.Nat.{mod-lt, div-add-mod, mul_comm}
use dyphira_chain.Types.{IsAddress}
use dyphira_chain.State.{bytes_of}
use dyphira_chain.State.Accounts.{pow_pos, length-bytes_of, bytes_of-bytes}
use dyphira_chain.Hex.{
  parsed, digit, digit_value, encode_to_string, decode_string, number_of, copied, address_to_hex,
  hash_to_hex, hex_to_address, hex_to_hash,
}

digit_value-digit : (n : ℕ) → n < 16 → digit_value (digit n) ≡ some n
digit_value-digit n h = ground arith

length-encode : (bs : List ℕ) → length (encode_to_string bs) ≡ 2 * length bs
unfolding encode_to_string
length-encode [] = refl
length-encode (b ∷ bs) = omega (arith, length-encode bs)

decode-encode :
    (bs : List ℕ) → All (λ b. b < 256) bs → decode_string (encode_to_string bs) ≡ some bs
unfolding encode_to_string decode_string
decode-encode [] h = refl
decode-encode (b ∷ bs) h =
    let high = digit_value-digit (b / 16) (omega (arith, h.0)) in
    let low = digit_value-digit (b % 16) (omega arith) in
    let whole : b / 16 * 16 + b % 16 ≡ b = omega arith in
    rw (high, low, decode-encode bs h.1) (ap (λ x. some (x ∷ bs)) whole)

number-bytes : (n a : ℕ) → a < 256 ^ n → number_of (bytes_of n a) ≡ a
unfolding number_of bytes_of
number-bytes zero a h = omega arith
number-bytes (suc n) a h =
    let p = 256 ^ n in
    let rest = bytes_of n (a % p) in
    ap (λ k. a / p * 256 ^ k + number_of rest) (length-bytes_of n (a % p))
    ∙ ap (λ r. a / p * p + r) (number-bytes n (a % p) (mod-lt a (pow_pos n)))
    ∙ ap (λ m. m + a % p) (mul_comm (a / p) p)
    ∙ div-add-mod a p

copied-encode :
    (size a : ℕ)
    → a < 256 ^ size
    → copied size (decode_string (encode_to_string (bytes_of size a))) ≡ parsed a
copied-encode size a h =
    ap (copied size) (decode-encode (bytes_of size a) (bytes_of-bytes size a h))
    ∙ (ground (arith, length-bytes_of size a, number-bytes size a h))

-- The hexadecimal form of an address or a hash has two digits for each byte, and is read back.
pub hex_to_address-to_hex :
    (a h : ℕ)
    → IsAddress a
    → h < 256 ^ 32
    → (hex_to_address (address_to_hex a) ≡ parsed a)
      × (hex_to_hash (hash_to_hex h) ≡ parsed h)
      × (length (address_to_hex a) ≡ 40)
      × (length (hash_to_hex h) ≡ 64)
unfolding hex_to_address hex_to_hash IsAddress
hex_to_address-to_hex a h ha hh =
    let la : length (address_to_hex a) ≡ 40 =
      omega (arith, length-encode (bytes_of 20 a), length-bytes_of 20 a) in
    let lh : length (hash_to_hex h) ≡ 64 =
      omega (arith, length-encode (bytes_of 32 h), length-bytes_of 32 h) in
    (rw la (copied-encode 20 a ha), rw lh (copied-encode 32 h hh), la, lh)
