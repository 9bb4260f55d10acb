-- ===== src/Hex/Tests.antt =====
-- The hexadecimal forms of an address and of a hash.
use dyphira_chain.Common.{
  ℕ, zero, suc, List, ◌+◌, ◌^◌, ◌≡◌, refl, some, none, [], ◌∷◌, length, arith,
}
use dyphira_chain.Types.{IsAddress}
use dyphira_chain.Hex.{
  parsed, wrong_length, invalid_hex, address_to_hex, hash_to_hex, hex_to_address, hex_to_hash,
  decode_string,
}
use dyphira_chain.Hex.RoundTrip.{hex_to_address-to_hex}

-- "aF" is read, "ag" and "a" are not.
decode_letters : decode_string (97 ∷ 70 ∷ []) ≡ some (175 ∷ [])
unfolding decode_string
decode_letters = refl

decode_no_digit : decode_string (97 ∷ 103 ∷ []) ≡ none
unfolding decode_string
decode_no_digit = refl

decode_odd : decode_string (97 ∷ []) ≡ none
unfolding decode_string
decode_odd = refl

-- The errors differ: a string that is too short, and one with a letter that is no digit.
read_short : hex_to_address (97 ∷ []) ≡ wrong_length
unfolding hex_to_address
read_short = refl

abbrev letters : ℕ → List ℕ
letters zero = []
letters (suc n) = 103 ∷ letters n

read_letters : hex_to_address (letters 40) ≡ invalid_hex
unfolding hex_to_address decode_string
read_letters = refl

small-IsAddress : IsAddress 48879
unfolding IsAddress
small-IsAddress = omega arith

hex_example :
    (hex_to_address (address_to_hex 48879) ≡ parsed 48879)
    × (hex_to_hash (hash_to_hex (2 ^ 200 + 7)) ≡ parsed (2 ^ 200 + 7))
    × (length (address_to_hex 48879) ≡ 40)
    × (length (hash_to_hex (2 ^ 200 + 7)) ≡ 64)
hex_example = hex_to_address-to_hex 48879 (2 ^ 200 + 7) small-IsAddress (omega arith)
