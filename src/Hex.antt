-- ===== src/Hex.antt =====
-- types.go: the hexadecimal forms of addresses and hashes, over Go's encoding/hex. A string is the
-- list of its bytes.
pub mod RoundTrip
mod Tests
use dyphira_chain.Common.{
  ℕ, zero, suc, ◌+◌, ◌-◌, ◌*◌, ◌/◌, ◌%◌, ◌^◌, ◌&&◌, List, [], ◌∷◌, Option, none, some, length, leb,
  ◌==◌, if◌then◌else◌,
}
use dyphira_chain.Types.{Address, Hash}
use dyphira_chain.State.{bytes_of}

-- A digit in lower case: "0" is 48 and "a" is 97.
abbrev pub digit : ℕ → ℕ
digit n = if leb n 9 then n + 48 else n + 87

-- `hex.EncodeToString`
unfoldable pub encode_to_string : List ℕ → List ℕ
encode_to_string [] = []
encode_to_string (b ∷ bs) = digit (b / 16) ∷ digit (b % 16) ∷ encode_to_string bs

-- The value of a digit in either case.
abbrev pub digit_value : ℕ → Option ℕ
digit_value c =
    if leb 48 c && leb c 57
    then some (c - 48)
    else (if leb 97 c && leb c 102
        then some (c - 87)
        else (if leb 65 c && leb c 70 then some (c - 55) else none))

abbrev pub pair_value : Option ℕ → Option ℕ → Option ℕ
pair_value (some high) (some low) = some (high * 16 + low)
pair_value none low = none
pair_value (some high) none = none

abbrev pub with_byte : Option ℕ → Option (List ℕ) → Option (List ℕ)
with_byte (some b) (some bs) = some (b ∷ bs)
with_byte none bs = none
with_byte (some b) none = none

-- `hex.DecodeString`, which fails on another character and on an odd length.
unfoldable pub decode_string : List ℕ → Option (List ℕ)
decode_string [] = some []
decode_string (c ∷ []) = none
decode_string (c ∷ d ∷ cs) =
    with_byte (pair_value (digit_value c) (digit_value d)) (decode_string cs)

-- The number that some bytes are, the first the highest.
unfoldable pub number_of : List ℕ → ℕ
number_of [] = 0
number_of (b ∷ bs) = b * 256 ^ length bs + number_of bs

-- `ToHex` of an address and of a hash.
abbrev pub address_to_hex : Address → List ℕ
address_to_hex a = encode_to_string (bytes_of 20 a)

abbrev pub hash_to_hex : Hash → List ℕ
hash_to_hex h = encode_to_string (bytes_of 32 h)

-- What the readers return: the value, or which of their three errors.
pub data Parsed : Type 0 where
  parsed : ℕ → Parsed
  wrong_length : Parsed
  invalid_hex : Parsed
  wrong_size : Parsed

-- The test of the length after the decoder, and the copy into the array.
abbrev pub copied : (size : ℕ) → Option (List ℕ) → Parsed
copied size none = invalid_hex
copied size (some bytes) = if length bytes == size then parsed (number_of bytes) else wrong_size

unfoldable pub hex_to_address : List ℕ → Parsed
unfolding decode_string
hex_to_address s = if length s == 40 then copied 20 (decode_string s) else wrong_length

unfoldable pub hex_to_hash : List ℕ → Parsed
unfolding decode_string
hex_to_hash s = if length s == 64 then copied 32 (decode_string s) else wrong_length
