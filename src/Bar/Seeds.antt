-- ===== src/Bar/Seeds.antt =====
-- bar_network.go: the seed of a round and the numbers drawn from it. SHA-256 is a parameter, a
-- function from bytes to bytes.
use dyphira_chain.Common.{ℕ, zero, suc, ◌+◌, ◌*◌, ◌/◌, ◌%◌, List, [], ◌∷◌, ◌++◌, take, Option}
use dyphira_chain.Bar.Peers.{PeerId, BarNetwork}
use dyphira_chain.Bar.FindNodes.{find_nodes}

-- The `count` low bytes of a number, the highest first: `binary.BigEndian.PutUint64` at 8.
unfoldable pub put_bytes : (count : ℕ) → ℕ → List ℕ
put_bytes zero n = []
put_bytes (suc count) n = put_bytes count (n / 256) ++ (n % 256) ∷ []

-- The number that some bytes spell, the highest first: `binary.BigEndian.Uint32` at 4 bytes.
unfoldable pub read_bytes : ℕ → List ℕ → ℕ
read_bytes acc [] = acc
read_bytes acc (b ∷ bs) = read_bytes (acc * 256 + b) bs

module _ (sha256 : List ℕ → List ℕ) where
  unfoldable pub generate_round_seed : BarNetwork → (round : ℕ) → List ℕ
  unfolding put_bytes
  generate_round_seed bn round = sha256 (bn.prng_seed ++ put_bytes 8 round)

  -- `prngSelect` before its remainder.
  unfoldable pub prng_number : (seed : List ℕ) → (iteration : ℕ) → ℕ
  unfolding put_bytes read_bytes
  prng_number seed iteration = read_bytes 0 (take 4 (sha256 (seed ++ put_bytes 8 iteration)))

  -- `FindNodes` with the numbers that it draws.
  unfoldable pub select_nodes : BarNetwork → (round : ℕ) → BarNetwork × Option (List PeerId)
  unfolding generate_round_seed prng_number
  select_nodes bn round = find_nodes (λ r i. prng_number (generate_round_seed bn r) i) bn round
