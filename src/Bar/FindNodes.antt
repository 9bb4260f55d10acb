-- ===== src/Bar/FindNodes.antt =====
-- bar_network.go: `FindNodes`, the choice of peers for a round.
use Prim.Native.Nat.{min}
use mathlib.Core.Option
use dyphira_chain.Common.{
  ℕ, zero, suc, ◌+◌, ◌%◌, List, [], ◌∷◌, Option, none, some, length, contains, get_elem?,
  if◌then◌else◌,
}
use dyphira_chain.Bar.Peers.{PeerId, PeerInfo, BarNetwork}
use dyphira_chain.Bar.{values}

-- The inner loop of `FindNodes`, the next index that is not used; `none` is out of fuel.
unfoldable pub next_free : ℕ → List ℕ → ℕ → ℕ → Option ℕ
next_free zero used index n = none
next_free (suc fuel) used index n =
    let rest = next_free fuel used ((index + 1) % n) n in
    if contains index used then rest else some index

-- The outer loop of `FindNodes`, for `rounds` more peers. `prng` is `prngSelect` for the seed
-- of the round, before its remainder: the number that SHA-256 gives for each iteration.
unfoldable pub pick : (ℕ → ℕ) → ℕ → ℕ → ℕ → List ℕ → Option (List ℕ)
pick prng n zero i used = some []
pick prng n (suc rounds) i used = elim (next_free n used (prng i % n) n) [
  | none ↦ none
  | some index ↦ elim (pick prng n rounds (i + 1) (index ∷ used)) [
    | none ↦ none
    | some more ↦ some (index ∷ more)
  ]
]

-- The identifiers at some indices of the list of eligible peers.
unfoldable pub ids_at : List PeerInfo → List ℕ → List PeerId
ids_at peers [] = []
ids_at peers (i ∷ is) = elim (get_elem? peers i) [
  | some info ↦ info.id ∷ ids_at peers is
  | none ↦ ids_at peers is
]

-- `FindNodes`, which also sets the round.
unfoldable pub find_nodes : (ℕ → ℕ → ℕ) → BarNetwork → ℕ → BarNetwork × Option (List PeerId)
find_nodes prng bn round =
    let eligible = values bn.whitelist in
    let picked =
      pick (prng round) (length eligible) (min bn.config.incoming_connections (length eligible)) 0
        [] in
    (record bn { round = round }, Option.map (ids_at eligible) picked)
