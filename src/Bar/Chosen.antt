-- ===== src/Bar/Chosen.antt =====
-- What `FindNodes` chooses: every whitelisted peer, once.
use Prim.Native.Nat.{min}
use dyphira_chain.Common.{
  length-map, ℕ, zero, suc, ◌<◌, ◌≡◌, refl, true, false, List, [], ◌∷◌, some, length, contains,
  IsDistinct, All, get_elem?, map, ==_iff, arith, subst, sym, ap, ◌∙◌,
}
use dyphira_chain.Common.Distinct.{IsSubset, contains-subset}
use dyphira_chain.Bar.Peers.{PeerId, PeerInfo, BarNetwork}
use dyphira_chain.Bar.FindNodes.{pick, ids_at, find_nodes}
use dyphira_chain.Common.Dict.{has, keys, contains-keys, All-entries, Dict}
use dyphira_chain.Bar.{values}
use dyphira_chain.Bar.Invariant.{IsValid}
use dyphira_chain.Bar.Selection.{pick_total}

-- The identifier of the peer at an index.
abbrev id_at : List PeerInfo → ℕ → ℕ
id_at [] i = 0
id_at (x ∷ xs) zero = x.id
id_at (x ∷ xs) (suc i) = id_at xs i

get-id_at :
    (peers : List PeerInfo) (i : ℕ)
    → i < length peers
    → (x : PeerInfo) × (get_elem? peers i ≡ some x) × (x.id ≡ id_at peers i)
get-id_at [] i h = absurd (omega arith)
get-id_at (x ∷ xs) zero h = (x, refl, refl)
get-id_at (x ∷ xs) (suc i) h = get-id_at xs i (omega arith)

ids_at-map :
    (peers : List PeerInfo) (is : List ℕ)
    → All (λ i. i < length peers) is
    → ids_at peers is ≡ map (id_at peers) is
unfolding ids_at
ids_at-map peers [] h = refl
ids_at-map peers (i ∷ is) h =
    let (x, found, e) = get-id_at peers i h.0 in
    rw (found, ids_at)
      (ap (λ a. a ∷ ids_at peers is) e ∙ ap (λ r. id_at peers i ∷ r) (ids_at-map peers is h.1))

contains-id_at :
    (peers : List PeerInfo) (i : ℕ)
    → i < length peers
    → contains (id_at peers i) (map (λ x. x.id) peers) ≡ true
contains-id_at [] i h = absurd (omega arith)
contains-id_at (x ∷ xs) zero h = ground (arith, ==_iff x.id x.id)
contains-id_at (x ∷ xs) (suc i) h = ground (arith, contains-id_at xs i (omega arith))

-- Different indices have different identifiers, where no identifier occurs twice.
id_at-injective :
    (peers : List PeerInfo) (i j : ℕ)
    → IsDistinct (map (λ x. x.id) peers)
    → i < length peers
    → j < length peers
    → id_at peers i ≡ id_at peers j
    → i ≡ j
id_at-injective [] i j d hi hj e = absurd (omega arith)
id_at-injective (x ∷ xs) zero zero d hi hj e = refl
id_at-injective (x ∷ xs) zero (suc j) d hi hj e =
    absurd (ground (arith, e, d.0, contains-id_at xs j (omega arith)))
id_at-injective (x ∷ xs) (suc i) zero d hi hj e =
    absurd (ground (arith, e, d.0, contains-id_at xs i (omega arith)))
id_at-injective (x ∷ xs) (suc i) (suc j) d hi hj e =
    ap suc (id_at-injective xs i j d.1 (omega arith) (omega arith) e)

map-id_at-IsDistinct :
    (peers : List PeerInfo) (is : List ℕ)
    → IsDistinct (map (λ x. x.id) peers)
    → All (λ i. i < length peers) is
    → IsDistinct is
    → IsDistinct (map (id_at peers) is)
map-id_at-IsDistinct peers [] d h ds = tt
map-id_at-IsDistinct peers (i ∷ is) d h ds =
    (fresh is h.1 ds.0, map-id_at-IsDistinct peers is d h.1 ds.1)
  where
    fresh :
        (js : List ℕ)
        → All (λ j. j < length peers) js
        → contains i js ≡ false
        → contains (id_at peers i) (map (id_at peers) js) ≡ false
    fresh [] hs e = refl
    fresh (j ∷ js) hs e = ground (
      arith,
      fresh js hs.1,
      e,
      ==_iff j i,
      ==_iff (id_at peers j) (id_at peers i),
      id_at-injective peers j i d hs.0 h.0,
    )

map-id_at-IsSubset :
    (peers : List PeerInfo) (is : List ℕ)
    → All (λ i. i < length peers) is
    → IsSubset (map (id_at peers) is) (map (λ x. x.id) peers)
map-id_at-IsSubset peers [] h = tt
map-id_at-IsSubset peers (i ∷ is) h = (contains-id_at peers i h.0, map-id_at-IsSubset peers is h.1)

-- The identifier of a whitelisted entry is its key.
ids-keys : (m : Dict PeerInfo) → All (λ e. e.1.id ≡ e.0) m → map (λ x. x.id) (values m) ≡ keys m
ids-keys [] h = refl
ids-keys ((p, x) ∷ m) h =
    ap (λ k. k ∷ map (λ x. x.id) (values m)) h.0 ∙ ap (λ ks. p ∷ ks) (ids-keys m h.1)

whitelist_ids :
    (bn : BarNetwork) → IsValid bn → map (λ x. x.id) (values bn.whitelist) ≡ keys bn.whitelist
whitelist_ids bn v =
    ids-keys bn.whitelist (
      All-entries (λ p x. x.id ≡ p) bn.whitelist v.distinct
        (λ p x e. ground (arith, e, v.stands p)))

find_nodes-some :
    (prng : ℕ → ℕ → ℕ) (bn : BarNetwork) (round : ℕ) (is : List ℕ)
    → IsValid bn
    → pick (prng round) (length (values bn.whitelist)) (length (values bn.whitelist)) 0 [] ≡ some is
    → (find_nodes prng bn round).1 ≡ some (ids_at (values bn.whitelist) is)
unfolding find_nodes
find_nodes-some prng bn round is v e =
    let all : min bn.config.incoming_connections (length (values bn.whitelist))
        ≡ length (values bn.whitelist) =
      omega (arith, v.room, length-map (λ e. e.1) bn.whitelist) in
    rw all (rw e refl)

-- On a valid network `FindNodes` ends and returns, whatever numbers the hash of the seed gives,
-- every whitelisted peer, and none of them twice.
pub find_nodes_lem :
    (prng : ℕ → ℕ → ℕ) (bn : BarNetwork) (round : ℕ)
    → IsValid bn
    → (ids : List PeerId) × ((find_nodes prng bn round).1 ≡ some ids)
      × IsDistinct ids
      × ((p : PeerId) → contains p ids ≡ has p bn.whitelist)
find_nodes_lem prng bn round v =
    let peers = values bn.whitelist in
    let (is, found, (len, distinct, bound, fresh)) =
      pick_total (prng round) (length peers) (length peers) 0 [] (omega arith) in
    let known : IsDistinct (map (λ x. x.id) peers) =
      subst IsDistinct (sym (whitelist_ids bn v)) v.distinct in
    let e : ids_at peers is ≡ map (id_at peers) is = ids_at-map peers is bound in
    let d = map-id_at-IsDistinct peers is known bound distinct in
    (
      ids_at peers is,
      find_nodes-some prng bn round is v found,
      subst IsDistinct (sym e) d,
      λ p.
          ap (contains p) e
          ∙ contains-subset p (map (id_at peers) is) (map (λ x. x.id) peers) d
              (map-id_at-IsSubset peers is bound)
              (omega (arith, len, length-map (id_at peers) is, length-map (λ x. x.id) peers))
          ∙ ap (contains p) (whitelist_ids bn v)
          ∙ contains-keys p bn.whitelist,
    )
