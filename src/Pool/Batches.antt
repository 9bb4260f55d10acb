-- ===== src/Pool/Batches.antt =====
-- The greedy batch: its bounds, its sums, and that each of its transactions was selectable.
use mathlib.Core.List.{Permᴰ}
use mathlib.Core.List.Permᴰ
use dyphira_chain.Common.{
  ℕ, ◌+◌, ◌*◌, ◌≤◌, ◌<◌, ◌≡◌, refl, Bool, true, false, All-map, ==_iff, List, [], ◌∷◌, map, length,
  All, keep, ltb, leb, arith, Bool-cases, add64, add64_exact, word_mod, inl, inr,
}
use dyphira_chain.Common.Perm.{All-Perm}
use dyphira_chain.Types.{Transaction}
use dyphira_chain.State.{State, get_account}
use dyphira_chain.Pool.{
  TransactionPool, TransactionBatch, is_selectable, insert_by, sort_by, ranked, fill_batch,
  create_optimized_batch,
}

abbrev pub fees : List Transaction → ℕ
fees [] = 0
fees (tx ∷ txs) = tx.fee + fees txs

-- No fee that is added to a batch within its bound passes 64 bits.
abbrev pub FeeFits : TransactionPool → Transaction → Type 0
FeeFits tp tx = tp.max_batch_fee + tx.fee < word_mod

-- A batch that was continued from `count` transactions with a fee and a size keeps the bounds.
pub record Keeps (tp : TransactionPool) (count fee size : ℕ) (b : TransactionBatch) : Type 0 where
  pub few : count + length b.transactions ≤ tp.max_batch_size
  pub fee_sum : b.total_fee ≡ fee + fees b.transactions
  pub cheap : b.total_fee ≤ tp.max_batch_fee
  pub size_sum : b.total_size ≡ size + 200 * length b.transactions
  pub small : b.total_size ≤ 1000000

fill_batch-Keeps :
    (tp : TransactionPool) (txs : List Transaction) (count fee size : ℕ)
    → All (FeeFits tp) txs
    → count ≤ tp.max_batch_size
    → fee ≤ tp.max_batch_fee
    → size ≤ 1000000
    → Keeps tp count fee size (fill_batch tp txs count fee size)
unfolding fill_batch
fill_batch-Keeps tp [] count fee size fits few cheap small = record {
  few = omega arith;
  fee_sum = omega arith;
  cheap = cheap;
  size_sum = omega arith;
  small = small;
}
fill_batch-Keeps tp (tx ∷ txs) count fee size (fit, fits) few cheap small =
    elim (Bool-cases (leb tp.max_batch_size count)) [
      | inl full ↦ rw full (record {
        few = omega arith;
        fee_sum = omega arith;
        cheap = cheap;
        size_sum = omega arith;
        small = small;
      })
      | inr room ↦ rw room (
          rw (add64_exact fee tx.fee (omega arith))
            (elim (Bool-cases (ltb tp.max_batch_fee (fee + tx.fee))) [
              | inl dear ↦ rw dear (fill_batch-Keeps tp txs count fee size fits few cheap small)
              | inr fair ↦ elim (Bool-cases (ltb 1000000 (size + 200))) [
                | inl big ↦
                    rw fair (rw big (fill_batch-Keeps tp txs count fee size fits few cheap small))
                | inr fine ↦
                    let k =
                      fill_batch-Keeps tp txs (count + 1) (fee + tx.fee) (size + 200) fits
                        (ground (arith, room)) (ground (arith, fair)) (ground (arith, fine)) in
                    rw fair (
                      rw fine (record {
                        few = omega (arith, k.few);
                        fee_sum = omega (arith, k.fee_sum);
                        cheap = k.cheap;
                        size_sum = omega (arith, k.size_sum);
                        small = k.small;
                      }))
              ]
            ]))
    ]

All-fill_batch {κ} :
    (P : Transaction → Type κ) (tp : TransactionPool) (txs : List Transaction) (count fee size : ℕ)
    → All P txs
    → All P (fill_batch tp txs count fee size).transactions
unfolding fill_batch
All-fill_batch P tp [] count fee size h = tt
All-fill_batch P tp (tx ∷ txs) count fee size (h, hs) =
    elim (Bool-cases (leb tp.max_batch_size count)) [
      | inl full ↦ rw full tt
      | inr room ↦ elim (Bool-cases (ltb tp.max_batch_fee (add64 fee tx.fee))) [
        | inl dear ↦ rw room (rw dear (All-fill_batch P tp txs count fee size hs))
        | inr fair ↦ elim (Bool-cases (ltb 1000000 (size + 200))) [
          | inl big ↦ rw room (rw fair (rw big (All-fill_batch P tp txs count fee size hs)))
          | inr fine ↦ rw room (
              rw fair (
                rw fine
                  (h, All-fill_batch P tp txs (count + 1) (add64 fee tx.fee) (size + 200) hs)))
        ]
      ]
    ]

insert_by-Perm :
    (higher : Transaction → Transaction → Bool) (tx : Transaction) (ts : List Transaction)
    → Permᴰ (insert_by higher tx ts) (tx ∷ ts)
unfolding insert_by
insert_by-Perm higher tx [] = Permᴰ.refl (tx ∷ [])
insert_by-Perm higher tx (t ∷ ts) = elim (Bool-cases (higher t tx)) [
  | inl after ↦
      rw after (Permᴰ.trans (Permᴰ.cons refl (insert_by-Perm higher tx ts)) (Permᴰ.swap refl refl))
  | inr before ↦ rw before (Permᴰ.refl (tx ∷ t ∷ ts))
]

sort_by-Perm :
    (higher : Transaction → Transaction → Bool) (ts : List Transaction)
    → Permᴰ (sort_by higher ts) ts
unfolding sort_by
sort_by-Perm higher [] = Permᴰ.nil
sort_by-Perm higher (t ∷ ts) =
    Permᴰ.trans (insert_by-Perm higher t (sort_by higher ts))
      (Permᴰ.cons refl (sort_by-Perm higher ts))

All-keep {κ} :
    (P : Transaction → Type κ) (p : Transaction → Bool) (ts : List Transaction)
    → All P ts
    → All P (keep p ts)
All-keep P p [] h = tt
All-keep P p (t ∷ ts) (h, hs) = elim (Bool-cases (p t)) [
  | inl yes_kept ↦ rw yes_kept (h, All-keep P p ts hs)
  | inr dropped ↦ rw dropped (All-keep P p ts hs)
]

All-kept : (p : Transaction → Bool) (ts : List Transaction) → All (λ t. p t ≡ true) (keep p ts)
All-kept p [] = tt
All-kept p (t ∷ ts) = elim (Bool-cases (p t)) [
  | inl kept ↦ rw kept (kept, All-kept p ts)
  | inr dropped ↦ rw dropped (All-kept p ts)
]

-- The transactions of a pool, in the order of its map.
abbrev pub contents : TransactionPool → List Transaction
contents tp = map (λ e. e.1) tp.transactions

-- The transaction is unused, has the next nonce of its sender and is covered by the balance, the
-- sum of value and fee taken modulo 2^64.
abbrev pub Selectable : State → Transaction → Type 0
Selectable state tx =
    (tx.used ≡ false)
    × (tx.nonce ≡ add64 (get_account state tx.from).nonce 1)
    × (add64 tx.value tx.fee ≤ (get_account state tx.from).balance)

is_selectable-Selectable :
    (state : State) (tx : Transaction) → is_selectable state tx ≡ true → Selectable state tx
unfolding is_selectable
is_selectable-Selectable state tx h =
    ground (arith, h, ==_iff tx.nonce (add64 (get_account state tx.from).nonce 1))

All-Selectable :
    (state : State) (txs : List Transaction)
    → All (Selectable state) (keep (is_selectable state) txs)
All-Selectable state txs =
    All-map (is_selectable-Selectable state) (keep (is_selectable state) txs)
      (All-kept (is_selectable state) txs)

-- Whatever the priorities are, a batch has at most `maxBatchSize` transactions, its fees add up
-- to its total and do not pass `maxBatchFee`, its size is 200 for each of them and at most a
-- million, and each is unused, has the next nonce of its sender and is covered by the balance (its
-- value and fee taken modulo 2^64). The fees of the pool must leave room in 64 bits for the bound.
pub create_optimized_batch_lem :
    (higher : Transaction → Transaction → Bool) (tp : TransactionPool) (state : State)
    → All (FeeFits tp) (contents tp)
    → Keeps tp 0 0 0 (create_optimized_batch higher tp state)
      × All (Selectable state) (create_optimized_batch higher tp state).transactions
unfolding create_optimized_batch ranked
create_optimized_batch_lem higher tp state fits =
    let chosen = keep (is_selectable state) (contents tp) in
    let sorted = Permᴰ.symm (sort_by-Perm higher chosen) in
    (
      fill_batch-Keeps tp (sort_by higher chosen) 0 0 0
          (All-Perm (FeeFits tp) sorted
            (All-keep (FeeFits tp) (is_selectable state) (contents tp) fits))
          (omega arith) (omega arith) (omega arith),
      All-fill_batch (Selectable state) tp (sort_by higher chosen) 0 0 0
          (All-Perm (Selectable state) sorted (All-Selectable state (contents tp))),
    )
