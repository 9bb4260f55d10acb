-- ===== src/Metrics/Windows.antt =====
-- The windows of recent times against the full history.
use mathlib.Core.List.{append-nil, append_assoc}
use dyphira_chain.Common.{
  ℕ, zero, suc, ◌+◌, ◌-◌, ◌%◌, ◌≤◌, ◌≡◌, refl, sym, ap, ◌∙◌, subst, List, [], ◌∷◌, ◌++◌, length,
  length-append, ltb, add64, word_mod, arith, Bool-cases, inl, inr,
}
use dyphira_chain.Metrics.{
  Floats, MetricsCollector, new_metrics_collector, drop_first, push_time, record_block_production,
  record_transaction,
}

-- The list without its first `n` items.
abbrev pub drop : ℕ → List ℕ → List ℕ
drop zero l = l
drop (suc n) [] = []
drop (suc n) (x ∷ l) = drop n l

-- The last `n` items, or all if there are fewer.
abbrev pub last_items : ℕ → List ℕ → List ℕ
last_items n l = drop (length l - n) l

drop_first-drop : (n : ℕ) (l : List ℕ) → drop_first (drop n l) ≡ drop (suc n) l
drop_first-drop zero [] = refl
drop_first-drop zero (x ∷ l) = refl
drop_first-drop (suc n) [] = refl
drop_first-drop (suc n) (x ∷ l) = drop_first-drop n l

drop-append :
    (n : ℕ) (l : List ℕ) (t : ℕ) → n ≤ length l → drop n (l ++ t ∷ []) ≡ drop n l ++ t ∷ []
drop-append zero l t h = refl
drop-append (suc n) [] t h = absurd (omega arith)
drop-append (suc n) (x ∷ l) t h = drop-append n l t (omega arith)

length-drop : (n : ℕ) (l : List ℕ) → length (drop n l) ≡ length l - n
length-drop zero l = omega arith
length-drop (suc n) [] = omega arith
length-drop (suc n) (x ∷ l) = omega (arith, length-drop n l)

-- A push keeps the window at the last items of the history.
push_time-last_items :
    (cap : ℕ) (l : List ℕ) (t : ℕ)
    → push_time cap (last_items cap l) t ≡ last_items cap (l ++ t ∷ [])
unfolding push_time
push_time-last_items cap l t =
    let skip = length l - cap in
    let longer = drop-append skip l t (omega arith) in
    let size : length (l ++ t ∷ []) ≡ length l + 1 = length-append l (t ∷ []) in
    let whole = l ++ t ∷ [] in
    rw (← longer) (elim (Bool-cases (ltb cap (length (drop skip (l ++ t ∷ []))))) [
      | inl over ↦
          let more : suc skip ≡ length whole - cap =
            ground (arith, size, length-drop skip whole, over) in
          rw over (drop_first-drop skip whole ∙ ap (λ n. drop n whole) more)
      | inr under ↦
          let same : skip ≡ length whole - cap =
            ground (arith, size, length-drop skip whole, under) in
          rw under (ap (λ n. drop n whole) same)
    ])

-- What is recorded: a block or a transaction, at a time.
pub data Sample : Type 0 where
  block_at : ℕ → Sample
  transaction_at : ℕ → Sample

abbrev pub blocks_of : List Sample → List ℕ
blocks_of [] = []
blocks_of (block_at t ∷ rest) = t ∷ blocks_of rest
blocks_of (transaction_at t ∷ rest) = blocks_of rest

abbrev pub transactions_of : List Sample → List ℕ
transactions_of [] = []
transactions_of (block_at t ∷ rest) = transactions_of rest
transactions_of (transaction_at t ∷ rest) = t ∷ transactions_of rest

module _ (fl : Floats) where
  unfoldable pub record_samples : MetricsCollector fl → List Sample → MetricsCollector fl
  record_samples mc [] = mc
  record_samples mc (block_at t ∷ rest) = record_samples (record_block_production fl mc t) rest
  record_samples mc (transaction_at t ∷ rest) = record_samples (record_transaction fl mc t) rest

  -- What some blocks and transactions have left in the collector.
  abbrev pub Keeps : MetricsCollector fl → (blocks transactions : List ℕ) → Type 0
  Keeps mc blocks transactions =
      (mc.block_times ≡ last_items 100 blocks)
      × (mc.block_count ≡ length blocks % word_mod)
      × (mc.transaction_times ≡ last_items 1000 transactions)
      × (mc.transaction_count ≡ length transactions % word_mod)

  Keeps-block :
      (mc : MetricsCollector fl) (bs ts : List ℕ) (t : ℕ)
      → Keeps mc bs ts
      → Keeps (record_block_production fl mc t) (bs ++ t ∷ []) ts
  unfolding record_block_production add64
  Keeps-block mc bs ts t (window, count, other, others) = (
    ap (λ l. push_time 100 l t) window ∙ push_time-last_items 100 bs t,
    omega (arith, count, length-append bs (t ∷ [])),
    other,
    others,
  )

  Keeps-transaction :
      (mc : MetricsCollector fl) (bs ts : List ℕ) (t : ℕ)
      → Keeps mc bs ts
      → Keeps (record_transaction fl mc t) bs (ts ++ t ∷ [])
  unfolding record_transaction add64
  Keeps-transaction mc bs ts t (other, others, window, count) = (
    other,
    others,
    ap (λ l. push_time 1000 l t) window ∙ push_time-last_items 1000 ts t,
    omega (arith, count, length-append ts (t ∷ [])),
  )

  record_samples-Keeps :
      (mc : MetricsCollector fl) (bs ts : List ℕ) (samples : List Sample)
      → Keeps mc bs ts
      → Keeps (record_samples mc samples) (bs ++ blocks_of samples) (ts ++ transactions_of samples)
  unfolding record_samples
  record_samples-Keeps mc bs ts [] h =
      subst (Keeps mc (bs ++ [])) (sym (append-nil ts))
        (subst (λ l. Keeps mc l ts) (sym (append-nil bs)) h)
  record_samples-Keeps mc bs ts (block_at t ∷ rest) h =
      subst (λ l. Keeps (record_samples mc (block_at t ∷ rest)) l (ts ++ transactions_of rest))
        (append_assoc bs (t ∷ []) (blocks_of rest))
        (record_samples-Keeps (record_block_production fl mc t) (bs ++ t ∷ []) ts rest
          (Keeps-block mc bs ts t h))
  record_samples-Keeps mc bs ts (transaction_at t ∷ rest) h =
      subst (λ l. Keeps (record_samples mc (transaction_at t ∷ rest)) (bs ++ blocks_of rest) l)
        (append_assoc ts (t ∷ []) (transactions_of rest))
        (record_samples-Keeps (record_transaction fl mc t) bs (ts ++ t ∷ []) rest
          (Keeps-transaction mc bs ts t h))

  -- However blocks and transactions come in turn, a new collector keeps the times of the last
  -- hundred blocks and of the last thousand transactions, and counts both modulo 2^64.
  pub record_samples_lem :
      (start : ℕ) (samples : List Sample)
      → Keeps
          (record_samples (new_metrics_collector fl start) samples)
          (blocks_of samples)
          (transactions_of samples)
  unfolding new_metrics_collector
  record_samples_lem start samples =
      record_samples-Keeps (new_metrics_collector fl start) [] [] samples (refl, refl, refl, refl)
