-- ===== src/Api/History/Scans.antt =====
-- The loop over the heights: where it ends it gives a page of the entries from the top down, and
-- where it does not find enough of them on a short chain it runs on.
use dyphira_chain.Common.{
  ℕ, zero, suc, ◌+◌, ◌-◌, ◌^◌, ◌≤◌, ◌<◌, ◌≡◌, inl, inr, refl, sym, ap, ◌∙◌, ◌&&◌, List, [], ◌∷◌,
  ◌++◌, map, keep, Option, none, some, length, ltb, leb, length-append, if◌then◌else◌, arith, sub64,
  sub64_exact, word_mod, Option-cases, Bool-cases,
}
use mathlib.Core.List.{append-nil, append_assoc}
use dyphira_chain.Types.{Address, Transaction, Block}
use dyphira_chain.Storage.{Storage}
use dyphira_chain.Blockchain.{Blockchain, get_block_by_height}
use dyphira_chain.Blockchain.Heights.{get_block-stored}
use dyphira_chain.Api.History.{
  Entry, Page, concerns, scan_block, scan_height, scan_heights, has_room,
}
use dyphira_chain.Api.History.Pages.{page_of, page_of-append, page_of_full, length-page_of}

-- The entries of one block.
abbrev pub entries : Option Address → ℕ → List Transaction → List Entry
entries target h txs =
    map (λ tx. record { transaction = tx; block = h }) (keep (concerns target) txs)

scan_block_lem :
    (limit offset : ℕ) (target : Option Address) (h : ℕ) (txs : List Transaction) (l : List Entry)
    → scan_block limit target h txs (page_of limit offset l)
      ≡ page_of limit offset (l ++ entries target h txs)
unfolding scan_block
scan_block_lem limit offset target h [] l = ap (page_of limit offset) (sym (append-nil l))
scan_block_lem limit offset target h (tx ∷ txs) l =
    let e : Entry = record { transaction = tx; block = h } in
    let one_more = page_of-append limit offset l e in
    let regroup : page_of limit offset ((l ++ e ∷ []) ++ entries target h txs)
        ≡ page_of limit offset (l ++ e ∷ entries target h txs) =
      ap (page_of limit offset) (append_assoc l (e ∷ []) (entries target h txs)) in
    let later = scan_block_lem limit offset target h txs (l ++ e ∷ []) ∙ regroup in
    elim (Bool-cases (concerns target tx)) [
      | inl hit ↦ elim (Bool-cases (ltb 0 (offset - length l))) [
        | inl skip ↦
            rw hit
              (rw skip (ap (scan_block limit target h txs) (sym (rw skip at one_more)) ∙ later))
        | inr start ↦ elim (Bool-cases (leb limit (length (page_of limit offset l).transactions))) [
          | inl full ↦ rw hit (
              rw start (
                rw full (
                  sym (
                    page_of_full limit offset l (e ∷ entries target h txs)
                      (ground (arith, start, full, length-page_of limit offset l))))))
          | inr add ↦ rw hit (
              rw start (
                rw add (
                  ap (scan_block limit target h txs) (sym (rw add at (rw start at one_more)))
                  ∙ later)))
        ]
      ]
      | inr other ↦ rw other (scan_block_lem limit offset target h txs l)
    ]

has_room_lem :
    (limit offset : ℕ) (l : List Entry)
    → 0 < limit
    → limit + offset < 2 ^ 63
    → has_room limit (page_of limit offset l) ≡ ltb (length l) (limit + offset)
has_room_lem limit offset l some_limit fits = ground (arith, length-page_of limit offset l)

module _ {S : Type 0} ⦃st : Storage S⦄ (bc : Blockchain S) (target : Option Address) where
  abbrev pub entries_of : Option Block → ℕ → List Entry
  entries_of none h = []
  entries_of (some b) h = entries target h b.transactions

  -- The entries at a height, in the order of their block.
  abbrev pub entries_at : ℕ → List Entry
  entries_at h = entries_of (get_block_by_height bc h) h

  -- The entries at `count` heights from `h` downwards.
  abbrev pub entries_down : (count h : ℕ) → List Entry
  entries_down zero h = []
  entries_down (suc count) h = entries_at h ++ entries_down count (h - 1)

  scan_height_lem :
      (limit offset h : ℕ) (l : List Entry)
      → scan_height bc limit target h (page_of limit offset l)
        ≡ page_of limit offset (l ++ entries_at h)
  unfolding scan_height
  scan_height_lem limit offset h l = elim (Option-cases (get_block_by_height bc h)) [
    | inl e ↦ rw (e, scan_height) (ap (page_of limit offset) (sym (append-nil l)))
    | inr (b, e) ↦ rw (e, scan_height) (scan_block_lem limit offset target h b.transactions l)
  ]

  down_zero : (l : List Entry) → l ++ entries_down 1 0 ≡ l ++ entries_at 0
  down_zero l = ap (λ m. l ++ m) (append-nil (entries_at 0))

  down_suc :
      (l : List Entry) (h : ℕ)
      → l ++ entries_down (suc (suc h)) (suc h)
        ≡ (l ++ entries_at (suc h)) ++ entries_down (suc h) h
  down_suc l h =
      let below : suc h - 1 ≡ h = omega arith in
      ap (λ k. l ++ (entries_at (suc h) ++ entries_down (suc h) k)) below
      ∙ sym (append_assoc l (entries_at (suc h)) (entries_down (suc h) h))

  module _ (limit offset : ℕ) (some_limit : 0 < limit) (fits : limit + offset < 2 ^ 63) where
    abbrev run : (fuel start h : ℕ) → List Entry → Option Page
    run fuel start h l = scan_heights fuel bc limit target start h (page_of limit offset l)

    -- One test of the loop.
    run_once :
        (fuel start h : ℕ) (l : List Entry)
        → run (suc fuel) start h l ≡ (
            if leb start h && ltb (length l) (limit + offset)
            then run fuel start (sub64 h 1) (l ++ entries_at h)
            else some (page_of limit offset l))
    unfolding scan_heights
    run_once fuel start h l =
        rw (has_room_lem limit offset l some_limit fits, scan_heights)
          (ap
            (λ p.
              if leb start h && ltb (length l) (limit + offset)
              then scan_heights fuel bc limit target start (sub64 h 1) p
              else some (page_of limit offset l))
            (scan_height_lem limit offset h l))

    -- One turn of the loop.
    run_step :
        (fuel start h next : ℕ) (l : List Entry)
        → sub64 h 1 ≡ next
        → start ≤ h
        → length l < limit + offset
        → run (suc fuel) start h l ≡ run fuel start next (l ++ entries_at h)
    run_step fuel start h next l e above more =
        run_once fuel start h l
        ∙ (ground (arith, above, more))
        ∙ ap (λ k. run fuel start k (l ++ entries_at h)) e

    -- A full page ends the loop.
    run_full :
        (fuel start h : ℕ) (l m : List Entry)
        → limit + offset ≤ length l
        → run (suc fuel) start h l ≡ some (page_of limit offset (l ++ m))
    run_full fuel start h l m full =
        run_once fuel start h l ∙ (ground (arith, full, page_of_full limit offset l m full))

    -- Above a start that is not 0 the loop ends.
    pub run_above :
        (count fuel start h : ℕ) (l : List Entry)
        → 0 < start
        → h + 1 ≡ start + count
        → h < word_mod
        → count < fuel
        → run fuel start h l ≡ some (page_of limit offset (l ++ entries_down count h))
    run_above count zero start h l pos e small enough = absurd (omega arith)
    run_above zero (suc fuel) start h l pos e small enough =
        run_once fuel start h l ∙ (ground (arith, append-nil l))
    run_above (suc count) (suc fuel) start h l pos e small enough =
        let lower : sub64 h 1 ≡ h - 1 = sub64_exact h 1 (omega arith) small in
        elim (Bool-cases (ltb (length l) (limit + offset))) [
          | inl more ↦
              run_step fuel start h (h - 1) l lower (omega arith) (ground arith)
              ∙ run_above count fuel start (h - 1) (l ++ entries_at h) pos (omega arith)
                  (omega arith) (omega arith)
              ∙ ap (λ m. some (page_of limit offset m))
                  (append_assoc l (entries_at h) (entries_down count (h - 1)))
          | inr full ↦ run_full fuel start h l (entries_down (suc count) h) (ground arith)
        ]

    wrap : sub64 0 1 ≡ word_mod - 1
    unfolding sub64
    wrap = refl

    -- From 0 the loop ends if there are enough entries; it may use one more test, past 0.
    pub run_enough :
        (h fuel : ℕ) (l : List Entry)
        → limit + offset ≤ length (l ++ entries_down (suc h) h)
        → h < word_mod
        → h + 1 < fuel
        → run fuel 0 h l ≡ some (page_of limit offset (l ++ entries_down (suc h) h))
    run_enough h zero l enough small fueled = absurd (omega arith)
    run_enough zero (suc zero) l enough small fueled = absurd (omega arith)
    run_enough zero (suc (suc fuel)) l enough small fueled =
        let filled : limit + offset ≤ length (l ++ entries_at 0) =
          omega (arith, enough, ap length (down_zero l)) in
        elim (Bool-cases (ltb (length l) (limit + offset))) [
          | inl more ↦
              run_step (suc fuel) 0 0 (word_mod - 1) l wrap (omega arith) (ground arith)
              ∙ run_full fuel 0 (word_mod - 1) (l ++ entries_at 0) [] filled
              ∙ ap (λ m. some (page_of limit offset m)) (append_assoc l (entries_at 0) [])
          | inr full ↦ run_full (suc fuel) 0 0 l (entries_down 1 0) (ground arith)
        ]
    run_enough (suc h) (suc fuel) l enough small fueled =
        let lower : sub64 (suc h) 1 ≡ h =
          sub64_exact (suc h) 1 (omega arith) small ∙ (omega arith) in
        elim (Bool-cases (ltb (length l) (limit + offset))) [
          | inl more ↦
              run_step fuel 0 (suc h) h l lower (omega arith) (ground arith)
              ∙ run_enough h fuel (l ++ entries_at (suc h))
                  (omega (arith, enough, ap length (down_suc l h))) (omega arith) (omega arith)
              ∙ ap (λ m. some (page_of limit offset m)) (sym (down_suc l h))
          | inr full ↦ run_full fuel 0 (suc h) l (entries_down (suc (suc h)) (suc h)) (ground arith)
        ]

    -- Above the chain there are no blocks.
    run_wrapped :
        (fuel h : ℕ) (l : List Entry)
        → fuel + bc.current_height ≤ h
        → h < word_mod
        → length l < limit + offset
        → run fuel 0 h l ≡ none
    unfolding scan_heights
    run_wrapped zero h l high small more = refl
    run_wrapped (suc fuel) h l high small more =
        let lower : sub64 h 1 ≡ h - 1 = sub64_exact h 1 (omega arith) small in
        let nothing : get_block_by_height bc h ≡ none = ground (arith, get_block-stored bc h) in
        run_step fuel 0 h (h - 1) l lower (omega arith) more
        ∙ ap (run fuel 0 (h - 1)) (ap (λ o. l ++ entries_of o h) nothing ∙ append-nil l)
        ∙ run_wrapped fuel (h - 1) l (omega arith) (omega arith) more

    -- From 0 the loop does not end within 2^64 tests if there are not enough entries.
    pub run_on :
        (h fuel : ℕ) (l : List Entry)
        → length (l ++ entries_down (suc h) h) < limit + offset
        → h ≤ bc.current_height
        → bc.current_height < word_mod
        → fuel + bc.current_height ≤ h + word_mod
        → run fuel 0 h l ≡ none
    unfolding scan_heights
    run_on h zero l few low small fueled = refl
    run_on zero (suc fuel) l few low small fueled =
        let few' : length (l ++ entries_at 0) < limit + offset =
          omega (arith, few, ap length (down_zero l)) in
        run_step fuel 0 0 (word_mod - 1) l wrap (omega arith)
          (omega (arith, few', length-append l (entries_at 0)))
        ∙ run_wrapped fuel (word_mod - 1) (l ++ entries_at 0) (omega arith) (omega arith) few'
    run_on (suc h) (suc fuel) l few low small fueled =
        let lower : sub64 (suc h) 1 ≡ h =
          sub64_exact (suc h) 1 (omega arith) (omega arith) ∙ (omega arith) in
        let few' : length ((l ++ entries_at (suc h)) ++ entries_down (suc h) h) < limit + offset =
          omega (arith, few, ap length (down_suc l h)) in
        run_step fuel 0 (suc h) h l lower (omega arith) (
          omega (
            arith,
            few',
            length-append (l ++ entries_at (suc h)) (entries_down (suc h) h),
            length-append l (entries_at (suc h)),
          ))
        ∙ run_on h fuel (l ++ entries_at (suc h)) few' (omega arith) small (omega arith)
