-- ===== src/Api/History/Answers.antt =====
-- What `handleTransactionHistory` answers, and when it does not answer.
use dyphira_chain.Common.{
  ℕ, suc, ◌+◌, ◌-◌, ◌^◌, ◌≤◌, ◌<◌, ◌≡◌, ◌⊎◌, inl, inr, refl, sym, ap, ◌∙◌, List, [], Option, none,
  some, length, take, ltb, Bool-cases, arith, word_mod,
}
use Prim.Native.Nat.{min}
use dyphira_chain.Types.{Address}
use dyphira_chain.Storage.{Storage}
use dyphira_chain.Blockchain.{Blockchain}
use dyphira_chain.Api.History.{
  Entry, Query, history, bad_request, limit_of, offset_of, first_height, answer_with, scan_heights,
  search, handle_transaction_history,
}
use dyphira_chain.Api.History.Pages.{drop, page_of, page_of_new}
use dyphira_chain.Api.History.Scans.{entries_down, run_above, run_enough, run_on}

-- The address parameter of a query, if there is one.
abbrev pub asked : Option Address → Option (Option Address)
asked none = none
asked (some a) = some (some a)

limit_positive : (o : Option ℕ) → 0 < limit_of o
limit_positive none = omega arith
limit_positive (some l) = ground arith

limit_bound : (o : Option ℕ) → limit_of o ≤ 1000
limit_bound none = omega arith
limit_bound (some l) = ground arith

module _ {S : Type 0} ⦃st : Storage S⦄ (bc : Blockchain S) (query : Query)
    (target : Option Address) where
  -- The transactions for the query in the last 101 blocks, newest block first.
  abbrev pub recent : List Entry
  recent = entries_down bc target (min (bc.current_height + 1) 101) bc.current_height

  -- Those of them that the query asks for.
  abbrev pub asked_page : List Entry
  asked_page = take (limit_of query.limit) (drop (offset_of query.offset) recent)

  search-asked :
      (fuel : ℕ) (target : Option Address)
      → (elim (asked target) [
        | none ↦ search fuel bc (limit_of query.limit) (offset_of query.offset) none
        | some none ↦ some bad_request
        | some (some a) ↦ search fuel bc (limit_of query.limit) (offset_of query.offset) (some a)
      ])
        ≡ search fuel bc (limit_of query.limit) (offset_of query.offset) target
  search-asked fuel none = refl
  search-asked fuel (some a) = refl

  handle_eq :
      (fuel : ℕ)
      → query.address ≡ asked target
      → handle_transaction_history fuel bc query
        ≡ search fuel bc (limit_of query.limit) (offset_of query.offset) target
  unfolding handle_transaction_history
  handle_eq fuel e = rw (e, handle_transaction_history) (search-asked fuel target)

  search_page :
      (fuel : ℕ)
      → bc.current_height < word_mod
      → offset_of query.offset < 2 ^ 62
      → (100 < bc.current_height) ⊎ (limit_of query.limit + offset_of query.offset ≤ length recent)
      → 102 ≤ fuel
      → scan_heights fuel bc
          (limit_of query.limit)
          target
          (first_height bc.current_height)
          bc.current_height
          (page_of (limit_of query.limit) (offset_of query.offset) [])
        ≡ some (page_of (limit_of query.limit) (offset_of query.offset) recent)
  search_page fuel small near found enough =
      let top = bc.current_height in
      let limit = limit_of query.limit in
      let offset = offset_of query.offset in
      let some_limit = limit_positive query.limit in
      let fits : limit + offset < 2 ^ 63 = omega (arith, limit_bound query.limit) in
      elim (Bool-cases (ltb 100 bc.current_height)) [
        | inl tall ↦
            let high : 100 < top = ground arith in
            let low : first_height top ≡ top - 100 = ground arith in
            let all : 101 ≡ min (top + 1) 101 = ground arith in
            ap (λ start. scan_heights fuel bc limit target start top (page_of limit offset [])) low
            ∙ run_above bc target limit offset some_limit fits 101 fuel (top - 100) top []
                (omega arith) (omega arith) small (omega arith)
            ∙ ap (λ count. some (page_of limit offset (entries_down bc target count top))) all
        | inr short ↦
            let under : top ≤ 100 = ground arith in
            let low : first_height top ≡ 0 = ground arith in
            let all : suc top ≡ min (top + 1) 101 = ground arith in
            ap (λ start. scan_heights fuel bc limit target start top (page_of limit offset [])) low
            ∙ run_enough bc target limit offset some_limit fits top fuel []
                (omega (arith, found, ap (λ count. length (entries_down bc target count top)) all))
                small (omega arith)
            ∙ ap (λ count. some (page_of limit offset (entries_down bc target count top))) all
      ]

  -- On a chain above height 100, or with enough transactions for the page, the handler answers
  -- after 102 tests of its loop at most: of the transactions in the last 101 blocks that the query's
  -- address sent or got (of all, without an address), newest block first, it gives those after the
  -- offset, up to the limit.
  pub history_lem :
      (fuel : ℕ)
      → bc.current_height < word_mod
      → offset_of query.offset < 2 ^ 62
      → query.address ≡ asked target
      → (100 < bc.current_height) ⊎ (limit_of query.limit + offset_of query.offset ≤ length recent)
      → 102 ≤ fuel
      → handle_transaction_history fuel bc query
        ≡ some (history asked_page (length asked_page) (limit_of query.limit))
  unfolding search
  history_lem fuel small near e found enough =
      handle_eq fuel e
      ∙ ap (answer_with (limit_of query.limit)) (
          ap
            (λ p.
              scan_heights fuel bc (limit_of query.limit) target (first_height bc.current_height)
                bc.current_height p)
            (sym (page_of_new (limit_of query.limit) (offset_of query.offset)))
          ∙ search_page fuel small near found enough)

  -- On a chain up to height 100 with too few transactions for the page, the loop's height passes
  -- 0 and wraps around, and the handler makes 2^64 tests without an answer.
  pub history_runs_on :
      (fuel : ℕ)
      → bc.current_height ≤ 100
      → offset_of query.offset < 2 ^ 62
      → query.address ≡ asked target
      → length recent < limit_of query.limit + offset_of query.offset
      → fuel ≤ 2 ^ 64
      → handle_transaction_history fuel bc query ≡ none
  unfolding search
  history_runs_on fuel short near e few tests =
      let top = bc.current_height in
      let limit = limit_of query.limit in
      let offset = offset_of query.offset in
      let all : suc top ≡ min (top + 1) 101 = omega arith in
      let fits : limit + offset < 2 ^ 63 = omega (arith, limit_bound query.limit) in
      let low : first_height top ≡ 0 = ground arith in
      handle_eq fuel e
      ∙ ap (answer_with limit) (
          ap (λ p. scan_heights fuel bc limit target (first_height top) top p)
            (sym (page_of_new limit offset))
          ∙ ap (λ start. scan_heights fuel bc limit target start top (page_of limit offset [])) low
          ∙ run_on bc target limit offset (limit_positive query.limit) fits top fuel []
              (omega (arith, few, ap (λ count. length (entries_down bc target count top)) all))
              (omega arith) (omega arith) (omega arith))
