-- ===== src/Api/History.antt =====
-- api.go: `handleTransactionHistory`, a page of the transactions in recent blocks, newest block
-- first. An address in the query is `none` where it does not parse.
pub mod Pages
pub mod Scans
pub mod Answers
use dyphira_chain.Common.{
  ℕ, zero, suc, ◌+◌, ◌-◌, ◌^◌, Bool, true, false, not, ◌&&◌, ◌||◌, List, [], ◌∷◌, ◌++◌, Option,
  none, some, length, ltb, leb, ◌==◌, if◌then◌else◌, sub64,
}
use dyphira_chain.Types.{Address, Transaction}
use dyphira_chain.Storage.{Storage}
use dyphira_chain.Blockchain.{Blockchain, get_block_by_height}

-- A transaction of the answer, with the height of its block.
pub record Entry : Type 0 where
  pub transaction : Transaction
  pub block : ℕ

-- `transactions` and `offset` while the handler runs.
pub record Page : Type 0 where
  pub transactions : List Entry
  pub offset : ℕ

pub record Query : Type 0 where
  pub address : Option (Option Address)
  pub limit : Option ℕ
  pub offset : Option ℕ

pub data Response : Type 0 where
  history : (transactions : List Entry) (total limit : ℕ) → Response
  bad_request : Response

-- The limit is 50, or what the query asks for if that is from 1 to 1000.
abbrev pub limit_of : Option ℕ → ℕ
limit_of none = 50
limit_of (some l) = if ltb 0 l && leb l 1000 then l else 50

abbrev pub offset_of : Option ℕ → ℕ
offset_of none = 0
offset_of (some o) = o

-- The lowest height that is searched.
abbrev pub first_height : ℕ → ℕ
first_height height = if ltb 100 height then height - 100 else 0

-- The filter by the address of the query.
abbrev pub concerns : Option Address → Transaction → Bool
concerns none tx = true
concerns (some a) tx = tx.from == a || tx.to == a

-- The loop over the transactions of one block, which ends when the page has `limit` of them.
unfoldable pub scan_block : (limit : ℕ) → Option Address → ℕ → List Transaction → Page → Page
scan_block limit target h [] page = page
scan_block limit target h (tx ∷ txs) page =
    let passed = scan_block limit target h txs page in
    let skipped = scan_block limit target h txs (record page { offset = page.offset - 1 }) in
    let added = scan_block limit target h txs (record page {
      transactions = page.transactions ++ record { transaction = tx; block = h } ∷ [];
    }) in
    if not (concerns target tx)
    then passed
    else (if ltb 0 page.offset
        then skipped
        else (if leb limit (length page.transactions) then page else added))

-- `len(transactions) < limit+offset`, where the sum is an int of 64 bits: one past 2^63 is negative.
abbrev pub has_room : (limit : ℕ) → Page → Bool
has_room limit page =
    ltb (length page.transactions) (limit + page.offset) && ltb (limit + page.offset) (2 ^ 63)

-- The answer, once the loop has ended.
abbrev pub answer_with : (limit : ℕ) → Option Page → Option Response
answer_with limit none = none
answer_with limit (some page) = some (history page.transactions (length page.transactions) limit)

module _ {S : Type 0} ⦃st : Storage S⦄ where
  -- What the loop does at one height; a missing block is skipped.
  unfoldable pub scan_height : Blockchain S → (limit : ℕ) → Option Address → ℕ → Page → Page
  unfolding scan_block
  scan_height bc limit target h page = elim (get_block_by_height bc h) [
    | none ↦ page
    | some b ↦ scan_block limit target h b.transactions page
  ]

  -- The loop over the heights, downwards in uint64; `none` is out of fuel.
  unfoldable pub scan_heights :
      (fuel : ℕ) → Blockchain S → (limit : ℕ) → Option Address → (start h : ℕ) → Page → Option Page
  scan_heights zero bc limit target start h page = none
  scan_heights (suc fuel) bc limit target start h page =
      let rest =
        scan_heights fuel bc limit target start (sub64 h 1) (scan_height bc limit target h page) in
      if leb start h && has_room limit page then rest else some page

  unfoldable pub search :
      (fuel : ℕ) → Blockchain S → (limit offset : ℕ) → Option Address → Option Response
  search fuel bc limit offset target = answer_with limit (
      scan_heights fuel bc limit target (first_height bc.current_height) bc.current_height
        (record { transactions = []; offset = offset }))

  unfoldable pub handle_transaction_history : (fuel : ℕ) → Blockchain S → Query → Option Response
  unfolding search
  handle_transaction_history fuel bc query = elim query.address [
    | none ↦ search fuel bc (limit_of query.limit) (offset_of query.offset) none
    | some none ↦ some bad_request
    | some (some a) ↦ search fuel bc (limit_of query.limit) (offset_of query.offset) (some a)
  ]
