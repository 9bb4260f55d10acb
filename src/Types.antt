-- ===== src/Types.antt =====
-- types.go: the data that the parts of the node exchange.
-- `Hash` ([32]byte) and `Address` ([20]byte) are the numbers that their bytes spell, the first
-- byte first: Go compares such arrays for equality, and `bytes.Compare` is the order of the
-- numbers. The zero value is 0. Signatures and public keys are opaque numbers.
use dyphira_chain.Common.{ℕ, ◌^◌, ◌<◌, List, add64, Bool}

abbrev pub Hash : Type 0
Hash = ℕ

abbrev pub Address : Type 0
Address = ℕ

-- What 20 bytes can spell.
unfoldable pub IsAddress : Address → Type 0
IsAddress a = a < 256 ^ 20

-- The strings that `Transaction.Type` is compared with; `unknown` is any other string.
pub data TxType : Type 0 where
  transfer participation register_validator delegate unknown : TxType

pub record Transaction : Type 0 where
  pub from : Address
  pub to : Address
  pub value : ℕ
  pub nonce : ℕ
  pub fee : ℕ
  pub timestamp : ℕ
  pub type : TxType
  pub signature : ℕ
  pub hash : Hash
  pub used : Bool

pub record Account : Type 0 where
  pub address : Address
  pub balance : ℕ
  pub nonce : ℕ

pub record Validator : Type 0 where
  pub address : Address
  pub stake : ℕ
  pub delegated_stake : ℕ
  pub compute_reputation : ℕ
  pub participating : Bool

-- `v.Stake + v.DelegatedStake + v.ComputeReputation`, the weight in elections and votes.
unfoldable pub weight : Validator → ℕ
weight v = add64 (add64 v.stake v.delegated_stake) v.compute_reputation

pub record Header : Type 0 where
  pub block_number : ℕ
  pub previous_hash : Hash
  pub timestamp : ℕ
  pub proposer : Address
  pub gas : ℕ
  pub transaction_root : Hash
  pub hash : Hash

pub record Block : Type 0 where
  pub header : Header
  pub transactions : List Transaction
  pub validator_list : List Validator
  pub signature : ℕ
  pub size : ℕ

pub record Approval : Type 0 where
  pub block_hash : Hash
  pub address : Address
  pub signature : ℕ
