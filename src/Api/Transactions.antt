-- ===== src/Api/Transactions.antt =====
-- api.go: `handleCreateTransaction`, which signs a transaction from the node's own account. The
-- body of the request arrives parsed; a number of it is a float64, of which the handler asks whether
-- it is above 0 and what `uint64` makes of it.
pub mod Created
pub mod Twice
pub mod Transfers
use dyphira_chain.Common.{
  ℕ, ◌+◌, Bool, true, false, not, List, [], ◌∷◌, ◌++◌, Option, none, some, ltb, ◌==◌, if◌then◌else◌,
  add64, sub64,
}
use dyphira_chain.Types.{
  Address, Hash, Account, Transaction, TxType, transfer, register_validator, delegate, unknown,
}
use dyphira_chain.State.{State, get_account}
use dyphira_chain.Pool.{TransactionPool, Refusal, Admission, added, refusal, add_transaction}

pub record Number : Type 0 where
  pub is_positive : Bool
  pub as_uint64 : ℕ

-- The `type` of a request.
pub data TypeName : Type 0 where
  absent transfer_name stake_name unstake_name delegate_name register_name other_name : TypeName

-- The `to` of a request is `none` where it is missing, and `some none` where it does not parse.
pub record Body : Type 0 where
  pub to : Option (Option Address)
  pub value : Number
  pub fee : Number
  pub type : TypeName

-- A request, with the body where the decoder accepts it.
pub record Request : Type 0 where
  pub is_post : Bool
  pub body : Option Body

pub data Failure : Type 0 where
  method_not_allowed invalid_body missing_to value_not_positive invalid_recipient self_transfer
        insufficient_balance invalid_type signing_failed :
      Failure
  not_added : Refusal → Failure

pub data Response : Type 0 where
  created : Transaction → (total_cost balance_before balance_after : ℕ) → Response
  failed : Failure → Response

-- The types that the handler accepts. The chain knows no type "stake" or "unstake".
abbrev pub accepted_type : TypeName → Option TxType
accepted_type absent = some transfer
accepted_type transfer_name = some transfer
accepted_type stake_name = some unknown
accepted_type unstake_name = some unknown
accepted_type delegate_name = some delegate
accepted_type register_name = some register_validator
accepted_type other_name = none

-- A fee that is not above 0 is 1.
abbrev pub fee_of : Number → ℕ
fee_of n = if n.is_positive then n.as_uint64 else 1

-- The libraries behind a node's key: the hash of a transaction's JSON form, the key's signature of
-- a hash, and the test of one.
pub record Keys : Type 0 where
  pub hash_of : Transaction → Option Hash
  pub signature_of : Hash → ℕ
  pub verifies : Hash → ℕ → Bool

-- What goes out on the topic of transactions: `NetworkTransaction`, of which the address of the key
-- is kept, or a transaction alone.
pub data TransactionMessage : Type 0 where
  wrapped : Transaction → (key_address : Address) → TransactionMessage
  bare : Transaction → TransactionMessage

-- `Encode`, which leaves the hash out.
abbrev pub encode : Transaction → Transaction
encode tx = record tx { hash = 0 }

-- `Sign`
unfoldable pub sign : Keys → Transaction → Option Transaction
sign keys tx = elim (keys.hash_of (encode tx)) [
  | none ↦ none
  | some hash ↦ some (record tx { hash = hash; signature = keys.signature_of hash })
]

-- `Verify`
abbrev pub verify : Keys → Transaction → Bool
verify keys tx = keys.verifies tx.hash tx.signature

-- What the handler uses of its node: the account's key is the node's, so its address is the
-- node's. `sent` are the broadcasts, `recorded` counts the calls of `RecordTransaction`.
pub record Wallet : Type 0 where
  pub address : Address
  pub state : State
  pub pool : TransactionPool
  pub sent : List TransactionMessage
  pub recorded : ℕ

-- The transaction before it is signed.
abbrev pub unsigned : Wallet → Address → Body → TxType → (now : ℕ) → Transaction
unsigned w to body type now = record {
  from = w.address;
  to = to;
  value = body.value.as_uint64;
  nonce = add64 (get_account w.state w.address).nonce 1;
  fee = fee_of body.fee;
  timestamp = now;
  type = type;
  signature = 0;
  hash = 0;
  used = false;
}

-- `published` says whether a broadcast goes out.
module _ (keys : Keys) (published : TransactionMessage → Bool) where
  -- From the call of `AddTransaction` on.
  unfoldable pub submit : Wallet → Transaction → Wallet × Response
  submit w tx =
      let total = add64 tx.value tx.fee in
      let balance = (get_account w.state w.address).balance in
      elim (add_transaction w.pool tx (verify keys tx) w.address w.state) [
        | refusal r ↦ (w, failed (not_added r))
        | added pool ↦ (
          record w {
            pool = pool;
            sent = if published (bare (encode tx)) then w.sent ++ bare (encode tx) ∷ [] else w.sent;
            recorded = w.recorded + 1;
          },
          created tx total balance (sub64 balance total),
        )
      ]

  -- From the test of the recipient against the node's own address on.
  unfoldable pub create : Wallet → Address → Body → (now : ℕ) → Wallet × Response
  unfolding submit sign
  create w to body now =
      if to == w.address
      then (w, failed self_transfer)
      else (if ltb (get_account w.state w.address).balance
            (add64 body.value.as_uint64 (fee_of body.fee))
          then (w, failed insufficient_balance)
          else (elim (accepted_type body.type) [
            | none ↦ (w, failed invalid_type)
            | some type ↦ elim (sign keys (unsigned w to body type now)) [
              | none ↦ (w, failed signing_failed)
              | some tx ↦ submit w tx
            ]
          ]))

  unfoldable pub handle_create_transaction : Wallet → Request → (now : ℕ) → Wallet × Response
  unfolding create
  handle_create_transaction w request now =
      if not request.is_post then (w, failed method_not_allowed) else (elim request.body [
        | none ↦ (w, failed invalid_body)
        | some body ↦ elim body.to [
          | none ↦ (w, failed missing_to)
          | some parsed ↦
              if not body.value.is_positive then (w, failed value_not_positive) else (elim parsed [
                | none ↦ (w, failed invalid_recipient)
                | some to ↦ create w to body now
              ])
        ]
      ])
