-- ===== src/Consensus/Startup.antt =====
-- node.go: `NewAppNode` and `NewAppNodeWithStores`, once their stores and their P2P layer are open,
-- and the balances that `Start` gives to the validators it knows. The address of the node is
-- derived from its key by a library.
use dyphira_chain.Common.{
  ℕ, ◌≡◌, ◌⊎◌, inl, inr, refl, sym, ap, ◌∙◌, subst, List, [], ◌∷◌, none, some, contains, All,
  Bool-cases, ◌==◌, ==_iff, if◌then◌else◌, arith,
}
use dyphira_chain.Types.{Address, IsAddress, Block, Validator, Account}
use dyphira_chain.Trie.{Digest}
use dyphira_chain.State.{State, new_state, get_account, put_account, empty_account}
use dyphira_chain.State.Accounts.{get-put}
use dyphira_chain.State.Apply.{IsValid}
use dyphira_chain.State.Snapshots.{get-new_state, put_account-IsValid, IsAccount}
use dyphira_chain.Committee.Election.{addresses}
use dyphira_chain.Storage.{
  Storage, block_key, tip_key, height_key, validator_key, hash_bytes, number_json, same_key,
}
use dyphira_chain.Registry.{found, missing, register_validator, clear_all_validators, get_validator}
use dyphira_chain.Registry.Lookups.{get-register}
use dyphira_chain.Registry.Clearing.{clear_all_validators_lem}
use dyphira_chain.Blockchain.{
  Encoding, Blockchain, create_genesis_block, new_blockchain, load_chain, start_chain, add_block,
}
use dyphira_chain.Blockchain.Heights.{stored, stored-add_block}
use dyphira_chain.Blockchain.Restart.{new_blockchain-add_block, genesis_number}
use dyphira_chain.Pool.{new_transaction_pool}
use dyphira_chain.Consensus.{Node}
use dyphira_chain.Consensus.Messages.{announced, fund_validator}
use dyphira_chain.Consensus.Quorums.{WasApproved}
use dyphira_chain.Consensus.Steps.{Reaches, IsFresh, facts}
use dyphira_chain.Consensus.History.{Reaches-stored}

-- The account that a new node gives itself.
abbrev pub initial_account : Address → Account
initial_account address = record { address = address; balance = 1000; nonce = 0 }

-- The loop of `Start` over the registry.
unfoldable pub fund_all : ⦃d : Digest Account⦄ → State → List Validator → State
fund_all state [] = state
fund_all state (v ∷ vs) = fund_all (fund_validator state v.address) vs

module _ {S : Type 0} ⦃st : Storage S⦄ ⦃d : Digest Account⦄ ⦃enc : Encoding⦄ where
  unfoldable pub new_app_node : (chain_store validator_store : S) → Address → Node S
  new_app_node chain_store validator_store address = record {
    address = address;
    chain = new_blockchain chain_store;
    state = put_account new_state (initial_account address);
    registry =
        register_validator (clear_all_validators validator_store) (some (announced address 100));
    pool = new_transaction_pool;
    committee = [];
    proposer_selector = none;
    pending_blocks = [];
    approval_buffer = [];
    ready = [];
    outbox = [];
  }

  new_app_node-IsFresh :
      (chain_store validator_store : S) (address : Address)
      → IsFresh (new_app_node chain_store validator_store address)
  unfolding new_app_node
  new_app_node-IsFresh chain_store validator_store address = record {
    no_pending = refl;
    no_waiting = refl;
    no_ready = refl;
  }

  -- A fresh store holds nothing of a chain.
  pub record IsBlank (s : S) : Type 0 where
    pub no_tip : st.get s tip_key ≡ none
    pub no_block : (h : ℕ) → st.get s (block_key h) ≡ none

  -- Before the genesis block is added.
  bare-stored :
      (s : S) (h : ℕ)
      → IsBlank s
      → stored
          (record {
            store =
                st.put
                  (st.put s tip_key (hash_bytes create_genesis_block.header.hash))
                  height_key
                  (number_json 0);
            current_height = 0;
            tip = create_genesis_block.header.hash;
            genesis_block = create_genesis_block;
          })
          h
        ≡ none
  unfolding stored same_key
  bare-stored s h blank = ground (
    arith,
    st.get-put (st.put s tip_key (hash_bytes create_genesis_block.header.hash)) height_key
        (block_key h) (number_json 0),
    st.get-put s tip_key (block_key h) (hash_bytes create_genesis_block.header.hash),
    blank.no_block h,
  )

  cleared-missing : (s : S) (a : Address) → get_validator (clear_all_validators s) a ≡ missing
  unfolding get_validator
  cleared-missing s a = rw (clear_all_validators_lem s (validator_key a), get_validator) refl

  start-stored :
      (s : S) (h : ℕ)
      → IsBlank s
      → stored (new_blockchain s) h ≡ (if h == 0 then some create_genesis_block else none)
  unfolding new_blockchain load_chain start_chain
  start-stored s h blank =
      let zero_number : create_genesis_block.header.block_number ≡ 0 = genesis_number in
      let with_tip = st.put s tip_key (hash_bytes create_genesis_block.header.hash) in
      let with_height = st.put with_tip height_key (number_json 0) in
      let bc : Blockchain S = record {
        store = with_height;
        current_height = 0;
        tip = create_genesis_block.header.hash;
        genesis_block = create_genesis_block;
      } in
      rw (blank.no_tip, new_blockchain)
        (stored-add_block bc create_genesis_block h
          ∙ (ground (arith, zero_number, bare-stored s h blank)))

  -- The first start of a node, and any history of it: a block that its chain's store holds is the
  -- genesis block, or is the node's own, or has its quorum in this history: for a committee that
  -- the node had in it, more than two thirds of the seats have signed the block's hash, each by a
  -- different member, who sent the node an approval of this hash or is the node that received a
  -- block of it.
  pub new_app_node_history :
      (chain_store validator_store : S) (address : Address) (n : Node S) (h : ℕ) (b : Block)
      → IsBlank chain_store
      → (r : Reaches (new_app_node chain_store validator_store address) n)
      → stored n.chain h ≡ some b
      → ((h ≡ 0) × (b ≡ create_genesis_block))
        ⊎ WasApproved (facts r) b
        ⊎ (b.header.proposer ≡ address)
  unfolding new_app_node
  new_app_node_history chain_store validator_store address n h b blank r e =
      elim (Reaches-stored r (new_app_node-IsFresh chain_store validator_store address) h b e) [
        | inl old ↦ inl (ground (arith, old, start-stored chain_store h blank))
        | inr (inl quorum) ↦ inr (inl quorum)
        | inr (inr own) ↦ inr (inr own)
      ]

  -- A node that is started again on its stores has its chain back, and forgets all else: of the
  -- registry it keeps itself alone, with a stake of 100, and of the accounts its own alone, with
  -- 1000, whatever the chain says.
  pub new_app_node_again :
      (bc : Blockchain S) (b : Block) (validator_store : S) (address a : Address)
      → bc.genesis_block ≡ create_genesis_block
      → IsAddress address
      → IsAddress a
      → let n = new_app_node (add_block bc b).store validator_store address in
        (n.chain ≡ add_block bc b)
        × (get_validator n.registry a
            ≡ (if address == a then found (announced address 100) else missing))
        × (get_account n.state a
            ≡ (if address == a then initial_account address else empty_account a))
  unfolding new_app_node get_validator
  new_app_node_again bc b validator_store address a same own other = (
    new_blockchain-add_block bc b same,
    get-register (clear_all_validators validator_store) (announced address 100) a
        ∙ ap (λ other. if address == a then found (announced address 100) else other)
            (cleared-missing validator_store a),
    get-put new_state (initial_account address) a own other
        ∙ ap (λ acc. if address == a then initial_account address else acc) (get-new_state a),
  )

-- The account of a validator after the funding: 1000 where it had nothing.
abbrev pub funded : Account → Account
funded acc = if acc.balance == 0 then record acc { balance = 1000 } else acc

module _ ⦃d : Digest Account⦄ where
  fund_validator-account :
      (s : State) (v a : Address)
      → IsValid s
      → IsAddress v
      → IsAddress a
      → get_account (fund_validator s v) a
        ≡ (if v == a then funded (get_account s a) else get_account s a)
  unfolding fund_validator
  fund_validator-account s v a valid hv ha =
      let acc : Account = record (get_account s v) { balance = 1000 } in
      let written = get-put s acc a (subst IsAddress (sym (valid.keyed v hv)) hv) ha in
      elim (Bool-cases (v == a)) [
        | inl same ↦
            let at : get_account s v ≡ get_account s a = ap (get_account s) ((==_iff v a).0 same) in
            ground (arith, valid.keyed v hv, written, same, at)
        | inr other ↦ ground (arith, valid.keyed v hv, written, other)
      ]

  fund_validator-IsValid :
      (s : State) (v : Address) → IsValid s → IsAddress v → IsValid (fund_validator s v)
  unfolding fund_validator
  fund_validator-IsValid s v valid hv =
      let acc : Account = record (get_account s v) { balance = 1000 } in
      let fits : IsAccount acc = record {
        address_ok = subst IsAddress (sym (valid.keyed v hv)) hv;
        balance_ok = omega arith;
      } in
      elim (Bool-cases ((get_account s v).balance == 0)) [
        | inl e ↦ rw (e, fund_validator) (put_account-IsValid s acc valid fits)
        | inr e ↦ rw (e, fund_validator) valid
      ]

  -- The funding at the start gives 1000 to each listed validator whose account is empty, once, and
  -- leaves every other account as it is.
  pub fund_all_lem :
      (s : State) (vs : List Validator) (a : Address)
      → IsValid s
      → All IsAddress (addresses vs)
      → IsAddress a
      → get_account (fund_all s vs) a
        ≡ (if contains a (addresses vs) then funded (get_account s a) else get_account s a)
  unfolding fund_all
  fund_all_lem s [] a valid hs ha = refl
  fund_all_lem s (v ∷ vs) a valid hs ha = ground (
    arith,
    fund_all_lem (fund_validator s v.address) vs a (fund_validator-IsValid s v.address valid hs.0)
        hs.1 ha,
    fund_validator-account s v.address a valid hs.0 ha,
  )
