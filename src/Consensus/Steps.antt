-- ===== src/Consensus/Steps.antt =====
-- The steps of a node and its histories: who has signed what in a history, which committees the
-- node has had, and what every history keeps.
use dyphira_chain.Common.{
  ℕ, ◌≡◌, ◌⊎◌, inl, inr, refl, sym, subst, Bool, List, [], All, some, get_elem?,
}
use dyphira_chain.Common.Dict.{lookup}
use dyphira_chain.Consensus.Quorums.{Facts, Extends, WasApproved, AllApprove, AllSigned}
use dyphira_chain.Consensus.Messages.{
  handle_transaction, handle_block_response, handle_validator_registration,
}
use dyphira_chain.Types.{Address, Hash, Block, Transaction, Validator, Account, Approval}
use dyphira_chain.Trie.{Digest}
use dyphira_chain.Storage.{Storage}
use dyphira_chain.Blockchain.{Encoding}
use dyphira_chain.Consensus.{
  Node, process_received_block, process_approval, watch_tick, watch_timeout,
  finalize_approved_block, produce,
}
use dyphira_chain.Consensus.Safety.{
  IsSafe, IsSafe-extends, take_in-IsSafe, respond-IsSafe, register-IsSafe,
  process_received_block-IsSafe, process_approval-IsSafe, watch_tick-IsSafe, watch_timeout-IsSafe,
  finalize-IsSafe, produce-IsSafe,
}

module _ {S : Type 0} ⦃st : Storage S⦄ ⦃d : Digest Account⦄ ⦃enc : Encoding⦄ where
  -- One step of a node. Finalization runs for a block that waits for it.
  pub data Step (n : Node S) : Node S → Type 0 where
    receive : (block : Block) (own : ℕ) → Step n (process_received_block n block own)
    approve : (msg : Approval) → Step n (process_approval n msg)
    tick : (block : Block) → Step n (watch_tick n block)
    expire : (block : Block) → Step n (watch_timeout n block)
    finalize :
        (i : ℕ) (block : Block)
        → get_elem? n.ready i ≡ some block
        → Step n (finalize_approved_block n block)
    take_in :
        (tx : Transaction) (verified : Bool) (key_address : Address)
        → Step n (handle_transaction n tx verified key_address).0
    respond :
        (block : Block) (sender : Address) (own : ℕ)
        → Step n (handle_block_response n block sender own)
    register :
        (perm : ℕ → List ℕ) (address : Address) (stake : ℕ)
        → Step n (handle_validator_registration perm n address stake)
    take :
        (perm : ℕ → List ℕ) (higher : Transaction → Transaction → Bool) (now own : ℕ)
        → Step n (produce perm higher now own n)

  -- A history of steps.
  pub data Reaches (n : Node S) : Node S → Type 0 where
    start : Reaches n n
    next : {m k : Node S} → Reaches n m → Step m k → Reaches n k

  -- Who signs a hash in a step: the sender of an approval, and the node itself when it receives a
  -- block.
  abbrev pub SignedBy : {n m : Node S} → Step n m → Hash → Address → Type 0
  SignedBy {n} (receive block own) h a = (block.header.hash ≡ h) × (n.address ≡ a)
  SignedBy (approve msg) h a = (msg.block_hash ≡ h) × (msg.address ≡ a)
  SignedBy (tick block) h a = ⊥
  SignedBy (expire block) h a = ⊥
  SignedBy (finalize i block e) h a = ⊥
  SignedBy (take_in tx verified key) h a = ⊥
  SignedBy {n} (respond block sender own) h a = (block.header.hash ≡ h) × (n.address ≡ a)
  SignedBy (register perm address stake) h a = ⊥
  SignedBy (take perm higher now own) h a = ⊥

  -- Who signed a hash in a history.
  abbrev pub Signed : {n m : Node S} → Reaches n m → Hash → Address → Type 0
  Signed start h a = ⊥
  Signed (next r step) h a = Signed r h a ⊎ SignedBy step h a

  -- The committees that the node had in a history, the first and the last one included.
  abbrev pub Seated : {n m : Node S} → Reaches n m → List Validator → Type 0
  Seated {n} start c = n.committee ≡ c
  Seated (next {m} {k} r step) c = Seated r c ⊎ (k.committee ≡ c)

  abbrev pub facts : {n m : Node S} → Reaches n m → Facts
  facts r = record { seated = Seated r; signed = Signed r }

  pub facts-Extends :
      {n m k : Node S}
      → (r : Reaches n m) (step : Step m k) → Extends (facts r) (facts (next r step))
  facts-Extends r step = record { seats = λ c h. inl h; signs = λ h a e. inl e }

  now-Seated : {n m : Node S} → (r : Reaches n m) → Seated r m.committee
  now-Seated start = refl
  now-Seated (next r step) = inr refl

  Step-IsSafe :
      (f : Facts) {n m : Node S} (step : Step n m)
      → IsSafe f n
      → f.seated n.committee
      → ((h : Hash) (a : Address) → SignedBy step h a → f.signed h a)
      → IsSafe f m
  Step-IsSafe f {n} (receive block own) s seat signs =
      process_received_block-IsSafe f n block own s seat
        (signs block.header.hash n.address (refl, refl))
  Step-IsSafe f {n} (approve msg) s seat signs =
      process_approval-IsSafe f n msg s (signs msg.block_hash msg.address (refl, refl))
  Step-IsSafe f {n} (tick block) s seat signs = watch_tick-IsSafe f n block s
  Step-IsSafe f {n} (expire block) s seat signs = watch_timeout-IsSafe f n block s
  Step-IsSafe f {n} (finalize i block e) s seat signs = finalize-IsSafe f n block s
  Step-IsSafe f {n} (take_in tx verified key) s seat signs = take_in-IsSafe f n tx verified key s
  Step-IsSafe f {n} (respond block sender own) s seat signs =
      respond-IsSafe f n block sender own s seat (signs block.header.hash n.address (refl, refl))
  Step-IsSafe f {n} (register perm address stake) s seat signs =
      register-IsSafe f perm n address stake s
  Step-IsSafe f {n} (take perm higher now own) s seat signs =
      produce-IsSafe f higher now own perm n s

  -- A node that holds no approvals and no blocks that wait for them.
  pub record IsFresh (n : Node S) : Type 0 where
    pub no_pending : n.pending_blocks ≡ []
    pub no_waiting : n.approval_buffer ≡ []
    pub no_ready : n.ready ≡ []

  fresh-IsSafe : (f : Facts) (n : Node S) → IsFresh n → IsSafe f n
  unfolding lookup
  fresh-IsSafe f n fresh = record {
    pending = subst (AllApprove f) (sym fresh.no_pending) (λ h ba e. cc);
    waiting = subst (AllSigned f) (sym fresh.no_waiting) (λ h l e. cc);
    approved = subst (All (WasApproved f)) (sym fresh.no_ready) tt;
  }

  pub Reaches-IsSafe : {n m : Node S} → (r : Reaches n m) → IsFresh n → IsSafe (facts r) m
  Reaches-IsSafe {n} start fresh = fresh-IsSafe (facts {n = n} start) n fresh
  Reaches-IsSafe (next {m} r step) fresh =
      Step-IsSafe (facts (next r step)) step
        (IsSafe-extends (facts r) (facts (next r step)) m (facts-Extends r step)
          (Reaches-IsSafe r fresh))
        (inl (now-Seated r)) (λ h a e. inr e)
