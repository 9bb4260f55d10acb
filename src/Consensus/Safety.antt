-- ===== src/Consensus/Safety.antt =====
-- What every step of a node keeps: which approvals are pending and which blocks may be finalized.
use dyphira_chain.Common.{
  ℕ, ◌≡◌, inl, inr, refl, sym, subst, Bool, List, Option, none, some, [], ◌∷◌, ◌++◌, length, All,
  All-map, All-append, ltb, add64, ◌==◌, arith, Option-cases, Bool-cases,
}
use dyphira_chain.Common.Dict.{lookup, has, erase}
use dyphira_chain.Registry
use dyphira_chain.Consensus.Messages.{
  announced, handle_transaction, handle_block_response, handle_validator_registration,
}
use dyphira_chain.Types.{Address, Block, Transaction, Validator, Account, Approval}
use dyphira_chain.Trie.{Digest}
use dyphira_chain.Storage.{Storage}
use dyphira_chain.Approval.{
  BlockApproval, new_block_approval, add_signature, is_approved, is_member,
}
use dyphira_chain.Blockchain.{Encoding, has_block, create_block}
use dyphira_chain.Consensus.{
  Node, add_buffered, buffered, settle_vote, vote, process_received_block, process_approval,
  watch_tick, watch_timeout, append_block, finalize_approved_block, force_committee_and_proposer,
  propose, produce, take_turn, scheduled_proposer, needs_election, epoch_start_of, committee_size,
}
use dyphira_chain.Committee.{select_committee}
use dyphira_chain.Pool.{create_optimized_batch}
use dyphira_chain.Consensus.Quorums.{
  Facts, Extends, AllSigned, AllSigned-insert, AllSigned-erase, buffered-signed, Approves-quorum,
  WasApproved-extends, Approves-extends, WasApproved, Approves, Result-cases,
  add_signature-Approves, add_buffered-Approves, new-Approves, AllApprove, AllApprove-insert,
  AllApprove-erase, ready-approved, if_keeps,
}

module _ {S : Type 0} ⦃st : Storage S⦄ where
  -- The choice of a committee changes nothing else.
  pub force-same :
      (perm : ℕ → List ℕ) (n : Node S)
      → ((force_committee_and_proposer perm n).pending_blocks ≡ n.pending_blocks)
        × ((force_committee_and_proposer perm n).ready ≡ n.ready)
        × ((force_committee_and_proposer perm n).chain ≡ n.chain)
        × ((force_committee_and_proposer perm n).address ≡ n.address)
        × ((force_committee_and_proposer perm n).approval_buffer ≡ n.approval_buffer)
  unfolding force_committee_and_proposer
  force-same perm n = elim (Bool-cases (needs_election n (epoch_start_of n.chain.current_height))) [
    | inr current ↦ rw (current, force_committee_and_proposer) (refl, refl, refl, refl, refl)
    | inl due ↦ elim (Bool-cases (length (select_committee n.registry committee_size) == 0)) [
      | inl empty ↦
          rw (due, force_committee_and_proposer)
            (rw (empty, force_committee_and_proposer) (refl, refl, refl, refl, refl))
      | inr elected ↦
          rw (due, force_committee_and_proposer)
            (rw (elected, force_committee_and_proposer) (refl, refl, refl, refl, refl))
    ]
  ]

module _ (f : Facts) {S : Type 0} where
  -- Every pending approval is valid, stands under its block's hash and holds only signatures that
  -- were sent; every approval that waits for a block was sent; and every block that waits for
  -- finalization was approved.
  pub record IsSafe (n : Node S) : Type 0 where
    pub pending : AllApprove f n.pending_blocks
    pub waiting : AllSigned f n.approval_buffer
    pub approved : All (WasApproved f) n.ready

  settle_vote-IsSafe :
      (n : Node S) (block : Block) (ba : BlockApproval) (own : ℕ)
      → IsSafe n
      → Approves f block.header.hash ba
      → IsSafe (settle_vote n block ba own)
  unfolding settle_vote
  settle_vote-IsSafe n block ba own s v = record {
    pending = AllApprove-insert f n.pending_blocks block.header.hash ba s.pending v;
    waiting = s.waiting;
    approved = ready-approved f n.ready block ba s.approved v;
  }

  vote-IsSafe :
      (n : Node S) (block : Block) (ba : BlockApproval) (own : ℕ)
      → IsSafe n
      → Approves f block.header.hash ba
      → f.signed block.header.hash n.address
      → IsSafe (vote n block ba own)
  unfolding vote
  vote-IsSafe n block ba own s v signs = elim (Bool-cases (is_member n.address n.committee)) [
    | inr stranger ↦ rw (stranger, vote) (settle_vote-IsSafe n block ba own s v)
    | inl member ↦ elim (Result-cases (add_signature ba n.address own)) [
      | inl (ba', e) ↦
          rw (member, vote)
            (rw (e, vote)
              (settle_vote-IsSafe n block ba' own s
                (add_signature-Approves f block.header.hash ba n.address own v signs e)))
      | inr (x, e) ↦
          rw (member, vote)
            (rw (e, vote)
              (record {
                pending = AllApprove-erase f n.pending_blocks block.header.hash s.pending;
                waiting = s.waiting;
                approved = s.approved;
              }))
    ]
  ]

  pub process_received_block-IsSafe :
      ⦃st : Storage S⦄ (n : Node S) (block : Block) (own : ℕ)
      → IsSafe n
      → f.seated n.committee
      → f.signed block.header.hash n.address
      → IsSafe (process_received_block n block own)
  unfolding process_received_block
  process_received_block-IsSafe n block own s seat signs =
      let hash = block.header.hash in
      let received = record n { approval_buffer = erase hash n.approval_buffer } in
      let counted : Approves f hash
          (add_buffered (new_block_approval block n.committee) (buffered n.approval_buffer hash)) =
        add_buffered-Approves f hash (new_block_approval block n.committee)
          (buffered n.approval_buffer hash) (new-Approves f block n.committee seat)
          (buffered-signed f n.approval_buffer hash s.waiting) in
      let safe : IsSafe received = record {
        pending = s.pending;
        waiting = AllSigned-erase f n.approval_buffer hash s.waiting;
        approved = s.approved;
      } in
      let voted = vote-IsSafe received block _ own safe counted signs in
      if_keeps IsSafe (has block.header.hash n.pending_blocks) s (
        if_keeps IsSafe (has_block n.chain block.header.hash) s (
          if_keeps IsSafe (ltb (add64 n.chain.current_height 10) block.header.block_number) s
            (if_keeps IsSafe (ltb block.header.block_number n.chain.current_height) s voted)))

  pub process_approval-IsSafe :
      (n : Node S) (msg : Approval)
      → IsSafe n
      → f.signed msg.block_hash msg.address
      → IsSafe (process_approval n msg)
  unfolding process_approval
  process_approval-IsSafe n msg s signs =
      elim (Option-cases (lookup msg.block_hash n.pending_blocks)) [
        | inl nothing ↦
            rw (nothing, process_approval)
              (record {
                pending = s.pending;
                waiting =
                    AllSigned-insert f n.approval_buffer msg.block_hash
                      (buffered n.approval_buffer msg.block_hash ++ msg ∷ []) s.waiting
                      (All-append (λ a. f.signed msg.block_hash a.address)
                        (buffered n.approval_buffer msg.block_hash) (msg ∷ [])
                        (buffered-signed f n.approval_buffer msg.block_hash s.waiting) (signs, tt));
                approved = s.approved;
              })
        | inr (ba, at) ↦ elim (Result-cases (add_signature ba msg.address msg.signature)) [
          | inr (x, e) ↦ rw (at, process_approval) (rw (e, process_approval) s)
          | inl (ba', e) ↦
              let v =
                add_signature-Approves f msg.block_hash ba msg.address msg.signature
                  (s.pending msg.block_hash ba at) signs e in
              let v' : Approves f ba'.block.header.hash ba' =
                subst (λ h. Approves f h ba') (sym v.1) v in
              rw (at, process_approval)
                (rw (e, process_approval)
                  (record {
                    pending = AllApprove-insert f n.pending_blocks msg.block_hash ba' s.pending v;
                    waiting = s.waiting;
                    approved = ready-approved f n.ready ba'.block ba' s.approved v';
                  }))
        ]
      ]

  pub watch_tick-IsSafe : (n : Node S) (block : Block) → IsSafe n → IsSafe (watch_tick n block)
  unfolding watch_tick
  watch_tick-IsSafe n block s = elim (Option-cases (lookup block.header.hash n.pending_blocks)) [
    | inl nothing ↦ rw (nothing, watch_tick) s
    | inr (ba, at) ↦ elim (Bool-cases (is_approved ba)) [
      | inr short ↦ rw (at, watch_tick) (rw (short, watch_tick) s)
      | inl quorum ↦
          let v = s.pending block.header.hash ba at in
          rw (at, watch_tick)
            (rw (quorum, watch_tick)
              (record {
                pending = s.pending;
                waiting = s.waiting;
                approved = (Approves-quorum f block ba v quorum, s.approved);
              }))
    ]
  ]

  pub watch_timeout-IsSafe :
      (n : Node S) (block : Block) → IsSafe n → IsSafe (watch_timeout n block)
  unfolding watch_timeout
  watch_timeout-IsSafe n block s = record {
    pending = AllApprove-erase f n.pending_blocks block.header.hash s.pending;
    waiting = s.waiting;
    approved = s.approved;
  }

  take_in-same :
      (n : Node S) (tx : Transaction) (verified : Bool) (key : Address)
      → ((handle_transaction n tx verified key).0.pending_blocks ≡ n.pending_blocks)
        × ((handle_transaction n tx verified key).0.ready ≡ n.ready)
        × ((handle_transaction n tx verified key).0.approval_buffer ≡ n.approval_buffer)
  unfolding handle_transaction
  take_in-same n tx verified key = ground arith

  pub take_in-IsSafe :
      (n : Node S) (tx : Transaction) (verified : Bool) (key : Address)
      → IsSafe n
      → IsSafe (handle_transaction n tx verified key).0
  take_in-IsSafe n tx verified key s = record {
    pending = subst (AllApprove f) (sym (take_in-same n tx verified key).0) s.pending;
    waiting = subst (AllSigned f) (sym (take_in-same n tx verified key).2) s.waiting;
    approved = subst (All (WasApproved f)) (sym (take_in-same n tx verified key).1) s.approved;
  }

  module _ ⦃st : Storage S⦄ ⦃d : Digest Account⦄ where
    pub append_block-IsSafe :
        (n : Node S) (block : Block) → IsSafe n → IsSafe (append_block n block)
    unfolding append_block
    append_block-IsSafe n block s = record {
      pending = s.pending;
      waiting = s.waiting;
      approved = s.approved;
    }

    pub finalize-IsSafe :
        (n : Node S) (block : Block) → IsSafe n → IsSafe (finalize_approved_block n block)
    unfolding finalize_approved_block
    finalize-IsSafe n block s =
        if_keeps IsSafe (has block.header.hash n.pending_blocks)
          (append_block-IsSafe _ block (record {
            pending = AllApprove-erase f n.pending_blocks block.header.hash s.pending;
            waiting = s.waiting;
            approved = s.approved;
          }))
          s

    force-IsSafe :
        (perm : ℕ → List ℕ) (n : Node S) → IsSafe n → IsSafe (force_committee_and_proposer perm n)
    force-IsSafe perm n s = record {
      pending = subst (AllApprove f) (sym (force-same perm n).0) s.pending;
      waiting = subst (AllSigned f) (sym (force-same perm n).4) s.waiting;
      approved = subst (All (WasApproved f)) (sym (force-same perm n).1) s.approved;
    }

    pub respond-IsSafe :
        (n : Node S) (block : Block) (sender own : ℕ)
        → IsSafe n
        → f.seated n.committee
        → f.signed block.header.hash n.address
        → IsSafe (handle_block_response n block sender own)
    unfolding handle_block_response
    respond-IsSafe n block sender own s seat signs =
        if_keeps IsSafe (sender == n.address) s
          (process_received_block-IsSafe n block own s seat signs)

    pub register-IsSafe :
        (perm : ℕ → List ℕ) (n : Node S) (address stake : ℕ)
        → IsSafe n
        → IsSafe (handle_validator_registration perm n address stake)
    unfolding handle_validator_registration
    register-IsSafe perm n address stake s =
        let registered : Node S = record n {
          registry = Registry.register_validator n.registry (some (announced address stake));
        } in
        let forced =
          force-IsSafe perm registered
            (record { pending = s.pending; waiting = s.waiting; approved = s.approved }) in
        record { pending = forced.pending; waiting = forced.waiting; approved = forced.approved }

    module _ ⦃enc : Encoding⦄ (higher : Transaction → Transaction → Bool) (now own : ℕ) where
      take_turn-IsSafe :
          (n : Node S) (o : Option Validator) → IsSafe n → IsSafe (take_turn higher now own n o)
      unfolding take_turn propose
      take_turn-IsSafe n none s = s
      take_turn-IsSafe n (some v) s = elim (Bool-cases (v.address == n.address)) [
        | inr other ↦ rw (other, take_turn) s
        | inl mine ↦
            elim (Option-cases (
              create_block n.chain (create_optimized_batch higher n.pool n.state).transactions v
                now)) [
                  | inl fails ↦ rw (mine, take_turn) (rw (fails, propose) s)
                  | inr (b, made) ↦
                      rw (mine, take_turn)
                        (rw (made, propose)
                          (append_block-IsSafe n (record b { signature = own }) s))
                ]
      ]

      pub produce-IsSafe :
          (perm : ℕ → List ℕ) (n : Node S) → IsSafe n → IsSafe (produce perm higher now own n)
      unfolding produce
      produce-IsSafe perm n s =
          let n' = force_committee_and_proposer perm n in
          if_keeps IsSafe (length n'.committee == 0) (force-IsSafe perm n s)
            (take_turn-IsSafe n' (scheduled_proposer n') (force-IsSafe perm n s))

module _ {S : Type 0} where
  -- What is safe by a history is safe by a longer one.
  pub IsSafe-extends : (f g : Facts) (n : Node S) → Extends f g → IsSafe f n → IsSafe g n
  IsSafe-extends f g n le s = record {
    pending = λ h ba e. Approves-extends f g h ba le (s.pending h ba e);
    waiting = λ h l e. All-map (λ a. le.signs h a.address) l (s.waiting h l e);
    approved = All-map (λ b. WasApproved-extends f g b le) n.ready s.approved;
  }
