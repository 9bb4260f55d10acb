-- ===== src/Consensus/History.antt =====
-- The chain over any history of a node: received blocks and approvals, the watch on a block,
-- finalization, and the node's own turns, in any order.
use dyphira_chain.Common.{
  ℕ, ◌≡◌, ◌⊎◌, inl, inr, refl, sym, ap, subst, ◌∙◌, Bool, List, Option, none, some, length, All-get,
  ◌==◌, ==_iff, arith, Option-cases, Bool-cases,
}
use dyphira_chain.Common.Dict.{has, erase}
use dyphira_chain.Consensus.Quorums.{Facts, Extends, WasApproved, WasApproved-extends, if_keeps}
use dyphira_chain.Consensus.Messages.{
  handle_transaction, handle_block_response, handle_validator_registration,
}
use dyphira_chain.Types.{Block, Transaction, Validator, Account}
use dyphira_chain.Trie.{Digest}
use dyphira_chain.Storage.{Storage}
use dyphira_chain.Blockchain.{Encoding, create_block, next_header}
use dyphira_chain.Blockchain.Heights.{stored, stored-add_block}
use dyphira_chain.Pool.{create_optimized_batch}
use dyphira_chain.Consensus.{
  Node, process_received_block, process_approval, watch_tick, watch_timeout, append_block,
  finalize_approved_block, propose, produce, take_turn, scheduled_proposer,
  force_committee_and_proposer,
}
use dyphira_chain.Consensus.Safety.{IsSafe, IsSafe-extends, force-same}
use dyphira_chain.Consensus.Unchanged.{
  Same, receive-Same, respond-Same, take_in-Same, register-Same, approve-Same, tick-Same,
  expire-Same,
}
use dyphira_chain.Consensus.Steps.{
  Step, receive, approve, tick, expire, finalize, take_in, respond, register, take, Reaches, start,
  next, facts, facts-Extends, IsFresh, Reaches-IsSafe,
}

module _ (f : Facts) {S : Type 0} ⦃st : Storage S⦄ where
  -- Every block that the later chain stores at a height was there before, or was approved, or was
  -- proposed by the node itself.
  abbrev pub Grows : Node S → Node S → Type 0
  Grows n m =
      (m.address ≡ n.address)
      × ((h : ℕ) (b : Block)
          → stored m.chain h ≡ some b
          → (stored n.chain h ≡ some b) ⊎ WasApproved f b ⊎ (b.header.proposer ≡ n.address))

  Same-Grows : (n m : Node S) → Same n m → Grows n m
  Same-Grows n m (chain, address) = (address, λ h b e. inl (ap (λ c. stored c h) (sym chain) ∙ e))

  Grows-trans : (n m k : Node S) → Grows n m → Grows m k → Grows n k
  Grows-trans n m k (a, f) (b, g) = (
    b ∙ a,
    λ h block e. elim (g h block e) [
      | inl old ↦ f h block old
      | inr (inl quorum) ↦ inr (inl quorum)
      | inr (inr own) ↦ inr (inr (own ∙ a))
    ],
  )

  module _ ⦃d : Digest Account⦄ where
    append_block-Grows :
        (n : Node S) (block : Block)
        → WasApproved f block ⊎ (block.header.proposer ≡ n.address)
        → Grows n (append_block n block)
    unfolding append_block
    append_block-Grows n block why = (
      refl,
      λ h b e. elim (Bool-cases (block.header.block_number == h)) [
        | inr differ ↦ inl (ground (arith, stored-add_block n.chain block h, e, differ))
        | inl here ↦
            let same : block ≡ b = ground (arith, stored-add_block n.chain block h, e, here) in
            inr (subst (λ k. WasApproved f k ⊎ (k.header.proposer ≡ n.address)) same why)
      ],
    )

    finalize-Grows :
        (n : Node S) (block : Block)
        → WasApproved f block
        → Grows n (finalize_approved_block n block)
    unfolding finalize_approved_block
    finalize-Grows n block quorum =
        let claimed = record n { pending_blocks = erase block.header.hash n.pending_blocks } in
        if_keeps (Grows n) (has block.header.hash n.pending_blocks)
          (Grows-trans n claimed (append_block claimed block) (Same-Grows n claimed (refl, refl))
            (append_block-Grows claimed block (inl quorum)))
          (Same-Grows n n (refl, refl))

    module _ ⦃enc : Encoding⦄ where
      create_block-proposer :
          (n : Node S) (b : Block) (txs : List Transaction) (v : Validator) (now : ℕ)
          → create_block n.chain txs v now ≡ some b
          → b.header.proposer ≡ v.address
      unfolding create_block next_header
      create_block-proposer n b txs v now made = ground (arith, made)

      take_turn-Grows :
          (higher : Transaction → Transaction → Bool) (now own : ℕ) (n : Node S)
          (o : Option Validator)
          → Grows n (take_turn higher now own n o)
      unfolding take_turn propose
      take_turn-Grows higher now own n none = Same-Grows n n (refl, refl)
      take_turn-Grows higher now own n (some v) =
          let txs = (create_optimized_batch higher n.pool n.state).transactions in
          elim (Bool-cases (v.address == n.address)) [
            | inr other ↦ rw (other, take_turn) (Same-Grows n n (refl, refl))
            | inl mine ↦ elim (Option-cases (create_block n.chain txs v now)) [
              | inl fails ↦ rw (mine, take_turn) (rw (fails, propose) (Same-Grows n n (refl, refl)))
              | inr (b, made) ↦
                  rw (mine, take_turn)
                    (rw (made, propose)
                      (append_block-Grows n (record b { signature = own })
                        (inr (
                          create_block-proposer n b txs v now made
                          ∙ (==_iff v.address n.address).0 mine))))
            ]
          ]

      produce-Grows :
          (perm : ℕ → List ℕ) (higher : Transaction → Transaction → Bool) (now own : ℕ) (n : Node S)
          → Grows n (produce perm higher now own n)
      unfolding produce
      produce-Grows perm higher now own n =
          let n' = force_committee_and_proposer perm n in
          let forced : Grows n n' =
            Same-Grows n n' ((force-same perm n).2, (force-same perm n).3) in
          if_keeps (Grows n) (length n'.committee == 0) forced (
            Grows-trans n n' (take_turn higher now own n' (scheduled_proposer n')) forced
              (take_turn-Grows higher now own n' (scheduled_proposer n')))

      Step-Grows : {n m : Node S} → Step n m → IsSafe f n → Grows n m
      Step-Grows {n} (receive block own) s =
          Same-Grows n (process_received_block n block own) (receive-Same n block own)
      Step-Grows {n} (approve msg) s = Same-Grows n (process_approval n msg) (approve-Same n msg)
      Step-Grows {n} (tick block) s = Same-Grows n (watch_tick n block) (tick-Same n block)
      Step-Grows {n} (expire block) s = Same-Grows n (watch_timeout n block) (expire-Same n block)
      Step-Grows {n} (finalize i block e) s =
          finalize-Grows n block (All-get (WasApproved f) n.ready i block s.approved e)
      Step-Grows {n} (take_in tx verified key) s =
          Same-Grows n (handle_transaction n tx verified key).0 (take_in-Same n tx verified key)
      Step-Grows {n} (respond block sender own) s =
          Same-Grows n (handle_block_response n block sender own) (respond-Same n block sender own)
      Step-Grows {n} (register perm address stake) s =
          Same-Grows n (handle_validator_registration perm n address stake)
            (register-Same perm n address stake)
      Step-Grows {n} (take perm higher now own) s = produce-Grows perm higher now own n

-- What grew by a history has grown by a longer one.
Grows-extends :
    {S : Type 0} ⦃st : Storage S⦄ (f g : Facts) (n m : Node S)
    → Extends f g
    → Grows f n m
    → Grows g n m
Grows-extends f g n m le (address, grows) = (
  address,
  λ h b e. elim (grows h b e) [
    | inl old ↦ inl old
    | inr (inl quorum) ↦ inr (inl (WasApproved-extends f g b le quorum))
    | inr (inr own) ↦ inr (inr own)
  ],
)

module _ {S : Type 0} ⦃st : Storage S⦄ ⦃d : Digest Account⦄ ⦃enc : Encoding⦄ where
  Reaches-Grows : {n m : Node S} → (r : Reaches n m) → IsFresh n → Grows (facts r) n m
  Reaches-Grows {n} start fresh = Same-Grows (facts {n = n} start) n n (refl, refl)
  Reaches-Grows {n} (next {m} {k} r step) fresh =
      let f = facts (next r step) in
      let longer = facts-Extends r step in
      Grows-trans f n m k (Grows-extends (facts r) f n m longer (Reaches-Grows r fresh))
        (Step-Grows f step (IsSafe-extends (facts r) f m longer (Reaches-IsSafe r fresh)))

  -- Through any history of a node that starts without approvals and without blocks that wait for
  -- them, a block that stands in the chain's store at a height stood there at the start, or was
  -- proposed by the node itself, or has its quorum in this history: for a committee that the node
  -- had in it, more than two thirds of the seats have signed the block's hash, each by a different
  -- member, who sent the node an approval of this hash or is the node that received a block of it.
  pub Reaches-stored :
      {n m : Node S}
      → (r : Reaches n m) → IsFresh n
      → (h : ℕ) (b : Block) → stored m.chain h ≡ some b
      → (stored n.chain h ≡ some b) ⊎ WasApproved (facts r) b ⊎ (b.header.proposer ≡ n.address)
  Reaches-stored r fresh h b e = (Reaches-Grows r fresh).1 h b e
