-- ===== src/Consensus/Epochs.antt =====
-- The proposer of the next height after a committee is chosen, and the claim of a finalization.
use native.Mathlib.Nat.{mod-lt}
use dyphira_chain.Common.{
  ℕ, ◌+◌, ◌-◌, ◌*◌, ◌/◌, ◌%◌, ◌<◌, ◌≡◌, ◌≢◌, ◌⊎◌, refl, sym, subst, ◌∙◌, Bool, true, false, ◌&&◌,
  List, Option, none, some, length, get_elem?, All, All-get, if◌then◌else◌, ltb, leb, ◌==◌, ==_iff,
  arith, Bool-cases, add64, add64_exact, word_mod, inl, inr,
}
use dyphira_chain.Common.Dict.{Dict, has, erase, lookup-erase}
use dyphira_chain.Types.{Block, Account, Transaction, Validator}
use dyphira_chain.Trie.{Digest}
use dyphira_chain.Storage.{Storage}
use dyphira_chain.Committee.{new_proposer_selector, select_committee}
use dyphira_chain.Committee.Slots.{turn, get_elem?-some}
use dyphira_chain.Committee.Rotation.{IsShuffle, proposer_for_block_lem}
use dyphira_chain.Consensus.{
  Node, append_block, finalize_approved_block, force_committee_and_proposer, needs_election,
  epoch_start_of, epoch_length, committee_size, scheduled_proposer, produce, take_turn,
}
use dyphira_chain.Blockchain.{Encoding}
use dyphira_chain.Consensus.Quorums.{if_keeps}
use dyphira_chain.Consensus.Safety.{force-same}

-- The next height is in the epoch of a height unless that is the epoch's last.
next_slot {ℓ} :
    {A : Type ℓ} (height : ℕ) (o : Option A)
    → (if leb (height / 270 * 270) (height + 1) && ltb (height + 1) (height / 270 * 270 + 270)
        then o
        else none)
      ≡ (if height % 270 == 269 then none else o)
next_slot height o = ground arith

has-erase {ℓ} : {V : Type ℓ} (k : ℕ) (m : Dict V) → has k (erase k m) ≡ false
has-erase k m = ground (arith, lookup-erase k k m, ==_iff k k)

-- With a committee and a shuffle of its indices, every offset is some member's turn.
turn-some :
    (committee : List Validator) (indices : List ℕ) (k : ℕ)
    → 0 < length committee
    → All (λ i. i < length committee) indices
    → (v : Validator) × (i : ℕ) × (get_elem? committee i ≡ some v)
      × (turn committee indices k ≡ some v)
turn-some committee indices k some_one inside = elim (Bool-cases (ltb k (9 * length indices))) [
  | inl early ↦
      let (i, got) = get_elem?-some indices (k / 9) (ground (arith, early)) in
      let (v, member) =
        get_elem?-some committee i
          (All-get (λ i. i < length committee) indices (k / 9) i inside got) in
      (v, i, member, ground (arith, early, got, member))
  | inr late ↦
      let (v, member) = get_elem?-some committee (k % length committee) (mod-lt k some_one) in
      (v, k % length committee, member, ground (arith, late, member))
]

module _ {S : Type 0} ⦃st : Storage S⦄ where
  produce-idle :
      ⦃d : Digest Account⦄ ⦃enc : Encoding⦄ (perm : ℕ → List ℕ)
      (higher : Transaction → Transaction → Bool) (now own : ℕ) (n : Node S)
      → scheduled_proposer (force_committee_and_proposer perm n) ≡ none
      → (produce perm higher now own n).chain ≡ n.chain
  unfolding produce take_turn
  produce-idle perm higher now own n nobody =
      let n' = force_committee_and_proposer perm n in
      if_keeps (λ (m : Node S). m.chain ≡ n.chain) (length n'.committee == 0) (force-same perm n).2
        (subst (λ o. (take_turn higher now own n' o).chain ≡ n.chain) (sym nobody)
          (force-same perm n).2)

  force-elected :
      (perm : ℕ → List ℕ) (n : Node S)
      → needs_election n (epoch_start_of n.chain.current_height) ≡ true
      → 0 < length (select_committee n.registry committee_size)
      → force_committee_and_proposer perm n ≡ record n {
        committee = select_committee n.registry committee_size;
        proposer_selector =
            new_proposer_selector perm
              (select_committee n.registry committee_size)
              (epoch_start_of n.chain.current_height)
              epoch_length;
      }
  unfolding force_committee_and_proposer
  force-elected perm n due some_one =
      let elected : (length (select_committee n.registry committee_size) == 0) ≡ false =
        ground arith in
      rw (due, force_committee_and_proposer) (rw (elected, force_committee_and_proposer) refl)

  force-schedule :
      (perm : ℕ → List ℕ) (n : Node S)
      → needs_election n (epoch_start_of n.chain.current_height) ≡ true
      → 0 < length (select_committee n.registry committee_size)
      → IsShuffle
          (select_committee n.registry committee_size)
          (perm (length (select_committee n.registry committee_size)))
      → n.chain.current_height + 300 < word_mod
      → scheduled_proposer (force_committee_and_proposer perm n) ≡ (
          if n.chain.current_height % 270 == 269
          then none
          else turn
              (select_committee n.registry committee_size)
              (perm (length (select_committee n.registry committee_size)))
              (n.chain.current_height % 270 + 1))
  unfolding scheduled_proposer
  force-schedule perm n due some_one shuffled small =
      let committee = select_committee n.registry committee_size in
      let height = n.chain.current_height in
      let start : ℕ = height / 270 * 270 in
      let (ps, made, _, slots) =
        proposer_for_block_lem perm committee start 270 some_one shuffled (omega arith) in
      let next : add64 height 1 ≡ height + 1 = add64_exact height 1 (omega arith) in
      let offset : height + 1 - start ≡ height % 270 + 1 = omega arith in
      rw (force-elected perm n due some_one) (
        rw (made, scheduled_proposer)
          (rw next (
            slots (height + 1)
            ∙ (rw offset
                (next_slot height (turn committee (perm (length committee)) (height % 270 + 1)))))))

  -- An election at a height, with a shuffle of the new committee's indices: unless the height is
  -- the last of its epoch of 270, the next height has a proposer, a member of the committee, the
  -- one whose turn it is by the shuffle; at the last it has none, since it belongs to no slot, and
  -- then the producer's tick leaves the chain as it is.
  pub force-scheduled_proposer :
      ⦃d : Digest Account⦄ ⦃enc : Encoding⦄ (perm : ℕ → List ℕ)
      (higher : Transaction → Transaction → Bool) (now own : ℕ) (n : Node S)
      → needs_election n (epoch_start_of n.chain.current_height) ≡ true
      → 0 < length (select_committee n.registry committee_size)
      → IsShuffle
          (select_committee n.registry committee_size)
          (perm (length (select_committee n.registry committee_size)))
      → n.chain.current_height + 300 < word_mod
      → let committee = select_committee n.registry committee_size in
        let next_proposer = scheduled_proposer (force_committee_and_proposer perm n) in
        ((n.chain.current_height % 270 ≡ 269)
          × (next_proposer ≡ none)
          × ((produce perm higher now own n).chain ≡ n.chain))
        ⊎ ((n.chain.current_height % 270 ≢ 269)
            × (v : Validator) × (i : ℕ) × (next_proposer ≡ some v)
            × (get_elem? committee i ≡ some v)
            × (turn committee (perm (length committee)) (n.chain.current_height % 270 + 1)
                ≡ some v))
  force-scheduled_proposer perm higher now own n due some_one shuffled small =
      let committee = select_committee n.registry committee_size in
      let height = n.chain.current_height in
      let exact = force-schedule perm n due some_one shuffled small in
      elim (Bool-cases (height % 270 == 269)) [
        | inl last ↦
            let nobody : scheduled_proposer (force_committee_and_proposer perm n) ≡ none =
              exact ∙ (rw last refl) in
            inl (
              (==_iff (height % 270) 269).0 last,
              nobody,
              produce-idle perm higher now own n nobody,
            )
        | inr inside ↦
            let (v, i, member, mine) =
              turn-some committee (perm (length committee)) (height % 270 + 1) some_one
                shuffled.inside in
            inr ((ground (arith, inside)), v, i, exact ∙ (rw inside mine), member, mine)
      ]

  -- A block is finalized once: a second run finds nothing to claim and changes nothing.
  pub finalize_once :
      ⦃d : Digest Account⦄ (n : Node S) (block : Block)
      → finalize_approved_block (finalize_approved_block n block) block
        ≡ finalize_approved_block n block
  unfolding finalize_approved_block append_block
  finalize_once n block = elim (Bool-cases (has block.header.hash n.pending_blocks)) [
    | inl there ↦ rw there (rw (has-erase block.header.hash n.pending_blocks) refl)
    | inr absent ↦ rw absent (rw absent refl)
  ]
