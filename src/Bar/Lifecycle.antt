-- ===== src/Bar/Lifecycle.antt =====
-- The life of a peer over any history of calls.
use dyphira_chain.Common.{ℕ, ◌≡◌, inl, inr, refl, List, [], ◌∷◌, Option, some, arith, subst, sym}
use dyphira_chain.Bar.Peers.{PeerId, PeerStatus, banned, BarNetwork}
use dyphira_chain.Bar.{
  add_peer, promote_to_whitelist, demote_to_greylist, ban_peer, update_pom_score,
  cleanup_reputation_records,
}
use dyphira_chain.Bar.Invariant.{
  IsValid, add-IsValid, promote-IsValid, demote-IsValid, ban-IsValid, update_pom_score-IsValid,
}
use dyphira_chain.Bar.Moves.{
  status_of, Move, stay, join, rise, fall, expel_grey, expel_white, MayMove, add-MayMove,
  promote-MayMove, demote-MayMove, ban-MayMove, score-MayMove,
}

-- The calls that change the network; the last is the round that `FindNodes` sets.
pub data Call : Type 0 where
  add : PeerId → ℕ → ℕ → Call
  promote : PeerId → ℕ → Call
  demote : PeerId → Call
  ban : PeerId → ℕ → Call
  score : PeerId → ℕ → ℕ → ℕ → Call
  clean : Call
  set_round : ℕ → Call

unfoldable pub step : BarNetwork → Call → BarNetwork
step bn (add p address now) = add_peer bn p address now
step bn (promote p now) = (promote_to_whitelist bn p now).0
step bn (demote p) = (demote_to_greylist bn p).0
step bn (ban p reason) = ban_peer bn p reason
step bn (score p increment reason now) = update_pom_score bn p increment reason now
step bn clean = cleanup_reputation_records bn
step bn (set_round round) = record bn { round = round }

unfoldable pub run : BarNetwork → List Call → BarNetwork
run bn [] = bn
run bn (c ∷ cs) = run (step bn c) cs

round_status :
    (bn : BarNetwork) (q round : ℕ) → status_of (record bn { round = round }) q ≡ status_of bn q
unfolding status_of
round_status bn q round = refl

cleanup_status :
    (bn : BarNetwork) (q : ℕ) → status_of (cleanup_reputation_records bn) q ≡ status_of bn q
unfolding status_of cleanup_reputation_records
cleanup_status bn q = refl

cleanup-IsValid : (bn : BarNetwork) → IsValid bn → IsValid (cleanup_reputation_records bn)
unfolding cleanup_reputation_records
cleanup-IsValid bn v = record { stands = v.stands; room = v.room; distinct = v.distinct }

step-MayMove :
    (bn : BarNetwork) (c : Call) (q : PeerId)
    → IsValid bn
    → MayMove (status_of bn q) (status_of (step bn c) q)
unfolding step
step-MayMove bn (add p address now) q v = add-MayMove bn v q p address now
step-MayMove bn (promote p now) q v = promote-MayMove bn v q p now
step-MayMove bn (demote p) q v = demote-MayMove bn v q p
step-MayMove bn (ban p reason) q v = ban-MayMove bn v q p reason
step-MayMove bn (score p increment reason now) q v = score-MayMove bn q p increment reason now v
step-MayMove bn clean q v = inl (cleanup_status bn q)
step-MayMove bn (set_round round) q v = inl (round_status bn q round)

to_Move : (a b : Option PeerStatus) → MayMove a b → Move a b
to_Move a b (inl e) = subst (λ x. Move a x) (sym e) (stay a)
to_Move a b (inr (inl (e, f))) = rw (e, f) join
to_Move a b (inr (inr (inl (e, f)))) = rw (e, f) rise
to_Move a b (inr (inr (inr (inl (e, f))))) = rw (e, f) fall
to_Move a b (inr (inr (inr (inr (inl (e, f)))))) = rw (e, f) expel_grey
to_Move a b (inr (inr (inr (inr (inr (e, f)))))) = rw (e, f) expel_white

-- Every call moves every peer by at most one step of its life.
pub step-Move :
    (bn : BarNetwork) (c : Call) (q : PeerId)
    → IsValid bn
    → Move (status_of bn q) (status_of (step bn c) q)
step-Move bn c q v = to_Move _ _ (step-MayMove bn c q v)

-- Every call keeps the lists valid.
pub step-IsValid : (bn : BarNetwork) (c : Call) → IsValid bn → IsValid (step bn c)
unfolding step
step-IsValid bn (add p address now) v = add-IsValid bn v p address now
step-IsValid bn (promote p now) v = promote-IsValid bn v p now
step-IsValid bn (demote p) v = demote-IsValid bn v p
step-IsValid bn (ban p reason) v = ban-IsValid bn v p reason
step-IsValid bn (score p increment reason now) v =
    update_pom_score-IsValid bn p increment reason now v
step-IsValid bn clean v = cleanup-IsValid bn v
step-IsValid bn (set_round round) v = record {
  stands = v.stands;
  room = v.room;
  distinct = v.distinct;
}

-- After any history of calls on a valid network no peer stands in two lists, every entry has
-- the status of its list, and the whitelist keeps to its bound.
pub run-IsValid : (bn : BarNetwork) (cs : List Call) → IsValid bn → IsValid (run bn cs)
unfolding run
run-IsValid bn [] v = v
run-IsValid bn (c ∷ cs) v = run-IsValid (step bn c) cs (step-IsValid bn c v)

-- A banned peer stays banned through every history of calls.
pub run-banned :
    (bn : BarNetwork) (cs : List Call) (p : PeerId)
    → IsValid bn
    → status_of bn p ≡ some banned
    → status_of (run bn cs) p ≡ some banned
unfolding run
run-banned bn [] p v e = e
run-banned bn (c ∷ cs) p v e =
    run-banned (step bn c) cs p (step-IsValid bn c v) (ground (arith, e, step-MayMove bn c p v))
