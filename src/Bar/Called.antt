-- ===== src/Bar/Called.antt =====
-- Code that changes the lists of peers only by calls of the BAR network, as a relation.
use dyphira_chain.Common.{◌≡◌, refl, sym, ap, ◌∙◌, List, [], ◌∷◌, ◌++◌, some, subst}
use dyphira_chain.Bar.Peers.{PeerId, banned, BarNetwork}
use dyphira_chain.Bar.Invariant.{IsValid}
use dyphira_chain.Bar.Moves.{status_of}
use dyphira_chain.Bar.Lifecycle.{Call, step, run, run-IsValid, run-banned}

-- The second network comes from the first by calls.
abbrev pub Called : BarNetwork → BarNetwork → Type 0
Called bn after = (calls : List Call) × (after ≡ run bn calls)

run-append : (bn : BarNetwork) (cs ds : List Call) → run bn (cs ++ ds) ≡ run (run bn cs) ds
unfolding run
run-append bn [] ds = refl
run-append bn (c ∷ cs) ds = run-append (step bn c) cs ds

pub Called-refl : (bn : BarNetwork) → Called bn bn
unfolding run
Called-refl bn = ([], refl)

pub Called-trans : (a b c : BarNetwork) → Called a b → Called b c → Called a c
Called-trans a b c (cs, e) (ds, f) = (cs ++ ds, f ∙ ap (λ x. run x ds) e ∙ sym (run-append a cs ds))

pub Called-one : (bn : BarNetwork) (c : Call) → Called bn (step bn c)
unfolding run
Called-one bn c = (c ∷ [], refl)

pub Called-of_eq : (a b : BarNetwork) → b ≡ a → Called a b
Called-of_eq a b e = subst (λ x. Called a x) (sym e) (Called-refl a)

-- Calls keep the lists valid, and a banned peer banned.
pub Called-IsValid : (a b : BarNetwork) → Called a b → IsValid a → IsValid b
Called-IsValid a b (cs, same) v = subst IsValid (sym same) (run-IsValid a cs v)

pub Called-banned :
    (a b : BarNetwork) (p : PeerId)
    → Called a b
    → IsValid a
    → status_of a p ≡ some banned
    → status_of b p ≡ some banned
Called-banned a b p (cs, same) v e = ap (λ bn. status_of bn p) same ∙ run-banned a cs p v e
