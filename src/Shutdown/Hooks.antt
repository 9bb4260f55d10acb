-- ===== src/Shutdown/Hooks.antt =====
-- What a shutdown has done.
use mathlib.Core.List.{append-nil, append_assoc}
use dyphira_chain.Common.{
  ℕ, ◌≡◌, refl, sym, ap, ◌∙◌, true, List, [], ◌∷◌, ◌++◌, map, Option, some, ◌==◌, if◌then◌else◌,
}
use dyphira_chain.Common.Dict.{lookup, lookup-insert}
use dyphira_chain.Shutdown.{
  Status, Hook, GracefulShutdown, status_of, run_hook, run_hooks, shutdown,
}

-- The status that the last of the hooks for a component leaves, or the given one if there is none.
abbrev pub final_status : ℕ → Option Status → List Hook → Option Status
final_status c s [] = s
final_status c s (h ∷ hs) =
    final_status c (if h.component == c then some (status_of h.outcome) else s) hs

run_hooks_lem :
    (gs : GracefulShutdown) (hs : List Hook)
    → ((run_hooks gs hs).ran ≡ gs.ran ++ map (λ h. h.component) hs)
      × ((c : ℕ) → lookup c (run_hooks gs hs).status ≡ final_status c (lookup c gs.status) hs)
      × ((run_hooks gs hs).cancelled ≡ gs.cancelled)
      × ((run_hooks gs hs).reason ≡ gs.reason)
unfolding run_hooks
run_hooks_lem gs [] = (sym (append-nil gs.ran), (λ c. refl), refl, refl)
run_hooks_lem gs (h ∷ hs) =
    let (ran, statuses, cancelled, reason) = run_hooks_lem (run_hook gs h) hs in
    (
      ran ∙ append_assoc gs.ran (h.component ∷ []) (map (λ h. h.component) hs),
      (λ c.
          statuses c
          ∙ ap (λ s. final_status c s hs)
              (lookup-insert h.component c (status_of h.outcome) gs.status)),
      cancelled,
      reason,
    )

-- A shutdown cancels the context and runs every hook in the order of registration, whichever fail;
-- the status of a component is the outcome of its last hook.
pub shutdown_lem :
    (gs : GracefulShutdown) (reason : ℕ)
    → ((shutdown gs reason).ran ≡ gs.ran ++ map (λ h. h.component) gs.components)
      × ((c : ℕ)
          → lookup c (shutdown gs reason).status
            ≡ final_status c (lookup c gs.status) gs.components)
      × ((shutdown gs reason).cancelled ≡ true)
      × ((shutdown gs reason).reason ≡ reason)
unfolding shutdown
shutdown_lem gs reason =
    run_hooks_lem (record gs { reason = reason; cancelled = true }) gs.components
