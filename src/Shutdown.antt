-- ===== src/Shutdown.antt =====
-- graceful_shutdown.go: the hooks that components register, and the shutdown that runs them. Names
-- and errors are numbers; what a hook returns is its error, if any.
pub mod Hooks
use dyphira_chain.Common.{ℕ, Bool, true, false, List, [], ◌∷◌, ◌++◌, map, Option, none, some}
use dyphira_chain.Common.Dict.{Dict, insert}

pub data Status : Type 0 where
  stopped : Status
  failed : (error : ℕ) → Status

-- A registered hook: the component, and what its function returns when it runs.
pub record Hook : Type 0 where
  pub component : ℕ
  pub outcome : Option ℕ

pub record GracefulShutdown : Type 0 where
  pub cancelled : Bool
  pub components : List Hook
  pub reason : ℕ
  pub status : Dict Status
  -- The components whose hook ran, in order.
  pub ran : List ℕ

unfoldable pub new_graceful_shutdown : GracefulShutdown
new_graceful_shutdown = record {
  cancelled = false;
  components = [];
  reason = 0;
  status = [];
  ran = [];
}

unfoldable pub register :
    GracefulShutdown → (component : ℕ) → (outcome : Option ℕ) → GracefulShutdown
register gs component outcome = record gs {
  components = gs.components ++ record { component = component; outcome = outcome } ∷ [];
}

abbrev pub status_of : Option ℕ → Status
status_of none = stopped
status_of (some error) = failed error

-- The function that `Register` wraps around a hook.
unfoldable pub run_hook : GracefulShutdown → Hook → GracefulShutdown
run_hook gs h = record gs {
  status = insert h.component (status_of h.outcome) gs.status;
  ran = gs.ran ++ h.component ∷ [];
}

-- The loop of `Shutdown`; errors do not end it.
unfoldable pub run_hooks : GracefulShutdown → List Hook → GracefulShutdown
unfolding run_hook
run_hooks gs [] = gs
run_hooks gs (h ∷ hs) = run_hooks (run_hook gs h) hs

unfoldable pub shutdown : GracefulShutdown → (reason : ℕ) → GracefulShutdown
unfolding run_hooks
shutdown gs reason = run_hooks (record gs { reason = reason; cancelled = true }) gs.components
