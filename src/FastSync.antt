-- ===== src/FastSync.antt =====
-- fast_sync.go: a synchronisation that runs in a goroutine of its own, at most one at a time. The
-- requests and the application of what they bring are left to be written in the source: they only
-- log, wait and succeed. Names of peers are numbers.
use dyphira_chain.Common.{
  ℕ, ◌+◌, ◌-◌, ◌≡◌, refl, Bool, true, false, List, [], ◌∷◌, ◌++◌, length, ◌==◌, if◌then◌else◌,
  arith,
}

-- What a run logs.
pub data Stage : Type 0 where
  starting no_peers snapshot_requested blocks_requested applied switched : Stage

pub record FastSyncManager : Type 0 where
  pub peers : List ℕ
  pub is_syncing : Bool
  -- The goroutines of `syncLoop` that were started and have not ended.
  pub running : ℕ
  pub log : List Stage

unfoldable pub new_fast_sync_manager : FastSyncManager
new_fast_sync_manager = record { peers = []; is_syncing = false; running = 0; log = [] }

unfoldable pub start : FastSyncManager → FastSyncManager
start fsm =
    if fsm.is_syncing then fsm else record fsm { is_syncing = true; running = fsm.running + 1 }

-- `discoverPeers`
unfoldable pub discover_peers : List ℕ
discover_peers = 1 ∷ 2 ∷ []

-- `syncLoop`, with its deferred reset of the flag.
unfoldable pub sync_loop : FastSyncManager → FastSyncManager
unfolding discover_peers
sync_loop fsm =
    let found = discover_peers in
    let stages =
      if length found == 0
      then starting ∷ no_peers ∷ []
      else starting ∷ snapshot_requested ∷ blocks_requested ∷ applied ∷ switched ∷ [] in
    record fsm {
      peers = found;
      is_syncing = false;
      running = fsm.running - 1;
      log = fsm.log ++ stages;
    }

-- What happens to the manager: a call of `Start`, or a goroutine that runs to its end.
pub data Event : Type 0 where
  call end_loop : Event

unfoldable pub react : FastSyncManager → Event → FastSyncManager
unfolding start sync_loop
react fsm call = start fsm
react fsm end_loop = if fsm.running == 0 then fsm else sync_loop fsm

unfoldable pub react_all : FastSyncManager → List Event → FastSyncManager
unfolding react
react_all fsm [] = fsm
react_all fsm (e ∷ es) = react_all (react fsm e) es

-- The flag says whether a loop runs, and no second one does.
abbrev pub IsExclusive : FastSyncManager → Type 0
IsExclusive fsm = fsm.running ≡ (if fsm.is_syncing then 1 else 0)

react-IsExclusive :
    (fsm : FastSyncManager) (e : Event) → IsExclusive fsm → IsExclusive (react fsm e)
unfolding react
react-IsExclusive fsm call h = ground arith
react-IsExclusive fsm end_loop h = ground arith

react_all-IsExclusive :
    (fsm : FastSyncManager) (es : List Event) → IsExclusive fsm → IsExclusive (react_all fsm es)
unfolding react_all
react_all-IsExclusive fsm [] h = h
react_all-IsExclusive fsm (e ∷ es) h =
    react_all-IsExclusive (react fsm e) es (react-IsExclusive fsm e h)

-- However often a synchronisation is started, and whenever its loops end, at most one loop runs,
-- exactly while the flag is set.
pub one_loop : (es : List Event) → IsExclusive (react_all new_fast_sync_manager es)
unfolding new_fast_sync_manager
one_loop es = react_all-IsExclusive new_fast_sync_manager es refl
