-- ===== src/Lib.antt =====
-- Verification of the dyphira-chain node: a delegated proof-of-stake blockchain in Go (package
-- main at the repository's root).
--
-- A transaction moves a balance between accounts, which a Merkle trie stores under their
-- addresses; validators register and receive delegated stake in a registry over a key-value
-- store; committee members sign a proposed block until it is approved; and a BAR network of
-- peers admits, promotes, demotes and bans the other nodes. Handshakes promote peers or raise
-- their scores, the inactivity monitor demotes them, and an optimistic push sends blocks to those
-- that were promoted.
--
-- Which file models which code:
--   Common    shared names, tests on numbers, lists, association lists, uint64 arithmetic
--   Types     types.go: the structs, field by field
--   Hex       types.go: `ToHex`, `HexToAddress`, `HexToHash`
--   Approval  block_approval.go: `NewBlockApproval`, `AddSignature`, `HasSignature`, `IsApproved`
--   Trie      merkle_trie.go: `Insert`, `Get`, `All` and the hashes of the nodes
--   State     state.go: `GetAccount`, `PutAccount`, `ApplyTransaction`, `ApplyBlock`, snapshots
--   Storage   storage.go: the interface `Storage` with its laws, and `MemoryStore`
--   Registry  validator_registry.go: every method, over any store with the laws of `Storage`
--   Bar       bar_network.go: the three lists of peers, the scores and `FindNodes`
--   Committee committee.go: `SelectCommittee`, the slots of an epoch, `ProposerForBlock`
--   Blockchain  blockchain.go: blocks by height and by hash, `CreateBlock`, restart, and
--             `ApplyBlockWithRegistry`
--   Pool      transaction_pool.go and transaction_batching.go: admission, selection, batches
--   Consensus node.go: proposals, approvals, finalization, the choice of a committee, and the
--             node's own turn, and the other messages, each a step; a history (Consensus/Steps) is
--             any sequence of steps
--   ForkChoice  fork_choice.go: the votes, their tally and the selected head
--   Network   p2p.go: what the other parts read of a node's P2P layer
--   Bar/Seeds bar_network.go: `generateRoundSeed` and `prngSelect` under `FindNodes`
--   Handshake handshake.go: pings, pongs, acknowledgements, and the pings of each round
--   Inactivity  inactivity_monitor.go: marks, reports and their records
--   Push      optimistic_push.go: requests, and responses with headers or a block
--   FastSync  fast_sync.go: the flag and the loop of `FastSyncManager`
--   Metrics   metrics.go: counters, windows of recent times, reports
--   Shutdown  graceful_shutdown.go: the hooks and their run
--   Api       api.go: `handleTransactionHistory` (History), `handleCreateTransaction`
--             (Transactions), and the endpoints that read the node (Queries)
--   Committee/Replacement  node.go: `ReplaceInactiveValidator`
--   Consensus/Startup  node.go: `NewAppNodeWithStores` and the balances of `Start`
-- A definition has the name of the function that it models, in snake case.
--
-- Conventions. Numbers are natural numbers; `add64` and `sub64` are Go's uint64 operations, with
-- their wrap-around. Addresses (20 bytes) and hashes (32 bytes) are numbers below 256^20 and
-- 256^32; where the code reads their bytes, the bytes are taken out. A Go map is an association
-- list; where code iterates over a map, the list's order stands for the order that the runtime
-- takes, and theorems hold for every list. Locks are not modelled: a method is one
-- step, which is what the lock that most of them hold from beginning to end makes of it. In node.go
-- it is a simplification: `processReceivedBlock` takes and releases `pendingBlocksMu` several times,
-- and `finalizeApprovedBlock` releases it after its claim, so interleavings with other goroutines
-- inside these two are not modelled. A goroutine is a step of its own. What
-- json.Marshal writes is kept as what was encoded. The hash functions and the shuffle of math/rand
-- are parameters, and so are the order of floating-point priorities and the numbers that the
-- metrics compute in float64. Whether a message is published is a test that the caller gives.
--
-- Fuel. The walks of the trie take as fuel the number of bits that are left of the key, which is
-- exactly how often they recur. The inner loop of `FindNodes` takes as fuel the number of
-- eligible peers, and the round-robin loop of an epoch the length of the epoch; the theorems on
-- them prove that this is enough. The loop of `getBlockHeaders` runs on fuel 102, one more than it
-- ever needs. The loop of `handleTransactionHistory` ends within fuel 102 where it ends at all; the
-- theorems on it say when.
--
-- Not modelled: cryptography and JSON (calls of libraries), BoltStore (calls of bbolt), the
-- transport of p2p.go (calls of libp2p), the routes of api.go and its reports on health and network,
-- the command line, tickers and signals, and the printing of the trie, which only formats.
pub mod Common
pub mod Types
pub mod Approval
pub mod Trie
pub mod State
pub mod Storage
pub mod Registry
pub mod Bar
pub mod Network
pub mod Handshake
pub mod Inactivity
pub mod Committee
pub mod Blockchain
pub mod Pool
pub mod Push
pub mod Consensus
pub mod ForkChoice
pub mod Metrics
pub mod FastSync
pub mod Shutdown
pub mod Api
pub mod Hex
