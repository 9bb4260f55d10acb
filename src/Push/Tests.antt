-- ===== src/Push/Tests.antt =====
-- Runs of the optimistic push at concrete inputs.
use dyphira_chain.Common.{
  ◌+◌, ◌≡◌, ◌≢◌, ◌⊎◌, ◌==◌, ◌&&◌, ◌++◌, if◌then◌else◌, refl, Bool, true, false, List, [], ◌∷◌, map,
  none, some, arith,
}
use dyphira_chain.Common.Dict.{has}
use dyphira_chain.Types.{Header, Block}
use dyphira_chain.Storage.{MemoryStore, memory_store, new_memory_store, tip_key, find}
use dyphira_chain.Blockchain.{
  Encoding, Blockchain, compute_hash, create_genesis_block, new_blockchain, get_block_by_height,
}
use dyphira_chain.Blockchain.Growth.{IsChain}
use dyphira_chain.Blockchain.Restart.{new_blockchain-IsChain}
use dyphira_chain.Bar.Peers.{BarNetwork, new_bar_network}
use dyphira_chain.Bar.Invariant.{IsValid, new-IsValid}
use dyphira_chain.Bar.Lifecycle.{add, promote, run, run-IsValid}
use dyphira_chain.Network.{Host}
use dyphira_chain.Push.{PushMessage, PushManager, request, handle_push_request, push_response}
use dyphira_chain.Push.Headers.{header_at}
use dyphira_chain.Push.Responses.{last_heights, handle_push_request_lem}

-- Hashes that count blocks.
instance abbrev counting : Encoding
counting = record {
  header_hash = λ h. h.block_number + 1;
  hash_of_hashes = λ hs. 5;
  block_size = λ b. 100;
}

abbrev chain : Blockchain MemoryStore
chain = new_blockchain new_memory_store

no_tip : memory_store.get new_memory_store tip_key ≡ none
unfolding find
no_tip = refl

genesis_hash : create_genesis_block.header.hash ≢ 0
unfolding create_genesis_block compute_hash
genesis_hash = λ e. omega (arith, e)

chain-IsChain : IsChain chain
chain-IsChain = (new_blockchain-IsChain new_memory_store no_tip genesis_hash).0

abbrev online : PushMessage → Bool
online m = true

abbrev self : Host
self = record { id = 9; listen_addr = 99; on_handshake = true }

abbrev start : BarNetwork
start = new_bar_network none (7 ∷ [])

-- The first peer is whitelisted, the second greylisted.
abbrev peers : BarNetwork
peers = run start (add 1 11 100 ∷ promote 1 200 ∷ add 2 22 100 ∷ [])

peers-IsValid : IsValid peers
peers-IsValid =
    run-IsValid start (add 1 11 100 ∷ promote 1 200 ∷ add 2 22 100 ∷ []) (new-IsValid none (7 ∷ []))

abbrev manager : PushManager MemoryStore
manager = record { host = some self; bar = peers; chain = chain; sent = [] }

-- A light node's request to this node.
abbrev asked : PushMessage
asked = request (record { id = 1; listen_addr = 11; on_handshake = true }) 9 4 true 300

handle_push_request_example :
    (r : PushMessage) × (handle_push_request online self manager asked 400 ≡ record manager {
      sent = [] ++ (if (9 == 9) && (has 1 peers.whitelist && online r) then r ∷ [] else []);
    })
    × ((r.type ≡ push_response) × (r.from ≡ 9) × (r.to ≡ 1))
    × ((r.request_id ≡ 4) × (r.block_height ≡ chain.current_height))
    × (((asked.is_light_node ≡ true)
          × (r.block ≡ none)
          × (hs : List Header) × (r.block_headers ≡ some hs)
          × (map (λ h. h.block_number) hs ≡ last_heights chain.current_height)
          × (map some hs ≡ map (header_at chain) (last_heights chain.current_height)))
        ⊎ ((asked.is_light_node ≡ false)
            × (r.block_headers ≡ none)
            × (b : Block) × (r.block ≡ some b)
            × (get_block_by_height chain chain.current_height ≡ some b)
            × (b.header.block_number ≡ chain.current_height)
            × (b.header.hash ≡ chain.tip)))
handle_push_request_example =
    handle_push_request_lem online self manager asked 400 chain-IsChain peers-IsValid
