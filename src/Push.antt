-- ===== src/Push.antt =====
-- optimistic_push.go: requests for blocks among whitelisted peers. The handlers run only once the
-- P2P layer has delivered a message, so they take the node's host. A message arrives as `none`
-- where json.Unmarshal fails. Whether a message is published is a test that the caller gives; one
-- that json.Marshal refuses counts as not published.
pub mod Headers
pub mod Responses
mod Tests
use dyphira_chain.Common.{
  ℕ, zero, suc, ◌+◌, ◌-◌, Bool, true, false, not, List, [], ◌∷◌, ◌++◌, Option, none, some, length,
  ltb, leb, ◌==◌, if◌then◌else◌, add64,
}
use dyphira_chain.Types.{Header, Block}
use dyphira_chain.Storage.{Storage}
use dyphira_chain.Blockchain.{Blockchain, get_block_by_height}
use dyphira_chain.Bar.Peers.{
  PeerId, PeerStatus, greylisted, whitelisted, banned, PeerInfo, BarNetwork,
}
use dyphira_chain.Bar.{update_pom_score, get_peer_status, values}
use dyphira_chain.Network.{Host}

pub data MessageType : Type 0 where
  push_request push_response block_data unknown : MessageType

pub record PushMessage : Type 0 where
  pub type : MessageType
  pub from : PeerId
  pub to : PeerId
  pub request_id : ℕ
  pub timestamp : ℕ
  pub client_version : ℕ
  pub block_height : ℕ
  pub block : Option Block
  pub block_headers : Option (List Header)
  pub is_light_node : Bool

-- `OptimisticPushManager` with what it uses of its node, for a store of type `S`.
pub record PushManager (S : Type 0) : Type 0 where
  pub host : Option Host
  pub bar : BarNetwork
  pub chain : Blockchain S
  pub sent : List PushMessage

-- The version that a node announces, "dyphira-v1.0".
abbrev pub own_version : ℕ
own_version = 1

-- The reason for a higher score of misbehaviour.
abbrev pub malformed : ℕ
malformed = 1

pub data PushError : Type 0 where
  no_p2p no_peers : PushError

-- A request for blocks.
abbrev pub request :
    Host → (to : PeerId) → (request_id : ℕ) → (is_light_node : Bool) → (now : ℕ) → PushMessage
request host to request_id is_light_node now = record {
  type = push_request;
  from = host.id;
  to = to;
  request_id = request_id;
  timestamp = now;
  client_version = own_version;
  block_height = 0;
  block = none;
  block_headers = none;
  is_light_node = is_light_node;
}

-- The first height whose header is sent.
abbrev pub start_height : ℕ → ℕ
start_height height = if ltb 100 height then height - 100 else 0

module _ {S : Type 0} where
  module _ ⦃st : Storage S⦄ where
    -- The loop of `getBlockHeaders` while `i <= height`; `none` is out of fuel.
    unfoldable pub headers_up_to : (fuel : ℕ) → Blockchain S → (i height : ℕ) → Option (List Header)
    headers_up_to zero bc i height = none
    headers_up_to (suc fuel) bc i height =
        let rest = headers_up_to fuel bc (add64 i 1) height in
        if leb i height
        then elim rest [
          | none ↦ none
          | some more ↦ elim (get_block_by_height bc i) [
            | none ↦ some more
            | some b ↦ some (b.header ∷ more)
          ]
        ]
        else some []

    -- `getBlockHeaders`; the loop makes at most 102 tests.
    unfoldable pub get_block_headers : Blockchain S → (height : ℕ) → Option (List Header)
    unfolding headers_up_to
    get_block_headers bc height = headers_up_to 102 bc (start_height height) height

    unfoldable pub get_block_data : Blockchain S → (height : ℕ) → Option Block
    get_block_data bc height = get_block_by_height bc height

    -- The response to a request.
    unfoldable pub response :
        Host → PushManager S → (to request_id : ℕ) → Bool → (now : ℕ) → PushMessage
    unfolding get_block_headers get_block_data
    response host pm to request_id is_light_node now = record {
      type = push_response;
      from = host.id;
      to = to;
      request_id = request_id;
      timestamp = now;
      client_version = own_version;
      block_height = pm.chain.current_height;
      block = if is_light_node then none else get_block_data pm.chain pm.chain.current_height;
      block_headers =
          if is_light_node then get_block_headers pm.chain pm.chain.current_height else none;
      is_light_node = is_light_node;
    }

  module _ (published : PushMessage → Bool) where
    unfoldable pub publish : PushManager S → PushMessage → PushManager S
    publish pm message =
        if published message then record pm { sent = pm.sent ++ message ∷ [] } else pm

    -- `handlePushRequest`, with `sendPushResponse`.
    unfoldable pub handle_push_request :
        ⦃st : Storage S⦄ → Host → PushManager S → PushMessage → (now : ℕ) → PushManager S
    unfolding publish response
    handle_push_request host pm m now =
        if not (m.to == host.id)
        then pm
        else (let (status, exists) = get_peer_status pm.bar m.from in
            let answered = publish pm (response host pm m.from m.request_id m.is_light_node now) in
            if not exists
            then pm
            else elim status [ whitelisted ↦ answered | greylisted ↦ pm | banned ↦ pm ])

    -- `handlePushResponse`: what the message carries is only logged, by two functions that the
    -- source leaves to be written.
    unfoldable pub handle_push_response : PushManager S → PushMessage → PushManager S
    handle_push_response pm m = pm

    -- `handleBlockData`, likewise.
    unfoldable pub handle_block_data : PushManager S → PushMessage → PushManager S
    handle_block_data pm m = pm

    -- The `switch` of `handleOptimisticPushMessage`.
    unfoldable pub dispatch :
        ⦃st : Storage S⦄
        → MessageType
        → Host
        → PushManager S
        → PushMessage
        → (now : ℕ) → PushManager S
    dispatch push_request host pm m now = handle_push_request host pm m now
    dispatch push_response host pm m now = handle_push_response pm m
    dispatch block_data host pm m now = handle_block_data pm m
    dispatch unknown host pm m now = pm

    -- `handleOptimisticPushMessage` for a message of its topic, which a peer sent on.
    unfoldable pub handle_optimistic_push_message :
        ⦃st : Storage S⦄
        → Host
        → PushManager S
        → Option PushMessage
        → (received_from : PeerId) → (now : ℕ) → PushManager S
    unfolding dispatch
    handle_optimistic_push_message host pm message received_from now = elim message [
      | none ↦ record pm { bar = update_pom_score pm.bar received_from 1 malformed now }
      | some m ↦ if m.from == host.id then pm else dispatch m.type host pm m now
    ]

    -- The loop of `RequestOptimisticPush`.
    unfoldable pub request_all :
        Host → PushManager S → List PeerInfo → (request_id : ℕ) → Bool → (now : ℕ) → PushManager S
    unfolding publish
    request_all host pm [] request_id is_light_node now = pm
    request_all host pm (info ∷ rest) request_id is_light_node now =
        request_all host (publish pm (request host info.id request_id is_light_node now)) rest
          request_id is_light_node now

    -- `RequestOptimisticPush`; the number in its request's name is the time.
    unfoldable pub request_optimistic_push :
        PushManager S → Bool → (now : ℕ) → PushManager S × Option PushError
    unfolding request_all
    request_optimistic_push pm is_light_node now = elim pm.host [
      | none ↦ (pm, some no_p2p)
      | some host ↦
          let peers = values pm.bar.whitelist in
          if length peers == 0
          then (pm, some no_peers)
          else (request_all host pm peers now is_light_node now, none)
    ]

    unfoldable pub trigger_optimistic_push_for_new_peer :
        PushManager S → PeerId → (now : ℕ) → PushManager S
    unfolding publish
    trigger_optimistic_push_for_new_peer pm p now = elim pm.host [
      | none ↦ pm
      | some host ↦ publish pm (request host p now false now)
    ]
