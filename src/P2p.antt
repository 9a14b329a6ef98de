-- ===== src/P2p.antt =====
-- x/nvx/keeper/p2p.go: the peers of a node and the messages between them. What is written to a
-- connection is listed; what is read from one is given.
pub mod Scan
pub mod Handlers
pub mod Steps
pub mod Preservation
pub mod Bounds
mod Tests
use Prim.Native.String.{◌++◌}
use mathlib.Core.List
use nuvex.Base.{
  ℕ, Bool, true, false, Option, none, some, List, [], ◌∷◌, String, len, length, if◌then◌else◌, map,
  ltb, string_key, nat_key,
}
use nuvex.Base.Word.{Int64}
use nuvex.Dict.{Dict, lookup, values}
use nuvex.Host.{Host}
use nuvex.Blockchain.Block.{Block}
use nuvex.Blockchain.Chain.{Blockchain, chain_height}
use nuvex.Mempool.{Mempool, PendingTx}

abbrev pub p2p_port : String
p2p_port = "26656"

abbrev pub max_peers : ℕ
max_peers = 50

-- The capacity of the channel of new blocks.
abbrev pub new_blocks_cap : ℕ
new_blocks_cap = 100

-- The type is "handshake", "ping", "pong", "get_blocks", "blocks", "new_block", "new_tx",
-- "get_peers" or "peers", or any other text that a peer sends. The time is set when a message is
-- sent.
pub record P2pMessage : Type 0 where
  pub msg_type : String
  pub chain_id : String
  pub height : Int64
  pub payload : List ℕ
  pub node_id : String

-- encoding/json on what goes over the wire.
pub record Wire : Type 0 where
  pub marshal_message : P2pMessage → Option (List ℕ)
  pub unmarshal_message : List ℕ → Option P2pMessage
  pub marshal_block : Block → Option (List ℕ)
  pub unmarshal_block : List ℕ → Option Block
  pub marshal_blocks : List Block → List ℕ
  pub marshal_tx : PendingTx → List ℕ
  pub unmarshal_tx : List ℕ → Option PendingTx
  pub marshal_addresses : List String → List ℕ

-- `conn` names the connection.
pub record Peer : Type 0 where
  pub id : String
  pub address : String
  pub conn : ℕ
  pub height : Int64
  pub connected : ℕ
  pub last_seen : ℕ
  pub is_outbound : Bool

-- Each connection's handler holds a pointer to its peer, and the map holds one for each name:
-- `handled` is the peers by their connections, and `peers` says which connection a name stands for.
-- `outbox` lists what was written, the last first.
pub record P2pNode : Type 0 where
  pub node_id : String
  pub address : String
  pub peers : Dict String ℕ
  pub handled : Dict ℕ Peer
  pub blockchain : Blockchain
  pub mempool : Mempool
  pub running : Bool
  pub new_blocks : List Block
  pub outbox : List (ℕ × List ℕ)

unfoldable pub new_p2p_node : String → Blockchain → Mempool → P2pNode
new_p2p_node node_id blockchain mempool = record {
  node_id = node_id;
  address = "0.0.0.0:" ++ p2p_port;
  peers = [];
  handled = [];
  blockchain = blockchain;
  mempool = mempool;
  running = false;
  new_blocks = [];
  outbox = [];
}

module _ (wire : Wire) where
  -- What cannot be written is dropped; only the handshake looks at the error.
  unfoldable pub send_message : ℕ → P2pMessage → P2pNode → P2pNode
  send_message conn msg n = elim (wire.marshal_message msg) [
    | none ↦ n
    | some bytes ↦ record n { outbox = (conn, List.◌++◌ bytes (10 ∷ [])) ∷ n.outbox }
  ]

  -- The fields that every message of the node has.
  abbrev pub own_message : String → Int64 → List ℕ → P2pNode → P2pMessage
  own_message msg_type height payload n = record {
    msg_type = msg_type;
    chain_id = "nuvex-1";
    height = height;
    payload = payload;
    node_id = n.node_id;
  }

  unfoldable pub send_handshake : ℕ → P2pNode → P2pNode
  unfolding send_message
  send_handshake conn n =
      send_message conn (own_message "handshake" (chain_height n.blockchain) [] n) n

  -- A loop over the map that sends one message to each peer that passes a test.
  unfoldable pub send_where : (ℕ → Bool) → P2pMessage → List ℕ → P2pNode → P2pNode
  unfolding send_message
  send_where test msg [] n = n
  send_where test msg (conn ∷ conns) n =
      send_where test msg conns (if test conn then send_message conn msg n else n)

  unfoldable pub broadcast_block : Block → P2pNode → P2pNode
  unfolding send_where
  broadcast_block block n = elim (wire.marshal_block block) [
    | none ↦ n
    | some bytes ↦
        send_where (λ conn. true) (own_message "new_block" block.height bytes n) (values n.peers) n
  ]

  unfoldable pub broadcast_tx : PendingTx → P2pNode → P2pNode
  unfolding send_where
  broadcast_tx tx n =
      send_where (λ conn. true) (own_message "new_tx" 0 (wire.marshal_tx tx) n) (values n.peers) n

pub record P2pStats : Type 0 where
  pub node_id : String
  pub address : String
  pub peer_count : ℕ
  pub peer_list : List String
  pub chain_height : Int64
  pub running : Bool

-- A line of the list of peers, for a connection that is in the map.
unfoldable pub peer_line : Host → P2pNode → ℕ → String
peer_line host n conn = elim (lookup conn n.handled) [
  | none ↦ ""
  | some peer ↦ peer.address ++ " (height:" ++ host.fmt_int peer.height ++ ")"
]

unfoldable pub stats : Host → P2pNode → P2pStats
unfolding peer_line
stats host n = record {
  node_id = n.node_id;
  address = n.address;
  peer_count = length n.peers;
  peer_list = map (peer_line host n) (values n.peers);
  chain_height = chain_height n.blockchain;
  running = n.running;
}
