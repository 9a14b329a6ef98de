-- ===== src/P2p/Tests.antt =====
-- A node with a full queue, one peer, and messages that encode as short texts.
use nuvex.Base.{
  ℕ, zero, suc, ◌≡◌, refl, true, false, none, some, List, [], ◌∷◌, ◌++◌, String, arith,
}
use nuvex.State.Samples.{sample_host}
use nuvex.Blockchain.Block.{Block}
use nuvex.Blockchain.Chain.{Blockchain}
use nuvex.Mempool.{new_mempool}
use nuvex.P2p.{P2pMessage, Wire, P2pNode, new_p2p_node}
use nuvex.P2p.Handlers.{stuck, handle_message}
use nuvex.P2p.Steps.{NetworkEvent, begun, pinged, opened, arrived, closed, network_run}
use nuvex.P2p.Preservation.{IsBounded}
use nuvex.P2p.Bounds.{network_run-IsBounded, network_run-stuck}
use nuvex.P2p.Scan.{read_message, read_message_drops}

abbrev genesis : Block
genesis = record {
  height = 0;
  hash = "g";
  prev_hash = "0";
  timestamp = "now";
  validator = "v";
  transactions = [];
  tx_count = 0;
  total_fees = 0;
  burned_amount = 0;
  mining_reward = 0;
  state_root = "";
  signature = "";
}

abbrev msg : String → P2pMessage
msg t = record {
  msg_type = t;
  chain_id = "nuvex-1";
  height = 3;
  payload = 1 ∷ [];
  node_id = "peer";
}

abbrev sample_wire : Wire
sample_wire = record {
  marshal_message = λ m. some (1 ∷ []);
  unmarshal_message = λ bytes. some (msg "ping");
  marshal_block = λ b. some [];
  unmarshal_block = λ bytes. some genesis;
  marshal_blocks = λ bs. [];
  marshal_tx = λ tx. [];
  unmarshal_tx = λ bytes. none;
  marshal_addresses = λ addresses. [];
}

abbrev copies : ℕ → Block → List Block
copies zero b = []
copies (suc n) b = b ∷ copies n b

abbrev chain : Blockchain
chain = record { blocks = genesis ∷ []; file = none }

abbrev history : List NetworkEvent
history =
    begun
    ∷ opened 4 "10.0.0.1:26656" false 1 true (some (msg "handshake"))
    ∷ arrived 4 0 2 (msg "new_block")
    ∷ arrived 4 0 3 (msg "pong")
    ∷ pinged
    ∷ closed 4
    ∷ []

abbrev full_node : P2pNode
full_node = record (new_p2p_node "node" chain new_mempool) { new_blocks = copies 100 genesis }

new_node-IsBounded : IsBounded chain 0 (new_p2p_node "node" chain new_mempool)
unfolding IsBounded new_p2p_node
new_node-IsBounded = (omega arith, omega arith, omega arith, refl)

full_node-IsBounded : IsBounded chain 100 full_node
unfolding IsBounded new_p2p_node
full_node-IsBounded = (omega arith, omega arith, omega arith, refl)

network_run-IsBounded_example :
    IsBounded chain 0
      (network_run sample_host sample_wire history (new_p2p_node "node" chain new_mempool)).0
network_run-IsBounded_example =
    network_run-IsBounded sample_host sample_wire chain 0 history
      (new_p2p_node "node" chain new_mempool) new_node-IsBounded

network_run-stuck_example :
    (handle_message sample_host sample_wire 5 0 9
      (msg "new_block")
      (network_run sample_host sample_wire history full_node).0).1
    ≡ stuck
unfolding new_p2p_node
network_run-stuck_example =
    network_run-stuck sample_host sample_wire history full_node 5 0 9 (msg "new_block") genesis
      full_node-IsBounded refl refl

read_message_drops_example :
    read_message sample_wire ((7 ∷ [] ++ 10 ∷ 8 ∷ 10 ∷ []) ∷ (9 ∷ 10 ∷ []) ∷ [])
    ≡ (some (msg "ping"), (9 ∷ 10 ∷ []) ∷ [])
read_message_drops_example =
    read_message_drops sample_wire (7 ∷ []) (8 ∷ 10 ∷ []) ((9 ∷ 10 ∷ []) ∷ [])
      ((λ e. omega (arith, e)), tt)
