-- ===== src/P2p/Steps.antt =====
-- What can happen to a node on the network, and in what order.
use nuvex.Base.{ℕ, Bool, Option, List, [], ◌∷◌, String, nat_key}
use nuvex.Base.Word.{Int64}
use nuvex.Host.{Host}
use nuvex.Blockchain.Block.{Block}
use nuvex.Mempool.{PendingTx}
use nuvex.P2p.{P2pMessage, Wire, P2pNode, broadcast_block, broadcast_tx}
use nuvex.P2p.Handlers.{
  Flow, going, stuck, crashed, handle_message, open_connection, close_connection, ping_tick,
  sync_tick, start_node, stop_node,
}

pub data NetworkEvent : Type 0 where
  begun ended pinged synced : NetworkEvent
  opened : ℕ → String → Bool → ℕ → Bool → Option P2pMessage → NetworkEvent
  arrived : ℕ → Int64 → ℕ → P2pMessage → NetworkEvent
  closed : ℕ → NetworkEvent
  announced : Block → NetworkEvent
  relayed : PendingTx → NetworkEvent

module _ (host : Host) (wire : Wire) where
  -- A handler that waits holds up its own connection only; a crash ends the process.
  unfoldable pub network_step : NetworkEvent → P2pNode → P2pNode × Flow
  network_step begun n = start_node n
  network_step ended n = (stop_node n, going)
  network_step pinged n = (ping_tick host wire n, going)
  network_step synced n = (sync_tick host wire n, going)
  network_step (opened conn address outbound now written first) n =
      ((open_connection host wire conn address outbound now written first n).0, going)
  network_step (arrived conn nanos now msg) n = handle_message host wire conn nanos now msg n
  network_step (closed conn) n = (close_connection host wire conn n, going)
  network_step (announced block) n = (broadcast_block wire block n, going)
  network_step (relayed tx) n = (broadcast_tx wire tx n, going)

  unfoldable pub network_run : List NetworkEvent → P2pNode → P2pNode × Flow
  network_run [] n = (n, going)
  network_run (event ∷ events) n =
      let (n', flow) = network_step event n in
      let rest = network_run events n' in
      elim flow [ crashed ↦ (n', crashed) | going ↦ rest | stuck ↦ rest ]
