-- ===== src/P2p/Bounds.antt =====
-- What no sequence of network events changes: the bounds on the peers and on the queue of new blocks,
-- and the chain.
use nuvex.Base.{ℕ, ◌≡◌, true, some, List, [], ◌∷◌, length, arith, ◌≤◌, leb, string_key, nat_key}
use nuvex.Base.Word.{Int64, ◌<64◌}
use nuvex.Dict.{values}
use nuvex.Host.{Host}
use nuvex.Blockchain.Block.{Block}
use nuvex.Blockchain.Chain.{Blockchain, chain_height}
use nuvex.P2p.{P2pMessage, Wire, P2pNode, new_blocks_cap, own_message, broadcast_tx}
use nuvex.P2p.Handlers.{
  Flow, going, stuck, crashed, queue_block, handle_message, ping_tick, sync_tick, start_node,
  stop_node, peer_height, receive_block,
}
use nuvex.P2p.Steps.{
  NetworkEvent, begun, ended, pinged, synced, opened, arrived, closed, announced, relayed,
  network_step, network_run,
}
use nuvex.P2p.Preservation.{
  IsBounded, send_where-IsBounded, handle_message-IsBounded, open_connection-IsBounded,
  close_connection-IsBounded, broadcast_block-IsBounded, ticked-IsBounded,
}

module _ (host : Host) (wire : Wire) (chain : Blockchain) (queued : ℕ) where
  network_step-IsBounded :
      (event : NetworkEvent) (n : P2pNode)
      → IsBounded chain queued n
      → IsBounded chain queued (network_step host wire event n).0
  unfolding network_step start_node stop_node ping_tick sync_tick broadcast_tx IsBounded
  network_step-IsBounded begun n h = h
  network_step-IsBounded ended n h = h
  network_step-IsBounded pinged n h =
      ticked-IsBounded host wire chain queued (λ conn. true)
        (own_message wire "ping" (chain_height n.blockchain) [] n) n h
  network_step-IsBounded synced n h =
      ticked-IsBounded host wire chain queued
        (λ conn. chain_height n.blockchain <64 peer_height n conn)
        (own_message wire "get_blocks" (chain_height n.blockchain) [] n) n h
  network_step-IsBounded (opened conn address outbound now written first) n h =
      open_connection-IsBounded host wire chain queued conn address outbound now written first n h
  network_step-IsBounded (arrived conn nanos now msg) n h =
      handle_message-IsBounded host wire chain queued conn nanos now msg n h
  network_step-IsBounded (closed conn) n h =
      close_connection-IsBounded host wire chain queued conn n h
  network_step-IsBounded (announced block) n h =
      broadcast_block-IsBounded host wire chain queued block n h
  network_step-IsBounded (relayed tx) n h =
      send_where-IsBounded host wire chain queued (λ conn. true)
        (own_message wire "new_tx" 0 (wire.marshal_tx tx) n) (values n.peers) n h

flow-IsBounded :
    (chain : Blockchain) (queued : ℕ) (flow : Flow) (n : P2pNode) (rest : P2pNode × Flow)
    → IsBounded chain queued n
    → IsBounded chain queued rest.0
    → IsBounded chain queued
        (elim flow as (λ x. P2pNode × Flow) [
          | crashed ↦ (n, crashed)
          | going ↦ rest
          | stuck ↦ rest
        ]).0
flow-IsBounded chain queued going n rest h h' = h'
flow-IsBounded chain queued stuck n rest h h' = h'
flow-IsBounded chain queued crashed n rest h h' = h

-- Whatever happens on the network, in whatever order, a node with at most 50 peers and at most 100
-- queued blocks keeps within both bounds, its queue gets no shorter, and its chain stays what it was.
pub network_run-IsBounded :
    (host : Host) (wire : Wire) (chain : Blockchain) (queued : ℕ) (events : List NetworkEvent)
    (n : P2pNode)
    → IsBounded chain queued n
    → IsBounded chain queued (network_run host wire events n).0
unfolding network_run
network_run-IsBounded host wire chain queued [] n h = h
network_run-IsBounded host wire chain queued (event ∷ events) n h =
    let (n', flow) = network_step host wire event n in
    let h' = network_step-IsBounded host wire chain queued event n h in
    flow-IsBounded chain queued flow n' (network_run host wire events n') h'
      (network_run-IsBounded host wire chain queued events n' h')

full-stuck :
    (host : Host) (wire : Wire) (conn : ℕ) (nanos : Int64) (now : ℕ) (msg : P2pMessage)
    (block : Block) (n : P2pNode)
    → new_blocks_cap ≤ length n.new_blocks
    → wire.unmarshal_block msg.payload ≡ some block
    → msg.msg_type ≡ "new_block"
    → (handle_message host wire conn nanos now msg n).1 ≡ stuck
unfolding handle_message receive_block queue_block
full-stuck host wire conn nanos now msg block n h e k =
    let full : leb new_blocks_cap (length n.new_blocks) ≡ true = ground arith in
    simp (k, e, full, handle_message, receive_block, queue_block)

-- Once 100 blocks are queued, whatever happens on the network later, the handler of every connection
-- that delivers a further block that can be read waits and does not go on.
pub network_run-stuck :
    (host : Host) (wire : Wire) (events : List NetworkEvent) (n : P2pNode) (conn : ℕ)
    (nanos : Int64) (now : ℕ) (msg : P2pMessage) (block : Block)
    → IsBounded n.blockchain new_blocks_cap n
    → wire.unmarshal_block msg.payload ≡ some block
    → msg.msg_type ≡ "new_block"
    → (handle_message host wire conn nanos now msg (network_run host wire events n).0).1 ≡ stuck
unfolding IsBounded
network_run-stuck host wire events n conn nanos now msg block h e k =
    full-stuck host wire conn nanos now msg block (network_run host wire events n).0
      (network_run-IsBounded host wire n.blockchain new_blocks_cap events n h).1 e k
