-- ===== src/P2p/Handlers.antt =====
-- x/nvx/keeper/p2p.go: what a connection's handler does with each message.
use nuvex.Base.{
  ℕ, Bool, true, false, not, Option, none, some, [], ◌∷◌, ◌++◌, String, len, length, leb, ltb,
  if◌then◌else◌, string_key, nat_key, ◌==◌, ok, err, panic, map,
}
use nuvex.Base.Word.{Int64, ◌<64◌}
use nuvex.Dict.{lookup, insert, erase, adjust, values}
use nuvex.Host.{Host}
use nuvex.Blockchain.Block.{Block}
use nuvex.Blockchain.Chain.{get_recent_blocks, chain_height}
use nuvex.Mempool.{PendingTx, submit}
use nuvex.P2p.{
  P2pMessage, Wire, Peer, P2pNode, max_peers, new_blocks_cap, send_message, own_message,
  send_handshake, send_where,
}

-- How a handler goes on: a send into a full channel waits, and nothing receives from it.
pub data Flow : Type 0 where
  going stuck crashed : Flow

abbrev pub peer_address : P2pNode → ℕ → String
peer_address n conn = elim (lookup conn n.handled) [ none ↦ "" | some peer ↦ peer.address ]

abbrev pub peer_height : P2pNode → ℕ → Int64
peer_height n conn = elim (lookup conn n.handled) [ none ↦ 0 | some peer ↦ peer.height ]

abbrev pub write_peer : ℕ → (Peer → Peer) → P2pNode → P2pNode
write_peer conn f n = record n { handled = adjust conn f n.handled }

module _ (host : Host) (wire : Wire) where
  unfoldable pub send_peer_list : ℕ → P2pNode → P2pNode
  unfolding send_message
  send_peer_list conn n =
      send_message wire conn
        (own_message wire "peers" 0 (wire.marshal_addresses (map (peer_address n) (values n.peers)))
          n)
        n

  -- `newBlocks <- &block`
  unfoldable pub queue_block : Block → P2pNode → P2pNode × Flow
  queue_block block n =
      if leb new_blocks_cap (length n.new_blocks)
      then (n, stuck)
      else (record n { new_blocks = n.new_blocks ++ block ∷ [] }, going)

  -- The transaction's own time, priority and hash are not used.
  unfoldable pub submit_tx : Int64 → ℕ → PendingTx → P2pNode → P2pNode × Flow
  submit_tx nanos now tx n =
      let (mempool, outcome) =
        submit host tx.from tx.to tx.amount tx.fee tx.nonce nanos now n.mempool in
      (
        record n { mempool = mempool },
        elim outcome [ ok _ ↦ going | err _ ↦ going | panic ↦ crashed ],
      )

  unfoldable pub send_blocks : ℕ → P2pNode → P2pNode × Flow
  unfolding send_message
  send_blocks conn n = elim (get_recent_blocks 20 n.blockchain) [
    | err e ↦ absurd e
    | panic ↦ (n, crashed)
    | ok blocks ↦ (
      send_message wire conn
          (own_message wire "blocks" (chain_height n.blockchain) (wire.marshal_blocks blocks) n) n,
      going,
    )
  ]

  unfoldable pub receive_block : P2pMessage → P2pNode → P2pNode × Flow
  unfolding queue_block
  receive_block msg n = elim (wire.unmarshal_block msg.payload) [
    | none ↦ (n, going)
    | some block ↦ queue_block block n
  ]

  unfoldable pub receive_tx : Int64 → ℕ → P2pMessage → P2pNode → P2pNode × Flow
  unfolding submit_tx
  receive_tx nanos now msg n = elim (wire.unmarshal_tx msg.payload) [
    | none ↦ (n, going)
    | some tx ↦ submit_tx nanos now tx n
  ]

  -- The body of the loop of `handlePeer`; `nanos` and `now` are the clock's.
  unfoldable pub handle_message : ℕ → Int64 → ℕ → P2pMessage → P2pNode → P2pNode × Flow
  unfolding send_peer_list receive_block receive_tx send_blocks send_message
  handle_message conn nanos now msg n =
      let seen = write_peer conn (λ peer. record peer { last_seen = now }) n in
      if msg.msg_type == "ping"
      then (
        send_message wire conn (own_message wire "pong" (chain_height n.blockchain) [] n) seen,
        going,
      )
      else if msg.msg_type == "pong"
      then (write_peer conn (λ peer. record peer { height = msg.height }) seen, going)
      else if msg.msg_type == "get_blocks"
      then send_blocks conn seen
      else if msg.msg_type == "new_block"
      then receive_block msg seen
      else if msg.msg_type == "new_tx"
      then receive_tx nanos now msg seen
      else if msg.msg_type == "get_peers"
      then (send_peer_list conn seen, going)
      else (seen, going)

  -- The peer with the name and the height of its handshake enters the map, if there is room.
  unfoldable pub admit_peer : Peer → P2pNode → P2pNode × Bool
  admit_peer peer n = if leb max_peers (length n.peers) then (n, false) else (
    record n {
      peers = insert peer.id peer.conn n.peers;
      handled = insert peer.conn peer n.handled;
    },
    true,
  )

  unfoldable pub admit_first : ℕ → String → Bool → ℕ → Option P2pMessage → P2pNode → P2pNode × Bool
  unfolding admit_peer
  admit_first conn address is_outbound now none n = (n, false)
  admit_first conn address is_outbound now (some msg) n =
      if not (msg.msg_type == "handshake")
      then (n, false)
      else admit_peer
          (record {
            id = msg.node_id;
            address = address;
            conn = conn;
            height = msg.height;
            connected = now;
            last_seen = now;
            is_outbound = is_outbound;
          })
          n

  -- `handleConnection` up to its loop: the handshake is sent, which may fail, and the first message
  -- read, which may be missing. The Boolean says whether the loop is entered.
  unfoldable pub open_connection :
      ℕ → String → Bool → ℕ → Bool → Option P2pMessage → P2pNode → P2pNode × Bool
  unfolding send_handshake admit_first
  open_connection conn address is_outbound now written first n =
      let greeted = send_handshake wire conn n in
      if not written
      then (greeted, false)
      else admit_first conn address is_outbound now first greeted

  -- `handleConnection` after its loop: the name leaves the map, whatever connection it stands for.
  unfoldable pub close_connection : ℕ → P2pNode → P2pNode
  close_connection conn n = elim (lookup conn n.handled) [
    | none ↦ n
    | some peer ↦ record n { peers = erase peer.id n.peers; handled = erase conn n.handled }
  ]

  -- One tick of `pingRoutine`, and one of `syncRoutine`.
  unfoldable pub ping_tick : P2pNode → P2pNode
  unfolding send_where
  ping_tick n =
      if not n.running
      then n
      else send_where wire (λ conn. true) (own_message wire "ping" (chain_height n.blockchain) [] n)
          (values n.peers) n

  unfoldable pub sync_tick : P2pNode → P2pNode
  unfolding send_where
  sync_tick n =
      if not n.running
      then n
      else send_where wire (λ conn. chain_height n.blockchain <64 peer_height n conn)
          (own_message wire "get_blocks" (chain_height n.blockchain) [] n) (values n.peers) n

-- `Start` when the port can be listened on; the log line quotes 16 bytes of the node's name.
unfoldable pub start_node : P2pNode → P2pNode × Flow
start_node n = (record n { running = true }, if ltb (len n.node_id) 16 then crashed else going)

unfoldable pub stop_node : P2pNode → P2pNode
stop_node n = record n { running = false }
