-- ===== src/P2p/Preservation.antt =====
-- Each thing that a node does on the network keeps its bounds and its chain.
use nuvex.Base.{
  ℕ, ◌≡◌, Bool, true, not, Option, none, some, List, [], ◌∷◌, String, length, arith, ◌≤◌, leb,
  if◌then◌else◌, inl, inr, Bool-cases, Option-cases, string_key, nat_key, ◌==◌, Outcome-cases,
  length-append, map,
}
use nuvex.Base.Word.{Int64}
use nuvex.Dict.{values, lookup, length-insert_le, length-erase_le}
use nuvex.Host.{Host}
use nuvex.Blockchain.Block.{Block}
use nuvex.Blockchain.Chain.{Blockchain, get_recent_blocks, chain_height}
use nuvex.Mempool.{PendingTx}
use nuvex.P2p.{
  P2pMessage, Wire, Peer, P2pNode, max_peers, new_blocks_cap, send_message, own_message,
  send_handshake, send_where, broadcast_block,
}
use nuvex.P2p.Handlers.{
  write_peer, send_peer_list, queue_block, submit_tx, send_blocks, handle_message, admit_peer,
  open_connection, close_connection, peer_address, receive_block, receive_tx, admit_first,
}

-- At most 50 peers, at least `queued` and at most 100 queued blocks, and this chain.
unfoldable pub IsBounded : Blockchain → ℕ → P2pNode → Type 0
IsBounded chain queued n =
    (length n.peers ≤ max_peers)
    × (queued ≤ length n.new_blocks)
    × (length n.new_blocks ≤ new_blocks_cap)
    × (n.blockchain ≡ chain)

-- Both branches of a test.
either-IsBounded {ℓ} :
    {A : Type ℓ} (chain : Blockchain) (queued : ℕ) (test : Bool) (x y : P2pNode × A)
    → IsBounded chain queued x.0
    → IsBounded chain queued y.0
    → IsBounded chain queued (if test then x else y).0
either-IsBounded chain queued test x y hx hy = elim (Bool-cases test) [
  | inl e ↦ rw e hx
  | inr e ↦ rw e hy
]

module _ (host : Host) (wire : Wire) (chain : Blockchain) (queued : ℕ) where
  send_message-IsBounded :
      (conn : ℕ) (msg : P2pMessage) (n : P2pNode)
      → IsBounded chain queued n
      → IsBounded chain queued (send_message wire conn msg n)
  unfolding send_message IsBounded
  send_message-IsBounded conn msg n h = elim (Option-cases (wire.marshal_message msg)) [
    | inl e ↦ rw (e, send_message) h
    | inr (_, e) ↦ rw (e, send_message) h
  ]

  pub send_where-IsBounded :
      (test : ℕ → Bool) (msg : P2pMessage) (conns : List ℕ) (n : P2pNode)
      → IsBounded chain queued n
      → IsBounded chain queued (send_where wire test msg conns n)
  unfolding send_where
  send_where-IsBounded test msg [] n h = h
  send_where-IsBounded test msg (conn ∷ conns) n h = elim (Bool-cases (test conn)) [
    | inl e ↦ rw e (
        send_where-IsBounded test msg conns (send_message wire conn msg n)
          (send_message-IsBounded conn msg n h))
    | inr e ↦ rw e (send_where-IsBounded test msg conns n h)
  ]

  queue_block-IsBounded :
      (block : Block) (n : P2pNode)
      → IsBounded chain queued n
      → IsBounded chain queued (queue_block host wire block n).0
  unfolding queue_block IsBounded
  queue_block-IsBounded block n h = elim (Bool-cases (leb new_blocks_cap (length n.new_blocks))) [
    | inl e ↦ rw e h
    | inr e ↦
        let longer = length-append n.new_blocks (block ∷ []) in
        rw e (h.0, omega (arith, longer, h.2), ground (arith, e, longer), h.3)
  ]

  admit_peer-IsBounded :
      (peer : Peer) (n : P2pNode)
      → IsBounded chain queued n
      → IsBounded chain queued (admit_peer host wire peer n).0
  unfolding admit_peer IsBounded
  admit_peer-IsBounded peer n h = elim (Bool-cases (leb max_peers (length n.peers))) [
    | inl e ↦ rw e h
    | inr e ↦ rw e (ground (arith, e, length-insert_le peer.id peer.conn n.peers), h.1, h.2, h.3)
  ]

  submit_tx-IsBounded :
      (nanos : Int64) (now : ℕ) (tx : PendingTx) (n : P2pNode)
      → IsBounded chain queued n
      → IsBounded chain queued (submit_tx host wire nanos now tx n).0
  unfolding submit_tx IsBounded
  submit_tx-IsBounded nanos now tx n h = h

  send_blocks-IsBounded :
      (conn : ℕ) (n : P2pNode)
      → IsBounded chain queued n
      → IsBounded chain queued (send_blocks host wire conn n).0
  unfolding send_blocks
  send_blocks-IsBounded conn n h = elim (Outcome-cases (get_recent_blocks 20 n.blockchain)) [
    | inl (blocks, e) ↦
        rw (e, send_blocks)
          (send_message-IsBounded conn
            (own_message wire "blocks" (chain_height n.blockchain) (wire.marshal_blocks blocks) n) n
            h)
    | inr (inl (e, _)) ↦ absurd e
    | inr (inr e) ↦ rw (e, send_blocks) h
  ]

  write_peer-IsBounded :
      (conn : ℕ) (f : Peer → Peer) (n : P2pNode)
      → IsBounded chain queued n
      → IsBounded chain queued (write_peer conn f n)
  unfolding IsBounded
  write_peer-IsBounded conn f n h = h

  receive_block-IsBounded :
      (msg : P2pMessage) (n : P2pNode)
      → IsBounded chain queued n
      → IsBounded chain queued (receive_block host wire msg n).0
  unfolding receive_block
  receive_block-IsBounded msg n h = elim (Option-cases (wire.unmarshal_block msg.payload)) [
    | inl e ↦ rw (e, receive_block) h
    | inr (block, e) ↦ rw (e, receive_block) (queue_block-IsBounded block n h)
  ]

  receive_tx-IsBounded :
      (nanos : Int64) (now : ℕ) (msg : P2pMessage) (n : P2pNode)
      → IsBounded chain queued n
      → IsBounded chain queued (receive_tx host wire nanos now msg n).0
  unfolding receive_tx
  receive_tx-IsBounded nanos now msg n h = elim (Option-cases (wire.unmarshal_tx msg.payload)) [
    | inl e ↦ rw (e, receive_tx) h
    | inr (tx, e) ↦ rw (e, receive_tx) (submit_tx-IsBounded nanos now tx n h)
  ]

  pub handle_message-IsBounded :
      (conn : ℕ) (nanos : Int64) (now : ℕ) (msg : P2pMessage) (n : P2pNode)
      → IsBounded chain queued n
      → IsBounded chain queued (handle_message host wire conn nanos now msg n).0
  unfolding handle_message send_peer_list
  handle_message-IsBounded conn nanos now msg n h =
      let seen = write_peer conn (λ peer. record peer { last_seen = now }) n in
      let h' = write_peer-IsBounded conn (λ peer. record peer { last_seen = now }) n h in
      either-IsBounded chain queued (msg.msg_type == "ping") _ _
        (send_message-IsBounded conn (own_message wire "pong" (chain_height n.blockchain) [] n) seen
          h')
        (either-IsBounded chain queued (msg.msg_type == "pong") _ _
          (write_peer-IsBounded conn (λ peer. record peer { height = msg.height }) seen h')
          (either-IsBounded chain queued (msg.msg_type == "get_blocks") _ _
            (send_blocks-IsBounded conn seen h')
            (either-IsBounded chain queued (msg.msg_type == "new_block") _ _
              (receive_block-IsBounded msg seen h')
              (either-IsBounded chain queued (msg.msg_type == "new_tx") _ _
                (receive_tx-IsBounded nanos now msg seen h')
                (either-IsBounded chain queued (msg.msg_type == "get_peers") _ _
                  (send_message-IsBounded conn
                    (own_message wire "peers" 0
                      (wire.marshal_addresses (map (peer_address seen) (values seen.peers))) seen)
                    seen h')
                  h')))))

  admit_first-IsBounded :
      (conn : ℕ) (address : String) (outbound : Bool) (now : ℕ) (first : Option P2pMessage)
      (n : P2pNode)
      → IsBounded chain queued n
      → IsBounded chain queued (admit_first host wire conn address outbound now first n).0
  unfolding admit_first
  admit_first-IsBounded conn address outbound now none n h = h
  admit_first-IsBounded conn address outbound now (some msg) n h =
      either-IsBounded chain queued (not (msg.msg_type == "handshake")) _ _ h (
        admit_peer-IsBounded
          (record {
            id = msg.node_id;
            address = address;
            conn = conn;
            height = msg.height;
            connected = now;
            last_seen = now;
            is_outbound = outbound;
          })
          n h)

  pub open_connection-IsBounded :
      (conn : ℕ) (address : String) (outbound : Bool) (now : ℕ) (written : Bool)
      (first : Option P2pMessage) (n : P2pNode)
      → IsBounded chain queued n
      → IsBounded chain queued
          (open_connection host wire conn address outbound now written first n).0
  unfolding open_connection send_handshake
  open_connection-IsBounded conn address outbound now written first n h =
      let greeted = send_handshake wire conn n in
      let h' =
        send_message-IsBounded conn (own_message wire "handshake" (chain_height n.blockchain) [] n)
          n h in
      either-IsBounded chain queued (not written) _ _ h'
        (admit_first-IsBounded conn address outbound now first greeted h')

  pub close_connection-IsBounded :
      (conn : ℕ) (n : P2pNode)
      → IsBounded chain queued n
      → IsBounded chain queued (close_connection host wire conn n)
  unfolding close_connection IsBounded
  close_connection-IsBounded conn n h = elim (Option-cases (lookup conn n.handled)) [
    | inl e ↦ rw (e, close_connection) h
    | inr (peer, e) ↦
        simp (e, close_connection)
          (omega (arith, h.0, length-erase_le peer.id n.peers), h.1, h.2, h.3)
  ]

  pub broadcast_block-IsBounded :
      (block : Block) (n : P2pNode)
      → IsBounded chain queued n
      → IsBounded chain queued (broadcast_block wire block n)
  unfolding broadcast_block
  broadcast_block-IsBounded block n h = elim (Option-cases (wire.marshal_block block)) [
    | inl e ↦ rw (e, broadcast_block) h
    | inr (bytes, e) ↦
        rw (e, broadcast_block)
          (send_where-IsBounded (λ conn. true) (own_message wire "new_block" block.height bytes n)
            (values n.peers) n h)
  ]

  pub ticked-IsBounded :
      (test : ℕ → Bool) (msg : P2pMessage) (n : P2pNode)
      → IsBounded chain queued n
      → IsBounded chain queued
          (if not n.running then n else send_where wire test msg (values n.peers) n)
  ticked-IsBounded test msg n h = elim (Bool-cases (not n.running)) [
    | inl e ↦ rw e h
    | inr e ↦ rw e (send_where-IsBounded test msg (values n.peers) n h)
  ]
