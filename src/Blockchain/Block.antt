-- ===== src/Blockchain/Block.antt =====
-- x/nvx/keeper/blockchain.go: a block, its hash and its state root.
use Prim.Native.String.{◌++◌}
use mathlib.Core.List
use nuvex.Base.{ℕ, List, [], ◌∷◌, String}
use nuvex.Base.Word.{Int64}
use nuvex.Host.{Host}

pub record Block : Type 0 where
  pub height : Int64
  pub hash : String
  pub prev_hash : String
  pub timestamp : String
  pub validator : String
  pub transactions : List String
  pub tx_count : Int64
  pub total_fees : Int64
  pub burned_amount : Int64
  pub mining_reward : Int64
  pub state_root : String
  pub signature : String

module _ (host : Host) where
  -- The fields that the hash covers, with nothing between them.
  unfoldable pub hash_text : Block → String
  hash_text b =
      host.fmt_int b.height
      ++ b.prev_hash
      ++ b.timestamp
      ++ b.validator
      ++ host.fmt_int b.tx_count
      ++ host.fmt_int b.total_fees
      ++ host.fmt_int b.mining_reward
      ++ b.state_root

  unfoldable pub calculate_hash : Block → String
  unfolding hash_text
  calculate_hash b = host.hex_encode (host.sha256 (host.to_bytes (hash_text b)))

  -- What is written into the running hash, one transaction hash after another.
  root_bytes : List String → List ℕ
  root_bytes [] = []
  root_bytes (tx ∷ txs) = List.◌++◌ (host.to_bytes tx) (root_bytes txs)

  unfoldable pub calculate_state_root : List String → String
  unfolding root_bytes
  calculate_state_root txs = host.hex_encode (host.sha256 (root_bytes txs))
