-- ===== src/Blockchain/Chain.antt =====
-- x/nvx/keeper/blockchain.go: the chain, its operations and its file.
use nuvex.Base.{
  ℕ, Option, none, some, List, [], ◌∷◌, ◌++◌, String, len, ltb, not, if◌then◌else◌, Outcome, ok,
  err, panic, length, last?, newest, string_key, ◌==◌, nat_eq,
}
use nuvex.Base.Word.{Int64, ◌+64◌, is_negative}
use nuvex.Host.{Host}
use nuvex.Blockchain.Block.{Block, calculate_hash, calculate_state_root}
use nuvex.Blockchain.Lines.{newline, split_lines}

pub record Blockchain : Type 0 where
  pub blocks : List Block
  -- the bytes of the file at `dbPath`, if there is one
  pub file : Option (List ℕ)

pub data ChainError : Type 0 where
  bad_hash broken_link wrong_height : Int64 → ChainError

-- encoding/json on blocks, and the file at `dbPath`: what it holds after bytes were appended to it
-- (`os.OpenFile` with O_APPEND and O_CREATE) or written to it anew (`os.Create`). Errors are dropped.
pub record BlockDisk : Type 0 where
  pub marshal : Block → List ℕ
  pub unmarshal : List ℕ → Option Block
  pub append_file : Option (List ℕ) → List ℕ → Option (List ℕ)
  pub create_file : Option (List ℕ) → List ℕ → Option (List ℕ)

module _ (disk : BlockDisk) where
  unfoldable pub append_block : Block → Blockchain → Blockchain
  append_block block bc = record bc {
    file = disk.append_file bc.file (disk.marshal block ++ newline ∷ []);
  }

  unfoldable pub block_lines : List Block → List ℕ
  block_lines [] = []
  block_lines (block ∷ blocks) = disk.marshal block ++ (newline ∷ block_lines blocks)

  unfoldable pub save : Blockchain → Blockchain
  unfolding block_lines
  save bc = record bc { file = disk.create_file bc.file (block_lines bc.blocks) }

  -- A line that is no block is passed over.
  unfoldable pub read_blocks : List (List ℕ) → List Block
  read_blocks [] = []
  read_blocks (line ∷ lines) =
      let rest = read_blocks lines in elim (disk.unmarshal line) [ none ↦ rest | some b ↦ b ∷ rest ]

  unfoldable pub load : Blockchain → Blockchain
  load bc = elim bc.file [
    | none ↦ bc
    | some bytes ↦ record bc { blocks = bc.blocks ++ read_blocks (split_lines bytes) }
  ]

unfoldable pub get_latest_block : Blockchain → Option Block
get_latest_block bc = last? bc.blocks

unfoldable pub find_block : Int64 → List Block → Option Block
find_block height [] = none
find_block height (b ∷ blocks) = if nat_eq b.height height then some b else find_block height blocks

unfoldable pub get_block : Int64 → Blockchain → Option Block
get_block height bc = find_block height bc.blocks

unfoldable pub get_recent_blocks : Int64 → Blockchain → Outcome ⊥ (List Block)
get_recent_blocks limit bc = if is_negative limit then panic else ok (newest bc.blocks limit)

unfoldable pub chain_height : Blockchain → Int64
chain_height bc = elim (last? bc.blocks) [ none ↦ 0 | some b ↦ b.height ]

unfoldable pub total_blocks : Blockchain → ℕ
total_blocks bc = length bc.blocks

module _ (host : Host) where
  -- A block with its hash put in.
  unfoldable pub seal : Block → Block
  seal b = record b { hash = calculate_hash host b }

  unfoldable pub genesis_block : Block
  unfolding seal
  genesis_block = seal (record {
    height = 0;
    hash = "";
    prev_hash = "0000000000000000000000000000000000000000000000000000000000000000";
    timestamp = "2025-10-01T12:00:00Z";
    validator = "nuvex19d85718c8da8f4213e1a2a41fe894ba928b9c9";
    transactions = [];
    tx_count = 0;
    total_fees = 0;
    burned_amount = 0;
    mining_reward = 50_000_000;
    state_root = "GENESIS_STATE_ROOT";
    signature = "";
  })

  -- The block that follows another.
  unfoldable pub next_block : String → List String → Int64 → Int64 → Int64 → String → Block → Block
  unfolding seal
  next_block validator txs total_fees burned_amount mining_reward now prev = seal (record {
    height = prev.height +64 1;
    hash = "";
    prev_hash = prev.hash;
    timestamp = now;
    validator = validator;
    transactions = txs;
    tx_count = length txs;
    total_fees = total_fees;
    burned_amount = burned_amount;
    mining_reward = mining_reward;
    state_root = calculate_state_root host txs;
    signature = "";
  })

  -- The loop of `ValidateChain` from the block after `previous` on.
  unfoldable pub validate_from : Block → List Block → Outcome ChainError (Unit {0})
  validate_from previous [] = ok tt
  validate_from previous (current ∷ rest) =
      let valid = validate_from current rest in
      if not (current.hash == calculate_hash host current)
      then err (bad_hash current.height)
      else if not (current.prev_hash == previous.hash)
      then err (broken_link current.height)
      else if not (nat_eq current.height (previous.height +64 1))
      then err (wrong_height current.height)
      else valid

  unfoldable pub validate_blocks : List Block → Outcome ChainError (Unit {0})
  validate_blocks [] = ok tt
  validate_blocks (genesis ∷ rest) = validate_from genesis rest

  unfoldable pub validate_chain : Blockchain → Outcome ChainError (Unit {0})
  unfolding validate_blocks
  validate_chain bc = validate_blocks bc.blocks

module _ (host : Host) (disk : BlockDisk) where
  -- The log line quotes the first 32 bytes of the hash.
  unfoldable pub create_genesis_block : Blockchain → Blockchain × Outcome ⊥ (Unit {0})
  create_genesis_block bc = (
    save disk (record bc { blocks = bc.blocks ++ genesis_block host ∷ [] }),
    (if ltb (len (genesis_block host).hash) 32 then panic else ok tt),
  )

  unfoldable pub new_blockchain : Option (List ℕ) → Blockchain × Outcome ⊥ (Unit {0})
  new_blockchain file =
      let bc = load disk (record { blocks = []; file = file }) in
      if nat_eq (length bc.blocks) 0 then create_genesis_block bc else (bc, ok tt)

  -- On an empty chain the last block's index is out of range. The log line quotes the hash.
  unfoldable pub add_block :
      String
      → List String
      → Int64
      → Int64
      → Int64
      → String
      → Blockchain
      → Blockchain × Outcome ⊥ Block
  add_block validator txs total_fees burned_amount mining_reward now bc = elim (last? bc.blocks) [
    | none ↦ (bc, panic)
    | some prev ↦
        let block = next_block host validator txs total_fees burned_amount mining_reward now prev in
        (
          append_block disk block (record bc { blocks = bc.blocks ++ block ∷ [] }),
          (if ltb (len block.hash) 16 then panic else ok block),
        )
  ]
