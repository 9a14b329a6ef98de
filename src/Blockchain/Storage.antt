-- ===== src/Blockchain/Storage.antt =====
-- The chain's file: a node that starts from it has the chain that the running node has.
use nuvex.Base.{
  ℕ, ◌≡◌, ◌≢◌, refl, sym, ap, ◌∙◌, some, List, [], ◌∷◌, ◌++◌, map, String, arith, ok, last?,
  Option-cases, inl, inr,
}
use mathlib.Core.List.{append_assoc}
use nuvex.Base.Word.{Int64}
use nuvex.Host.{Host}
use nuvex.Blockchain.Block.{Block}
use nuvex.Blockchain.Lines.{
  newline, split_lines, join_lines, split_lines-join_lines, AllPlain, IsPlain,
}
use nuvex.Blockchain.Chain.{
  Blockchain, BlockDisk, append_block, block_lines, read_blocks, load, add_block, new_blockchain,
  next_block,
}

-- encoding/json writes each of the blocks as a line that is not empty and has no newline, and reads
-- it back.
abbrev pub AllEncoded : BlockDisk → List Block → Type 0
AllEncoded disk [] = Unit {0}
AllEncoded disk (b ∷ blocks) =
    (disk.marshal b ≢ [])
    × IsPlain (disk.marshal b)
    × (disk.unmarshal (disk.marshal b) ≡ some b)
    × AllEncoded disk blocks

-- Appending to the file that holds these bytes succeeds.
abbrev pub Appends : BlockDisk → Type 0
Appends disk = (old new : List ℕ) → disk.append_file (some old) new ≡ some (old ++ new)

-- The file holds the chain, a line for each block.
abbrev pub IsStored : BlockDisk → Blockchain → Type 0
IsStored disk bc = bc.file ≡ some (block_lines disk bc.blocks)

module _ (disk : BlockDisk) where
  block_lines-join_lines :
      (blocks : List Block) → block_lines disk blocks ≡ join_lines (map disk.marshal blocks)
  unfolding block_lines join_lines
  block_lines-join_lines [] = refl
  block_lines-join_lines (b ∷ blocks) = rw (block_lines-join_lines blocks)

  block_lines-append :
      (blocks : List Block) (b : Block)
      → block_lines disk (blocks ++ b ∷ [])
        ≡ block_lines disk blocks ++ (disk.marshal b ++ newline ∷ [])
  unfolding block_lines
  block_lines-append [] b = refl
  block_lines-append (x ∷ blocks) b = rw (block_lines-append blocks b) (
      sym (
        append_assoc (disk.marshal x) (newline ∷ block_lines disk blocks)
          (disk.marshal b ++ newline ∷ [])))

  AllPlain-marshal :
      (blocks : List Block) → AllEncoded disk blocks → AllPlain (map disk.marshal blocks)
  AllPlain-marshal [] h = tt
  AllPlain-marshal (b ∷ blocks) h = (h.0, h.1, AllPlain-marshal blocks h.3)

  read_blocks-marshal :
      (blocks : List Block)
      → AllEncoded disk blocks
      → read_blocks disk (map disk.marshal blocks) ≡ blocks
  unfolding read_blocks
  read_blocks-marshal [] h = refl
  read_blocks-marshal (b ∷ blocks) h =
      rw (h.2, read_blocks) (ap (λ r. b ∷ r) (read_blocks-marshal blocks h.3))

  -- Reading the lines of the blocks gives the blocks.
  read-block_lines :
      (blocks : List Block)
      → AllEncoded disk blocks
      → read_blocks disk (split_lines (block_lines disk blocks)) ≡ blocks
  read-block_lines blocks h =
      rw
        (
          block_lines-join_lines blocks,
          split_lines-join_lines (map disk.marshal blocks) (AllPlain-marshal blocks h),
        )
        (read_blocks-marshal blocks h)

  -- A node that starts from the file of a stored, encoded chain that is not empty has that chain.
  pub new_blockchain-stored :
      (host : Host) (b : Block) (blocks : List Block)
      → AllEncoded disk (b ∷ blocks)
      → let file = some (block_lines disk (b ∷ blocks)) in
        new_blockchain host disk file ≡ (record { blocks = b ∷ blocks; file = file }, ok tt)
  unfolding new_blockchain load
  new_blockchain-stored host b blocks h = rw (read-block_lines (b ∷ blocks) h) (ground arith)

  -- `AddBlock` keeps the chain stored: it appends the new block's line, and nothing is rewritten.
  pub add_block-IsStored :
      (host : Host) (validator : String) (txs : List String) (fees burned reward : Int64)
      (now : String) (bc : Blockchain)
      → Appends disk
      → IsStored disk bc
      → IsStored disk (add_block host disk validator txs fees burned reward now bc).0
  unfolding add_block append_block
  add_block-IsStored host validator txs fees burned reward now bc w s =
      elim (Option-cases (last? bc.blocks)) [
        | inl empty ↦ rw (empty, add_block) s
        | inr (prev, e) ↦
            rw (e, add_block)
              (ap
                  (λ f. disk.append_file f (
                    disk.marshal (next_block host validator txs fees burned reward now prev)
                    ++ newline ∷ []))
                  s
                ∙ w _ _
                ∙ ap some (sym (block_lines-append bc.blocks _)))
      ]
