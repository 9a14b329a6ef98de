-- ===== src/Bft/Soundness.antt =====
-- The chain of a node, whatever happens to it.
use nuvex.Base.{
  String, ℕ, ◌+◌, ◌%◌, ◌<◌, ◌≡◌, none, List, [], ◌∷◌, arith, inl, inr, Option-cases, string_key, ok,
  Outcome-cases, length, last?, length-append,
}
use nuvex.Base.Word.{Int64, ◌+64◌, word}
use nuvex.Host.{Host}
use nuvex.Blockchain.Block.{Block}
use nuvex.Blockchain.Chain.{Blockchain, BlockDisk, add_block, append_block, validate_chain}
use nuvex.Blockchain.Validity.{add_block-valid}
use nuvex.Bft.{BftConsensus}
use nuvex.Bft.Threads.{Event, step, run}
use nuvex.Bft.Finality.{extended}
use nuvex.Bft.Steps.{step-Finalizes}

no_last : (blocks : List Block) → 0 < length blocks → last? blocks ≡ none → ⊥
no_last [] h e = omega arith
no_last (b ∷ []) h e = cc
no_last (b ∷ c ∷ blocks) h e = no_last (c ∷ blocks) (omega arith) e

add_block-length :
    (host : Host) (disk : BlockDisk) (validator : String) (txs : List String)
    (fees burned reward : Int64) (now : String) (bc : Blockchain)
    → 0 < length bc.blocks
    → length (add_block host disk validator txs fees burned reward now bc).0.blocks
      ≡ length bc.blocks + 1
unfolding add_block append_block
add_block-length host disk validator txs fees burned reward now bc h =
    elim (Option-cases (last? bc.blocks)) [
      | inl empty ↦ absurd (no_last bc.blocks h empty)
      | inr (prev, e) ↦ rw (e, add_block, length-append bc.blocks)
    ]

module _ (host : Host) (disk : BlockDisk) where
  -- The chain is one that `ValidateChain` accepts, and it has as many blocks beyond `base` as the
  -- node has finalized.
  pub record IsSound (base : ℕ) (chain : Blockchain) (total : Int64) : Type 0 where
    pub valid : validate_chain host chain ≡ ok tt
    pub started_at : 0 < length chain.blocks
    pub counted : length chain.blocks % word ≡ (base + total) % word

  extended-IsSound :
      (base : ℕ) (block : Block) (now : String) (chain : Blockchain) (total : Int64)
      → IsSound base chain total
      → IsSound base (extended host disk block now chain) (total +64 1)
  extended-IsSound base b now chain total sound =
      let length' =
        add_block-length host disk b.validator b.transactions b.total_fees b.burned_amount
          b.mining_reward now chain sound.started_at in
      record {
        valid =
            add_block-valid host disk b.validator b.transactions b.total_fees b.burned_amount
              b.mining_reward now chain sound.valid;
        started_at = omega (arith, length');
        counted = omega (arith, length', sound.counted);
      }

  step-IsSound :
      (base : ℕ) (event : Event) (bft : BftConsensus)
      → IsSound base bft.blockchain bft.total_blocks
      → let bft' = (step host disk event bft).0 in IsSound base bft'.blockchain bft'.total_blocks
  step-IsSound base event bft sound = elim (step-Finalizes host disk event bft) [
    | inl ((c, t), _) ↦ rw (c, t) sound
    | inr (vote, now, _, (ready, c, t, _, _)) ↦
        rw (c, t) (extended-IsSound base ready.1 now bft.blockchain bft.total_blocks sound)
  ]

  -- Whatever happens to a node, its chain stays one that `ValidateChain` accepts, and it has grown by
  -- the number of blocks finalized.
  pub run-IsSound :
      (base : ℕ) (events : List Event) (bft : BftConsensus)
      → IsSound base bft.blockchain bft.total_blocks
      → let bft' = (run host disk events bft).0 in IsSound base bft'.blockchain bft'.total_blocks
  unfolding run
  run-IsSound base [] bft sound = sound
  run-IsSound base (event ∷ events) bft sound =
      let next = step-IsSound base event bft sound in
      elim (Outcome-cases (step host disk event bft).1) [
        | inl (_, e) ↦ rw (e, run) (run-IsSound base events (step host disk event bft).0 next)
        | inr (inl (x, _)) ↦ absurd x
        | inr (inr e) ↦ rw (e, run) next
      ]
