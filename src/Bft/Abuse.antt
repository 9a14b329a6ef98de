-- ===== src/Bft/Abuse.antt =====
-- Which votes finalize a block.
use nuvex.Base.{
  ℕ, [], ◌∷◌, ◌++◌, ◌≤◌, ◌≡◌, refl, ap, ◌∙◌, true, some, String, arith, string_key, length,
  nat_eq_iff, leb,
}
use nuvex.Dict.{insert}
use nuvex.Host.{Host}
use nuvex.Blockchain.Block.{Block}
use nuvex.Blockchain.Chain.{BlockDisk}
use nuvex.Bft.{commit, commit_due, ConsensusVote, ConsensusRound, BftConsensus}
use nuvex.Bft.Rounds.{
  receive_prepare_vote, count_prepare_vote, receive_commit_vote, count_commit_vote, finalize_block,
}
use nuvex.Bft.Finality.{extended, finalize_block-extended, receive_commit_vote_counted}

leb-true : (a b : ℕ) → a ≤ b → leb a b ≡ true
leb-true a b h = ground arith

receive_prepare_vote_full :
    (vote : ConsensusVote) (r : ConsensusRound) (bft : BftConsensus)
    → bft.current_round ≡ some r
    → vote.height ≡ r.height
    → bft.quorum ≤ length (insert vote.validator_addr vote r.prepare_votes)
    → receive_prepare_vote vote bft ≡ record bft {
      current_round = some (record r {
        prepare_votes = insert vote.validator_addr vote r.prepare_votes;
        phase = commit;
      });
      tasks = bft.tasks ++ commit_due ∷ [];
    }
unfolding receive_prepare_vote count_prepare_vote
receive_prepare_vote_full vote r bft e same full = simp (
  e,
  receive_prepare_vote,
  count_prepare_vote,
  (nat_eq_iff vote.height r.height).1 same,
  leb-true bft.quorum (length (insert vote.validator_addr vote r.prepare_votes)) full,
)

module _ (host : Host) (disk : BlockDisk) where
  -- In the phase of commits with a proposed block, a vote of the round's height with which the votes
  -- are a quorum finalizes the block: neither the vote's sender nor its block hash are looked at.
  pub receive_commit_vote_any :
      (time : ℕ) (now : String) (vote : ConsensusVote) (r : ConsensusRound) (block : Block)
      (bft : BftConsensus)
      → bft.current_round ≡ some r
      → r.phase ≡ commit
      → r.proposed_block ≡ some block
      → vote.height ≡ r.height
      → bft.quorum ≤ length (insert vote.validator_addr vote r.commit_votes)
      → (receive_commit_vote host disk time now vote bft).0.blockchain
        ≡ extended host disk block now bft.blockchain
  unfolding count_commit_vote
  receive_commit_vote_any time now vote r block bft e phase has_block same full =
      let r' = record r { commit_votes = insert vote.validator_addr vote r.commit_votes } in
      let counted : count_commit_vote host disk time now vote r bft
          ≡ finalize_block host disk time now r' bft =
        simp (
          count_commit_vote,
          phase,
          (nat_eq_iff vote.height r.height).1 same,
          leb-true bft.quorum (length (insert vote.validator_addr vote r.commit_votes)) full,
        ) in
      ap (λ s. s.0.blockchain)
        (receive_commit_vote_counted host disk time now vote r bft e ∙ counted)
      ∙ (finalize_block-extended host disk time now r' bft has_block).0

  -- A late vote to prepare reopens a round in any phase: with a quorum of votes to prepare and to
  -- commit, the next vote to commit puts the proposed block's data on the chain, again if the round
  -- was finalized.
  pub receive_commit_vote_again :
      (time : ℕ) (now : String) (late vote : ConsensusVote) (r : ConsensusRound) (block : Block)
      (bft : BftConsensus)
      → bft.current_round ≡ some r
      → r.proposed_block ≡ some block
      → late.height ≡ r.height
      → bft.quorum ≤ length (insert late.validator_addr late r.prepare_votes)
      → vote.height ≡ r.height
      → bft.quorum ≤ length (insert vote.validator_addr vote r.commit_votes)
      → (receive_commit_vote host disk time now vote (receive_prepare_vote late bft)).0.blockchain
        ≡ extended host disk block now bft.blockchain
  receive_commit_vote_again time now late vote r block bft e has_block same full same' full' =
      ap (λ b. (receive_commit_vote host disk time now vote b).0.blockchain)
        (receive_prepare_vote_full late r bft e same full)
      ∙ receive_commit_vote_any time now vote _ block _ refl refl has_block same' full'
