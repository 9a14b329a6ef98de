-- ===== src/Blockchain/Lookup.antt =====
-- Finding blocks by their height, and the newest blocks.
use mathlib.Core.Option.{some-injective}
use nuvex.Base.{
  ℕ, zero, suc, ◌+◌, ◌<◌, ◌≡◌, ap, ◌∙◌, subst, Option, none, some, List, [], ◌∷◌, arith, ok, nat_eq,
  false, take, reverse, newest-take-reverse, length, get_elem?, string_key, last?, Option-cases,
  inl, inr,
}
use nuvex.Base.Word.{Int64, half_word, is_negative}
use nuvex.Host.{Host}
use nuvex.Blockchain.Block.{Block}
use nuvex.Blockchain.Chain.{
  Blockchain, find_block, get_block, get_recent_blocks, validate_chain, validate_blocks,
  chain_height,
}
use nuvex.Blockchain.Validity.{Linked, validate_from-Linked}

module _ (host : Host) where
  -- In a linked list whose first block has height `h`, the block of height `h + i` is the `i`th.
  find_block-Linked :
      (b : Block) (rest : List Block) (i : ℕ)
      → Linked host b rest
      → b.height + length rest < half_word
      → i < suc (length rest)
      → find_block (b.height + i) (b ∷ rest) ≡ get_elem? (b ∷ rest) i
  unfolding find_block
  find_block-Linked b rest zero l h lt = ground arith
  find_block-Linked b [] (suc i) l h lt = absurd (omega arith)
  find_block-Linked b (c ∷ rest) (suc i) l h lt =
      let up : c.height ≡ b.height + 1 = omega (arith, l.0.2) in
      let same : c.height + i ≡ b.height + suc i = omega arith in
      let ih = find_block-Linked c rest i l.1 (omega arith) (omega arith) in
      let miss : nat_eq b.height (b.height + suc i) ≡ false = ground arith in
      rw (miss, find_block) (subst (λ n. find_block n (c ∷ rest) ≡ get_elem? (c ∷ rest) i) same ih)

  -- In an accepted chain whose first block has height 0, `GetBlock` of a height below the number of
  -- blocks is the block at that place.
  pub get_block-get_elem? :
      (genesis : Block) (rest : List Block) (file : Option (List ℕ)) (i : ℕ)
      → genesis.height ≡ 0
      → validate_chain host (record { blocks = genesis ∷ rest; file = file }) ≡ ok tt
      → length rest < half_word
      → i < suc (length rest)
      → get_block i (record { blocks = genesis ∷ rest; file = file }) ≡ get_elem? (genesis ∷ rest) i
  unfolding get_block validate_chain validate_blocks
  get_block-get_elem? genesis rest file i z v h lt =
      let e : genesis.height + i ≡ i = omega arith in
      subst (λ n. find_block n (genesis ∷ rest) ≡ get_elem? (genesis ∷ rest) i) e
        (find_block-Linked genesis rest i (validate_from-Linked host genesis rest v) (omega arith)
          lt)

  height-Linked :
      (b : Block) (rest : List Block) (l : Block)
      → Linked host b rest
      → b.height + length rest < half_word
      → last? (b ∷ rest) ≡ some l
      → l.height ≡ b.height + length rest
  height-Linked b [] l k h e = omega (arith, ap (λ (x : Block). x.height) (some-injective b l e))
  height-Linked b (c ∷ rest) l k h e =
      let up : c.height ≡ b.height + 1 = omega (arith, k.0.2) in
      omega (arith, height-Linked c rest l k.1 (omega arith) e)

  -- The height of such a chain is the number of blocks after the first.
  pub chain_height-length :
      (genesis : Block) (rest : List Block) (file : Option (List ℕ))
      → genesis.height ≡ 0
      → validate_chain host (record { blocks = genesis ∷ rest; file = file }) ≡ ok tt
      → length rest < half_word
      → chain_height (record { blocks = genesis ∷ rest; file = file }) ≡ length rest
  unfolding chain_height validate_chain validate_blocks
  chain_height-length genesis rest file z v h = elim (Option-cases (last? (genesis ∷ rest))) [
    | inl e ↦ absurd (last?-cons-ne-none genesis rest e)
    | inr (l, e) ↦
        rw (e, chain_height)
          (height-Linked genesis rest l (validate_from-Linked host genesis rest v) (omega arith) e
            ∙ omega arith)
  ]
    where
      last?-cons-ne-none : (x : Block) (xs : List Block) → last? (x ∷ xs) ≡ none → ⊥
      last?-cons-ne-none x [] = λ q. cc
      last?-cons-ne-none x (y ∷ ys) = last?-cons-ne-none y ys

-- `GetRecentBlocks` lists the newest blocks first, at most `limit` of them.
pub get_recent_blocks-newest :
    (limit : Int64) (bc : Blockchain)
    → limit < half_word
    → get_recent_blocks limit bc ≡ ok (take limit (reverse bc.blocks))
unfolding get_recent_blocks
get_recent_blocks-newest limit bc h =
    let e : is_negative limit ≡ false = ground arith in
    rw e (ap ok (newest-take-reverse bc.blocks limit))
