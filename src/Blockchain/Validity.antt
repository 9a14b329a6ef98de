-- ===== src/Blockchain/Validity.antt =====
-- What `ValidateChain` accepts, that `AddBlock` keeps it accepting, and what it does not look at.
use mathlib.Core.Option.{some-injective}
use nuvex.Base.{
  ℕ, zero, suc, ◌≡◌, ◌↔◌, refl, sym, subst, Option-cases, some, List, [], ◌∷◌, ◌++◌, map, String,
  arith, ok, inl, inr, ==_iff, string_key, nat_eq_iff, last?, get_elem?,
}
use nuvex.Base.Word.{Int64, ◌+64◌}
use nuvex.Host.{Host}
use nuvex.Blockchain.Block.{Block, calculate_hash}
use nuvex.Blockchain.Chain.{
  Blockchain, BlockDisk, next_block, validate_from, validate_blocks, validate_chain, add_block,
  append_block,
}

module _ (host : Host) where
  -- The block carries its own hash, names its predecessor's, and stands one higher.
  abbrev pub Follows : Block → Block → Type 0
  Follows b c =
      (c.hash ≡ calculate_hash host c) × (c.prev_hash ≡ b.hash) × (c.height ≡ b.height +64 1)

  abbrev pub Linked : Block → List Block → Type 0
  Linked b [] = Unit {0}
  Linked b (c ∷ rest) = Follows b c × Linked c rest

  pub validate_from-Linked :
      (b : Block) (rest : List Block) → validate_from host b rest ≡ ok tt → Linked b rest
  unfolding validate_from
  validate_from-Linked b [] h = tt
  validate_from-Linked b (c ∷ rest) h = ground (
    arith,
    ==_iff c.hash (calculate_hash host c),
    ==_iff c.prev_hash b.hash,
    nat_eq_iff c.height (b.height +64 1),
    validate_from-Linked c rest,
  )

  Linked-validate_from :
      (b : Block) (rest : List Block) → Linked b rest → validate_from host b rest ≡ ok tt
  unfolding validate_from
  Linked-validate_from b [] h = refl
  Linked-validate_from b (c ∷ rest) h =
      rw
        (
          validate_from,
          (==_iff c.hash (calculate_hash host c)).1 h.0.0,
          (==_iff c.prev_hash b.hash).1 h.0.1,
          (nat_eq_iff c.height (b.height +64 1)).1 h.0.2,
        )
        (Linked-validate_from c rest h.1)

  -- Every two neighbours of the list are linked.
  abbrev pub AllFollow : List Block → Type 0
  AllFollow blocks =
      (i : ℕ) (b c : Block)
      → get_elem? blocks i ≡ some b
      → get_elem? blocks (suc i) ≡ some c
      → Follows b c

  Linked-AllFollow : (b : Block) (rest : List Block) → Linked b rest → AllFollow (b ∷ rest)
  Linked-AllFollow b [] h i x y ex ey = cc
  Linked-AllFollow b (c ∷ rest) h zero x y ex ey =
      subst (λ z. Follows z y) (some-injective b x ex)
        (subst (λ w. Follows b w) (some-injective c y ey) h.0)
  Linked-AllFollow b (c ∷ rest) h (suc i) x y ex ey = Linked-AllFollow c rest h.1 i x y ex ey

  AllFollow-Linked : (b : Block) (rest : List Block) → AllFollow (b ∷ rest) → Linked b rest
  AllFollow-Linked b [] h = tt
  AllFollow-Linked b (c ∷ rest) h = (h 0 b c refl refl, AllFollow-Linked c rest (λ i. h (suc i)))

  validate_blocks_iff :
      (blocks : List Block) → (validate_blocks host blocks ≡ ok tt) ↔ AllFollow blocks
  unfolding validate_blocks
  validate_blocks_iff [] = (λ h i b c eb ec. cc, λ h. refl)
  validate_blocks_iff (b ∷ rest) = (
    λ h. Linked-AllFollow b rest (validate_from-Linked b rest h),
    λ h. Linked-validate_from b rest (AllFollow-Linked b rest h),
  )

  -- The chain is accepted exactly when each block but the first carries its own hash, names the hash
  -- of the block before it, and has the height after that block's.
  pub validate_chain_iff :
      (bc : Blockchain) → (validate_chain host bc ≡ ok tt) ↔ AllFollow bc.blocks
  unfolding validate_chain
  validate_chain_iff bc = validate_blocks_iff bc.blocks

  next_block-Follows :
      (validator : String) (txs : List String) (fees burned reward : Int64) (now : String)
      (prev : Block)
      → Follows prev (next_block host validator txs fees burned reward now prev)
  unfolding next_block calculate_hash
  next_block-Follows validator txs fees burned reward now prev = (refl, refl, refl)

  Linked-append :
      (b : Block) (rest : List Block) (prev new : Block)
      → Linked b rest
      → last? (b ∷ rest) ≡ some prev
      → Follows prev new
      → Linked b (rest ++ new ∷ [])
  Linked-append b [] prev new h l f =
      (subst (λ z. Follows z new) (sym (some-injective b prev l)) f, tt)
  Linked-append b (c ∷ rest) prev new h l f = (h.0, Linked-append c rest prev new h.1 l f)

  validate_blocks-append :
      (blocks : List Block) (prev new : Block)
      → validate_blocks host blocks ≡ ok tt
      → last? blocks ≡ some prev
      → Follows prev new
      → validate_blocks host (blocks ++ new ∷ []) ≡ ok tt
  unfolding validate_blocks validate_from
  validate_blocks-append [] prev new v l f = refl
  validate_blocks-append (b ∷ rest) prev new v l f =
      Linked-validate_from b (rest ++ new ∷ [])
        (Linked-append b rest prev new (validate_from-Linked b rest v) l f)

  -- A chain that is accepted is accepted with a further block, whatever the block's contents.
  pub add_block-valid :
      (disk : BlockDisk) (validator : String) (txs : List String) (fees burned reward : Int64)
      (now : String) (bc : Blockchain)
      → validate_chain host bc ≡ ok tt
      → validate_chain host (add_block host disk validator txs fees burned reward now bc).0 ≡ ok tt
  unfolding add_block validate_chain append_block
  add_block-valid disk validator txs fees burned reward now bc v =
      elim (Option-cases (last? bc.blocks)) [
        | inl empty ↦ rw (empty, add_block) v
        | inr (prev, e) ↦
            rw (e, add_block)
              (validate_blocks-append bc.blocks prev _ v e
                (next_block-Follows validator txs fees burned reward now prev))
      ]

-- What a block says of its transactions, of what was burned, and its signature.
pub record Contents : Type 0 where
  pub transactions : List String
  pub burned_amount : Int64
  pub signature : String

abbrev pub replace_contents : (Block → Contents) → Block → Block
replace_contents f b = record b {
  transactions = (f b).transactions;
  burned_amount = (f b).burned_amount;
  signature = (f b).signature;
}

validate_from-replaced :
    (host : Host) (f : Block → Contents) (b : Block) (rest : List Block)
    → validate_from host (replace_contents f b) (map (replace_contents f) rest)
      ≡ validate_from host b rest
unfolding validate_from calculate_hash
validate_from-replaced host f b [] = refl
validate_from-replaced host f b (c ∷ rest) = rw (validate_from-replaced host f c rest)

-- The transactions, the burned amounts and the signatures of the blocks can be replaced by any
-- others: the verdict on the chain stays the same, since the stored state root is never recomputed.
pub validate_chain-replaced :
    (host : Host) (f : Block → Contents) (bc : Blockchain)
    → validate_chain host (record bc { blocks = map (replace_contents f) bc.blocks })
      ≡ validate_chain host bc
unfolding validate_chain validate_blocks
validate_chain-replaced host f bc = validate_replaced bc.blocks
  where
    validate_replaced :
        (blocks : List Block)
        → validate_blocks host (map (replace_contents f) blocks) ≡ validate_blocks host blocks
    validate_replaced [] = refl
    validate_replaced (b ∷ rest) = validate_from-replaced host f b rest
