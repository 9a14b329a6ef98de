-- ===== src/Blockchain/Tests.antt =====
-- The theorems on the chain at a chain of two blocks.
use nuvex.Base.{◌≡◌, ◌↔◌, refl, none, some, [], ◌∷◌, ◌++◌, map, arith, ok, string_key}
use nuvex.State.Samples.{sample_host}
use nuvex.Blockchain.Block.{Block, calculate_hash}
use nuvex.Blockchain.Lines.{split_lines}
use nuvex.Blockchain.Chain.{
  Blockchain, BlockDisk, genesis_block, next_block, validate_chain, validate_blocks, validate_from,
  add_block, new_blockchain, block_lines, get_block,
}
use nuvex.Blockchain.Validity.{
  AllFollow, Contents, replace_contents, validate_chain_iff, add_block-valid,
  validate_chain-replaced,
}
use nuvex.Blockchain.Lookup.{get_block-get_elem?}
use nuvex.Blockchain.Storage.{new_blockchain-stored}

genesis : Block
genesis = genesis_block sample_host

second : Block
second = next_block sample_host "validator" ("0xa" ∷ []) 500 0 50_000_000 "later" genesis

-- Every file reads as the genesis block.
abbrev disk : BlockDisk
disk = record {
  marshal = λ b. 1 ∷ [];
  unmarshal = λ line. some (genesis_block sample_host);
  append_file = λ old bytes. elim old [ none ↦ some bytes | some o ↦ some (o ++ bytes) ];
  create_file = λ old bytes. some bytes;
}

chain : Blockchain
chain = record { blocks = genesis ∷ second ∷ []; file = none }

chain_accepted : validate_chain sample_host chain ≡ ok tt
unfolding chain genesis second validate_chain validate_blocks validate_from next_block genesis_block
    calculate_hash
chain_accepted = refl

two_lines : split_lines (7 ∷ 8 ∷ 10 ∷ 10 ∷ 9 ∷ []) ≡ (7 ∷ 8 ∷ []) ∷ (9 ∷ []) ∷ []
unfolding split_lines
two_lines = refl

validate_chain_iff_example :
    (validate_chain sample_host chain ≡ ok tt) ↔ AllFollow sample_host chain.blocks
validate_chain_iff_example = validate_chain_iff sample_host chain

add_block-valid_example :
    validate_chain sample_host (add_block sample_host disk "v" [] 0 0 0 "now" chain).0 ≡ ok tt
add_block-valid_example = add_block-valid sample_host disk "v" [] 0 0 0 "now" chain chain_accepted

abbrev forged : Block → Contents
forged b = record { transactions = "0xforged" ∷ []; burned_amount = 9; signature = "" }

validate_chain-replaced_example :
    validate_chain sample_host
      (record chain { blocks = map (replace_contents forged) chain.blocks })
    ≡ validate_chain sample_host chain
validate_chain-replaced_example = validate_chain-replaced sample_host forged chain

get_block-get_elem?_example :
    get_block 1 (record { blocks = genesis ∷ second ∷ []; file = none }) ≡ some second
get_block-get_elem?_example =
    get_block-get_elem? sample_host genesis (second ∷ []) none 1 genesis_height chain_valid
      (omega arith) (omega arith)
  where
    genesis_height : genesis.height ≡ 0
    genesis_height = unfold genesis genesis_block in refl

    chain_valid :
        validate_chain sample_host (record { blocks = genesis ∷ second ∷ []; file = none }) ≡ ok tt
    chain_valid = unfold chain in chain_accepted

new_blockchain-stored_example :
    let file = some (block_lines disk (genesis ∷ [])) in
    new_blockchain sample_host disk file ≡ (record { blocks = genesis ∷ []; file = file }, ok tt)
unfolding genesis
new_blockchain-stored_example =
    new_blockchain-stored disk sample_host genesis [] (λ h. cc, (omega arith, tt), refl, tt)
