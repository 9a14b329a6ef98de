-- ===== src/Api/Reads.antt =====
-- app/api.go: the handlers that answer with what the node holds.
use nuvex.Base.{
  true, ◌||◌, Option, none, some, List, [], ◌∷◌, String, if◌then◌else◌, string_key, ◌==◌, keep,
}
use nuvex.Base.Float.{Float}
use nuvex.Base.Word.{Int64, Uint64}
use nuvex.Host.{Host}
use nuvex.State.Accounts.{Transaction}
use nuvex.Dex.Stats.{dex_stats}
use nuvex.State.Keeper.{get_all_accounts, get_balance, get_transactions}
use nuvex.Blockchain.Block.{Block}
use nuvex.Blockchain.Chain.{
  get_latest_block, get_block, get_recent_blocks, chain_height, total_blocks,
}
use nuvex.Mempool.{PendingTx, get_pending}
use nuvex.Mempool
use nuvex.Mining
use nuvex.P2p
use nuvex.Bft
use nuvex.Evm.{Ethereum}
use nuvex.Evm.Queries.{trim_prefix, get_all_contracts, evm_stats, evm_stats_v2, get_contract_info}
use nuvex.Dex.{get_all_pools, get_quote, get_swap_history}
use nuvex.Staking.{get_positions_by_owner, pending_rewards}
use nuvex.Staking
use nuvex.Governance.{get_all_proposals, get_proposal}
use nuvex.Governance
use nuvex.Api.{
  Node, Clock, Reply, dex_of, accounts_of, validators_of, storage_of, refused, no_field, no_block,
  bad_height, no_tx, of_state, of_evm, of_dex, of_governance, status_of, block_of, blocks_of,
  supply_of, balance_of, tx_of, txs_of, mining_of, mempool_of, peers_of, rounds_of, contracts_of,
  evm_of, evm_v2_of, info_of, pools_of, swap_of, swaps_of, staking_of, positions_of, rewards_of,
  governance_of, proposal_of, proposals_of, answer,
}

-- strconv.ParseInt, and fmt.Sscanf with `%d`, which leaves 0 where it reads no number.
pub record Numerals : Type 0 where
  pub parse_int : String → Option Int64
  pub scan_uint : String → Uint64

-- The first transaction with the hash.
unfoldable pub find_tx : String → List Transaction → Option Transaction
find_tx hash [] = none
find_tx hash (tx ∷ txs) = if tx.hash == hash then some tx else find_tx hash txs

abbrev found_block : {fl : Float} → Option Block → Reply fl
found_block none = refused no_block
found_block (some block) = block_of (some block)

module _ {fl : Float} {Vm : Type 0} where
  unfoldable pub handle_status : Node fl Vm → Reply fl
  handle_status n = status_of (record {
    height = chain_height n.blockchain;
    total_blocks = total_blocks n.blockchain;
    latest_hash = elim (get_latest_block n.blockchain) [ none ↦ "" | some block ↦ block.hash ];
    circulating = n.burns.circulating;
    burned = n.burns.total_burned;
    mempool_size = n.mempool.size;
  })

  unfoldable pub handle_latest_block : Node fl Vm → Reply fl
  handle_latest_block n = found_block (get_latest_block n.blockchain)

  -- The path "latest" answers null on an empty chain.
  unfoldable pub handle_block : Numerals → String → Node fl Vm → Reply fl
  handle_block numerals path n =
      let text = trim_prefix "/block/" path in
      if text == "latest"
      then block_of (get_latest_block n.blockchain)
      else elim (numerals.parse_int text) [
        | none ↦ refused bad_height
        | some height ↦ found_block (get_block height n.blockchain)
      ]

  unfoldable pub handle_blocks : Node fl Vm → Reply fl
  handle_blocks n =
      answer (λ e. absurd e) (λ blocks. blocks_of blocks (total_blocks n.blockchain))
        (get_recent_blocks 20 n.blockchain)

  unfoldable pub handle_supply : Node fl Vm → Reply fl
  handle_supply n = supply_of n.burns.circulating n.burns.total_burned

  unfoldable pub handle_balance : String → Node fl Vm → Reply fl
  handle_balance path n =
      let address = trim_prefix "/balance/" path in
      if address == "" then refused no_field else balance_of address (get_balance address n.state)

  unfoldable pub handle_txs : Node fl Vm → Reply fl
  handle_txs n = answer of_state txs_of (get_transactions 20 n.state)

  unfoldable pub handle_tx_by_address : String → Node fl Vm → Reply fl
  handle_tx_by_address address n =
      if address == ""
      then refused no_field
      else answer of_state
          (λ txs. txs_of (keep (λ tx. (tx.from == address) || (tx.to == address)) txs))
          (get_transactions 50 n.state)

  unfoldable pub handle_tx_by_hash : String → Node fl Vm → Reply fl
  unfolding find_tx
  handle_tx_by_hash hash n =
      if hash == ""
      then refused no_field
      else answer of_state
          (λ txs. elim (find_tx hash txs) [ none ↦ refused no_tx | some tx ↦ tx_of tx ])
          (get_transactions 1_000 n.state)

  -- The statistics of the mining keeper move it on by an epoch when one is due.
  unfoldable pub handle_mining : Node fl Vm → Node fl Vm × Reply fl
  handle_mining n =
      let (mining, stats) = Mining.get_stats n.height n.engine.mining_keeper in
      (record n { engine = record n.engine { mining_keeper = mining } }, mining_of stats)

  unfoldable pub handle_mempool : (List PendingTx → List PendingTx) → Node fl Vm → Reply fl
  handle_mempool sort n = mempool_of (Mempool.stats n.mempool) (get_pending sort 20 n.mempool)

  unfoldable pub handle_p2p : Host → Node fl Vm → Reply fl
  handle_p2p host n = peers_of (P2p.stats host (record n.p2p { blockchain = n.blockchain }))

  unfoldable pub handle_consensus : Node fl Vm → Reply fl
  handle_consensus n = rounds_of (Bft.stats n.bft)

  unfoldable pub handle_evm_stats : Node fl Vm → Reply fl
  handle_evm_stats n = evm_of (evm_stats n.evm)

  unfoldable pub handle_evm_contracts : Ethereum Vm → Host → Node fl Vm → Reply fl
  handle_evm_contracts eth host n = contracts_of (get_all_contracts eth host n.evm)

  unfoldable pub handle_evm_stats_v2 : Node fl Vm → Reply fl
  handle_evm_stats_v2 n = evm_v2_of (evm_stats_v2 n.evm)

  unfoldable pub handle_evm_contract_info : String → Node fl Vm → Reply fl
  handle_evm_contract_info address n =
      if address == ""
      then refused no_field
      else answer of_evm info_of (get_contract_info address n.evm)

  unfoldable pub handle_dex_pools : Node fl Vm → Reply fl
  handle_dex_pools n = pools_of (get_all_pools fl n.dex)

  unfoldable pub handle_dex_history : Node fl Vm → Reply fl
  handle_dex_history n = answer (λ e. absurd e) swaps_of (get_swap_history fl 20 n.dex)

  unfoldable pub handle_dex_stats : Node fl Vm → Reply fl
  handle_dex_stats n = dex_of (dex_stats fl n.dex)

  unfoldable pub handle_accounts : Node fl Vm → Reply fl
  handle_accounts n = accounts_of (get_all_accounts n.state)

  -- The next two say the same of every node.
  unfoldable pub handle_validators : Node fl Vm → Reply fl
  handle_validators n = validators_of (
      record {
        address = "nuvex19d85718c8da8f4213e1a2a41fe894ba928b9c9";
        voting_power = 25_000_000;
        is_green = true;
        commission = "5%";
        status = "active";
      }
      ∷ [])

  unfoldable pub handle_leveldb_stats : Node fl Vm → Reply fl
  handle_leveldb_stats n =
      storage_of "LevelDB" "active"
        "High-performance key-value storage — same as Bitcoin and Ethereum"

  unfoldable pub handle_dex_quote : String → String → fl.F → Node fl Vm → Reply fl
  handle_dex_quote pool_id token_in amount_in n =
      answer of_dex swap_of (get_quote fl pool_id token_in amount_in n.dex)

  unfoldable pub handle_staking_stats : Node fl Vm → Reply fl
  handle_staking_stats n = staking_of (Staking.get_stats n.staking)

  unfoldable pub handle_staking_positions : String → Node fl Vm → Reply fl
  handle_staking_positions owner n =
      if owner == ""
      then refused no_field
      else positions_of (get_positions_by_owner owner n.staking)

  unfoldable pub handle_staking_pending : Clock → String → Node fl Vm → Reply fl
  handle_staking_pending clock id n =
      if id == ""
      then refused no_field
      else rewards_of id (pending_rewards fl id clock.now n.staking)

  unfoldable pub handle_gov_stats : Node fl Vm → Reply fl
  handle_gov_stats n = governance_of (Governance.get_stats n.governance)

  unfoldable pub handle_gov_proposals : Node fl Vm → Reply fl
  handle_gov_proposals n = proposals_of (get_all_proposals n.governance)

  unfoldable pub handle_gov_proposal : Numerals → String → Node fl Vm → Reply fl
  handle_gov_proposal numerals id n =
      answer of_governance proposal_of (get_proposal (numerals.scan_uint id) n.governance)
