-- ===== src/Api/Serve.antt =====
-- app/api.go: which handler a path gets (`Start`), and what a sequence of requests does.
use nuvex.Base.{Bool, Option, List, [], ◌∷◌, String}
use nuvex.Base.Float.{Float}
use nuvex.Host.{Host}
use nuvex.State.Keeper.{Disk}
use nuvex.Mempool.{PendingTx}
use nuvex.Evm.{Ethereum}
use nuvex.Api.{Node, Clock, Reply, posted}
use nuvex.Api.Reads.{
  Numerals, handle_status, handle_latest_block, handle_block, handle_blocks, handle_supply,
  handle_balance, handle_txs, handle_tx_by_address, handle_tx_by_hash, handle_mining,
  handle_mempool, handle_p2p, handle_consensus, handle_evm_stats, handle_evm_contracts,
  handle_evm_stats_v2, handle_evm_contract_info, handle_dex_pools, handle_dex_history,
  handle_dex_quote, handle_accounts, handle_validators, handle_leveldb_stats, handle_dex_stats,
  handle_staking_stats, handle_staking_positions, handle_staking_pending, handle_gov_stats,
  handle_gov_proposals, handle_gov_proposal,
}
use nuvex.Api.Writes.{
  SendBody, SubmitBody, DeployBody, CallBody, EstimateBody, PoolBody, SwapBody, LiquidityBody,
  StakeBody, UnstakeBody, ProposalBody, VoteBody, handle_send, handle_mempool_submit,
  handle_p2p_connect, handle_evm_deploy, handle_evm_call, handle_evm_estimate_gas,
  handle_dex_create_pool, handle_dex_swap, handle_dex_add_liquidity, handle_stake, handle_unstake,
  handle_gov_create, handle_gov_vote,
}

-- A path without a body. The text is the path, or the parameter of the query.
pub data Query : Type 0 where
  status latest_block blocks supply txs mempool p2p consensus evm_stats evm_contracts evm_stats_v2 :
      Query
  accounts validators leveldb_stats dex_stats : Query
  dex_pools dex_history staking_stats gov_stats gov_proposals : Query
  block balance tx_by_address tx_by_hash contract_info staking_positions staking_pending :
      String → Query
  gov_proposal : String → Query

-- A path that wants a body, with what its JSON decodes to.
pub data Command (F : Type 0) : Type 0 where
  send : Option SendBody → Command F
  mempool_submit : Option SubmitBody → Command F
  p2p_connect : Bool → Option String → Command F
  evm_deploy : Option DeployBody → Command F
  evm_call : Option CallBody → Command F
  evm_estimate : Option EstimateBody → Command F
  dex_create : Option (PoolBody F) → Command F
  dex_swap : Option (SwapBody F) → Command F
  dex_quote : Option (String × String × F) → Command F
  dex_add_liquidity : Option (LiquidityBody F) → Command F
  stake_coins : Option StakeBody → Command F
  unstake_coins : Option UnstakeBody → Command F
  gov_create : Option ProposalBody → Command F
  gov_vote : Option VoteBody → Command F

-- `/mining`, another path without a body, or a path with one and whether the method is POST.
pub data Request (F : Type 0) : Type 0 where
  mining : Request F
  asked : Query → Request F
  commanded : Bool → Command F → Request F

module _ {fl : Float} {Vm : Type 0} (host : Host) (disk : Disk) (eth : Ethereum Vm)
    (numerals : Numerals) (sort : List PendingTx → List PendingTx) where
  unfoldable pub serve_query : Clock → Query → Node fl Vm → Reply fl
  serve_query clock status n = handle_status n
  serve_query clock latest_block n = handle_latest_block n
  serve_query clock blocks n = handle_blocks n
  serve_query clock supply n = handle_supply n
  serve_query clock txs n = handle_txs n
  serve_query clock mempool n = handle_mempool sort n
  serve_query clock p2p n = handle_p2p host n
  serve_query clock consensus n = handle_consensus n
  serve_query clock evm_stats n = handle_evm_stats n
  serve_query clock evm_contracts n = handle_evm_contracts eth host n
  serve_query clock evm_stats_v2 n = handle_evm_stats_v2 n
  serve_query clock accounts n = handle_accounts n
  serve_query clock validators n = handle_validators n
  serve_query clock leveldb_stats n = handle_leveldb_stats n
  serve_query clock dex_stats n = handle_dex_stats n
  serve_query clock dex_pools n = handle_dex_pools n
  serve_query clock dex_history n = handle_dex_history n
  serve_query clock staking_stats n = handle_staking_stats n
  serve_query clock gov_stats n = handle_gov_stats n
  serve_query clock gov_proposals n = handle_gov_proposals n
  serve_query clock (block path) n = handle_block numerals path n
  serve_query clock (balance path) n = handle_balance path n
  serve_query clock (tx_by_address address) n = handle_tx_by_address address n
  serve_query clock (tx_by_hash hash) n = handle_tx_by_hash hash n
  serve_query clock (contract_info address) n = handle_evm_contract_info address n
  serve_query clock (staking_positions owner) n = handle_staking_positions owner n
  serve_query clock (staking_pending id) n = handle_staking_pending clock id n
  serve_query clock (gov_proposal id) n = handle_gov_proposal numerals id n

  unfoldable pub serve_command : Clock → Bool → Command fl.F → Node fl Vm → Node fl Vm × Reply fl
  unfolding posted
  serve_command clock is_post (send body) n =
      posted is_post body (handle_send host disk eth clock) n
  serve_command clock is_post (mempool_submit body) n =
      posted is_post body (handle_mempool_submit host disk eth clock) n
  serve_command clock is_post (p2p_connect dialled body) n =
      posted is_post body (handle_p2p_connect host disk eth clock dialled) n
  serve_command clock is_post (evm_deploy body) n =
      posted is_post body (handle_evm_deploy host disk eth clock) n
  serve_command clock is_post (evm_call body) n =
      posted is_post body (handle_evm_call host disk eth clock) n
  serve_command clock is_post (evm_estimate body) n =
      posted is_post body (handle_evm_estimate_gas host disk eth clock) n
  serve_command clock is_post (dex_create body) n =
      posted is_post body (handle_dex_create_pool host disk eth clock) n
  serve_command clock is_post (dex_swap body) n =
      posted is_post body (handle_dex_swap host disk eth clock) n
  serve_command clock is_post (dex_quote body) n =
      posted is_post body
        (λ (id, token, amount) (m : Node fl Vm). (m, handle_dex_quote id token amount m)) n
  serve_command clock is_post (dex_add_liquidity body) n =
      posted is_post body (handle_dex_add_liquidity host disk eth clock) n
  serve_command clock is_post (stake_coins body) n =
      posted is_post body (handle_stake host disk eth clock) n
  serve_command clock is_post (unstake_coins body) n =
      posted is_post body (handle_unstake host disk eth clock) n
  serve_command clock is_post (gov_create body) n =
      posted is_post body (handle_gov_create host disk eth clock) n
  serve_command clock is_post (gov_vote body) n =
      posted is_post body (handle_gov_vote host disk eth clock) n

  unfoldable pub serve : Clock → Request fl.F → Node fl Vm → Node fl Vm × Reply fl
  serve clock mining n = handle_mining n
  serve clock (asked query) n = (n, serve_query clock query n)
  serve clock (commanded is_post command) n = serve_command clock is_post command n

  -- The node after the requests, one after another.
  unfoldable pub serve_all : List (Clock × Request fl.F) → Node fl Vm → Node fl Vm
  serve_all [] n = n
  serve_all ((clock, request) ∷ requests) n = serve_all requests (serve clock request n).0
