-- ===== src/Api.antt =====
-- app/api.go: the HTTP interface of a node. A request is the handler that the path selects, with what
-- its body or its query decodes to; a reply is what the handler encodes. The keepers share the state,
-- the chain and the pool: a handler takes them from the node and puts them back.
pub mod Reads
pub mod Writes
pub mod Serve
pub mod Access
pub mod Unsigned
pub mod Refusals
pub mod Errors
pub mod Refused
mod Tests
use nuvex.Base.{
  ℕ, Bool, not, Option, none, some, List, String, if◌then◌else◌, Outcome, ok, err, panic,
}
use nuvex.Base.Float.{Float}
use nuvex.Base.Word.{Int64, Uint64}
use nuvex.State.Accounts.{Account, Transaction}
use nuvex.State.Keeper.{StateKeeper, StateError}
use nuvex.Blockchain.Block.{Block}
use nuvex.Blockchain.Chain.{Blockchain}
use nuvex.Burn.{BurnKeeper}
use nuvex.Mining.{MiningStats}
use nuvex.Mempool.{Mempool, MempoolError, MempoolStats, PendingTx}
use nuvex.Consensus.{ConsensusEngine}
use nuvex.Bft.{BftConsensus, BftStats}
use nuvex.P2p.{P2pNode, P2pStats}
use nuvex.Evm.{EvmKeeper, EvmError, EvmContract, EvmResult}
use nuvex.Evm.Queries.{GasEstimate, ContractInfo, EvmStats, EvmStatsV2}
use nuvex.Dex.{DexKeeper, DexError, LiquidityPool, SwapResult}
use nuvex.Dex.Stats.{DexStats}
use nuvex.Staking.{StakingKeeper, StakingError, StakePosition, StakingStats}
use nuvex.Governance.{GovernanceKeeper, GovernanceError, GovernanceStats, Proposal, Vote}

-- `NuvexApp` with all of its parts.
pub record Node (fl : Float) (Vm : Type 0) : Type 0 where
  pub burns : BurnKeeper
  pub state : StateKeeper
  pub blockchain : Blockchain
  pub mempool : Mempool
  pub p2p : P2pNode
  pub bft : BftConsensus
  pub engine : ConsensusEngine
  pub evm : EvmKeeper Vm
  pub dex : DexKeeper fl
  pub staking : StakingKeeper
  pub governance : GovernanceKeeper
  pub height : Int64

-- The readings of the clock during a request.
pub record Clock : Type 0 where
  pub nanos : Int64
  pub now : ℕ
  pub stamp : String

pub data ApiError : Type 0 where
  post_required bad_json no_signature no_connection no_field no_block bad_height no_tx : ApiError
  of_state : StateError → ApiError
  of_mempool : MempoolError → ApiError
  of_evm : EvmError → ApiError
  of_dex : DexError → ApiError
  of_staking : StakingError → ApiError
  of_governance : GovernanceError → ApiError

-- The answer of `/status`.
pub record Status : Type 0 where
  pub height : Int64
  pub total_blocks : ℕ
  pub latest_hash : String
  pub circulating : Int64
  pub burned : Int64
  pub mempool_size : Int64

-- A line of the answer of `/validators`.
pub record ValidatorInfo : Type 0 where
  pub address : String
  pub voting_power : ℕ
  pub is_green : Bool
  pub commission : String
  pub status : String

-- What is encoded; `aborted` is a panic in the handler, after which the server closes the connection.
pub data Reply (fl : Float) : Type 0 where
  refused : ApiError → Reply fl
  aborted : Reply fl
  status_of : Status → Reply fl
  block_of : Option Block → Reply fl
  blocks_of : List Block → ℕ → Reply fl
  supply_of : Int64 → Int64 → Reply fl
  balance_of : String → Int64 → Reply fl
  tx_of : Transaction → Reply fl
  txs_of : List Transaction → Reply fl
  pending_of : PendingTx → Reply fl
  mempool_of : MempoolStats → List PendingTx → Reply fl
  mining_of : MiningStats → Reply fl
  peers_of : P2pStats → Reply fl
  connecting : String → Reply fl
  rounds_of : BftStats → Reply fl
  contracts_of : List EvmContract → Reply fl
  deployed_of : Option EvmContract → EvmResult → Reply fl
  result_of : EvmResult → Reply fl
  estimate_of : GasEstimate fl.F → Reply fl
  evm_of : EvmStats → Reply fl
  evm_v2_of : EvmStatsV2 → Reply fl
  info_of : ContractInfo → Reply fl
  pools_of : List (LiquidityPool fl) → Reply fl
  pool_of : LiquidityPool fl → Reply fl
  swap_of : SwapResult fl → Reply fl
  liquidity_of : fl.F → Reply fl
  dex_of : DexStats fl → Reply fl
  accounts_of : List Account → Reply fl
  validators_of : List ValidatorInfo → Reply fl
  storage_of : String → String → String → Reply fl
  swaps_of : List (SwapResult fl) → Reply fl
  staking_of : StakingStats → Reply fl
  position_of : StakePosition → Reply fl
  positions_of : List StakePosition → Reply fl
  rewards_of : String → Uint64 → Reply fl
  governance_of : GovernanceStats → Reply fl
  proposal_of : Proposal → Reply fl
  proposals_of : List Proposal → Reply fl
  vote_of : Vote → Reply fl

-- What a handler encodes for the outcome of a keeper's operation.
unfoldable pub answer {ℓ κ} :
    {fl : Float} {E : Type ℓ} {A : Type κ}
    → (E → ApiError)
    → (A → Reply fl)
    → Outcome E A
    → Reply fl
answer to_error to_reply (ok a) = to_reply a
answer to_error to_reply (err e) = refused (to_error e)
answer to_error to_reply panic = aborted

-- The start of the handlers that want POST: the method, and the body's JSON.
unfoldable pub posted :
    {fl : Float} {Vm Body : Type 0}
    → Bool
    → Option Body
    → (Body → Node fl Vm → Node fl Vm × Reply fl)
    → Node fl Vm
    → Node fl Vm × Reply fl
posted is_post body handle n =
    if not is_post
    then (n, refused post_required)
    else elim body [ none ↦ (n, refused bad_json) | some b ↦ handle b n ]
