-- ===== src/Api/Writes.antt =====
-- app/api.go: the handlers that change the node. A body is its fields, in the order of the source.
use nuvex.Base.{ℕ, Bool, ◌||◌, String, nat_eq, if◌then◌else◌, string_key, ◌==◌}
use nuvex.Base.Float.{Float}
use nuvex.Base.Word.{Int64, Uint64}
use nuvex.Host.{Host}
use nuvex.State.Keeper.{Disk, StateKeeper, signed_transfer}
use nuvex.Blockchain.Chain.{chain_height}
use nuvex.Mempool.{Mempool, submit}
use nuvex.Evm.{Ethereum, deploy_contract, call_contract}
use nuvex.Evm.Queries.{estimate_gas}
use nuvex.Dex.{create_pool, swap, add_liquidity}
use nuvex.Staking.{StakingKeeper, stake, unstake}
use nuvex.Governance.{GovernanceKeeper, create_proposal, vote}
use nuvex.Api.{
  Node, Clock, Reply, refused, no_signature, no_connection, of_state, of_mempool, of_evm, of_dex,
  of_staking, of_governance, tx_of, pending_of, connecting, deployed_of, result_of, estimate_of,
  pool_of, swap_of, liquidity_of, position_of, proposal_of, vote_of, answer,
}

pub record SendBody : Type 0 where
  pub from : String
  pub to : String
  pub amount : Int64
  pub fee : Int64
  pub public_key : String
  pub signature : String

pub record SubmitBody : Type 0 where
  pub from : String
  pub to : String
  pub amount : Int64
  pub fee : Int64
  pub nonce : Uint64

pub record DeployBody : Type 0 where
  pub deployer : String
  pub bytecode : String
  pub abi : String
  pub gas_limit : Uint64

pub record CallBody : Type 0 where
  pub caller : String
  pub contract : String
  pub calldata : String
  pub gas_limit : Uint64
  pub value : Int64

pub record EstimateBody : Type 0 where
  pub caller : String
  pub contract : String
  pub calldata : String
  pub value : Int64

pub record PoolBody (F : Type 0) : Type 0 where
  pub token_a : String
  pub token_b : String
  pub amount_a : F
  pub amount_b : F
  pub creator : String

pub record SwapBody (F : Type 0) : Type 0 where
  pub pool_id : String
  pub token_in : String
  pub amount_in : F
  pub min_amount_out : F
  pub trader : String

pub record LiquidityBody (F : Type 0) : Type 0 where
  pub pool_id : String
  pub amount_a : F
  pub amount_b : F
  pub provider : String

pub record StakeBody : Type 0 where
  pub owner : String
  pub amount : Uint64
  pub is_green : Bool

pub record UnstakeBody : Type 0 where
  pub owner : String
  pub position_id : String

pub record ProposalBody : Type 0 where
  pub proposer : String
  pub title : String
  pub description : String
  pub proposal_type : String
  pub deposit : Uint64

pub record VoteBody : Type 0 where
  pub proposal_id : Uint64
  pub voter : String
  pub option : String

-- A number of 0 stands for the default.
abbrev pub or_default : ℕ → ℕ → ℕ
or_default usual n = if nat_eq n 0 then usual else n

module _ {fl : Float} {Vm : Type 0} (host : Host) (disk : Disk) (eth : Ethereum Vm)
    (clock : Clock) where
  -- The staking keeper and governance work on the node's state: all three see what one writes.
  abbrev pub with_state : StateKeeper → Node fl Vm → Node fl Vm
  with_state state n = record n {
    state = state;
    staking = record n.staking { state = state };
    governance = record n.governance { state = state };
  }

  abbrev pub staking_of_node : Node fl Vm → StakingKeeper
  staking_of_node n = record n.staking { state = n.state }

  abbrev pub with_staking : StakingKeeper → Node fl Vm → Node fl Vm
  with_staking sk n = with_state sk.state (record n { staking = sk })

  abbrev pub governance_of_node : Node fl Vm → GovernanceKeeper
  governance_of_node n = record n.governance { state = n.state }

  abbrev pub with_governance : GovernanceKeeper → Node fl Vm → Node fl Vm
  with_governance gk n = with_state gk.state (record n { governance = gk })

  -- The pool is one object that the consensus and the network hold too: they see what a handler writes.
  abbrev pub with_pool : Mempool → Node fl Vm → Node fl Vm
  with_pool mempool n = record n {
    mempool = mempool;
    bft = record n.bft { mempool = mempool };
    p2p = record n.p2p { mempool = mempool };
  }

  -- `handleSend` asks for a key and a signature.
  unfoldable pub handle_send : SendBody → Node fl Vm → Node fl Vm × Reply fl
  handle_send body n =
      if (body.signature == "") || (body.public_key == "")
      then (n, refused no_signature)
      else let (state, outcome) =
          signed_transfer host disk body.from body.to body.amount (or_default 1_000 body.fee)
            n.height body.public_key body.signature clock.stamp n.state in
        (with_state state n, answer of_state tx_of outcome)

  unfoldable pub handle_mempool_submit : SubmitBody → Node fl Vm → Node fl Vm × Reply fl
  handle_mempool_submit body n =
      let (mempool, outcome) =
        submit host body.from body.to body.amount body.fee body.nonce clock.nanos clock.now
          n.mempool in
      (with_pool mempool n, answer of_mempool pending_of outcome)

  -- The dialled connection is handled by a thread of its own, whose events are not part of the request.
  unfoldable pub handle_p2p_connect : Bool → String → Node fl Vm → Node fl Vm × Reply fl
  handle_p2p_connect dialled address n =
      (n, if dialled then connecting address else refused no_connection)

  unfoldable pub handle_evm_deploy : DeployBody → Node fl Vm → Node fl Vm × Reply fl
  handle_evm_deploy body n =
      let (evm, outcome) =
        deploy_contract eth host body.deployer body.bytecode body.abi (chain_height n.blockchain)
          (or_default 3_000_000 body.gas_limit) n.evm in
      (record n { evm = evm }, answer of_evm (λ (c, r). deployed_of c r) outcome)

  unfoldable pub handle_evm_call : CallBody → Node fl Vm → Node fl Vm × Reply fl
  handle_evm_call body n =
      let (evm, outcome) =
        call_contract eth host body.caller body.contract body.calldata (chain_height n.blockchain)
          (or_default 1_000_000 body.gas_limit) body.value n.evm in
      (record n { evm = evm }, answer of_evm result_of outcome)

  unfoldable pub handle_evm_estimate_gas : EstimateBody → Node fl Vm → Node fl Vm × Reply fl
  handle_evm_estimate_gas body n =
      let (evm, outcome) =
        estimate_gas eth host fl body.caller body.contract body.calldata body.value n.evm in
      (record n { evm = evm }, answer of_evm estimate_of outcome)

  unfoldable pub handle_dex_create_pool : PoolBody fl.F → Node fl Vm → Node fl Vm × Reply fl
  handle_dex_create_pool body n =
      let (dex, outcome) =
        create_pool fl body.token_a body.token_b body.amount_a body.amount_b body.creator
          clock.stamp n.dex in
      (record n { dex = dex }, answer of_dex pool_of outcome)

  unfoldable pub handle_dex_swap : SwapBody fl.F → Node fl Vm → Node fl Vm × Reply fl
  handle_dex_swap body n =
      let (dex, outcome) =
        swap fl body.pool_id body.token_in body.amount_in body.min_amount_out body.trader
          clock.stamp n.dex in
      (record n { dex = dex }, answer of_dex swap_of outcome)

  unfoldable pub handle_dex_add_liquidity : LiquidityBody fl.F → Node fl Vm → Node fl Vm × Reply fl
  handle_dex_add_liquidity body n =
      let (dex, outcome) =
        add_liquidity fl body.pool_id body.amount_a body.amount_b body.provider n.dex in
      (record n { dex = dex }, answer of_dex liquidity_of outcome)

  -- The owner's name is all that the next four ask for.
  unfoldable pub handle_stake : StakeBody → Node fl Vm → Node fl Vm × Reply fl
  handle_stake body n =
      let (sk, outcome) =
        stake host body.owner body.amount body.is_green clock.nanos clock.now (staking_of_node n) in
      (with_staking sk n, answer of_staking position_of outcome)

  unfoldable pub handle_unstake : UnstakeBody → Node fl Vm → Node fl Vm × Reply fl
  handle_unstake body n =
      let (sk, outcome) = unstake fl body.owner body.position_id clock.now (staking_of_node n) in
      (with_staking sk n, answer of_staking position_of outcome)

  unfoldable pub handle_gov_create : ProposalBody → Node fl Vm → Node fl Vm × Reply fl
  handle_gov_create body n =
      let (gk, outcome) =
        create_proposal body.proposer body.title body.description body.proposal_type body.deposit
          clock.now (governance_of_node n) in
      (with_governance gk n, answer of_governance proposal_of outcome)

  unfoldable pub handle_gov_vote : VoteBody → Node fl Vm → Node fl Vm × Reply fl
  handle_gov_vote body n =
      let (gk, outcome) =
        vote body.proposal_id body.voter body.option clock.now (governance_of_node n) in
      (with_governance gk n, answer of_governance vote_of outcome)
