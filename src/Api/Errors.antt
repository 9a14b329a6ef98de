-- ===== src/Api/Errors.antt =====
-- What the handlers leave behind when they answer with an error.
use nuvex.Base.{
  ◌≡◌, refl, sym, ap, ◌∙◌, Bool, true, false, ◌||◌, Option, none, some, Outcome, ok, err, panic,
  Bool-cases, inl, inr, string_key, ◌==◌,
}
use nuvex.Base.Float.{Float}
use nuvex.Host.{Host}
use nuvex.State.Keeper.{Disk, signed_transfer}
use nuvex.Blockchain.Chain.{chain_height}
use nuvex.Evm.{Ethereum}
use nuvex.Staking.{StakingKeeper}
use nuvex.Governance.{GovernanceKeeper}
use nuvex.Api.{
  Node, Clock, ApiError, Reply, refused, answer, posted, of_state, of_mempool, of_evm, of_dex,
  of_staking, of_governance, tx_of, pending_of, deployed_of, result_of, estimate_of, pool_of,
  swap_of, liquidity_of, position_of, proposal_of, vote_of,
}
use nuvex.Api.Writes.{
  SendBody, SubmitBody, DeployBody, CallBody, EstimateBody, PoolBody, SwapBody, LiquidityBody,
  StakeBody, UnstakeBody, ProposalBody, VoteBody, or_default, handle_send, handle_mempool_submit,
  handle_evm_deploy, handle_evm_call, handle_evm_estimate_gas, handle_dex_create_pool,
  handle_dex_swap, handle_dex_add_liquidity, handle_stake, handle_unstake, handle_gov_create,
  handle_gov_vote, with_state, with_pool, with_staking, with_governance,
}
use nuvex.Api.Refusals.{
  submit-err, create_pool-err, stake-err, create_proposal-err, vote-err, unstake-err,
  signed_transfer-err, deploy_contract-err, call_contract-err, estimate_gas-err, add_liquidity-err,
  swap-err,
}

-- The staking keeper and governance hold the node's state, the consensus and the network its pool.
abbrev pub Shared : {fl : Float} {Vm : Type 0} → Node fl Vm → Type 0
Shared n =
    (n.staking.state ≡ n.state)
    × (n.governance.state ≡ n.state)
    × (n.bft.mempool ≡ n.mempool)
    × (n.p2p.mempool ≡ n.mempool)

-- An outcome that is answered with an error is one.
answer-refused {ℓ κ} :
    {fl : Float} {E : Type ℓ} {A : Type κ} (to_error : E → ApiError) (to_reply : A → Reply fl)
    (o : Outcome E A) (e : ApiError)
    → ((a : A) → to_reply a ≡ refused e → ⊥)
    → answer to_error to_reply o ≡ refused e
    → (x : E) × (o ≡ err x)
unfolding answer
answer-refused to_error to_reply (ok a) e never h = absurd (never a h)
answer-refused to_error to_reply (err x) e never h = (x, refl)
answer-refused to_error to_reply panic e never h = cc

pub posted-refused :
    {fl : Float} {Vm Body : Type 0} (is_post : Bool) (body : Option Body)
    (handle : Body → Node fl Vm → Node fl Vm × Reply fl) (n : Node fl Vm) (e : ApiError)
    → ((b : Body) → (handle b n).1 ≡ refused e → (handle b n).0 ≡ n)
    → (posted is_post body handle n).1 ≡ refused e
    → (posted is_post body handle n).0 ≡ n
unfolding posted
posted-refused false body handle n e after h = refl
posted-refused true none handle n e after h = refl
posted-refused true (some b) handle n e after h = after b h

module _ {fl : Float} {Vm : Type 0} (host : Host) (disk : Disk) (eth : Ethereum Vm)
    (clock : Clock) where
  with_state_own :
      (n : Node fl Vm)
      → n.staking.state ≡ n.state
      → n.governance.state ≡ n.state
      → with_state host disk eth clock n.state n ≡ n
  with_state_own n s g =
      ap
        (λ x. record n {
          staking = record n.staking { state = x };
          governance = record n.governance { state = n.state };
        })
        (sym s)
      ∙ ap (λ x. record n { governance = record n.governance { state = x } }) (sym g)

  with_pool_own :
      (n : Node fl Vm)
      → n.bft.mempool ≡ n.mempool
      → n.p2p.mempool ≡ n.mempool
      → with_pool host disk eth clock n.mempool n ≡ n
  with_pool_own n b p =
      ap
        (λ x. record n {
          bft = record n.bft { mempool = x };
          p2p = record n.p2p { mempool = n.mempool };
        })
        (sym b)
      ∙ ap (λ x. record n { p2p = record n.p2p { mempool = x } }) (sym p)

  pub handle_mempool_submit-refused :
      (b : SubmitBody) (n : Node fl Vm) (e : ApiError)
      → n.bft.mempool ≡ n.mempool
      → n.p2p.mempool ≡ n.mempool
      → (handle_mempool_submit host disk eth clock b n).1 ≡ refused e
      → (handle_mempool_submit host disk eth clock b n).0 ≡ n
  unfolding handle_mempool_submit
  handle_mempool_submit-refused b n e own own' h =
      let (x, failed) = answer-refused of_mempool pending_of _ e (λ a p. cc) h in
      ap (λ m. with_pool host disk eth clock m n)
        (submit-err host b.from b.to b.amount b.fee b.nonce clock.nanos clock.now n.mempool x
          failed)
      ∙ with_pool_own n own own'

  pub handle_stake-refused :
      (b : StakeBody) (n : Node fl Vm) (e : ApiError)
      → n.staking.state ≡ n.state
      → n.governance.state ≡ n.state
      → (handle_stake host disk eth clock b n).1 ≡ refused e
      → (handle_stake host disk eth clock b n).0 ≡ n
  unfolding handle_stake
  handle_stake-refused b n e s g h =
      let (x, failed) = answer-refused of_staking position_of _ e (λ a p. cc) h in
      ap (λ (k : StakingKeeper). with_staking host disk eth clock k n)
        (stake-err host b.owner b.amount b.is_green clock.nanos clock.now
          (record n.staking { state = n.state }) x failed)
      ∙ with_state_own n s g

  pub handle_evm_deploy-refused :
      (b : DeployBody) (n : Node fl Vm) (e : ApiError)
      → (handle_evm_deploy host disk eth clock b n).1 ≡ refused e
      → (handle_evm_deploy host disk eth clock b n).0 ≡ n
  unfolding handle_evm_deploy
  handle_evm_deploy-refused b n e h =
      let (x, failed) = answer-refused of_evm (λ (c, r). deployed_of c r) _ e (λ a p. cc) h in
      ap (λ s. record n { evm = s })
        (deploy_contract-err eth host b.deployer b.bytecode b.abi (chain_height n.blockchain)
          (or_default 3_000_000 b.gas_limit) n.evm x failed)

  pub handle_evm_call-refused :
      (b : CallBody) (n : Node fl Vm) (e : ApiError)
      → (handle_evm_call host disk eth clock b n).1 ≡ refused e
      → (handle_evm_call host disk eth clock b n).0 ≡ n
  unfolding handle_evm_call
  handle_evm_call-refused b n e h =
      let (x, failed) = answer-refused of_evm result_of _ e (λ a p. cc) h in
      ap (λ s. record n { evm = s })
        (call_contract-err eth host b.caller b.contract b.calldata (chain_height n.blockchain)
          (or_default 1_000_000 b.gas_limit) b.value n.evm x failed)

  pub handle_evm_estimate_gas-refused :
      (b : EstimateBody) (n : Node fl Vm) (e : ApiError)
      → (handle_evm_estimate_gas host disk eth clock b n).1 ≡ refused e
      → (handle_evm_estimate_gas host disk eth clock b n).0 ≡ n
  unfolding handle_evm_estimate_gas
  handle_evm_estimate_gas-refused b n e h =
      let (x, failed) = answer-refused of_evm estimate_of _ e (λ a p. cc) h in
      ap (λ s. record n { evm = s })
        (estimate_gas-err eth host fl b.caller b.contract b.calldata b.value n.evm x failed)

  pub handle_dex_create_pool-refused :
      (b : PoolBody fl.F) (n : Node fl Vm) (e : ApiError)
      → (handle_dex_create_pool host disk eth clock b n).1 ≡ refused e
      → (handle_dex_create_pool host disk eth clock b n).0 ≡ n
  unfolding handle_dex_create_pool
  handle_dex_create_pool-refused b n e h =
      let (x, failed) = answer-refused of_dex pool_of _ e (λ a p. cc) h in
      ap (λ s. record n { dex = s })
        (create_pool-err fl b.token_a b.token_b b.amount_a b.amount_b b.creator clock.stamp n.dex x
          failed)

  pub handle_dex_swap-refused :
      (b : SwapBody fl.F) (n : Node fl Vm) (e : ApiError)
      → (handle_dex_swap host disk eth clock b n).1 ≡ refused e
      → (handle_dex_swap host disk eth clock b n).0 ≡ n
  unfolding handle_dex_swap
  handle_dex_swap-refused b n e h =
      let (x, failed) = answer-refused of_dex swap_of _ e (λ a p. cc) h in
      ap (λ s. record n { dex = s })
        (swap-err fl b.pool_id b.token_in b.amount_in b.min_amount_out b.trader clock.stamp n.dex x
          failed)

  pub handle_dex_add_liquidity-refused :
      (b : LiquidityBody fl.F) (n : Node fl Vm) (e : ApiError)
      → (handle_dex_add_liquidity host disk eth clock b n).1 ≡ refused e
      → (handle_dex_add_liquidity host disk eth clock b n).0 ≡ n
  unfolding handle_dex_add_liquidity
  handle_dex_add_liquidity-refused b n e h =
      let (x, failed) = answer-refused of_dex liquidity_of _ e (λ a p. cc) h in
      ap (λ s. record n { dex = s })
        (add_liquidity-err fl b.pool_id b.amount_a b.amount_b b.provider n.dex x failed)

  pub handle_unstake-refused :
      (b : UnstakeBody) (n : Node fl Vm) (e : ApiError)
      → n.staking.state ≡ n.state
      → n.governance.state ≡ n.state
      → (handle_unstake host disk eth clock b n).1 ≡ refused e
      → (handle_unstake host disk eth clock b n).0 ≡ n
  unfolding handle_unstake
  handle_unstake-refused b n e s g h =
      let (x, failed) = answer-refused of_staking position_of _ e (λ a p. cc) h in
      ap (λ (k : StakingKeeper). with_staking host disk eth clock k n)
        (unstake-err fl b.owner b.position_id clock.now (record n.staking { state = n.state }) x
          failed)
      ∙ with_state_own n s g

  pub handle_gov_create-refused :
      (b : ProposalBody) (n : Node fl Vm) (e : ApiError)
      → n.staking.state ≡ n.state
      → n.governance.state ≡ n.state
      → (handle_gov_create host disk eth clock b n).1 ≡ refused e
      → (handle_gov_create host disk eth clock b n).0 ≡ n
  unfolding handle_gov_create
  handle_gov_create-refused b n e s g h =
      let (x, failed) = answer-refused of_governance proposal_of _ e (λ a p. cc) h in
      ap (λ (k : GovernanceKeeper). with_governance host disk eth clock k n)
        (create_proposal-err b.proposer b.title b.description b.proposal_type b.deposit clock.now
          (record n.governance { state = n.state }) x failed)
      ∙ with_state_own n s g

  pub handle_gov_vote-refused :
      (b : VoteBody) (n : Node fl Vm) (e : ApiError)
      → n.staking.state ≡ n.state
      → n.governance.state ≡ n.state
      → (handle_gov_vote host disk eth clock b n).1 ≡ refused e
      → (handle_gov_vote host disk eth clock b n).0 ≡ n
  unfolding handle_gov_vote
  handle_gov_vote-refused b n e s g h =
      let (x, failed) = answer-refused of_governance vote_of _ e (λ a p. cc) h in
      ap (λ (k : GovernanceKeeper). with_governance host disk eth clock k n)
        (vote-err b.proposal_id b.voter b.option clock.now (record n.governance { state = n.state })
          x failed)
      ∙ with_state_own n s g

  -- `handleSend` with a key and a signature.
  sent : SendBody → Node fl Vm → Node fl Vm × Reply fl
  sent b n =
      let (state, outcome) =
        signed_transfer host disk b.from b.to b.amount (or_default 1_000 b.fee) n.height
          b.public_key b.signature clock.stamp n.state in
      (with_state host disk eth clock state n, answer of_state tx_of outcome)

  sent-refused :
      (b : SendBody) (n : Node fl Vm) (e : ApiError)
      → n.staking.state ≡ n.state
      → n.governance.state ≡ n.state
      → (sent b n).1 ≡ refused e
      → (sent b n).0 ≡ n
  unfolding sent
  sent-refused b n e s g h =
      let (x, failed) = answer-refused of_state tx_of _ e (λ a p. cc) h in
      ap (λ x. with_state host disk eth clock x n)
        (signed_transfer-err host disk b.from b.to b.amount (or_default 1_000 b.fee) n.height
          b.public_key b.signature clock.stamp n.state x failed)
      ∙ with_state_own n s g

  pub handle_send-refused :
      (b : SendBody) (n : Node fl Vm) (e : ApiError)
      → n.staking.state ≡ n.state
      → n.governance.state ≡ n.state
      → (handle_send host disk eth clock b n).1 ≡ refused e
      → (handle_send host disk eth clock b n).0 ≡ n
  unfolding handle_send sent
  handle_send-refused b n e s g h =
      elim (Bool-cases ((b.signature == "") || (b.public_key == ""))) [
        | inl missing ↦ rw (missing, handle_send) refl
        | inr there ↦
            let same : handle_send host disk eth clock b n ≡ sent b n =
              rw (there, handle_send) refl in
            ap (λ p. p.0) same ∙ sent-refused b n e s g (sym (ap (λ p. p.1) same) ∙ h)
      ]

  pub handle_send-Shared :
      (b : SendBody) (n : Node fl Vm) → Shared n → Shared (handle_send host disk eth clock b n).0
  unfolding handle_send
  handle_send-Shared b n h = elim (Bool-cases ((b.signature == "") || (b.public_key == ""))) [
    | inl missing ↦ rw (missing, handle_send) h
    | inr there ↦ rw (there, handle_send) (refl, refl, h.2, h.3)
  ]
