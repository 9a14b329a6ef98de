-- ===== src/Api/Refusals.antt =====
-- A keeper's operation that returns an error leaves its state as it was.
use nuvex.Base.{
  ℕ, ◌≡◌, refl, sym, ap, ◌∙◌, arith, Bool, String, ok, err, Outcome-cases, Option-cases, inl, inr,
  string_key, nat_key,
}
use nuvex.Base.Float.{Float}
use nuvex.Base.Word.{Int64, Uint64}
use nuvex.Dict.{lookup}
use nuvex.Host.{Host}
use nuvex.State.Accounts.{Account}
use nuvex.State.Keeper.{Disk, StateKeeper, StateError, signed_transfer, execute_signed, confirm}
use nuvex.Mempool.{Mempool, MempoolError, submit}
use nuvex.Evm.{
  Ethereum, EvmKeeper, EvmError, deploy_contract, call_contract, store_contract, finish_call,
  count_call,
}
use nuvex.Evm.Queries.{estimate_gas}
use nuvex.Dex.{
  DexKeeper, DexError, LiquidityPool, create_pool, add_liquidity, swap, swap_in, settle_swap,
}
use nuvex.Staking.{
  StakingKeeper, StakingError, StakePosition, stake, unstake, pay_out, settle, find_position,
}
use nuvex.Governance.{GovernanceKeeper, GovernanceError, vote, create_proposal}

pub submit-err :
    (host : Host) (from to : String) (amount fee : Int64) (nonce : Uint64) (nanos : Int64) (now : ℕ)
    (mp : Mempool) (e : MempoolError)
    → (submit host from to amount fee nonce nanos now mp).1 ≡ err e
    → (submit host from to amount fee nonce nanos now mp).0 ≡ mp
unfolding submit
submit-err host from to amount fee nonce nanos now mp e h = ground arith

pub create_pool-err :
    (fl : Float) (token_a token_b : String) (amount_a amount_b : fl.F) (creator now : String)
    (dk : DexKeeper fl) (e : DexError)
    → (create_pool fl token_a token_b amount_a amount_b creator now dk).1 ≡ err e
    → (create_pool fl token_a token_b amount_a amount_b creator now dk).0 ≡ dk
unfolding create_pool
create_pool-err fl token_a token_b amount_a amount_b creator now dk e h = ground arith

pub stake-err :
    (host : Host) (owner : String) (amount : ℕ) (is_green : Bool) (nanos : Int64) (now : ℕ)
    (sk : StakingKeeper) (e : StakingError)
    → (stake host owner amount is_green nanos now sk).1 ≡ err e
    → (stake host owner amount is_green nanos now sk).0 ≡ sk
unfolding stake
stake-err host owner amount is_green nanos now sk e h = ground arith

pub create_proposal-err :
    (proposer title description proposal_type : String) (deposit now : ℕ) (gk : GovernanceKeeper)
    (e : GovernanceError)
    → (create_proposal proposer title description proposal_type deposit now gk).1 ≡ err e
    → (create_proposal proposer title description proposal_type deposit now gk).0 ≡ gk
unfolding create_proposal
create_proposal-err proposer title description proposal_type deposit now gk e h = ground arith

pub vote-err :
    (id : ℕ) (voter option : String) (now : ℕ) (gk : GovernanceKeeper) (e : GovernanceError)
    → (vote id voter option now gk).1 ≡ err e
    → (vote id voter option now gk).0 ≡ gk
unfolding vote
vote-err id voter option now gk e h = ground arith

settle-err :
    (owner id : String) (pos : StakePosition) (sk : StakingKeeper) (e : StakingError)
    → (settle owner id pos sk).1 ≡ err e
    → ⊥
unfolding settle
settle-err owner id pos sk e h = ground arith

pay_out-err :
    (fl : Float) (owner id : String) (now : ℕ) (pos : StakePosition) (sk : StakingKeeper)
    (e : StakingError)
    → (pay_out fl owner id now pos sk).1 ≡ err e
    → ⊥
unfolding pay_out settle
pay_out-err fl owner id now pos sk e h = ground arith

pub unstake-err :
    (fl : Float) (owner id : String) (now : ℕ) (sk : StakingKeeper) (e : StakingError)
    → (unstake fl owner id now sk).1 ≡ err e
    → (unstake fl owner id now sk).0 ≡ sk
unfolding unstake
unstake-err fl owner id now sk e h = elim (Outcome-cases (find_position owner id sk)) [
  | inl (pos, found) ↦
      absurd (pay_out-err fl owner id now pos sk e (sym (ap (λ p. p.1) (found_pos found)) ∙ h))
  | inr (inl (x, refused)) ↦ rw (refused, unstake) refl
  | inr (inr panicked) ↦ rw (panicked, unstake) refl
]
  where
    found_pos :
        {pos : StakePosition}
        → find_position owner id sk ≡ ok pos
        → unstake fl owner id now sk ≡ pay_out fl owner id now pos sk
    found_pos found = rw (found, unstake) refl

execute_signed-err :
    (host : Host) (disk : Disk) (from to : String) (amount fee height : Int64)
    (signature now : String) (sender : Account) (sk : StateKeeper) (e : StateError)
    → (execute_signed host disk from to amount fee height signature now sender sk).1 ≡ err e
    → ⊥
unfolding execute_signed confirm
execute_signed-err host disk from to amount fee height signature now sender sk e h = ground arith

pub signed_transfer-err :
    (host : Host) (disk : Disk) (from to : String) (amount fee height : Int64)
    (key signature now : String) (sk : StateKeeper) (e : StateError)
    → (signed_transfer host disk from to amount fee height key signature now sk).1 ≡ err e
    → (signed_transfer host disk from to amount fee height key signature now sk).0 ≡ sk
unfolding signed_transfer execute_signed confirm
signed_transfer-err host disk from to amount fee height key signature now sk e h = ground arith

pub deploy_contract-err :
    {Vm : Type 0} (eth : Ethereum Vm) (host : Host) (deployer code abi : String) (height : Int64)
    (gas : Uint64) (ek : EvmKeeper Vm) (e : EvmError)
    → (deploy_contract eth host deployer code abi height gas ek).1 ≡ err e
    → (deploy_contract eth host deployer code abi height gas ek).0 ≡ ek
unfolding deploy_contract store_contract
deploy_contract-err eth host deployer code abi height gas ek e h = ground arith

pub call_contract-err :
    {Vm : Type 0} (eth : Ethereum Vm) (host : Host) (caller contract input : String)
    (height : Int64) (gas : Uint64) (value : Int64) (ek : EvmKeeper Vm) (e : EvmError)
    → (call_contract eth host caller contract input height gas value ek).1 ≡ err e
    → (call_contract eth host caller contract input height gas value ek).0 ≡ ek
unfolding call_contract finish_call count_call
call_contract-err eth host caller contract input height gas value ek e h = ground arith

pub estimate_gas-err :
    {Vm : Type 0} (eth : Ethereum Vm) (host : Host) (fl : Float) (caller contract input : String)
    (value : Int64) (ek : EvmKeeper Vm) (e : EvmError)
    → (estimate_gas eth host fl caller contract input value ek).1 ≡ err e
    → (estimate_gas eth host fl caller contract input value ek).0 ≡ ek
unfolding estimate_gas
estimate_gas-err eth host fl caller contract input value ek e h = ground arith

pub add_liquidity-err :
    (fl : Float) (id : String) (a b : fl.F) (provider : String) (dk : DexKeeper fl) (e : DexError)
    → (add_liquidity fl id a b provider dk).1 ≡ err e
    → (add_liquidity fl id a b provider dk).0 ≡ dk
unfolding add_liquidity
add_liquidity-err fl id a b provider dk e h = ground arith

swap_in-err :
    (fl : Float) (id token : String) (amount least : fl.F) (trader now : String)
    (pool : LiquidityPool fl) (dk : DexKeeper fl) (e : DexError)
    → (swap_in fl id token amount least trader now pool dk).1 ≡ err e
    → (swap_in fl id token amount least trader now pool dk).0 ≡ dk
unfolding swap_in settle_swap
swap_in-err fl id token amount least trader now pool dk e h = ground arith

pub swap-err :
    (fl : Float) (id token : String) (amount least : fl.F) (trader now : String) (dk : DexKeeper fl)
    (e : DexError)
    → (swap fl id token amount least trader now dk).1 ≡ err e
    → (swap fl id token amount least trader now dk).0 ≡ dk
unfolding swap
swap-err fl id token amount least trader now dk e h = elim (Option-cases (lookup id dk.pools)) [
  | inl none' ↦ rw (none', swap) refl
  | inr (pool, found) ↦
      let same : swap fl id token amount least trader now dk
          ≡ swap_in fl id token amount least trader now pool dk =
        rw (found, swap) refl in
      ap (λ p. p.0) same
      ∙ swap_in-err fl id token amount least trader now pool dk e (sym (ap (λ p. p.1) same) ∙ h)
]
