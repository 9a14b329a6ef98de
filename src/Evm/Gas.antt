-- ===== src/Evm/Gas.antt =====
-- The gas that is reported.
use nuvex.Base.{ℕ, ◌+◌, ◌/◌, ◌≤◌, ◌≡◌, arith, some, List, String, ok}
use nuvex.Base.Float.{Float}
use nuvex.Base.Word.{Int64}
use nuvex.Host.{Host}
use nuvex.Evm.{Ethereum, EvmKeeper}
use nuvex.Evm.Queries.{trim_prefix, estimate_call, estimate_gas, gas_estimate}

-- `EstimateGas` on text that decodes.
estimate_gas-decoded :
    {Vm : Type 0} (eth : Ethereum Vm) (host : Host) (float : Float)
    (caller contract calldata : String) (value : Int64) (input : List ℕ) (ek : EvmKeeper Vm)
    → host.hex_decode (trim_prefix "0x" calldata) ≡ some input
    → estimate_gas eth host float caller contract calldata value ek ≡ (
      record ek { state_db = (estimate_call eth host caller contract input value ek).vm },
      ok (gas_estimate float (estimate_call eth host caller contract input value ek).left_over),
    )
unfolding estimate_gas
estimate_gas-decoded eth host float caller contract calldata value input ek e =
    simp (e, estimate_gas)

estimate_small :
    (float : Float) (gas : ℕ)
    → gas ≤ 10_000_000
    → (gas_estimate float gas).estimated_gas ≡ gas + gas / 10
unfolding gas_estimate
estimate_small float gas h = omega (arith, h)

-- The estimate falls as the gas rises: where the calls in two keepers' states leave what they did not use of
-- the 10 million, the text decodes and the first uses at most as much as the second, both calls return an estimate, the
-- second's at most the first's, and each keeper keeps the state that its call has left.
pub estimate_gas_reversed :
    {Vm : Type 0} (eth : Ethereum Vm) (host : Host) (float : Float)
    (caller contract calldata : String) (value : Int64) (input : List ℕ) (ek ek' : EvmKeeper Vm)
    (used used' : ℕ)
    → host.hex_decode (trim_prefix "0x" calldata) ≡ some input
    → (estimate_call eth host caller contract input value ek).left_over + used ≡ 10_000_000
    → (estimate_call eth host caller contract input value ek').left_over + used' ≡ 10_000_000
    → used ≤ used'
    → let x = estimate_call eth host caller contract input value ek in
      let x' = estimate_call eth host caller contract input value ek' in
      (estimate_gas eth host float caller contract calldata value ek
        ≡ (record ek { state_db = x.vm }, ok (gas_estimate float x.left_over)))
      × (estimate_gas eth host float caller contract calldata value ek'
          ≡ (record ek' { state_db = x'.vm }, ok (gas_estimate float x'.left_over)))
      × ((gas_estimate float x'.left_over).estimated_gas
          ≤ (gas_estimate float x.left_over).estimated_gas)
estimate_gas_reversed eth host float caller contract calldata value input ek ek' used used' e g g'
      h =
    let x = estimate_call eth host caller contract input value ek in
    let x' = estimate_call eth host caller contract input value ek' in
    let small = estimate_small float x.left_over (omega (arith, g)) in
    let small' = estimate_small float x'.left_over (omega (arith, g')) in
    (
      estimate_gas-decoded eth host float caller contract calldata value input ek e,
      estimate_gas-decoded eth host float caller contract calldata value input ek' e,
      omega (arith, small, small', g, g', h),
    )
