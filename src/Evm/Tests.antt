-- ===== src/Evm/Tests.antt =====
-- A keeper with one contract.
use nuvex.Base.{ℕ, ◌≤◌, ◌≡◌, refl, arith, some, List, [], ◌∷◌, ok, string_key}
use nuvex.Dict.{lookup}
use nuvex.State.Samples.{sample_host, bytes64}
use nuvex.Evm.{EvmContract, EvmKeeper, called}
use nuvex.Evm.Samples.{floats, eth}
use nuvex.Evm.Queries.{estimate_call, estimate_gas, gas_estimate}
use nuvex.Evm.Counts.{
  EvmRequest, call_wanted, estimate_wanted, evm_run, successes, succeeds, evm_run-counted,
}
use nuvex.Evm.Gas.{estimate_gas_reversed}

abbrev token : EvmContract
token = record {
  address = "0x0000000000000000000000000000000000000001";
  deployer = "alice";
  bytecode = "00";
  abi = "[]";
  height = 3;
  tx_count = 6;
}

abbrev keeper : ℕ → EvmKeeper ℕ
keeper vm = record {
  state_db = vm;
  contracts = ("0x0000000000000000000000000000000000000001", token) ∷ [];
  chain_id = 1_317;
}

-- Two calls by the stored text and one by another text of the same address.
abbrev history : List EvmRequest
history =
    call_wanted "0xabcdefabcdef" "0x0000000000000000000000000000000000000001" "00" 4 0 0
    ∷ estimate_wanted "0xabcdefabcdef" "0x0000000000000000000000000000000000000001" "00" 0
    ∷ call_wanted "0xabcdefabcdef" "0000000000000000000000000000000000000001" "00" 5 0 0
    ∷ call_wanted "0xabcdefabcdef" "0x0000000000000000000000000000000000000001" "00" 5 0 0
    ∷ []

evm_run-counted_example :
    lookup "0x0000000000000000000000000000000000000001"
      (evm_run eth sample_host floats history (keeper 5)).contracts
    ≡ some (record token { tx_count = 8 })
unfolding successes succeeds called
evm_run-counted_example =
    evm_run-counted eth sample_host floats "0x0000000000000000000000000000000000000001" history
      (keeper 5) token (omega arith) refl

estimate_gas_reversed_example :
    let x = estimate_call eth sample_host "0xaa" "0xbb" (bytes64 64) 0 (keeper 5) in
    let x' = estimate_call eth sample_host "0xaa" "0xbb" (bytes64 64) 0 (keeper 7) in
    (estimate_gas eth sample_host floats "0xaa" "0xbb" "0x00" 0 (keeper 5)
      ≡ (record (keeper 5) { state_db = x.vm }, ok (gas_estimate floats x.left_over)))
    × (estimate_gas eth sample_host floats "0xaa" "0xbb" "0x00" 0 (keeper 7)
        ≡ (record (keeper 7) { state_db = x'.vm }, ok (gas_estimate floats x'.left_over)))
    × ((gas_estimate floats x'.left_over).estimated_gas
        ≤ (gas_estimate floats x.left_over).estimated_gas)
unfolding estimate_call
estimate_gas_reversed_example =
    estimate_gas_reversed eth sample_host floats "0xaa" "0xbb" "0x00" 0 (bytes64 64) (keeper 5)
      (keeper 7) 5 7 refl refl refl (omega arith)
