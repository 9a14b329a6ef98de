-- ===== src/Evm/Queries.antt =====
-- x/nvx/keeper/evm.go and x/nvx/keeper/evm_v2.go: the estimate of the gas and the queries.
use Prim.Native.String.{slice}
use nuvex.Base.{
  ℕ, ◌/◌, Bool, not, ◌&&◌, none, some, List, [], ◌∷◌, String, len, length, if◌then◌else◌,
  string_key, ◌==◌, Outcome, ok, err,
}
use nuvex.Base.Float.{Float}
use nuvex.Base.Word.{Int64, Uint64, ◌+64◌, ◌*64◌}
use nuvex.Dict.{lookup, values}
use nuvex.Host.{Host}
use nuvex.Evm.{
  EvmContract, EvmKeeper, EvmError, bad_calldata, contract_not_found, Ethereum, Executed,
  block_context,
}

pub record GasEstimate (F : Type 0) : Type 0 where
  pub estimated_gas : Uint64
  pub gas_price : Uint64
  pub total_cost_wei : Uint64
  pub total_cost_nvx : F

-- `strings.TrimPrefix`
abbrev pub trim_prefix : String → String → String
trim_prefix prefix s = if slice s 0 (len prefix) == prefix then slice s (len prefix) (len s) else s

unfoldable pub gas_estimate : (float : Float) → Uint64 → GasEstimate float.F
gas_estimate float gas = record {
  estimated_gas = gas +64 gas / 10;
  gas_price = 1_000;
  total_cost_wei = gas *64 1_000;
  total_cost_nvx = float.div (float.of_uint (gas *64 1_000)) (float.literal 1_000_000_000_000 1);
}

module _ {Vm : Type 0} (eth : Ethereum Vm) (host : Host) where
  -- The call runs on the state itself, and what it wrote stays.
  unfoldable pub estimate_call : String → String → List ℕ → Int64 → EvmKeeper Vm → Executed Vm
  estimate_call caller_hex contract_hex input value ek =
      eth.call (record (block_context eth host 1_000_000 10_000_000) { time = 400_000_000 })
        ek.chain_id (eth.hex_to_address caller_hex) (eth.hex_to_address contract_hex) input
        10_000_000 value ek.state_db

  unfoldable pub estimate_gas :
      (float : Float)
      → String
      → String
      → String
      → Int64
      → EvmKeeper Vm
      → EvmKeeper Vm × Outcome EvmError (GasEstimate float.F)
  unfolding estimate_call gas_estimate
  estimate_gas float caller_hex contract_hex calldata value ek =
      elim (host.hex_decode (trim_prefix "0x" calldata)) [
        | none ↦ (ek, err bad_calldata)
        | some input ↦
            let x = estimate_call caller_hex contract_hex input value ek in
            (record ek { state_db = x.vm }, ok (gas_estimate float x.left_over))
      ]

  unfoldable pub get_contract : String → EvmKeeper Vm → Outcome EvmError EvmContract
  get_contract address ek = elim (lookup address ek.contracts) [
    | none ↦ err contract_not_found
    | some contract ↦ ok contract
  ]

  abbrev pub get_all_contracts : EvmKeeper Vm → List EvmContract
  get_all_contracts ek = values ek.contracts

pub record ContractInfo : Type 0 where
  pub address : String
  pub deployer : String
  pub height : Int64
  pub tx_count : Uint64
  pub has_abi : Bool
  pub bytecode_len : ℕ
  pub is_verified : Bool

-- Any text but "" and "[]" counts as an ABI, and as a verification.
abbrev has_abi : EvmContract → Bool
has_abi contract = not (contract.abi == "") && not (contract.abi == "[]")

unfoldable pub get_contract_info :
    {Vm : Type 0} → String → EvmKeeper Vm → Outcome EvmError ContractInfo
get_contract_info address ek = elim (lookup address ek.contracts) [
  | none ↦ err contract_not_found
  | some contract ↦ ok (record {
    address = contract.address;
    deployer = contract.deployer;
    height = contract.height;
    tx_count = contract.tx_count;
    has_abi = has_abi contract;
    bytecode_len = len contract.bytecode / 2;
    is_verified = has_abi contract;
  })
]

pub record EvmStats : Type 0 where
  pub total_contracts : ℕ
  pub chain_id : ℕ
  pub evm_version : String
  pub compatible : String

unfoldable pub evm_stats : {Vm : Type 0} → EvmKeeper Vm → EvmStats
evm_stats ek = record {
  total_contracts = length ek.contracts;
  chain_id = ek.chain_id;
  evm_version = "London (EIP-1559)";
  compatible = "Ethereum EVM — Solidity 0.8.x";
}

pub record EvmStatsV2 : Type 0 where
  pub total_contracts : ℕ
  pub chain_id : ℕ
  pub evm_version : String
  pub compatible : String
  pub supported_eips : List ℕ
  pub gas_price : Uint64
  pub max_gas_per_block : Uint64
  pub nvx20_standard : String

unfoldable pub evm_stats_v2 : {Vm : Type 0} → EvmKeeper Vm → EvmStatsV2
evm_stats_v2 ek = record {
  total_contracts = length ek.contracts;
  chain_id = ek.chain_id;
  evm_version = "Shanghai (EIP-3855, EIP-3860)";
  compatible = "Ethereum EVM — Solidity 0.8.x — NVX-20";
  supported_eips = 1_559 ∷ 2_930 ∷ 2_929 ∷ 3_198 ∷ 3_529 ∷ 3_541 ∷ 3_855 ∷ 3_860 ∷ [];
  gas_price = 1_000;
  max_gas_per_block = 30_000_000;
  nvx20_standard = "Compatible with ERC-20";
}
