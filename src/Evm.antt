-- ===== src/Evm.antt =====
-- x/nvx/keeper/evm.go: deployments and calls around the EVM of go-ethereum, which is a parameter, as is
-- the state that it works on.
pub mod Queries
pub mod Counts
pub mod Gas
pub mod Samples
mod Tests
use nuvex.Base.{
  ℕ, Bool, true, false, Option, none, some, List, [], ◌∷◌, String, len, ltb, nat_eq, map,
  if◌then◌else◌, string_key, Outcome, ok, err, panic,
}
use nuvex.Base.Word.{Int64, Uint64, ◌+64◌, ◌*64◌}
use nuvex.Dict.{Dict, insert, adjust}
use nuvex.Host.{Host}

pub record EvmContract : Type 0 where
  pub address : String
  pub deployer : String
  pub bytecode : String
  pub abi : String
  pub height : Int64
  pub tx_count : Uint64

pub record EvmLog : Type 0 where
  pub address : String
  pub topics : List String
  pub log_data : String

pub record EvmResult : Type 0 where
  pub success : Bool
  pub return_data : String
  pub gas_used : Uint64
  pub error : String
  pub logs : List EvmLog

-- A log of go-ethereum: addresses and hashes are numbers.
pub record VmLog : Type 0 where
  pub address : ℕ
  pub topics : List ℕ
  pub log_data : List ℕ

-- The fields of `BlockContext` that differ from call to call; the difficulty is 0 and the base fee
-- 1000. `can_transfer` and `transfer` are the two callbacks.
pub record BlockContext (Vm : Type 0) : Type 0 where
  pub can_transfer : Vm → ℕ → ℕ → Bool
  pub transfer : Vm → ℕ → ℕ → ℕ → Vm
  pub block_number : Int64
  pub time : Uint64
  pub gas_limit : Uint64

-- What `Create` and `Call` return: the data, the address, the gas that is left over and the error.
pub record Executed (Vm : Type 0) : Type 0 where
  pub return_data : List ℕ
  pub address : ℕ
  pub left_over : Uint64
  pub failure : Option String
  pub vm : Vm

-- github.com/ethereum/go-ethereum: `Vm` is a StateDB. `create` takes the context, the chain's number,
-- the origin, the code, the gas and the value; `call` takes the address too.
pub record Ethereum (Vm : Type 0) : Type 0 where
  pub hex_to_address : String → ℕ
  pub address_hex : ℕ → String
  pub hash_hex : ℕ → String
  pub get_balance : Vm → ℕ → ℕ
  pub sub_balance : Vm → ℕ → ℕ → Vm
  pub add_balance : Vm → ℕ → ℕ → Vm
  pub create : BlockContext Vm → ℕ → ℕ → List ℕ → Uint64 → ℕ → Vm → Executed Vm
  pub call : BlockContext Vm → ℕ → ℕ → ℕ → List ℕ → Uint64 → ℕ → Vm → Executed Vm
  pub logs : Vm → List VmLog
  pub commit : Int64 → Vm → Vm

pub data EvmError : Type 0 where
  bad_bytecode bad_calldata contract_not_found : EvmError

pub record EvmKeeper (Vm : Type 0) : Type 0 where
  pub state_db : Vm
  pub contracts : Dict String EvmContract
  pub chain_id : ℕ

-- The EVM's state is empty at each start.
unfoldable pub new_evm_keeper : {Vm : Type 0} → Vm → EvmKeeper Vm
new_evm_keeper empty = record { state_db = empty; contracts = []; chain_id = 1_317 }

module _ {Vm : Type 0} (eth : Ethereum Vm) (host : Host) where
  unfoldable pub can_transfer : Vm → ℕ → ℕ → Bool
  can_transfer db addr amount = if ltb (eth.get_balance db addr) amount then false else true

  unfoldable pub transfer : Vm → ℕ → ℕ → ℕ → Vm
  transfer db sender recipient amount =
      eth.add_balance (eth.sub_balance db sender amount) recipient amount

  unfoldable pub block_context : Int64 → Uint64 → BlockContext Vm
  block_context height gas_limit = record {
    can_transfer = can_transfer;
    transfer = transfer;
    block_number = height;
    time = height *64 400;
    gas_limit = gas_limit;
  }

  -- A limit of 0 stands for the default, but in the block's context, which is made before.
  abbrev pub default_gas : ℕ → Uint64 → Uint64
  default_gas usual gas_limit = if nat_eq gas_limit 0 then usual else gas_limit

  unfoldable pub created : String → List ℕ → Int64 → Uint64 → EvmKeeper Vm → Executed Vm
  unfolding block_context
  created deployer_hex code height gas_limit ek =
      eth.create (block_context height gas_limit) ek.chain_id (eth.hex_to_address deployer_hex) code
        (default_gas 3_000_000 gas_limit) 0 ek.state_db

  abbrev pub failed_result : String → String → Uint64 → EvmResult
  failed_result return_data message gas = record {
    success = false;
    return_data = return_data;
    gas_used = gas;
    error = message;
    logs = [];
  }

  abbrev pub good_result : String → List EvmLog → Uint64 → EvmResult
  good_result return_data logs gas = record {
    success = true;
    return_data = return_data;
    gas_used = gas;
    error = "";
    logs = logs;
  }

  -- After a creation with no error: the contract is stored under its address and the state committed.
  -- The log line quotes 20 bytes of the address.
  unfoldable pub store_contract :
      String
      → String
      → String
      → Int64
      → Executed Vm
      → EvmKeeper Vm
      → EvmKeeper Vm × Outcome EvmError (Option EvmContract × EvmResult)
  store_contract deployer_hex bytecode_hex abi height x ek =
      let address = eth.address_hex x.address in
      let contract : EvmContract = record {
        address = address;
        deployer = deployer_hex;
        bytecode = bytecode_hex;
        abi = abi;
        height = height;
        tx_count = 0;
      } in
      (
        record ek {
          state_db = eth.commit height x.vm;
          contracts = insert address contract ek.contracts;
        },
        (if ltb (len address) 20 then panic else ok (some contract, good_result "" [] x.left_over)),
      )

  unfoldable pub deploy_contract :
      String
      → String
      → String
      → Int64
      → Uint64
      → EvmKeeper Vm
      → EvmKeeper Vm × Outcome EvmError (Option EvmContract × EvmResult)
  unfolding created store_contract
  deploy_contract deployer_hex bytecode_hex abi height gas_limit ek =
      elim (host.hex_decode bytecode_hex) [
        | none ↦ (ek, err bad_bytecode)
        | some code ↦
            let x = created deployer_hex code height gas_limit ek in
            elim x.failure [
              | some message ↦
                  (record ek { state_db = x.vm }, ok (none, failed_result "" message x.left_over))
              | none ↦ store_contract deployer_hex bytecode_hex abi height x ek
            ]
      ]

  unfoldable pub called :
      String → String → List ℕ → Int64 → Uint64 → Int64 → EvmKeeper Vm → Executed Vm
  unfolding block_context
  called caller_hex contract_hex input height gas_limit value ek =
      eth.call (block_context height gas_limit) ek.chain_id (eth.hex_to_address caller_hex)
        (eth.hex_to_address contract_hex) input (default_gas 1_000_000 gas_limit) value ek.state_db

  unfoldable pub evm_log : VmLog → EvmLog
  evm_log log = record {
    address = eth.address_hex log.address;
    topics = map eth.hash_hex log.topics;
    log_data = host.hex_encode log.log_data;
  }

  -- After a call with no error: all logs of the state so far are returned, the contract under the text
  -- of the address counts the call, and the state is committed. The log line quotes 10 bytes of both.
  unfoldable pub count_call :
      String
      → String
      → Int64
      → Executed Vm
      → EvmKeeper Vm
      → EvmKeeper Vm × Outcome EvmError EvmResult
  unfolding evm_log
  count_call caller_hex contract_hex height x ek = (
    record ek {
      state_db = eth.commit height x.vm;
      contracts =
          adjust contract_hex (λ (c : EvmContract). record c { tx_count = c.tx_count +64 1 })
            ek.contracts;
    },
    (if ltb (len caller_hex) 10
        then panic
        else if ltb (len contract_hex) 10
        then panic
        else ok (
            good_result (host.hex_encode x.return_data) (map evm_log (eth.logs x.vm)) x.left_over)),
  )

  -- What `CallContract` makes of the call's end.
  unfoldable pub finish_call :
      String
      → String
      → Int64
      → Executed Vm
      → EvmKeeper Vm
      → EvmKeeper Vm × Outcome EvmError EvmResult
  unfolding count_call
  finish_call caller_hex contract_hex height x ek = elim x.failure [
    | some message ↦ (
      record ek { state_db = x.vm },
      ok (failed_result (host.hex_encode x.return_data) message x.left_over),
    )
    | none ↦ count_call caller_hex contract_hex height x ek
  ]

  unfoldable pub call_contract :
      String
      → String
      → String
      → Int64
      → Uint64
      → Int64
      → EvmKeeper Vm
      → EvmKeeper Vm × Outcome EvmError EvmResult
  unfolding called finish_call
  call_contract caller_hex contract_hex calldata height gas_limit value ek =
      elim (host.hex_decode calldata) [
        | none ↦ (ek, err bad_calldata)
        | some input ↦
            finish_call caller_hex contract_hex height
              (called caller_hex contract_hex input height gas_limit value ek) ek
      ]
