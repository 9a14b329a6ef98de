-- ===== src/Evm/Counts.antt =====
-- What the counter of a contract's calls counts.
use nuvex.Base.{
  ℕ, ◌+◌, ◌<◌, ◌≡◌, refl, sym, ap, ◌∙◌, arith, Bool, true, false, ◌&&◌, Option, none, some, List,
  [], ◌∷◌, String, inl, inr, Bool-cases, Option-cases, if◌then◌else◌, string_key, ◌==◌,
}
use nuvex.Base.Float.{Float}
use nuvex.Base.Word.{Int64, Uint64, ◌+64◌, word}
use nuvex.Dict.{Dict, lookup, adjust, lookup-adjust}
use nuvex.Host.{Host}
use nuvex.Evm.{
  Ethereum, EvmContract, EvmKeeper, Executed, called, count_call, finish_call, call_contract,
}
use nuvex.Evm.Queries.{trim_prefix, estimate_gas}

-- A call of `CallContract` or of `EstimateGas`.
pub data EvmRequest : Type 0 where
  call_wanted : String → String → String → Int64 → Uint64 → Int64 → EvmRequest
  estimate_wanted : String → String → String → Int64 → EvmRequest

and_true : (b : Bool) → (b && true) ≡ b
and_true true = refl
and_true false = refl

and_false : (b : Bool) → (b && false) ≡ false
and_false true = refl
and_false false = refl

module _ {Vm : Type 0} (eth : Ethereum Vm) (host : Host) (float : Float) where
  unfoldable pub evm_step : EvmRequest → EvmKeeper Vm → EvmKeeper Vm
  evm_step (call_wanted caller contract input height gas value) ek =
      (call_contract eth host caller contract input height gas value ek).0
  evm_step (estimate_wanted caller contract input value) ek =
      (estimate_gas eth host float caller contract input value ek).0

  unfoldable pub evm_run : List EvmRequest → EvmKeeper Vm → EvmKeeper Vm
  evm_run [] ek = ek
  evm_run (r ∷ requests) ek = evm_run requests (evm_step r ek)

  -- The EVM has no error.
  abbrev pub ended_well : Option String → Bool
  ended_well none = true
  ended_well (some _) = false

  -- Whether the request is a call that names the contract by this text and ends with no error.
  unfoldable pub succeeds : String → EvmRequest → EvmKeeper Vm → Bool
  succeeds key (call_wanted caller contract input height gas value) ek =
      elim (host.hex_decode input) [
        | none ↦ false
        | some bytes ↦
            (contract == key)
            && ended_well (called eth host caller contract bytes height gas value ek).failure
      ]
  succeeds key (estimate_wanted caller contract input value) ek = false

  abbrev pub one_if : Bool → ℕ
  one_if b = if b then 1 else 0

  -- The number of such requests in a run.
  unfoldable pub successes : String → List EvmRequest → EvmKeeper Vm → ℕ
  successes key [] ek = 0
  successes key (r ∷ requests) ek =
      one_if (succeeds key r ek) + successes key requests (evm_step r ek)

  -- The contract after this many further calls.
  abbrev pub counted : ℕ → EvmContract → EvmContract
  counted n c = record c { tx_count = c.tx_count +64 n }

  counted_none : (c : EvmContract) → c.tx_count < word → counted 0 c ≡ c
  counted_none c small = ap (λ (n : ℕ). record c { tx_count = n }) (omega (arith, small))

  counted_sum : (c : EvmContract) (m n : ℕ) → counted n (counted m c) ≡ counted (m + n) c
  counted_sum c m n = ap (λ (k : ℕ). record c { tx_count = k }) (omega arith)

  adjust-counted :
      (key contract : String) (m : Dict String EvmContract) (c : EvmContract)
      → c.tx_count < word
      → lookup key m ≡ some c
      → lookup key (adjust contract (counted 1) m) ≡ some (counted (one_if (contract == key)) c)
  adjust-counted key contract m c small h = elim (Bool-cases (contract == key)) [
    | inl same ↦ rw (lookup-adjust contract key (counted 1) m, same, h) refl
    | inr other ↦
        rw (lookup-adjust contract key (counted 1) m, other, h)
          (ap some (sym (counted_none c small)))
  ]

  finish-well :
      (caller contract : String) (height : Int64) (x : Executed Vm) (ek : EvmKeeper Vm)
      → x.failure ≡ none
      → (finish_call eth host caller contract height x ek).0.contracts
        ≡ adjust contract (counted 1) ek.contracts
  unfolding finish_call count_call
  finish-well caller contract height x ek e = simp (e, finish_call, count_call)

  finish-failed :
      (caller contract message : String) (height : Int64) (x : Executed Vm) (ek : EvmKeeper Vm)
      → x.failure ≡ some message
      → (finish_call eth host caller contract height x ek).0.contracts ≡ ek.contracts
  unfolding finish_call count_call
  finish-failed caller contract message height x ek e = simp (e, finish_call, count_call)

  finish-counted :
      (key caller contract : String) (height : Int64) (x : Executed Vm) (ek : EvmKeeper Vm)
      (c : EvmContract)
      → c.tx_count < word
      → lookup key ek.contracts ≡ some c
      → lookup key (finish_call eth host caller contract height x ek).0.contracts
        ≡ some (counted (one_if ((contract == key) && ended_well x.failure)) c)
  finish-counted key caller contract height x ek c small h = elim (Option-cases x.failure) [
    | inl e ↦
        let well : ended_well x.failure ≡ true = ap ended_well e in
        let both : (contract == key) ≡ ((contract == key) && ended_well x.failure) =
          sym (and_true (contract == key)) ∙ ap (λ w. (contract == key) && w) (sym well) in
        ap (lookup key) (finish-well caller contract height x ek e)
        ∙ adjust-counted key contract ek.contracts c small h
        ∙ ap (λ b. some (counted (one_if b) c)) both
    | inr (message, e) ↦
        let failed : ended_well x.failure ≡ false = ap ended_well e in
        let both : false ≡ ((contract == key) && ended_well x.failure) =
          sym (and_false (contract == key)) ∙ ap (λ w. (contract == key) && w) (sym failed) in
        ap (lookup key) (finish-failed caller contract message height x ek e)
        ∙ h
        ∙ ap some (sym (counted_none c small))
        ∙ ap (λ b. some (counted (one_if b) c)) both
  ]

  step-counted :
      (key : String) (r : EvmRequest) (ek : EvmKeeper Vm) (c : EvmContract)
      → c.tx_count < word
      → lookup key ek.contracts ≡ some c
      → lookup key (evm_step r ek).contracts ≡ some (counted (one_if (succeeds key r ek)) c)
  unfolding evm_step call_contract estimate_gas succeeds
  step-counted key (call_wanted caller contract input height gas value) ek c small h =
      elim (Option-cases (host.hex_decode input)) [
        | inl e ↦
            simp (e, evm_step, call_contract, succeeds) (h ∙ ap some (sym (counted_none c small)))
        | inr (bytes, e) ↦
            simp (e, evm_step, call_contract, succeeds)
              (finish-counted key caller contract height
                (called eth host caller contract bytes height gas value ek) ek c small h)
      ]
  step-counted key (estimate_wanted caller contract input value) ek c small h =
      elim (Option-cases (host.hex_decode (trim_prefix "0x" input))) [
        | inl e ↦ simp (e, evm_step, estimate_gas) (h ∙ ap some (sym (counted_none c small)))
        | inr (bytes, e) ↦
            simp (e, evm_step, estimate_gas) (h ∙ ap some (sym (counted_none c small)))
      ]

  -- Over any calls and estimates, the counter of a contract, below 2^64 at first, rises by the number of
  -- calls that name it by the text of its address and end with no error, modulo 2^64, and nothing else
  -- of the contract changes.
  pub evm_run-counted :
      (key : String) (requests : List EvmRequest) (ek : EvmKeeper Vm) (c : EvmContract)
      → c.tx_count < word
      → lookup key ek.contracts ≡ some c
      → lookup key (evm_run requests ek).contracts ≡ some (counted (successes key requests ek) c)
  unfolding evm_run successes
  evm_run-counted key [] ek c small h = h ∙ ap some (sym (counted_none c small))
  evm_run-counted key (r ∷ requests) ek c small h =
      let first = step-counted key r ek c small h in
      let later =
        evm_run-counted key requests (evm_step r ek) (counted (one_if (succeeds key r ek)) c)
          (omega arith) first in
      later
      ∙ ap some
          (counted_sum c (one_if (succeeds key r ek)) (successes key requests (evm_step r ek)))
