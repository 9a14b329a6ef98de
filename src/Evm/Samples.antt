-- ===== src/Evm/Samples.antt =====
-- Concrete float64 and go-ethereum for the tests: the state is a number, which is the gas that the next
-- call uses.
use nuvex.Base.{ℕ, ◌+◌, ◌-◌, true, false, none, []}
use nuvex.Base.Float.{Float}
use nuvex.Evm.{Ethereum, Executed}

abbrev pub floats : Float
floats = record {
  F = ℕ;
  of_uint = λ n. n;
  floor = λ x. x;
  hours = λ n. n;
  literal = λ n d. n;
  add = λ x y. x + y;
  sub = λ x y. x - y;
  mul = λ x y. x + y;
  div = λ x y. x - y;
  min = λ x y. x;
  abs = λ x. x;
  sqrt = λ x. x;
  le = λ x y. true;
  lt = λ x y. false;
}

abbrev done : ℕ → Executed ℕ
done vm = record {
  return_data = [];
  address = 1;
  left_over = 10_000_000 - vm;
  failure = none;
  vm = vm + 1;
}

abbrev pub eth : Ethereum ℕ
eth = record {
  hex_to_address = λ s. 1;
  address_hex = λ a. "0x0000000000000000000000000000000000000001";
  hash_hex = λ a. "0x01";
  get_balance = λ vm a. 0;
  sub_balance = λ vm a n. vm;
  add_balance = λ vm a n. vm;
  create = λ ctx chain origin code gas value vm. done vm;
  call = λ ctx chain origin address input gas value vm. done vm;
  logs = λ vm. [];
  commit = λ height vm. vm;
}
