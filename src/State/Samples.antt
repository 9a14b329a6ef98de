-- ===== src/State/Samples.antt =====
-- Concrete libraries, accounts and keys for the tests: hashing and hexadecimal text are trivial, and
-- every key that decodes belongs to one address.
use nuvex.Base.{
  ℕ, true, none, some, List, [], ◌∷◌, String, zero, suc, string_key, ◌==◌, if◌then◌else◌,
}
use nuvex.Host.{Host}
use nuvex.State.Accounts.{Account, AccountMap, Transaction}
use nuvex.State.Keeper.{StateKeeper, Disk}

abbrev pub bytes64 : ℕ → List ℕ
bytes64 zero = []
bytes64 (suc n) = 7 ∷ bytes64 n

abbrev pub sample_host : Host
sample_host = record {
  to_bytes = λ s. [];
  sha256 = λ bytes. bytes;
  hex_encode = λ bytes. "alice00000000000";
  hex_decode = λ s. if s == "bad" then none else some (bytes64 64);
  fmt_int = λ n. "1";
  fmt_uint = λ n. "2";
  ecdsa_verify = λ x y hash r s. true;
}

abbrev pub alice : String
alice = "nuvex1alice00000000000"

abbrev pub bob : String
bob = "nuvex1bob0000000000000"

abbrev pub signature : String
signature = "0123456789abcdef0123"

abbrev pub account : String → ℕ → Account
account address balance = record {
  address = address;
  balance = balance;
  nonce = 4;
  public_key = "";
}

abbrev pub ledger : AccountMap
ledger = (alice, account alice 5_000) ∷ (bob, account bob 300) ∷ []

abbrev pub keeper : StateKeeper
keeper = record { accounts = ledger; txs = []; file = none }

abbrev pub payment : Transaction
payment = record {
  hash = "0x1";
  from = alice;
  to = bob;
  amount = 100;
  fee = 10;
  nonce = 5;
  height = 7;
  timestamp = "now";
  status = "confirmed";
  signature = "";
}

-- A disk that reads every file as the sample accounts with one payment.
abbrev pub sample_disk : Disk
sample_disk = record {
  marshal = λ accounts txs. [];
  unmarshal = λ bytes. some (ledger, payment ∷ []);
  write_file = λ old bytes. some bytes;
}
