-- ===== src/Host.antt =====
-- What the keepers take from Go's standard library: hashing, hexadecimal text, decimal text, bytes
-- and the ECDSA check (crypto/sha256, encoding/hex, fmt, crypto/ecdsa). Only its type is known here.
use nuvex.Base.{ℕ, Bool, Option, List, String}
use nuvex.Base.Word.{Int64, Uint64}

pub record Host : Type 0 where
  -- `[]byte(s)`
  pub to_bytes : String → List ℕ
  -- `sha256.Sum256`
  pub sha256 : List ℕ → List ℕ
  -- `hex.EncodeToString` and `hex.DecodeString`
  pub hex_encode : List ℕ → String
  pub hex_decode : String → Option (List ℕ)
  -- `%d` of an int64 and of a uint64
  pub fmt_int : Int64 → String
  pub fmt_uint : Uint64 → String
  -- `ecdsa.Verify` on the curve P-256: the public key's x and y, the hash, r and s
  pub ecdsa_verify : ℕ → ℕ → List ℕ → ℕ → ℕ → Bool
