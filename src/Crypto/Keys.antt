-- ===== src/Crypto/Keys.antt =====
-- x/nvx/keeper/crypto.go: keys, their text forms and the address.
use Prim.Native.String.{◌++◌}
use nuvex.Base.{
  ℕ, ◌-◌, Option, none, some, List, [], ◌∷◌, reverse, String, zero, suc, length, ltb, take,
  if◌then◌else◌, Outcome, ok, err, panic, ◌>>=◌,
}
use mathlib.Core.List
use nuvex.Base.Digits.{digits}
use nuvex.Host.{Host}
use nuvex.Signature.{big_endian}
use nuvex.Base.Word.{Int64, Uint64}
use nuvex.Crypto.{Curve, CryptoError, no_random, Point, infinity, point, scalar_mult, generator}

-- `Bytes`: the big-endian bytes with no leading zero
unfoldable pub bytes_of : ℕ → List ℕ
bytes_of n = reverse (digits 254 n)

abbrev pub zeros : ℕ → List ℕ
zeros zero = []
zeros (suc n) = 0 ∷ zeros n

-- The bytes at the end of 32; a longer number is a slice out of range.
unfoldable pub padded : ℕ → Outcome CryptoError (List ℕ)
unfolding bytes_of
padded n =
    let bytes = bytes_of n in
    if ltb 32 (length bytes) then panic else ok (List.◌++◌ (zeros (32 - length bytes)) bytes)

-- Two numbers in 64 bytes.
unfoldable pub padded_pair : ℕ → ℕ → Outcome CryptoError (List ℕ)
padded_pair x y = padded x >>= λ xs. padded y >>= λ ys. ok (List.◌++◌ xs ys)

-- A private key is its bytes, and a public key a point; the one at infinity has nil coordinates.
unfoldable pub public_key : Curve → List ℕ → Outcome CryptoError Point
public_key c d = scalar_mult c (big_endian d) (generator c)

-- The bytes are what `rand.Read` gives, if it does not fail; no range is tested.
unfoldable pub generate_key_pair : Curve → Option (List ℕ) → Outcome CryptoError (List ℕ × Point)
unfolding public_key
generate_key_pair c random = elim random [
  | none ↦ err no_random
  | some d ↦ public_key c d >>= λ q. ok (d, q)
]

module _ (host : Host) where
  unfoldable pub private_to_hex : List ℕ → String
  private_to_hex d = host.hex_encode d

  unfoldable pub public_to_hex : Point → Outcome CryptoError String
  public_to_hex infinity = panic
  public_to_hex (point x y) = padded_pair x y >>= λ bytes. ok (host.hex_encode bytes)

  -- `DecodeString` gives the bytes before an error, which is dropped; its own output never fails.
  unfoldable pub nuvex_address : Point → Outcome CryptoError String
  nuvex_address q = public_to_hex q >>= λ text. elim (host.hex_decode text) [
    | none ↦ panic
    | some bytes ↦ ok ("nuvex1" ++ host.hex_encode (take 19 (host.sha256 (host.sha256 bytes))))
  ]

  -- The text of `HashTransaction`, which is not the one that the state keeper checks.
  unfoldable pub hash_transaction : String → String → Int64 → Int64 → Uint64 → List ℕ
  hash_transaction from to amount fee nonce = host.sha256 (
      host.to_bytes (
        "nuvex-1:"
        ++ from
        ++ ":"
        ++ to
        ++ ":"
        ++ host.fmt_int amount
        ++ ":"
        ++ host.fmt_int fee
        ++ ":"
        ++ host.fmt_uint nonce))
