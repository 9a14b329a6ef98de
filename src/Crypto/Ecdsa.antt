-- ===== src/Crypto/Ecdsa.antt =====
-- x/nvx/keeper/crypto.go: signing and verifying. `hmac` is HMAC over SHA-512, as the code calls it.
use nuvex.Base.{
  ℕ, ◌+◌, ◌*◌, ◌%◌, ◌||◌, not, none, some, List, [], ◌∷◌, ◌++◌, String, length, leb, nat_eq, take,
  drop, if◌then◌else◌, Outcome, ok, err, panic, ◌>>=◌, zero, suc,
}
use nuvex.Host.{Host}
use nuvex.Signature.{big_endian}
use nuvex.Crypto.{
  Curve, CryptoError, no_nonce, r_zero, s_zero, bad_format, zero_signature, out_of_range, rejected,
  Point, infinity, point, mod_inverse, point_add, scalar_mult, generator,
}
use nuvex.Crypto.Keys.{zeros, padded_pair}

unfoldable pub ones : ℕ → List ℕ
ones zero = []
ones (suc n) = 1 ∷ ones n

-- The first 32 bytes of the 64.
unfoldable pub mac : (List ℕ → List ℕ → List ℕ) → List ℕ → List ℕ → List ℕ
mac hmac key message = take 32 (hmac key message)

-- The candidate of the code: it is drawn once.
unfoldable pub nonce_candidate : (List ℕ → List ℕ → List ℕ) → List ℕ → List ℕ → ℕ
unfolding ones mac
nonce_candidate hmac priv hash =
    let v0 = ones 32 in
    let k1 = mac hmac (zeros 32) (v0 ++ 0 ∷ priv ++ hash) in
    let v1 = mac hmac k1 v0 in
    let k2 = mac hmac k1 (v1 ++ 1 ∷ priv ++ hash) in
    let v2 = mac hmac k2 v1 in big_endian (mac hmac k2 v2)

-- A nonce lies between 1 and n - 1.
unfoldable pub check_nonce : Curve → ℕ → Outcome CryptoError ℕ
check_nonce c k = if nat_eq k 0 || leb c.n k then err no_nonce else ok k

unfoldable pub generate_deterministic_k :
    Curve → (List ℕ → List ℕ → List ℕ) → List ℕ → List ℕ → Outcome CryptoError ℕ
unfolding nonce_candidate check_nonce
generate_deterministic_k c hmac priv hash = check_nonce c (nonce_candidate hmac priv hash)

-- The x of `k * G` modulo n; of the point at infinity it is nil.
unfoldable pub x_coordinate : Curve → Point → Outcome CryptoError ℕ
x_coordinate c infinity = panic
x_coordinate c (point x y) = ok (x % c.n)

-- The second half, with the key's number and the hash's.
unfoldable pub second_half : Curve → ℕ → ℕ → ℕ → ℕ → Outcome CryptoError ℕ
second_half c k d z r = elim (mod_inverse k c.n) [
  | none ↦ panic
  | some i ↦ ok (i * (z + r * d) % c.n)
]

abbrev pub nonzero : CryptoError → ℕ → Outcome CryptoError ℕ
nonzero e a = if nat_eq a 0 then err e else ok a

-- What `Sign` does with the nonce k.
unfoldable pub sign_with : Curve → ℕ → ℕ → ℕ → Outcome CryptoError (ℕ × ℕ)
unfolding x_coordinate second_half
sign_with c k d z = scalar_mult c k (generator c) >>= λ kg. x_coordinate c kg >>= λ x.
    nonzero r_zero x >>= λ r. second_half c k d z r >>= λ y. nonzero s_zero y >>= λ s. ok (r, s)

unfoldable pub sign :
    Curve → (List ℕ → List ℕ → List ℕ) → List ℕ → List ℕ → Outcome CryptoError (ℕ × ℕ)
unfolding generate_deterministic_k sign_with
sign c hmac priv hash = generate_deterministic_k c hmac priv hash >>= λ k.
    sign_with c k (big_endian priv) (big_endian hash)

unfoldable pub sign_to_hex :
    Host → Curve → (List ℕ → List ℕ → List ℕ) → List ℕ → List ℕ → Outcome CryptoError String
unfolding sign
sign_to_hex host c hmac priv hash =
    sign c hmac priv hash >>= λ (r, s). padded_pair r s >>= λ bytes. ok (host.hex_encode bytes)

-- The last test of `VerifyECDSA`.
unfoldable pub check_point : Curve → ℕ → Point → Outcome CryptoError (Unit {0})
check_point c r infinity = err rejected
check_point c r (point x y) = if nat_eq (x % c.n) r then ok tt else err rejected

-- What `VerifyECDSA` computes from the public key, the hash's number and the inverse of s.
unfoldable pub verify_with : Curve → Point → ℕ → ℕ → ℕ → Outcome CryptoError (Unit {0})
unfolding check_point
verify_with c q z r i = scalar_mult c (z * i % c.n) (generator c) >>= λ p1.
    scalar_mult c (r * i % c.n) q >>= λ p2. point_add c p1 p2 >>= λ sum. check_point c r sum

unfoldable pub verify_pair : Curve → Point → ℕ → ℕ → ℕ → Outcome CryptoError (Unit {0})
unfolding verify_with
verify_pair c q z r s =
    if nat_eq r 0 || nat_eq s 0
    then err zero_signature
    else if leb c.n r || leb c.n s
    then err out_of_range
    else elim (mod_inverse s c.n) [ none ↦ panic | some i ↦ verify_with c q z r i ]

unfoldable pub verify_ecdsa :
    Host → Curve → Point → List ℕ → String → Outcome CryptoError (Unit {0})
unfolding verify_pair
verify_ecdsa host c q hash signature = elim (host.hex_decode signature) [
  | none ↦ err bad_format
  | some bytes ↦
      if not (nat_eq (length bytes) 64)
      then err bad_format
      else verify_pair c q (big_endian hash) (big_endian (take 32 bytes))
          (big_endian (drop 32 bytes))
]
