-- ===== src/Crypto/Completeness.antt =====
-- A signature that `Sign` makes is one that `VerifyECDSA` accepts.
use nuvex.Base.{
  ℕ, ◌+◌, ◌*◌, ◌%◌, ◌^◌, ◌≤◌, ◌<◌, ◌≡◌, sym, ap, ◌∙◌, false, some, Option-cases, inl, inr, List,
  String, arith, nat_eq, nat_eq_iff, leb, ◌||◌, length, take, drop, Outcome, ok, panic, bind-ok,
  ok-injective,
}
use nuvex.Host.{Host}
use nuvex.Signature.{big_endian}
use nuvex.Crypto.{
  Curve, CryptoError, r_zero, s_zero, Point, infinity, point, mod_inverse, scalar_mult, generator,
}
use nuvex.Crypto.Keys.{public_key, padded_pair}
use nuvex.Crypto.Ecdsa.{
  check_nonce, nonce_candidate, generate_deterministic_k, x_coordinate, second_half, nonzero,
  sign_with, sign, sign_to_hex, check_point, verify_with, verify_pair, verify_ecdsa,
}
use nuvex.Crypto.Multiples.{IsAdditive, scalar_mult-digits}
use nuvex.Crypto.Modular.{mod_inverse-some, nonce_recovered}
use nuvex.Crypto.Encoding.{big_endian-padded_pair}
use native.Mathlib.Nat.{mod-lt}

-- The multiples of the generator: they add up as their indices do, come round after the order of
-- the group, and each index below the order but 0 has an inverse.
pub record IsCyclic (c : Curve) (multiple : ℕ → Point) : Type 0 where
  pub additive : IsAdditive c multiple
  pub at_one : generator c ≡ multiple 1
  pub periodic : (a : ℕ) → multiple (a % c.n) ≡ multiple a
  pub inverses : (a : ℕ) → 0 < a → a < c.n → (i : ℕ) × (mod_inverse a c.n ≡ some i)

nonzero-ok : (e : CryptoError) (a b : ℕ) → nonzero e a ≡ ok b → (a ≡ b) × (0 < b)
nonzero-ok e a b h = ground arith

x_coordinate-ok :
    (c : Curve) (q : Point) (x : ℕ) → x_coordinate c q ≡ ok x → check_point c x q ≡ ok tt
unfolding x_coordinate check_point
x_coordinate-ok c infinity x h = cc
x_coordinate-ok c (point a b) x h = ground (arith, nat_eq_iff (a % c.n) x)

x_coordinate-lt : (c : Curve) (q : Point) (x : ℕ) → 0 < c.n → x_coordinate c q ≡ ok x → x < c.n
unfolding x_coordinate
x_coordinate-lt c infinity x p h = cc
x_coordinate-lt c (point a b) x p h =
    let e : a % c.n ≡ x = ground arith in omega (arith, e, mod-lt a p)

second_half-ok :
    (c : Curve) (k d z r s : ℕ)
    → second_half c k d z r ≡ ok s
    → (i : ℕ) × (mod_inverse k c.n ≡ some i) × (s ≡ i * (z + r * d) % c.n)
unfolding second_half
second_half-ok c k d z r s h = elim (Option-cases (mod_inverse k c.n)) [
  | inl missing ↦ absurd (let e : second_half c k d z r ≡ panic = simp (missing, second_half) in cc)
  | inr (i, found) ↦ (
    i,
    found,
    (let e : second_half c k d z r ≡ ok (i * (z + r * d) % c.n) = simp (found, second_half) in
        ground (arith)),
  )
]

-- What a pair that `Sign` returns is made of.
pub record IsSigned (c : Curve) (k d z r s : ℕ) : Type 0 where
  pub kg : Point
  pub multiplied : scalar_mult c k (generator c) ≡ ok kg
  pub first : x_coordinate c kg ≡ ok r
  pub inverse : ℕ
  pub inverted : mod_inverse k c.n ≡ some inverse
  pub second : s ≡ inverse * (z + r * d) % c.n
  pub r_positive : 0 < r
  pub s_positive : 0 < s

IsSigned-of :
    (c : Curve) (k d z r s : ℕ) (kg : Point) (x r' y s' : ℕ)
    → scalar_mult c k (generator c) ≡ ok kg
    → x_coordinate c kg ≡ ok x
    → nonzero r_zero x ≡ ok r'
    → second_half c k d z r' ≡ ok y
    → nonzero s_zero y ≡ ok s'
    → ◌≡◌ {A = Outcome CryptoError (ℕ × ℕ)} (ok (r', s')) (ok (r, s))
    → IsSigned c k d z r s
IsSigned-of c k d z r s kg x r' y s' multiplied first rn halved sn done =
    let same = ok-injective (r', s') (r, s) done in
    let rr = ap (λ p. p.0) same in
    let ss = ap (λ p. p.1) same in
    let (xr, r_positive) = nonzero-ok r_zero x r' rn in
    let (ys, s_positive) = nonzero-ok s_zero y s' sn in
    let (i, inverted, second) = second_half-ok c k d z r' y halved in
    record {
      kg = kg;
      multiplied = multiplied;
      first = first ∙ ap ok (xr ∙ rr);
      inverse = i;
      inverted = inverted;
      second = sym ss ∙ sym ys ∙ second ∙ ap (λ t. i * (z + t * d) % c.n) rr;
      r_positive = omega (arith, r_positive, rr);
      s_positive = omega (arith, s_positive, ss);
    }

sign_with-IsSigned :
    (c : Curve) (k d z r s : ℕ) → sign_with c k d z ≡ ok (r, s) → IsSigned c k d z r s
unfolding sign_with
sign_with-IsSigned c k d z r s h =
    let (kg, multiplied, h1) = bind-ok (scalar_mult c k (generator c)) _ h in
    let (x, first, h2) = bind-ok (x_coordinate c kg) _ h1 in
    let (r', rn, h3) = bind-ok (nonzero r_zero x) _ h2 in
    let (y, halved, h4) = bind-ok (second_half c k d z r') _ h3 in
    let (s', sn, h5) = bind-ok (nonzero s_zero y) _ h4 in
    IsSigned-of c k d z r s kg x r' y s' multiplied first rn halved sn h5

module _ (c : Curve) (multiple : ℕ → Point) (cyclic : IsCyclic c multiple) where
  multiple_of_generator : (k : ℕ) → scalar_mult c k (generator c) ≡ ok (multiple k)
  multiple_of_generator k =
      scalar_mult-digits c multiple cyclic.additive k (generator c) cyclic.at_one

  -- The multiples of the d-th multiple.
  spaced : (d : ℕ) → IsAdditive c (λ a. multiple (d * a))
  spaced d = record {
    zeroth = ap multiple (omega arith) ∙ cyclic.additive.zeroth;
    doubles = λ a. cyclic.additive.doubles (d * a) ∙ ap (λ t. ok (multiple t)) (omega arith);
    adds = λ a b. cyclic.additive.adds (d * a) (d * b) ∙ ap (λ t. ok (multiple t)) (omega arith);
  }

  verify_with-signed :
      (k d z r s w : ℕ)
      → k < c.n
      → (signed : IsSigned c k d z r s) → mod_inverse s c.n ≡ some w
      → verify_with c (multiple d) z r w ≡ ok tt
  unfolding verify_with
  verify_with-signed k d z r s w small signed inverted =
      let u1 = z * w % c.n in
      let u2 = r * w % c.n in
      let sum : (u1 + d * u2) % c.n ≡ k =
        nonce_recovered c.n k d z r signed.inverse s w small
          (mod_inverse-some k c.n signed.inverse signed.inverted) signed.second
          (mod_inverse-some s c.n w inverted) in
      let back : multiple (u1 + d * u2) ≡ multiple k =
        sym (cyclic.periodic (u1 + d * u2)) ∙ ap multiple sum in
      let kg : multiple k ≡ signed.kg =
        ok-injective (multiple k) signed.kg (sym (multiple_of_generator k) ∙ signed.multiplied) in
      rw
        (
          multiple_of_generator u1,
          scalar_mult-digits c (λ a. multiple (d * a)) (spaced d) u2 (multiple d)
              (ap multiple (omega arith)),
          cyclic.additive.adds u1 (d * u2),
          back,
          kg,
        )
        (x_coordinate-ok c signed.kg r signed.first)

check_nonce-ok : (c : Curve) (k k' : ℕ) → check_nonce c k ≡ ok k' → (k ≡ k') × (k' < c.n)
unfolding check_nonce
check_nonce-ok c k k' h = ground arith

sign-IsSigned :
    (c : Curve) (hmac : List ℕ → List ℕ → List ℕ) (priv hash : List ℕ) (r s : ℕ)
    → sign c hmac priv hash ≡ ok (r, s)
    → (k : ℕ) × (k < c.n) × IsSigned c k (big_endian priv) (big_endian hash) r s
unfolding sign generate_deterministic_k
sign-IsSigned c hmac priv hash r s h =
    let candidate = nonce_candidate hmac priv hash in
    let (k, checked, signed) = bind-ok (check_nonce c candidate) _ h in
    let (_, small) = check_nonce-ok c candidate k checked in
    (k, small, sign_with-IsSigned c k (big_endian priv) (big_endian hash) r s signed)

IsSigned-range :
    (c : Curve) (k d z r s : ℕ)
    → k < c.n
    → IsSigned c k d z r s
    → (0 < r) × (r < c.n) × (0 < s) × (s < c.n)
IsSigned-range c k d z r s small signed =
    let positive : 0 < c.n = omega arith in
    (
      signed.r_positive,
      x_coordinate-lt c signed.kg r positive signed.first,
      signed.s_positive,
      omega (arith, signed.second, mod-lt (signed.inverse * (z + r * d)) positive),
    )

-- Both halves of a signature that `Sign` returns lie between 1 and the order of the group less 1.
pub sign_range :
    (c : Curve) (hmac : List ℕ → List ℕ → List ℕ) (priv hash : List ℕ) (r s : ℕ)
    → sign c hmac priv hash ≡ ok (r, s)
    → (0 < r) × (r < c.n) × (0 < s) × (s < c.n)
sign_range c hmac priv hash r s h =
    let (k, small, signed) = sign-IsSigned c hmac priv hash r s h in
    IsSigned-range c k (big_endian priv) (big_endian hash) r s small signed

verify_pair-verify_with :
    (c : Curve) (q : Point) (z r s w : ℕ)
    → (0 < r) × (r < c.n) × (0 < s) × (s < c.n)
    → mod_inverse s c.n ≡ some w
    → verify_pair c q z r s ≡ verify_with c q z r w
unfolding verify_pair
verify_pair-verify_with c q z r s w range inverted =
    let nonzero_both : (nat_eq r 0 || nat_eq s 0) ≡ false = ground arith in
    let in_range : (leb c.n r || leb c.n s) ≡ false = ground arith in
    simp (verify_pair, nonzero_both, in_range, inverted)

verify_ecdsa-bytes :
    (host : Host) (c : Curve) (q : Point) (hash : List ℕ) (text : String) (bytes : List ℕ) (r s : ℕ)
    → host.hex_decode text ≡ some bytes
    → length bytes ≡ 64
    → big_endian (take 32 bytes) ≡ r
    → big_endian (drop 32 bytes) ≡ s
    → verify_ecdsa host c q hash text ≡ verify_pair c q (big_endian hash) r s
unfolding verify_ecdsa verify_pair
verify_ecdsa-bytes host c q hash text bytes r s decoded long first second =
    simp (verify_ecdsa, decoded, long)
      (ap (λ x. verify_pair c q (big_endian hash) x (big_endian (drop 32 bytes))) first
        ∙ ap (λ x. verify_pair c q (big_endian hash) r x) second)

sign_to_hex-bytes :
    (host : Host) (c : Curve) (hmac : List ℕ → List ℕ → List ℕ) (priv hash bytes : List ℕ) (r s : ℕ)
    → sign c hmac priv hash ≡ ok (r, s)
    → padded_pair r s ≡ ok bytes
    → sign_to_hex host c hmac priv hash ≡ ok (host.hex_encode bytes)
unfolding sign_to_hex
sign_to_hex-bytes host c hmac priv hash bytes r s signed packed = simp (sign_to_hex, signed, packed)

module _ (host : Host) (c : Curve) (multiple : ℕ → Point) where
  -- Where the multiples of the generator form a group of the curve's order, which is at most 2^256,
  -- and the hexadecimal text of the signature is read back: if `Sign` returns a pair, `SignToHex` returns a text, and
  -- `VerifyECDSA` accepts it for the private key's public key and the same hash.
  pub verify_ecdsa-sign_to_hex :
      (hmac : List ℕ → List ℕ → List ℕ) (priv hash : List ℕ) (r s : ℕ)
      → IsCyclic c multiple
      → c.n ≤ 2 ^ 256
      → ((bytes : List ℕ)
          → padded_pair r s ≡ ok bytes
          → host.hex_decode (host.hex_encode bytes) ≡ some bytes)
      → sign c hmac priv hash ≡ ok (r, s)
      → (q : Point) × (text : String) × (public_key c priv ≡ ok q)
        × (sign_to_hex host c hmac priv hash ≡ ok text)
        × (verify_ecdsa host c q hash text ≡ ok tt)
  unfolding public_key
  verify_ecdsa-sign_to_hex hmac priv hash r s cyclic small_order decodes signed =
      let d = big_endian priv in
      let z = big_endian hash in
      let (k, small, parts) = sign-IsSigned c hmac priv hash r s signed in
      let range = IsSigned-range c k d z r s small parts in
      let (w, inverted) = cyclic.inverses s range.2 range.3 in
      let (bytes, packed, long, first, second) =
        big_endian-padded_pair r s (omega (arith, range.1)) (omega (arith, range.3)) in
      (
        multiple d,
        host.hex_encode bytes,
        multiple_of_generator c multiple cyclic d,
        sign_to_hex-bytes host c hmac priv hash bytes r s signed packed,
        verify_ecdsa-bytes host c (multiple d) hash (host.hex_encode bytes) bytes r s
              (decodes bytes packed) long first second
            ∙ verify_pair-verify_with c (multiple d) z r s w range inverted
            ∙ verify_with-signed c multiple cyclic k d z r s w small parts inverted,
      )
