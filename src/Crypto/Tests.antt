-- ===== src/Crypto/Tests.antt =====
-- The theorems on signatures over a curve with thirteen residues and a group of seven points, on
-- the secp256k1 curve's equation y² = x³ + 7.
use nuvex.Base.{
  ℕ, zero, suc, ◌+◌, ◌%◌, ◌<◌, ◌≡◌, refl, sym, ap, ◌∙◌, subst, Bool, true, false, ◌&&◌, none, some,
  Option, List, [], ◌∷◌, String, arith, nat_eq, nat_eq_iff, Outcome, ok, ok-injective, ◌++◌, err,
  panic, Bool-cases, inl, inr,
}
use nuvex.Host.{Host}
use nuvex.Base.Digits.{digits}
use nuvex.Signature.{big_endian}
use native.Mathlib.Decide.{dec_lt}
use nuvex.Crypto.{
  Curve, CryptoError, Point, infinity, point, point_add, point_double, quotient, mod_inverse,
  search_inverse, scalar_mult,
}
use nuvex.Crypto.Keys.{public_key, zeros, padded, padded_pair}
use nuvex.Crypto.Ecdsa.{sign, sign_to_hex, verify_ecdsa}
use nuvex.Crypto.Multiples.{IsAdditive, scalar_mult-multiple}
use nuvex.Crypto.Completeness.{IsCyclic, verify_ecdsa-sign_to_hex}

abbrev small : Curve
small = record { p = 13; n = 7; gx = 7; gy = 5 }

abbrev at : List Point → ℕ → Point
at [] i = infinity
at (q ∷ qs) zero = q
at (q ∷ qs) (suc i) = at qs i

abbrev points : List Point
points = infinity ∷ point 7 5 ∷ point 8 5 ∷ point 11 8 ∷ point 11 5 ∷ point 8 8 ∷ point 7 8 ∷ []

abbrev multiple : ℕ → Point
multiple a = at points (a % 7)

abbrev all_below : ℕ → (ℕ → Bool) → Bool
all_below zero test = true
all_below (suc n) test = test n && all_below n test

all_below-holds :
    (n : ℕ) (test : ℕ → Bool) (i : ℕ) → all_below n test ≡ true → i < n → test i ≡ true
all_below-holds zero test i h l = absurd (omega arith)
all_below-holds (suc n) test i h l = elim (Bool-cases (nat_eq i n)) [
  | inl last ↦ subst (λ k. test k ≡ true) (sym ((nat_eq_iff i n).0 last)) (ground arith)
  | inr less ↦ all_below-holds n test i (ground arith) (ground arith)
]

-- A Boolean test that a call returns this point.
abbrev returns : Outcome CryptoError Point → Point → Bool
returns (ok infinity) infinity = true
returns (ok infinity) (point a b) = false
returns (ok (point x y)) infinity = false
returns (ok (point x y)) (point a b) = nat_eq x a && nat_eq y b
returns (err e) q = false
returns panic q = false

returns-ok : (o : Outcome CryptoError Point) (q : Point) → returns o q ≡ true → o ≡ ok q
returns-ok (ok infinity) infinity h = refl
returns-ok (ok infinity) (point a b) h = cc
returns-ok (ok (point x y)) infinity h = cc
returns-ok (ok (point x y)) (point a b) h =
    let ex : x ≡ a = ground arith in let ey : y ≡ b = ground arith in rw (ex, ey)
returns-ok (err e) q h = cc
returns-ok panic q h = cc

abbrev adds_up : ℕ → ℕ → Bool
adds_up i j = returns (point_add small (at points i) (at points j)) (at points ((i + j) % 7))

all_add_up : all_below 7 (λ i. all_below 7 (λ j. adds_up i j)) ≡ true
unfolding point_add point_double quotient mod_inverse search_inverse
all_add_up = refl

multiple-adds : (a b : ℕ) → point_add small (multiple a) (multiple b) ≡ ok (multiple (a + b))
multiple-adds a b =
    let row =
      all_below-holds 7 (λ i. all_below 7 (λ j. adds_up i j)) (a % 7) all_add_up (omega arith) in
    let cell = all_below-holds 7 (λ j. adds_up (a % 7) j) (b % 7) row (omega arith) in
    returns-ok (point_add small (multiple a) (multiple b)) (at points ((a % 7 + b % 7) % 7)) cell
    ∙ ap (λ i. ok (at points i)) (omega arith)

all_double :
    all_below 7 (λ i. returns (point_double small (at points i)) (at points ((i + i) % 7))) ≡ true
unfolding point_double quotient mod_inverse search_inverse
all_double = refl

multiple-doubles : (a : ℕ) → point_double small (multiple a) ≡ ok (multiple (a + a))
multiple-doubles a =
    let cell =
      all_below-holds 7 (λ i. returns (point_double small (at points i)) (at points ((i + i) % 7)))
        (a % 7) all_double (omega arith) in
    returns-ok (point_double small (multiple a)) (at points ((a % 7 + a % 7) % 7)) cell
    ∙ ap (λ i. ok (at points i)) (omega arith)

multiple-IsAdditive : IsAdditive small multiple
multiple-IsAdditive = record { zeroth = refl; doubles = multiple-doubles; adds = multiple-adds }

abbrev has_inverse : ℕ → Bool
has_inverse a = elim (mod_inverse (suc a) 7) [ none ↦ false | some i ↦ true ]

all_invertible : all_below 6 has_inverse ≡ true
unfolding mod_inverse search_inverse
all_invertible = refl

inverse_of :
    (o : Option ℕ) → (elim o [ none ↦ false | some i ↦ true ]) ≡ true → (i : ℕ) × (o ≡ some i)
inverse_of none h = cc
inverse_of (some i) h = (i, refl)

multiple-inverses : (a : ℕ) → 0 < a → a < 7 → (i : ℕ) × (mod_inverse a 7 ≡ some i)
multiple-inverses zero p h = absurd (omega arith)
multiple-inverses (suc a) p h =
    inverse_of (mod_inverse (suc a) 7)
      (all_below-holds 6 has_inverse a all_invertible (omega arith))

multiple-IsCyclic : IsCyclic small multiple
multiple-IsCyclic = record {
  additive = multiple-IsAdditive;
  at_one = refl;
  periodic = λ a. ap (at points) (omega arith);
  inverses = multiple-inverses;
}

scalar_mult-multiple_example : scalar_mult small 12 (point 7 5) ≡ ok (point 8 8)
scalar_mult-multiple_example = scalar_mult-multiple small multiple 12 multiple-IsAdditive

-- One signature, as bytes; every text decodes to them.
abbrev pair_bytes : List ℕ
pair_bytes = zeros 31 ++ 4 ∷ (zeros 31 ++ 2 ∷ [])

abbrev host : Host
host = record {
  to_bytes = λ s. [];
  sha256 = λ bytes. bytes;
  hex_encode = λ bytes. "signature";
  hex_decode = λ s. some pair_bytes;
  fmt_int = λ n. "1";
  fmt_uint = λ n. "2";
  ecdsa_verify = λ x y hash r s. true;
}

abbrev hmac : List ℕ → List ℕ → List ℕ
hmac key message = 3 ∷ []

sign_run : sign small hmac (2 ∷ []) (5 ∷ []) ≡ ok (4, 2)
unfolding sign big_endian scalar_mult digits dec_lt point_add mod_inverse
sign_run = refl

pair_run : padded_pair 4 2 ≡ ok pair_bytes
unfolding padded_pair padded digits dec_lt
pair_run = refl

verify_ecdsa-sign_to_hex_example :
    (q : Point) × (text : String) × (public_key small (2 ∷ []) ≡ ok q)
    × (sign_to_hex host small hmac (2 ∷ []) (5 ∷ []) ≡ ok text)
    × (verify_ecdsa host small q (5 ∷ []) text ≡ ok tt)
verify_ecdsa-sign_to_hex_example =
    verify_ecdsa-sign_to_hex host small multiple hmac (2 ∷ []) (5 ∷ []) 4 2 multiple-IsCyclic
      (omega arith) (λ bytes e. ap some (ok-injective pair_bytes bytes (sym pair_run ∙ e))) sign_run
