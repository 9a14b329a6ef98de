-- ===== src/Crypto.antt =====
-- x/nvx/keeper/crypto.go: the arithmetic on the curve, over its parameters. An integer of math/big
-- is a natural number: differences appear only under `Mod`, which is never negative.
pub mod Keys
pub mod Ecdsa
pub mod Multiples
pub mod Encoding
pub mod Modular
pub mod Completeness
mod Tests
use nuvex.Base.{
  ℕ, zero, suc, ◌+◌, ◌-◌, ◌*◌, ◌%◌, Bool, true, false, Option, none, some, List, [], ◌∷◌, String,
  nat_eq, if◌then◌else◌, Outcome, ok, err, panic, ◌>>=◌,
}
use nuvex.Base.Digits.{digits}

-- The prime of the field, the order of the group and the generator; the curve is y² = x³ + b, and
-- its b is never used.
pub record Curve : Type 0 where
  pub p : ℕ
  pub n : ℕ
  pub gx : ℕ
  pub gy : ℕ

unfoldable pub secp256k1 : Curve
secp256k1 = record {
  p = 0xfffffffffffffffffffffffffffffffffffffffffffffffffffffffefffffc2f;
  n = 0xfffffffffffffffffffffffffffffffebaaedce6af48a03bbfd25e8cd0364141;
  gx = 0x79be667ef9dcbbac55a06295ce870b07029bfcdb2dce28d959f2815b16f81798;
  gy = 0x483ada7726a3c4655da4fbfc0e1108a8fd17b448a68554199c47d08ffb10d4b8;
}

pub data CryptoError : Type 0 where
  no_random no_nonce r_zero s_zero bad_format zero_signature out_of_range rejected : CryptoError

-- A point with no coordinates is the one at infinity.
pub data Point : Type 0 where
  infinity : Point
  point : ℕ → ℕ → Point

-- The difference modulo m.
abbrev pub sub_mod : ℕ → ℕ → ℕ → ℕ
sub_mod a b m = (a + (m - b % m)) % m

-- The x below the bound with a * x = 1 modulo m, if there is one.
unfoldable pub search_inverse : ℕ → ℕ → ℕ → Option ℕ
search_inverse a m zero = none
search_inverse a m (suc x) = elim (nat_eq (a * x % m) (1 % m)) [
  | true ↦ some x
  | false ↦ search_inverse a m x
]

-- `ModInverse` returns nil where there is no inverse.
unfoldable pub mod_inverse : ℕ → ℕ → Option ℕ
unfolding search_inverse
mod_inverse a m = search_inverse a m m

-- `a` times the inverse of `b`: a product with nil panics.
unfoldable pub quotient : ℕ → ℕ → ℕ → Outcome CryptoError ℕ
quotient a b m = elim (mod_inverse b m) [ none ↦ panic | some i ↦ ok (a * i % m) ]

module _ (c : Curve) where
  -- The third point on the line through (x1, y1) with this slope, mirrored.
  abbrev pub third : ℕ → ℕ → ℕ → ℕ → Point
  third slope x1 x2 y1 =
      let x3 = sub_mod (sub_mod (slope * slope) x1 c.p) x2 c.p in
      point x3 (sub_mod (slope * sub_mod x1 x3 c.p) y1 c.p)

  unfoldable pub point_double : Point → Outcome CryptoError Point
  unfolding quotient
  point_double infinity = ok infinity
  point_double (point x y) =
      quotient (3 * (x * x % c.p)) (2 * y) c.p >>= λ slope. ok (third slope x x y)

  unfoldable pub point_add : Point → Point → Outcome CryptoError Point
  unfolding quotient point_double
  point_add infinity q = ok q
  point_add (point x y) infinity = ok (point x y)
  point_add (point x1 y1) (point x2 y2) =
      if nat_eq x1 x2
      then if nat_eq y1 y2 then point_double (point x1 y1) else ok infinity
      else quotient (sub_mod y2 y1 c.p) (sub_mod x2 x1 c.p) c.p >>= λ slope.
          ok (third slope x1 x2 y1)

  -- One round of the loop adds the addend where the bit is 1, and doubles it.
  unfoldable pub add_bits : List ℕ → Point → Point → Outcome CryptoError Point
  add_bits [] result addend = ok result
  add_bits (bit ∷ bits) result addend =
      (if nat_eq bit 1 then point_add result addend else ok result) >>= λ result'.
      point_double addend >>= λ addend'. add_bits bits result' addend'

  unfoldable pub scalar_mult : ℕ → Point → Outcome CryptoError Point
  unfolding add_bits
  scalar_mult k p = add_bits (digits 0 k) infinity p

  abbrev pub generator : Point
  generator = point c.gx c.gy
