-- ===== src/Crypto/Multiples.antt =====
-- Double-and-add against the multiples of a point.
use nuvex.Base.{
  ℕ, ◌+◌, ◌*◌, ◌<◌, ◌≡◌, refl, sym, ap, ◌∙◌, List, [], ◌∷◌, arith, nat_eq, Bool-cases, inl, inr, ok,
  if◌then◌else◌,
}
use nuvex.Base.Digits.{digits, of_digits, of_digits-digits, AllBelow, digits-AllBelow}
use nuvex.Crypto.{Curve, Point, infinity, point_double, point_add, add_bits, scalar_mult}

-- A family of points that adds up as its indices do.
pub record IsAdditive (c : Curve) (multiple : ℕ → Point) : Type 0 where
  pub zeroth : multiple 0 ≡ infinity
  pub doubles : (a : ℕ) → point_double c (multiple a) ≡ ok (multiple (a + a))
  pub adds : (a b : ℕ) → point_add c (multiple a) (multiple b) ≡ ok (multiple (a + b))

module _ (c : Curve) (multiple : ℕ → Point) (additive : IsAdditive c multiple) where
  -- One round: the bit's share is added.
  round_adds :
      (bit a b : ℕ)
      → bit < 2
      → (if nat_eq bit 1 then point_add c (multiple a) (multiple b) else ok (multiple a))
        ≡ ok (multiple (a + b * bit))
  round_adds bit a b small = elim (Bool-cases (nat_eq bit 1)) [
    | inl set ↦
        rw (set, additive.adds a b)
          (ap (λ k. ok (multiple k)) (let one : bit ≡ 1 = ground arith in rw (one) (omega arith)))
    | inr clear ↦
        rw (clear)
          (ap (λ k. ok (multiple k)) (let off : bit ≡ 0 = ground arith in rw (off) (omega arith)))
  ]

  add_bits-multiple :
      (bits : List ℕ) (a b : ℕ)
      → AllBelow 2 bits
      → add_bits c bits (multiple a) (multiple b) ≡ ok (multiple (a + b * of_digits 0 bits))
  unfolding add_bits
  add_bits-multiple [] a b h = ap (λ k. ok (multiple k)) (omega arith)
  add_bits-multiple (bit ∷ bits) a b h =
      rw (round_adds bit a b h.0, additive.doubles b)
        (add_bits-multiple bits (a + b * bit) (b + b) h.1 ∙ ap (λ k. ok (multiple k)) (omega arith))

  pub scalar_mult-digits :
      (k : ℕ) (p : Point) → p ≡ multiple 1 → scalar_mult c k p ≡ ok (multiple k)
  unfolding scalar_mult
  scalar_mult-digits k p e =
      ap (λ q. add_bits c (digits 0 k) infinity q) e
      ∙ ap (λ q. add_bits c (digits 0 k) q (multiple 1)) (sym additive.zeroth)
      ∙ add_bits-multiple (digits 0 k) 0 1 (digits-AllBelow 0 k)
      ∙ ap (λ n. ok (multiple n)) (omega (arith, of_digits-digits 0 k))

-- Where a family of points adds up as its indices do, the loop returns, for each number k, the k-th
-- multiple of the point at 1.
pub scalar_mult-multiple :
    (c : Curve) (multiple : ℕ → Point) (k : ℕ)
    → IsAdditive c multiple
    → scalar_mult c k (multiple 1) ≡ ok (multiple k)
scalar_mult-multiple c multiple k additive =
    scalar_mult-digits c multiple additive k (multiple 1) refl
