-- ===== src/Crypto/Encoding.antt =====
-- Numbers in 32 bytes, and what the ranges of a signature are.
use nuvex.Base.{
  ℕ, zero, suc, ◌+◌, ◌-◌, ◌*◌, ◌^◌, ◌≤◌, ◌<◌, ◌≡◌, refl, ap, ◌∙◌, false, List, [], ◌∷◌, ◌++◌,
  reverse, arith, length, length-append, length-reverse, take, drop, ltb, ok,
}
use mathlib.Core.List.{reverse-cons}
use nuvex.Base.Digits.{digits, of_digits, of_digits-digits, length-digits}
use nuvex.Signature.{big_endian, big_endian_from}
use nuvex.Crypto.Keys.{bytes_of, zeros, padded, padded_pair}

big_endian_from-append :
    (acc : ℕ) (xs ys : List ℕ)
    → big_endian_from acc (xs ++ ys) ≡ big_endian_from (big_endian_from acc xs) ys
unfolding big_endian_from
big_endian_from-append acc [] ys = refl
big_endian_from-append acc (x ∷ xs) ys = big_endian_from-append (acc * 256 + x) xs ys

big_endian_from-zeros : (n : ℕ) → big_endian_from 0 (zeros n) ≡ 0
unfolding big_endian_from
big_endian_from-zeros zero = refl
big_endian_from-zeros (suc n) = big_endian_from-zeros n

big_endian_from-reverse : (ds : List ℕ) → big_endian_from 0 (reverse ds) ≡ of_digits 254 ds
unfolding big_endian_from
big_endian_from-reverse [] = refl
big_endian_from-reverse (d ∷ ds) =
    ap (λ l. big_endian_from 0 l) (reverse-cons d ds)
    ∙ big_endian_from-append 0 (reverse ds) (d ∷ [])
    ∙ ap (λ k. k * 256 + d) (big_endian_from-reverse ds)
    ∙ omega arith

length-zeros : (n : ℕ) → length (zeros n) ≡ n
length-zeros zero = refl
length-zeros (suc n) = ap suc (length-zeros n)

-- A number below 2^256 fits into 32 bytes, and is read back from them.
pub big_endian-padded :
    (n : ℕ)
    → n < 2 ^ 256
    → (bytes : List ℕ) × (padded n ≡ ok bytes) × (length bytes ≡ 32) × (big_endian bytes ≡ n)
unfolding padded bytes_of big_endian
big_endian-padded n h =
    let fits : length (bytes_of n) ≤ 32 =
      omega (arith, length-reverse (digits 254 n), length-digits 254 32 n h) in
    let small : ltb 32 (length (bytes_of n)) ≡ false = ground arith in
    (
      zeros (32 - length (bytes_of n)) ++ bytes_of n,
      rw (small),
      omega (
        arith,
        fits,
        length-append (zeros (32 - length (bytes_of n))) (bytes_of n),
        length-zeros (32 - length (bytes_of n)),
      ),
      big_endian_from-append 0 (zeros (32 - length (bytes_of n))) (bytes_of n)
          ∙ ap (λ k. big_endian_from k (bytes_of n))
              (big_endian_from-zeros (32 - length (bytes_of n)))
          ∙ big_endian_from-reverse (digits 254 n)
          ∙ of_digits-digits 254 n,
    )

take-append : (k : ℕ) (xs ys : List ℕ) → length xs ≡ k → take k (xs ++ ys) ≡ xs
take-append zero [] ys e = refl
take-append zero (x ∷ xs) ys e = absurd (omega arith)
take-append (suc k) [] ys e = absurd (omega arith)
take-append (suc k) (x ∷ xs) ys e = ap (λ l. x ∷ l) (take-append k xs ys (omega arith))

drop-append : (k : ℕ) (xs ys : List ℕ) → length xs ≡ k → drop k (xs ++ ys) ≡ ys
drop-append zero [] ys e = refl
drop-append zero (x ∷ xs) ys e = absurd (omega arith)
drop-append (suc k) [] ys e = absurd (omega arith)
drop-append (suc k) (x ∷ xs) ys e = drop-append k xs ys (omega arith)

-- Two numbers below 2^256 fill 64 bytes, and each is read back from its half.
pub big_endian-padded_pair :
    (x y : ℕ)
    → x < 2 ^ 256
    → y < 2 ^ 256
    → (bytes : List ℕ) × (padded_pair x y ≡ ok bytes)
      × (length bytes ≡ 64)
      × (big_endian (take 32 bytes) ≡ x)
      × (big_endian (drop 32 bytes) ≡ y)
unfolding padded_pair
big_endian-padded_pair x y hx hy =
    let (xs, px, lx, bx) = big_endian-padded x hx in
    let (ys, py, ly, by_) = big_endian-padded y hy in
    (
      xs ++ ys,
      rw (px, py),
      omega (arith, lx, ly, length-append xs ys),
      ap big_endian (take-append 32 xs ys lx) ∙ bx,
      ap big_endian (drop-append 32 xs ys lx) ∙ by_,
    )
