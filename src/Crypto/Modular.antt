-- ===== src/Crypto/Modular.antt =====
-- The arithmetic modulo the order of the group that a signature rests on.
use nuvex.Base.{
  ℕ, zero, suc, ◌+◌, ◌*◌, ◌/◌, ◌%◌, ◌<◌, ◌≡◌, sym, ap, ◌∙◌, some, arith, nat_eq, nat_eq_iff,
  Bool-cases, inl, inr,
}
use native.Mathlib.Nat.{div-add-mod, add-mul-mod_self_left, mod-add-mod, add-mod-mod, mod-eq_of_lt}
use nuvex.Crypto.{search_inverse, mod_inverse}

search_inverse-some : (a m bound x : ℕ) → search_inverse a m bound ≡ some x → a * x % m ≡ 1 % m
unfolding search_inverse
search_inverse-some a m zero x e = cc
search_inverse-some a m (suc b) x e = elim (Bool-cases (nat_eq (a * b % m) (1 % m))) [
  | inl hit ↦
      let same : b ≡ x = ground arith in
      ap (λ k. a * k % m) (sym same) ∙ (nat_eq_iff (a * b % m) (1 % m)).0 hit
  | inr miss ↦ search_inverse-some a m b x (ground arith)
]

pub mod_inverse-some : (a m x : ℕ) → mod_inverse a m ≡ some x → a * x % m ≡ 1 % m
unfolding mod_inverse
mod_inverse-some a m x e = search_inverse-some a m m x e

pub mul-mod : (a b n : ℕ) → a % n * b % n ≡ a * b % n
mul-mod a b n = sym (
    ap (λ t. t % n) (omega (arith, ap (λ t. t * b) (div-add-mod a n)))
    ∙ add-mul-mod_self_left (a % n * b) n (a / n * b))

mul-mod_right : (a b n : ℕ) → a * (b % n) % n ≡ a * b % n
mul-mod_right a b n = ap (λ t. t % n) (omega arith) ∙ mul-mod b a n ∙ ap (λ t. t % n) (omega arith)

add-mul-mod_right : (a b c n : ℕ) → (a % n + c * (b % n)) % n ≡ (a + c * b) % n
add-mul-mod_right a b c n =
    mod-add-mod a n (c * (b % n))
    ∙ sym (add-mod-mod a (c * (b % n)) n)
    ∙ ap (λ t. (a + t) % n) (mul-mod_right c b n)
    ∙ add-mod-mod a (c * b) n

-- Dividing t by s, which is t over k, gives k back.
quotient_recovered :
    (n k t ki s w : ℕ)
    → k < n
    → k * ki % n ≡ 1 % n
    → s ≡ ki * t % n
    → s * w % n ≡ 1 % n
    → t * w % n ≡ k
quotient_recovered n k t ki s w small hk hs hw = sym (
    sym (mod-eq_of_lt small)
    ∙ ap (λ x. x % n) (omega arith)
    ∙ sym (mul-mod_right k 1 n)
    ∙ ap (λ x. k * x % n) (sym hw)
    ∙ mul-mod_right k (s * w) n
    ∙ ap (λ x. x % n) (omega arith)
    ∙ ap (λ x. x * (k * w) % n) hs
    ∙ mul-mod (ki * t) (k * w) n
    ∙ ap (λ x. x % n) (omega arith)
    ∙ sym (mul-mod (k * ki) (t * w) n)
    ∙ ap (λ x. x * (t * w) % n) hk
    ∙ mul-mod 1 (t * w) n
    ∙ ap (λ x. x % n) (omega arith))

-- The sum that the verifier's two multiples come to is the nonce.
pub nonce_recovered :
    (n k d z r ki s w : ℕ)
    → k < n
    → k * ki % n ≡ 1 % n
    → s ≡ ki * (z + r * d) % n
    → s * w % n ≡ 1 % n
    → (z * w % n + d * (r * w % n)) % n ≡ k
nonce_recovered n k d z r ki s w small hk hs hw =
    add-mul-mod_right (z * w) (r * w) d n
    ∙ ap (λ x. x % n) (omega arith)
    ∙ quotient_recovered n k (z + r * d) ki s w small hk hs hw
