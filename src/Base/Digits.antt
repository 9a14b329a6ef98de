-- ===== src/Base/Digits.antt =====
-- The digits of a number, the lowest first, by recursion on its being accessible.
use Prim.Native.Nat.{ℕ, zero, suc, ◌+◌, ◌*◌, ◌/◌, ◌%◌, ◌^◌, ◌≤◌, ◌<◌}
use mathlib.Core.Path.{◌≡◌, refl, subst}
use mathlib.Core.Logic.{dite, dif_pos, dif_neg}
use mathlib.Core.List.{List, [], ◌∷◌}
use mathlib.Core.WellFounded.{Acc, WellFounded}
use native.Mathlib.Decide.{dec_lt}
use nuvex.Base.Lists.{length}
use native.Mathlib.Nat.{div-add-mod, div-lt_self, div-lt_iff_lt-mul, pow-zero, pow-suc, mod-lt}
use native.Mathlib.Bridge.{le_prop}
use native.Mathlib.Omega.{arith}

acc_below : (k n : ℕ) → n < k → Acc ◌<◌ n
acc_below zero n h = absurd (omega arith)
acc_below (suc k) n h = Acc.intro n (λ m hm. acc_below k m (omega arith))

lt_wf : WellFounded ◌<◌
unfolding acc_below
lt_wf = record { apply = λ n. acc_below (suc n) n (omega arith) }

-- The base is at least 2.
abbrev pub base_of : ℕ → ℕ
base_of b = suc (suc b)

digit_shrinks : (b n : ℕ) → 0 < n → n / base_of b < n
digit_shrinks b n h = div-lt_self h (omega arith)

digits_acc : (b n : ℕ) → Acc ◌<◌ n → List ℕ
digits_acc b n (Acc.intro _ smaller) =
    dite (dec_lt 0 n)
      (λ h. n % base_of b ∷ digits_acc b (n / base_of b) (smaller _ (digit_shrinks b n h)))
      (λ _. [])

unfoldable pub digits : ℕ → ℕ → List ℕ
unfolding digits_acc lt_wf acc_below digit_shrinks
digits b n = digits_acc b n (lt_wf.apply n)

-- What a list of digits stands for.
abbrev pub of_digits : ℕ → List ℕ → ℕ
of_digits b [] = 0
of_digits b (d ∷ ds) = d + base_of b * of_digits b ds

of_digits-digits_acc : (b n : ℕ) (w : Acc ◌<◌ n) → of_digits b (digits_acc b n w) ≡ n
unfolding digits_acc
of_digits-digits_acc b n (Acc.intro _ smaller) = elim (dec_lt 0 n) [
  | yes h ↦
      let rest = of_digits-digits_acc b (n / base_of b) (smaller _ (digit_shrinks b n h)) in
      rw (dif_pos (dec_lt 0 n) le_prop h, rest) (omega (arith, div-add-mod n (base_of b)))
  | no h ↦ rw (dif_neg (dec_lt 0 n) h) (omega (arith, h))
]

pub of_digits-digits : (b n : ℕ) → of_digits b (digits b n) ≡ n
unfolding digits
of_digits-digits b n = of_digits-digits_acc b n (lt_wf.apply n)

digits_run : digits 254 66_051 ≡ 3 ∷ 2 ∷ 1 ∷ []
unfolding digits dec_lt
digits_run = refl

-- One digit more than the quotient has.
one_more :
    (b k n len : ℕ)
    → n < base_of b ^ k
    → 0 < n
    → ((j : ℕ) → n / base_of b < base_of b ^ j → len ≤ j)
    → suc len ≤ k
one_more b zero n len h p ih =
    let one_only : n < 1 = subst (λ x. n < x) (pow-zero (base_of b)) h in absurd (omega arith)
one_more b (suc k) n len h p ih =
    let small : n < base_of b ^ k * base_of b = subst (λ x. n < x) (pow-suc (base_of b) k) h in
    omega (arith, ih k ((div-lt_iff_lt-mul (omega arith)).1 small))

length-digits_acc : (b k n : ℕ) (w : Acc ◌<◌ n) → n < base_of b ^ k → length (digits_acc b n w) ≤ k
unfolding digits_acc
length-digits_acc b k n (Acc.intro _ smaller) h = elim (dec_lt 0 n) [
  | no z ↦ rw (dif_neg (dec_lt 0 n) z) (omega arith)
  | yes p ↦ rw (dif_pos (dec_lt 0 n) le_prop p) (
      one_more b k n _ h p
        (λ j. length-digits_acc b j (n / base_of b) (smaller _ (digit_shrinks b n p))))
]

pub length-digits : (b k n : ℕ) → n < base_of b ^ k → length (digits b n) ≤ k
unfolding digits
length-digits b k n h = length-digits_acc b k n (lt_wf.apply n) h

abbrev pub AllBelow : ℕ → List ℕ → Type 0
AllBelow b [] = Unit {0}
AllBelow b (d ∷ ds) = (d < b) × AllBelow b ds

digits_acc-AllBelow : (b n : ℕ) (w : Acc ◌<◌ n) → AllBelow (base_of b) (digits_acc b n w)
unfolding digits_acc
digits_acc-AllBelow b n (Acc.intro _ smaller) = elim (dec_lt 0 n) [
  | no z ↦ rw (dif_neg (dec_lt 0 n) z) tt
  | yes p ↦ rw (dif_pos (dec_lt 0 n) le_prop p) (
    mod-lt n (omega arith),
    digits_acc-AllBelow b (n / base_of b) (smaller _ (digit_shrinks b n p)),
  )
]

pub digits-AllBelow : (b n : ℕ) → AllBelow (base_of b) (digits b n)
unfolding digits
digits-AllBelow b n = digits_acc-AllBelow b n (lt_wf.apply n)
