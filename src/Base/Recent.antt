-- ===== src/Base/Recent.antt =====
-- The loop `for i := 0; i < limit; i++ { result[i] = xs[total-1-i] }` that the state, the chain
-- and the exchange use to list their newest entries.
use nuvex.Base.Lists.{length, get_elem?, take, drop, length-reverse}
use nuvex.Base.Tests.{ltb, if◌then◌else◌, tests, Bool-cases}
use mathlib.Core.Logic.{inl, inr}
use Prim.Native.Nat.{ℕ, zero, suc, ◌+◌, ◌-◌, ◌≤◌, ◌<◌}
use mathlib.Core.Path.{◌≡◌, refl, sym, ap, ◌∙◌}
use mathlib.Core.Option.{none, some}
use mathlib.Core.List.{List, [], ◌∷◌, ◌++◌, reverse, reverse-cons}
use native.Mathlib.Omega.{arith}

module _ {A : Type 0} where
  -- The rounds from `i` on; an index is always in range here (`newest-take-reverse`).
  pub newest_from : List A → ℕ → ℕ → List A
  newest_from xs i zero = []
  newest_from xs i (suc n) =
      let rest = newest_from xs (suc i) n in
      elim (get_elem? xs (length xs - 1 - i)) [ none ↦ rest | some x ↦ x ∷ rest ]

  unfoldable pub newest : List A → ℕ → List A
  unfolding newest_from
  newest xs limit = newest_from xs 0 (if ltb (length xs) limit then length xs else limit)

  get_elem?-append_left :
      (xs ys : List A) (i : ℕ) → i < length xs → get_elem? (xs ++ ys) i ≡ get_elem? xs i
  get_elem?-append_left [] ys i h = elim h [ ]
  get_elem?-append_left (x ∷ xs) ys zero h = refl
  get_elem?-append_left (x ∷ xs) ys (suc i) h = get_elem?-append_left xs ys i (omega arith)

  get_elem?-append_last : (xs : List A) (x : A) → get_elem? (xs ++ x ∷ []) (length xs) ≡ some x
  get_elem?-append_last [] x = refl
  get_elem?-append_last (y ∷ xs) x = get_elem?-append_last xs x

  get_elem?-reverse :
      (xs : List A) (i : ℕ)
      → i < length xs
      → get_elem? (reverse xs) (length xs - 1 - i) ≡ get_elem? xs i
  get_elem?-reverse [] i h = elim h [ ]
  get_elem?-reverse (x ∷ xs) zero h =
      let e : length (x ∷ xs) - 1 - 0 ≡ length (reverse xs) = omega (arith, length-reverse xs) in
      rw (reverse-cons x xs, e) (get_elem?-append_last (reverse xs) x)
  get_elem?-reverse (x ∷ xs) (suc i) h =
      let e : length (x ∷ xs) - 1 - suc i ≡ length xs - 1 - i = omega arith in
      rw (reverse-cons x xs, e)
        (get_elem?-append_left (reverse xs) (x ∷ []) (length xs - 1 - i)
            (omega (arith, length-reverse xs))
          ∙ get_elem?-reverse xs i (omega arith))

  drop-step :
      (ys : List A) (i : ℕ) {y : A} → get_elem? ys i ≡ some y → drop i ys ≡ y ∷ drop (suc i) ys
  drop-step [] i h = cc
  drop-step (y ∷ ys) zero h = ground arith
  drop-step (y ∷ ys) (suc i) h = drop-step ys i h

  get_elem?-some : (xs : List A) (i : ℕ) → i < length xs → (x : A) × (get_elem? xs i ≡ some x)
  get_elem?-some [] i h = elim h [ ]
  get_elem?-some (x ∷ xs) zero h = (x, refl)
  get_elem?-some (x ∷ xs) (suc i) h = get_elem?-some xs i (omega arith)

  get_elem?-from_end :
      (xs : List A) (i : ℕ)
      → i < length xs
      → get_elem? xs (length xs - 1 - i) ≡ get_elem? (reverse xs) i
  get_elem?-from_end xs i h =
      let e : length xs - 1 - (length xs - 1 - i) ≡ i = omega arith in
      sym (get_elem?-reverse xs (length xs - 1 - i) (omega arith)) ∙ (rw e)

  newest_from-drop :
      (xs : List A) (n i : ℕ)
      → i + n ≤ length xs
      → newest_from xs i n ≡ take n (drop i (reverse xs))
  unfolding newest_from
  newest_from-drop xs zero i h = refl
  newest_from-drop xs (suc n) i h =
      let (x, e) = get_elem?-some xs (length xs - 1 - i) (omega arith) in
      rw
        (e, newest_from, drop-step (reverse xs) i (sym (get_elem?-from_end xs i (omega arith)) ∙ e))
        (ap (λ r. x ∷ r) (newest_from-drop xs n (suc i) (omega arith)))

  take_all : (xs : List A) (n : ℕ) → length xs ≤ n → take n xs ≡ take (length xs) xs
  take_all [] zero h = refl
  take_all [] (suc n) h = refl
  take_all (x ∷ xs) zero h = absurd (omega arith)
  take_all (x ∷ xs) (suc n) h = ap (λ r. x ∷ r) (take_all xs n (omega arith))

  pub newest-take-reverse : (xs : List A) (limit : ℕ) → newest xs limit ≡ take limit (reverse xs)
  unfolding newest
  newest-take-reverse xs limit = elim (Bool-cases (ltb (length xs) limit)) [
    | inl less ↦ rw less (
        newest_from-drop xs (length xs) 0 (omega arith)
        ∙ sym (
            take_all (reverse xs) limit (omega (tests, length-reverse xs))
            ∙ rw (length-reverse xs)))
    | inr more ↦ rw more (newest_from-drop xs limit 0 (ground arith))
  ]
