-- ===== src/Dict.antt =====
-- Go's maps as association lists. The iteration order of a Go map is not specified; here it is the
-- list's, and the theorems hold for every list.
use nuvex.Base.{
  ◌≡◌, refl, ◌≢◌, Bool, true, false, Option, none, some, List, [], ◌∷◌, arith, if◌then◌else◌, Key,
  ◌==◌, ==_refl, ==_iff, length, ◌+◌, ◌≤◌,
}
use mathlib.Core.Option

abbrev pub Dict {ℓ κ} : Type ℓ → Type κ → Type (ℓ ⊔ κ)
Dict K V = List (K × V)

-- The values that a `range` over the map goes through.
abbrev pub values {ℓ κ} : {K : Type ℓ} {V : Type κ} → Dict K V → List V
values [] = []
values ((k, v) ∷ m) = v ∷ values m

module _ {ℓ κ} {K : Type ℓ} {V : Type κ} ⦃key : Key K⦄ where
  -- `m[k]` with its second result
  abbrev pub lookup : K → Dict K V → Option V
  lookup k [] = none
  lookup k ((j, v) ∷ m) = if j == k then some v else lookup k m

  abbrev pub contains : K → Dict K V → Bool
  contains k m = elim (lookup k m) [ none ↦ false | some _ ↦ true ]

  -- `m[k] = v`
  abbrev pub insert : K → V → Dict K V → Dict K V
  insert k v [] = (k, v) ∷ []
  insert k v ((j, w) ∷ m) = if j == k then (j, v) ∷ m else (j, w) ∷ insert k v m

  -- `delete(m, k)`
  abbrev pub erase : K → Dict K V → Dict K V
  erase k [] = []
  erase k ((j, w) ∷ m) = if j == k then m else (j, w) ∷ erase k m

  -- A write through the pointer that the map holds under `k`.
  abbrev pub adjust : K → (V → V) → Dict K V → Dict K V
  adjust k f [] = []
  adjust k f ((j, w) ∷ m) = if j == k then (j, f w) ∷ m else (j, w) ∷ adjust k f m

  pub lookup-insert :
      (k j : K) (v : V) (m : Dict K V)
      → lookup j (insert k v m) ≡ (if k == j then some v else lookup j m)
  lookup-insert k j v [] = refl
  lookup-insert k j v ((i, w) ∷ m) =
      ground (arith, ==_iff k j, ==_iff i k, ==_iff i j, lookup-insert k j v m)

  pub lookup-adjust :
      (k j : K) (f : V → V) (m : Dict K V)
      → lookup j (adjust k f m) ≡ (if k == j then Option.map f (lookup j m) else lookup j m)
  lookup-adjust k j f [] = ground arith
  lookup-adjust k j f ((i, w) ∷ m) =
      ground (arith, ==_iff k j, ==_iff i k, ==_iff i j, lookup-adjust k j f m)

  pub lookup-adjust_self :
      (k : K) (f : V → V) {v : V} (m : Dict K V)
      → lookup k m ≡ some v
      → lookup k (adjust k f m) ≡ some (f v)
  lookup-adjust_self k f m h = rw (lookup-adjust k k f m, ==_refl k, h)

  pub lookup-adjust_ne :
      (k j : K) (f : V → V) (m : Dict K V) → k ≢ j → lookup j (adjust k f m) ≡ lookup j m
  lookup-adjust_ne k j f m h = ground (arith, ==_iff k j, lookup-adjust k j f m)

  pub length-insert_new :
      (k : K) (v : V) (m : Dict K V) → lookup k m ≡ none → length (insert k v m) ≡ length m + 1
  length-insert_new k v [] h = omega arith
  length-insert_new k v ((i, w) ∷ m) h = ground (arith, length-insert_new k v m)

  pub length-insert_old :
      (k : K) (v w : V) (m : Dict K V) → lookup k m ≡ some w → length (insert k v m) ≡ length m
  length-insert_old k v w [] h = cc
  length-insert_old k v w ((i, u) ∷ m) h = ground (arith, length-insert_old k v w m)

  pub length-adjust : (k : K) (f : V → V) (m : Dict K V) → length (adjust k f m) ≡ length m
  length-adjust k f [] = refl
  length-adjust k f ((i, u) ∷ m) = ground (arith, length-adjust k f m)

  pub length-erase :
      (k : K) (w : V) (m : Dict K V) → lookup k m ≡ some w → length (erase k m) + 1 ≡ length m
  length-erase k w [] h = cc
  length-erase k w ((i, u) ∷ m) h = ground (arith, length-erase k w m)

  pub length-insert_le : (k : K) (v : V) (m : Dict K V) → length (insert k v m) ≤ length m + 1
  length-insert_le k v [] = omega arith
  length-insert_le k v ((i, w) ∷ m) = ground (arith, length-insert_le k v m)

  pub length-erase_le : (k : K) (m : Dict K V) → length (erase k m) ≤ length m
  length-erase_le k [] = omega arith
  length-erase_le k ((i, w) ∷ m) = ground (arith, length-erase_le k m)
