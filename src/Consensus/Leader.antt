-- ===== src/Consensus/Leader.antt =====
-- Who is chosen as leader.
use nuvex.Base.{
  ℕ, ◌+◌, ◌-◌, ◌%◌, ◌≤◌, ◌<◌, ◌≡◌, ◌∙◌, true, false, some, List, [], ◌∷◌, arith, Bool-cases, inl,
  inr, if◌then◌else◌, nat_eq,
}
use nuvex.Base.Word.{half_word, ◌+64◌, ◌<64◌}
use nuvex.Consensus.{Validator, active_power_from, pick, select_by_seed}

-- The sum of the active validators' powers, with no wrap-around.
abbrev pub power : List Validator → ℕ
power [] = 0
power (v ∷ validators) = (if v.is_active then v.voting_power else 0) + power validators

-- The validator that owns a slot: the active ones' powers laid end to end.
pub data Owns : Validator → ℕ → List Validator → Type 0 where
  here :
      (v : Validator) (slot : ℕ) (validators : List Validator)
      → v.is_active ≡ true
      → slot < v.voting_power
      → Owns v slot (v ∷ validators)
  past :
      (v u : Validator) (slot rest : ℕ) (validators : List Validator)
      → u.is_active ≡ true
      → slot ≡ u.voting_power + rest
      → Owns v rest validators
      → Owns v slot (u ∷ validators)
  idle :
      (v u : Validator) (slot : ℕ) (validators : List Validator)
      → u.is_active ≡ false
      → Owns v slot validators
      → Owns v slot (u ∷ validators)

active_power_from-eq :
    (total : ℕ) (validators : List Validator)
    → total + power validators < half_word
    → active_power_from total validators ≡ total + power validators
unfolding active_power_from
active_power_from-eq total [] h = omega arith
active_power_from-eq total (v ∷ validators) h = ground (
  arith,
  active_power_from-eq (total +64 v.voting_power) validators,
  active_power_from-eq total validators,
)

pick_idle :
    (slot cum : ℕ) (v : Validator) (validators : List Validator)
    → v.is_active ≡ false
    → pick slot cum (v ∷ validators) ≡ pick slot cum validators
unfolding pick
pick_idle slot cum v validators e = ground arith

pick_here :
    (slot cum : ℕ) (v : Validator) (validators : List Validator)
    → v.is_active ≡ true
    → (slot <64 cum +64 v.voting_power) ≡ true
    → pick slot cum (v ∷ validators) ≡ some v
unfolding pick
pick_here slot cum v validators e t = ground arith

pick_past :
    (slot cum : ℕ) (v : Validator) (validators : List Validator)
    → v.is_active ≡ true
    → (slot <64 cum +64 v.voting_power) ≡ false
    → pick slot cum (v ∷ validators) ≡ pick slot (cum +64 v.voting_power) validators
unfolding pick
pick_past slot cum v validators e t = ground arith

power_active :
    (v : Validator) (validators : List Validator)
    → v.is_active ≡ true
    → power (v ∷ validators) ≡ v.voting_power + power validators
power_active v validators e = ground arith

power_idle :
    (v : Validator) (validators : List Validator)
    → v.is_active ≡ false
    → power (v ∷ validators) ≡ power validators
power_idle v validators e = ground arith

-- The loop finds the owner of the slot.
pick-Owns :
    (slot cum at : ℕ) (validators : List Validator)
    → at ≡ cum + slot
    → slot < power validators
    → cum + power validators < half_word
    → (v : Validator) × (pick at cum validators ≡ some v) × Owns v slot validators
pick-Owns slot cum at [] e h b = absurd (omega arith)
pick-Owns slot cum at (u ∷ validators) e h b = elim (Bool-cases u.is_active) [
  | inl active ↦
      let p = power_active u validators active in
      elim (Bool-cases (at <64 cum +64 u.voting_power)) [
        | inl low ↦
            let lt : slot < u.voting_power = ground (arith, p) in
            (u, pick_here at cum u validators active low, here u slot validators active lt)
        | inr high ↦
            let ge : u.voting_power ≤ slot = ground (arith, p) in
            let (v, found, owns) =
              pick-Owns (slot - u.voting_power) (cum +64 u.voting_power) at validators
                (omega (arith, p)) (omega (arith, p)) (omega (arith, p)) in
            (
              v,
              pick_past at cum u validators active high ∙ found,
              past v u slot (slot - u.voting_power) validators active (omega arith) owns,
            )
      ]
  | inr inactive ↦
      let p = power_idle u validators inactive in
      let (v, found, owns) =
        pick-Owns slot cum at validators e (omega (arith, p)) (omega (arith, p)) in
      (v, pick_idle at cum u validators inactive ∙ found, idle v u slot validators inactive owns)
]

select_by_seed_found :
    (seed total : ℕ) (first v : Validator) (rest : List Validator)
    → active_power_from 0 (first ∷ rest) ≡ total
    → nat_eq total 0 ≡ false
    → pick (seed % total) 0 (first ∷ rest) ≡ some v
    → select_by_seed seed (first ∷ rest) ≡ some v
unfolding select_by_seed
select_by_seed_found seed total first v rest e positive found =
    rw (e, positive, found, select_by_seed)

-- Where the active validators' powers are not all 0 and sum up to less than 2^63, the leader is the
-- active validator that owns the slot `seed % total`: each owns as many slots as it has power.
pub select_by_seed-Owns :
    (seed : ℕ) (validators : List Validator)
    → 0 < power validators
    → power validators < half_word
    → (v : Validator) × (select_by_seed seed validators ≡ some v)
      × Owns v (seed % power validators) validators
select_by_seed-Owns seed [] h b = absurd (omega arith)
select_by_seed-Owns seed (first ∷ rest) h b =
    let total = active_power_from-eq 0 (first ∷ rest) (omega arith) in
    let some_power : nat_eq (power (first ∷ rest)) 0 ≡ false = ground arith in
    let (v, found, owns) =
      pick-Owns (seed % power (first ∷ rest)) 0 (seed % power (first ∷ rest)) (first ∷ rest)
        (omega arith) (omega arith) (omega arith) in
    (
      v,
      select_by_seed_found seed (power (first ∷ rest)) first v rest (omega (arith, total))
          some_power found,
      owns,
    )
