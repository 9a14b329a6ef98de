-- ===== src/Staking/Payout.antt =====
-- What `Unstake` pays, and that it pays once.
use nuvex.Base.{
  ℕ, ◌≡◌, refl, sym, subst, ◌∙◌, true, false, some, String, arith, Bool-cases, inl, inr, string_key,
  ◌==◌, ==_refl, ok, err, panic, Outcome-cases,
}
use nuvex.Base.Word.{◌+64◌}
use nuvex.Base.Float.{Float}
use nuvex.Dict.{Dict, lookup, insert, contains, lookup-insert}
use nuvex.State.Accounts.{credit}
use nuvex.Staking.{
  StakePosition, StakingKeeper, StakingError, calculate_rewards, pay_out, check_position,
  find_position, unstake, write_accounts, put_back, close, settle, inactive, not_owner,
}

lookup-insert_self :
    (id : String) (pos : StakePosition) (m : Dict String StakePosition)
    → lookup id (insert id pos m) ≡ some pos
lookup-insert_self id pos m = lookup-insert id id pos m ∙ ground (arith, ==_refl id)

-- What a successful call has done.
abbrev pub PaysOut : String → String → StakePosition → StakingKeeper → StakingKeeper → Type 0
PaysOut owner id pos sk sk' =
    (sk'.state.accounts ≡ credit owner (pos.amount +64 pos.total_rewards) sk.state.accounts)
    × (lookup id sk'.positions ≡ some pos)
    × (pos.is_active ≡ false)

settle_missing :
    (owner id : String) (pos : StakePosition) (sk : StakingKeeper)
    → contains owner sk.state.accounts ≡ false
    → (settle owner id pos sk).1 ≡ panic
unfolding settle
settle_missing owner id pos sk e = rw (e, settle)

settle_state :
    (owner id : String) (pos : StakePosition) (sk : StakingKeeper)
    → contains owner sk.state.accounts ≡ true
    → (settle owner id pos sk).0
      ≡ write_accounts
          (credit owner (pos.amount +64 pos.total_rewards) sk.state.accounts)
          (put_back id (close pos) sk)
unfolding settle
settle_state owner id pos sk e = simp (e, settle)

settle_outcome :
    (owner id : String) (pos paid : StakePosition) (sk : StakingKeeper)
    → contains owner sk.state.accounts ≡ true
    → (settle owner id pos sk).1 ≡ ok paid
    → close pos ≡ paid
unfolding settle
settle_outcome owner id pos paid sk c e = ground arith

settle-PaysOut :
    (owner id : String) (pos paid : StakePosition) (sk : StakingKeeper)
    → (settle owner id pos sk).1 ≡ ok paid
    → PaysOut owner id paid sk (settle owner id pos sk).0
settle-PaysOut owner id pos paid sk e = elim (Bool-cases (contains owner sk.state.accounts)) [
  | inr missing ↦ absurd (let p = settle_missing owner id pos sk missing in cc)
  | inl there ↦
      subst (λ s. PaysOut owner id paid sk s) (sym (settle_state owner id pos sk there))
        (subst
          (λ p. PaysOut owner id p sk (
            write_accounts (credit owner (pos.amount +64 pos.total_rewards) sk.state.accounts)
              (put_back id (close pos) sk)))
          (settle_outcome owner id pos paid sk there e)
          (refl, lookup-insert_self id (close pos) sk.positions, refl))
]

module _ (fl : Float) where
  pay_out-PaysOut :
      (owner id : String) (now : ℕ) (pos paid : StakePosition) (sk : StakingKeeper)
      → (pay_out fl owner id now pos sk).1 ≡ ok paid
      → PaysOut owner id paid sk (pay_out fl owner id now pos sk).0
  unfolding pay_out
  pay_out-PaysOut owner id now pos paid sk e =
      elim (Outcome-cases (calculate_rewards fl now pos).1) [
        | inl (reward, r) ↦
            let s : pay_out fl owner id now pos sk
                ≡ settle owner id (calculate_rewards fl now pos).0 sk =
              simp (r, pay_out) in
            subst (λ x. PaysOut owner id paid sk x.0) (sym s)
              (settle-PaysOut owner id (calculate_rewards fl now pos).0 paid sk
                (subst (λ x. x.1 ≡ ok paid) s e))
        | inr (inl (x, _)) ↦ absurd x
        | inr (inr r) ↦
            let s : (pay_out fl owner id now pos sk).1 ≡ panic = simp (r, pay_out) in absurd (cc)
      ]

  unstake-PaysOut :
      (owner id : String) (now : ℕ) (paid : StakePosition) (sk : StakingKeeper)
      → (unstake fl owner id now sk).1 ≡ ok paid
      → PaysOut owner id paid sk (unstake fl owner id now sk).0
  unfolding unstake
  unstake-PaysOut owner id now paid sk done = elim (Outcome-cases (find_position owner id sk)) [
    | inl (pos, f) ↦
        let s : unstake fl owner id now sk ≡ pay_out fl owner id now pos sk = simp (f, unstake) in
        subst (λ x. PaysOut owner id paid sk x.0) (sym s)
          (pay_out-PaysOut owner id now pos paid sk (subst (λ x. x.1 ≡ ok paid) s done))
    | inr (inl (x, f)) ↦
        let s : (unstake fl owner id now sk).1 ≡ err x = simp (f, unstake) in absurd (cc)
    | inr (inr f) ↦
        let s : (unstake fl owner id now sk).1 ≡ panic = simp (f, unstake) in absurd (cc)
  ]

  closed_refused :
      (owner id : String) (now : ℕ) (pos : StakePosition) (sk : StakingKeeper)
      → lookup id sk.positions ≡ some pos
      → pos.is_active ≡ false
      → (e : StakingError) × (unstake fl owner id now sk ≡ (sk, err e))
  unfolding unstake find_position check_position
  closed_refused owner id now pos sk found closed = elim (Bool-cases (pos.owner == owner)) [
    | inl mine ↦ (inactive, simp (unstake, find_position, found, check_position, mine, closed))
    | inr foreign ↦ (not_owner, simp (unstake, find_position, found, check_position, foreign))
  ]

  -- A successful `Unstake` credits the owner with the amount and the rewards of the position that it
  -- returns, and from then on every `Unstake` of that position is refused and changes nothing.
  pub unstake_once :
      (owner id other : String) (now later : ℕ) (paid : StakePosition) (sk : StakingKeeper)
      → (unstake fl owner id now sk).1 ≡ ok paid
      → let sk' = (unstake fl owner id now sk).0 in
        (sk'.state.accounts ≡ credit owner (paid.amount +64 paid.total_rewards) sk.state.accounts)
        × ((e : StakingError) × (unstake fl other id later sk' ≡ (sk', err e)))
  unstake_once owner id other now later paid sk done =
      let (credited, found, closed) = unstake-PaysOut owner id now paid sk done in
      (credited, closed_refused other id later paid (unstake fl owner id now sk).0 found closed)
