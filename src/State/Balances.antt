-- ===== src/State/Balances.antt =====
-- The sum of the balances under each write to an account.
use mathlib.Core.Option
use nuvex.Base.{
  ℕ, ◌+◌, ◌≤◌, ◌<◌, ◌≡◌, refl, none, some, [], ◌∷◌, String, arith, ==_iff, ◌==◌, if◌then◌else◌,
  string_key, ==_refl, ◌≢◌,
}
use nuvex.Base.Word.{half_word, ◌+64◌, ◌-64◌}
use nuvex.Dict.{lookup, insert, adjust, lookup-adjust, lookup-insert}
use nuvex.State.Accounts.{
  Account, AccountMap, ensure_account, credit, debit, bump_nonce, total_balance,
}

-- A balance is at most the sum.
pub balance-le-total_balance :
    (k : String) (a : Account) (m : AccountMap) → lookup k m ≡ some a → a.balance ≤ total_balance m
balance-le-total_balance k a [] h = cc
balance-le-total_balance k a ((j, b) ∷ m) h = ground (arith, balance-le-total_balance k a m)

pub total_balance-adjust :
    (k : String) (f : Account → Account) (a : Account) (m : AccountMap)
    → lookup k m ≡ some a
    → total_balance (adjust k f m) + a.balance ≡ total_balance m + (f a).balance
total_balance-adjust k f a [] h = cc
total_balance-adjust k f a ((j, b) ∷ m) h = ground (arith, total_balance-adjust k f a m)

pub total_balance-insert :
    (k : String) (a : Account) (m : AccountMap)
    → lookup k m ≡ none
    → total_balance (insert k a m) ≡ total_balance m + a.balance
total_balance-insert k a [] h = omega arith
total_balance-insert k a ((j, b) ∷ m) h = ground (arith, total_balance-insert k a m)

pub total_balance-ensure :
    (k : String) (m : AccountMap) → total_balance (ensure_account k m) ≡ total_balance m
unfolding ensure_account
total_balance-ensure k m = ground (
  arith,
  total_balance-insert k (record { address = k; balance = 0; nonce = 0; public_key = "" }) m,
)

pub total_balance-credit :
    (k : String) (x : ℕ) (a : Account) (m : AccountMap)
    → lookup k m ≡ some a
    → total_balance m + x < half_word
    → total_balance (credit k x m) ≡ total_balance m + x
unfolding credit
total_balance-credit k x a m h bound =
    omega (arith, balance-le-total_balance k a m h, total_balance-adjust k _ a m h)

pub total_balance-debit :
    (k : String) (x : ℕ) (a : Account) (m : AccountMap)
    → lookup k m ≡ some a
    → x ≤ a.balance
    → total_balance m < half_word
    → total_balance (debit k x m) + x ≡ total_balance m
unfolding debit
total_balance-debit k x a m h cover bound =
    omega (arith, balance-le-total_balance k a m h, total_balance-adjust k _ a m h)

pub total_balance-bump_nonce :
    (k : String) (m : AccountMap) → total_balance (bump_nonce k m) ≡ total_balance m
unfolding bump_nonce
total_balance-bump_nonce k [] = refl
total_balance-bump_nonce k ((j, b) ∷ m) = ground (arith, total_balance-bump_nonce k m)

-- What the writes leave under a key.
pub lookup-credit :
    (k j : String) (x : ℕ) (m : AccountMap)
    → lookup j (credit k x m) ≡ (
        if k == j
        then Option.map (λ (a : Account). record a { balance = a.balance +64 x }) (lookup j m)
        else lookup j m)
unfolding credit
lookup-credit k j x m = lookup-adjust k j _ m

pub lookup-debit :
    (k j : String) (x : ℕ) (m : AccountMap)
    → lookup j (debit k x m) ≡ (
        if k == j
        then Option.map (λ (a : Account). record a { balance = a.balance -64 x }) (lookup j m)
        else lookup j m)
unfolding debit
lookup-debit k j x m = lookup-adjust k j _ m

pub lookup-bump_nonce :
    (k j : String) (m : AccountMap)
    → lookup j (bump_nonce k m) ≡ (
        if k == j
        then Option.map (λ (a : Account). record a { nonce = a.nonce +64 1 }) (lookup j m)
        else lookup j m)
unfolding bump_nonce
lookup-bump_nonce k j m = lookup-adjust k j _ m

-- The account that a transfer pays: the one that is there, or a new one with nothing in it.
abbrev pub fresh_account : String → Account
fresh_account to = record { address = to; balance = 0; nonce = 0; public_key = "" }

abbrev pub account_or_fresh : String → AccountMap → Account
account_or_fresh to m = elim (lookup to m) [ some a ↦ a | none ↦ fresh_account to ]

pub lookup-ensure_self :
    (k : String) (m : AccountMap) → lookup k (ensure_account k m) ≡ some (account_or_fresh k m)
unfolding ensure_account
lookup-ensure_self k m = ground (arith, ==_refl k, lookup-insert k k (fresh_account k) m)

pub lookup-ensure_ne :
    (k j : String) (m : AccountMap) → k ≢ j → lookup j (ensure_account k m) ≡ lookup j m
unfolding ensure_account
lookup-ensure_ne k j m h = ground (arith, ==_iff k j, lookup-insert k j (fresh_account k) m)

pub lookup-ensure_old :
    (k j : String) (a : Account) (m : AccountMap)
    → lookup j m ≡ some a
    → lookup j (ensure_account k m) ≡ some a
unfolding ensure_account
lookup-ensure_old k j a m h = ground (arith, ==_iff k j, lookup-insert k j (fresh_account k) m)
