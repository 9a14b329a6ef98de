-- ===== src/State/Authorization.antt =====
-- Who can move funds by `SignedTransfer`, what such a transfer writes, and what it lets through.
use nuvex.Base.{
  ◌+◌, ◌<◌, ◌≡◌, ◌≢◌, refl, sym, ◌∙◌, some, String, arith, Outcome, ok, err, panic, string_key,
  ==_iff, ◌==◌, Bool-cases, Option-cases, inl, inr, ◌⊎◌, false, Outcome-cases, ap,
}
use mathlib.Core.Option.{some-injective}
use nuvex.Base.Word.{Int64, half_word, ◌+64◌, ◌-64◌, ◌<64◌}
use nuvex.Dict.{lookup, lookup-adjust_self, lookup-adjust_ne, lookup-adjust}
use nuvex.Host.{Host}
use nuvex.Signature.{TxPayload, verify_signature, address_from_public_key}
use nuvex.State.Accounts.{
  Account, AccountMap, Transaction, total_balance, credit, debit, bump_nonce,
}
use nuvex.State.Balances.{lookup-ensure_self, lookup-ensure_ne, lookup-ensure_old, account_or_fresh}
use nuvex.State.Keeper.{
  StateKeeper, StateError, unknown_address, not_enough, wrong_address, bad_public_key,
  invalid_signature, Disk, move_funds, confirm, execute_signed, authorize, signed_transfer,
}
use nuvex.State.Conservation.{Settles, moved_total}

-- The payload that the sender must have signed.
abbrev pub next_payload : String → String → Int64 → Int64 → Account → TxPayload
next_payload from to amount fee sender = record {
  from = from;
  to = to;
  amount = amount;
  fee = fee;
  nonce = sender.nonce +64 1;
}

-- The signature fits the payload under the key, and the key's address is the sender's.
abbrev pub IsEntitled : Host → String → String → Int64 → Int64 → String → String → Account → Type 0
IsEntitled host from to amount fee public_key signature sender =
    (verify_signature host public_key (next_payload from to amount fee sender) signature ≡ ok tt)
    × (address_from_public_key host public_key ≡ ok from)

-- The account of the sender and of another receiver after the three writes, and every third one.
pub move_funds_effect :
    (from to : String) (amount total : Int64) (sender : Account) (m : AccountMap)
    → lookup from m ≡ some sender
    → from ≢ to
    → let r = account_or_fresh to m in
      (lookup from (move_funds from to amount total m)
        ≡ some (record sender { balance = sender.balance -64 total; nonce = sender.nonce +64 1 }))
      × (lookup to (move_funds from to amount total m)
          ≡ some (record r { balance = r.balance +64 amount }))
      × ((j : String)
          → j ≢ from
          → j ≢ to
          → lookup j (move_funds from to amount total m) ≡ lookup j m)
unfolding move_funds credit debit bump_nonce
move_funds_effect from to amount total sender m e ne = (
  lookup-adjust_self from _ _ (
      lookup-adjust_ne to from _ _ (λ q. ne (sym q))
      ∙ lookup-adjust_self from _ _ (lookup-ensure_old to from sender m e)),
  lookup-adjust_ne from to _ _ ne
      ∙ lookup-adjust_self to _ _ (lookup-adjust_ne from to _ _ ne ∙ lookup-ensure_self to m),
  λ j nf nt.
      lookup-adjust_ne from j _ _ (λ q. nf (sym q))
      ∙ lookup-adjust_ne to j _ _ (λ q. nt (sym q))
      ∙ lookup-adjust_ne from j _ _ (λ q. nf (sym q))
      ∙ lookup-ensure_ne to j m (λ q. nt (sym q)),
)

-- The sender's nonce goes up by one, also where the receiver is the sender.
move_funds_nonce :
    (from to : String) (amount total : Int64) (sender : Account) (m : AccountMap)
    → lookup from m ≡ some sender
    → (a : Account) × (lookup from (move_funds from to amount total m) ≡ some a)
      × (a.nonce ≡ sender.nonce +64 1)
unfolding move_funds credit debit bump_nonce
move_funds_nonce from to amount total sender m e =
    let b = record sender { balance = sender.balance -64 total } in
    let debited =
      lookup-adjust_self from (λ (a : Account). record a { balance = a.balance -64 total }) _
        (lookup-ensure_old to from sender m e) in
    elim (Bool-cases (to == from)) [
      | inl same ↦ (
        _,
        lookup-adjust_self from _ {v = record b { balance = b.balance +64 amount }} _
            (lookup-adjust to from _ _ ∙ rw (same, debited)),
        refl,
      )
      | inr other ↦ (
        _,
        lookup-adjust_self from _ {v = b} _ (lookup-adjust to from _ _ ∙ rw (other, debited)),
        refl,
      )
    ]

module _ (host : Host) where
  verify-ne-panic :
      (public_key : String) (payload : TxPayload) (signature : String)
      → verify_signature host public_key payload signature ≢ panic
  unfolding verify_signature
  verify-ne-panic public_key payload signature = λ h. ground arith

  address-ne-panic : (public_key : String) → address_from_public_key host public_key ≢ panic
  unfolding address_from_public_key
  address-ne-panic public_key = λ h. ground arith

  -- The check refuses, or it passes and the caller is entitled.
  authorize_cases :
      (from to : String) (amount fee : Int64) (public_key signature : String) (sender : Account)
      → ((e : StateError) × (authorize host from to amount fee public_key signature sender ≡ err e))
        ⊎ ((authorize host from to amount fee public_key signature sender ≡ ok tt)
            × IsEntitled host from to amount fee public_key signature sender)
  unfolding authorize
  authorize_cases from to amount fee public_key signature sender =
      let payload = next_payload from to amount fee sender in
      elim (Outcome-cases (verify_signature host public_key payload signature)) [
        | inl (_, e) ↦ elim (Outcome-cases (address_from_public_key host public_key)) [
          | inl (derived, d) ↦ elim (Bool-cases (derived == from)) [
            | inl same ↦
                inr (rw (e, authorize, d, same), (e, d ∙ ap ok ((==_iff derived from).0 same)))
            | inr other ↦ inl (wrong_address, rw (e, authorize, d, other))
          ]
          | inr (inl (x, d)) ↦ inl (bad_public_key x, rw (e, authorize, d))
          | inr (inr d) ↦ absurd (address-ne-panic public_key d)
        ]
        | inr (inl (x, e)) ↦ inl (invalid_signature x, rw (e, authorize))
        | inr (inr e) ↦ absurd (verify-ne-panic public_key payload signature e)
      ]

module _ (host : Host) (disk : Disk) (from to : String) (amount fee height : Int64)
    (public_key signature now : String) (sk : StateKeeper) where
  abbrev submitted : StateKeeper × Outcome StateError Transaction
  submitted = signed_transfer host disk from to amount fee height public_key signature now sk

  -- Either the call is refused and the state is what it was, or the signature over the payload with
  -- the sender's next nonce and the key's address were right, the balance covered the total, and the
  -- transfer was executed.
  pub signed_transfer_authorized :
      ((e : StateError) × (submitted ≡ (sk, err e)))
      ⊎ ((sender : Account) × (lookup from sk.accounts ≡ some sender)
          × IsEntitled host from to amount fee public_key signature sender
          × ((sender.balance <64 amount +64 fee) ≡ false)
          × (submitted
              ≡ execute_signed host disk from to amount fee height signature now sender sk))
  unfolding signed_transfer
  signed_transfer_authorized = elim (Option-cases (lookup from sk.accounts)) [
    | inl missing ↦ inl (unknown_address, rw (missing, signed_transfer))
    | inr (sender, e) ↦ elim (authorize_cases host from to amount fee public_key signature sender) [
      | inl (x, a) ↦ inl (x, rw (e, signed_transfer, a))
      | inr (a, entitled) ↦ elim (Bool-cases (sender.balance <64 amount +64 fee)) [
        | inl short ↦ inl (not_enough, rw (e, signed_transfer, a, short))
        | inr enough ↦ inr (sender, e, entitled, enough, rw (e, signed_transfer, a, enough))
      ]
    ]
  ]

  pub execute_signed-accounts :
      (sender : Account)
      → (execute_signed host disk from to amount fee height signature now sender sk).0.accounts
        ≡ move_funds from to amount (amount +64 fee) sk.accounts
  unfolding execute_signed confirm
  execute_signed-accounts sender = ground arith

  execute_signed-Settles :
      (sender : Account)
      → total_balance (move_funds from to amount (amount +64 fee) sk.accounts) + fee
        ≡ total_balance sk.accounts
      → Settles fee sk (execute_signed host disk from to amount fee height signature now sender sk)
  unfolding execute_signed confirm
  execute_signed-Settles sender h = ground arith

  -- As for the unsigned transfer: a refused call changes nothing, and any other lowers the sum by
  -- exactly the fee.
  pub signed_transfer-Settles :
      amount + fee < half_word → total_balance sk.accounts < half_word → Settles fee sk submitted
  signed_transfer-Settles t bound = elim signed_transfer_authorized [
    | inl (e, same) ↦ rw same refl
    | inr (sender, e, _, enough, done) ↦ rw done (
        execute_signed-Settles sender
          (moved_total from to amount fee sender sk.accounts e enough t bound))
  ]

  pub executed_enough :
      (sender : Account)
      → lookup from sk.accounts ≡ some sender
      → authorize host from to amount fee public_key signature sender ≡ ok tt
      → (sender.balance <64 amount +64 fee) ≡ false
      → submitted ≡ execute_signed host disk from to amount fee height signature now sender sk
  unfolding signed_transfer
  executed_enough sender e a enough = rw (e, signed_transfer, a, enough)

-- Once a signed transfer has been executed, the same call is accepted again only if the same
-- signature fits the payload with the nonce after next.
pub signed_transfer_replay :
    (host : Host) (disk : Disk) (from to : String) (amount fee height : Int64)
    (public_key signature now later : String) (sender : Account) (sk : StateKeeper)
    → lookup from sk.accounts ≡ some sender
    → ((e : StateError)
        → signed_transfer host disk from to amount fee height public_key signature now sk
          ≢ (sk, err e))
    → let sk' =
        (signed_transfer host disk from to amount fee height public_key signature now sk).0 in
      ((e : StateError) × (signed_transfer host disk from to amount fee height public_key signature
            later sk'
          ≡ (sk', err e)))
      ⊎ (verify_signature host public_key
            (record {
              from = from;
              to = to;
              amount = amount;
              fee = fee;
              nonce = sender.nonce +64 1 +64 1;
            })
            signature
          ≡ ok tt)
signed_transfer_replay host disk from to amount fee height public_key signature now later sender sk
      e accepted =
    elim (signed_transfer_authorized host disk from to amount fee height public_key signature now
      sk) [
        | inl (x, same) ↦ absurd (accepted x same)
        | inr (s, es, _, _, done) ↦
            elim (signed_transfer_authorized host disk from to amount fee height public_key
              signature later
              (signed_transfer host disk from to amount fee height public_key signature now sk).0) [
                | inl (x, same) ↦ inl (x, same)
                | inr (s', es', entitled, _, _) ↦
                    let (a, ea, na) =
                      move_funds_nonce from to amount (amount +64 fee) sender sk.accounts e in
                    let accounts' =
                      ap (λ (r : StateKeeper × Outcome StateError Transaction). r.0.accounts) done
                      ∙ execute_signed-accounts host disk from to amount fee height public_key
                          signature now sk s in
                    let known : s' ≡ a =
                      some-injective s' a (sym es' ∙ ap (lookup from) accounts' ∙ ea) in
                    let nonce' : s'.nonce ≡ sender.nonce +64 1 =
                      ap (λ (x : Account). x.nonce) known ∙ na in
                    inr (rw nonce' at (entitled.0))
              ]
      ]
