-- ===== src/State/Abuse.antt =====
-- What `SignedTransfer` lets through: amounts below zero, and transfers that share one hash.
use Prim.Native.String.{◌++◌}
use text.Mathlib.TextLemmas.{append_assoc}
use nuvex.Base.{
  ◌+◌, ◌-◌, ◌≤◌, ◌<◌, ◌≡◌, ◌≢◌, ap, ◌∙◌, some, String, arith, ok, string_key, false, Outcome,
}
use nuvex.Base.Word.{Int64, half_word, word, ◌+64◌, ◌-64◌, ◌<64◌}
use nuvex.Dict.{lookup}
use nuvex.Host.{Host}
use nuvex.State.Accounts.{Account, Transaction}
use nuvex.State.Balances.{account_or_fresh}
use nuvex.State.Keeper.{StateKeeper, StateError, Disk, authorize, signed_transfer, transfer_record}
use nuvex.State.Authorization.{move_funds_effect, executed_enough, execute_signed-accounts}

-- A negative amount passes every check: the receiver, who has signed nothing, pays the sender.
pub signed_transfer_negative :
    (host : Host) (disk : Disk) (from to : String) (taken fee height : Int64)
    (public_key signature now : String) (sender victim : Account) (sk : StateKeeper)
    → lookup from sk.accounts ≡ some sender
    → lookup to sk.accounts ≡ some victim
    → from ≢ to
    → fee ≤ taken
    → 0 < taken
    → taken ≤ victim.balance
    → victim.balance < half_word
    → sender.balance < half_word
    → authorize host from to (word - taken) fee public_key signature sender ≡ ok tt
    → let accounts' =
        (signed_transfer host disk from to
          (word - taken)
          fee
          height
          public_key
          signature
          now
          sk).0.accounts in
      (lookup to accounts' ≡ some (record victim { balance = victim.balance - taken }))
      × (lookup from accounts'
          ≡ some (record sender {
            balance = sender.balance + (taken - fee);
            nonce = sender.nonce +64 1;
          }))
signed_transfer_negative host disk from to taken fee height public_key signature now sender victim
      sk es ev ne ft pt tv bv bs a =
    let amount = word - taken in
    let enough : (sender.balance <64 amount +64 fee) ≡ false = ground arith in
    let accounts' =
      ap (λ (r : StateKeeper × Outcome StateError Transaction). r.0.accounts)
        (executed_enough host disk from to amount fee height public_key signature now sk sender es a
          enough)
      ∙ execute_signed-accounts host disk from to amount fee height public_key signature now sk
          sender in
    let (f, t, _) = move_funds_effect from to amount (amount +64 fee) sender sk.accounts es ne in
    let paid : sender.balance -64 (amount +64 fee) ≡ sender.balance + (taken - fee) = omega arith in
    let lost : victim.balance +64 amount ≡ victim.balance - taken = omega arith in
    (
      ap (lookup to) accounts' ∙ t ∙ rw (ev, account_or_fresh, lost),
      ap (lookup from) accounts'
          ∙ f
          ∙ ap (λ b. some (record sender { balance = b; nonce = sender.nonce +64 1 })) paid,
    )

-- The fields stand in the hashed text with nothing between them, so a transfer from `a ++ b` to `c`
-- has the hash of one from `a` to `b ++ c` of the same amount, fee and nonce.
pub transfer_record_collision :
    (host : Host) (a b c : String) (amount fee height : Int64) (now : String) (s t : Account)
    → s.nonce ≡ t.nonce
    → (transfer_record host (a ++ b) c amount fee height now s).hash
      ≡ (transfer_record host a (b ++ c) amount fee height now t).hash
unfolding transfer_record
transfer_record_collision host a b c amount fee height now s t e = simp (e, append_assoc)
