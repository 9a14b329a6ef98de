-- ===== src/State/Tests.antt =====
-- The theorems on the state at concrete accounts.
use nuvex.Base.{
  ◌-◌, ◌≡◌, ◌≢◌, refl, some, List, [], ◌∷◌, String, arith, ok, err, string_key, ◌⊎◌, false,
  string_key, ==_iff,
}
use nuvex.Base.Word.{◌+64◌, ◌<64◌, word}
use nuvex.Dict.{lookup}
use nuvex.Signature.{verify_signature, address_from_public_key}
use nuvex.State.Accounts.{
  Account, GenesisEntry, total_balance, ensure_account, credit, debit, bump_nonce,
}
use nuvex.State.Keeper.{
  StateKeeper, StateError, transfer, signed_transfer, authorize, save, confirm, new_state_keeper,
  move_funds, execute_signed,
}
use nuvex.State.Conservation.{Settles}
use nuvex.State.Authorization.{
  signed_transfer_authorized, signed_transfer-Settles, signed_transfer_replay, IsEntitled,
  move_funds_effect,
}
use nuvex.State.Genesis.{AllNew}
use nuvex.State.Abuse.{signed_transfer_negative}
use nuvex.State.Storage.{new-confirm}
use nuvex.State.Samples.{
  sample_host, sample_disk, alice, bob, signature, account, ledger, keeper, payment,
}

bob_is_not_alice : ◌≢◌ {A = String} alice bob
bob_is_not_alice = ground (arith, ==_iff alice bob)

transfer_runs :
    total_balance (transfer sample_host sample_disk alice bob 100 10 7 "now" keeper).0.accounts
    ≡ 5_290
unfolding transfer move_funds ensure_account credit debit bump_nonce confirm save
transfer_runs = refl

signed_transfer-Settles_example :
    Settles 10 keeper
      (signed_transfer sample_host sample_disk alice bob 100 10 7 "key" signature "now" keeper)
signed_transfer-Settles_example =
    signed_transfer-Settles sample_host sample_disk alice bob 100 10 7 "key" signature "now" keeper
      (omega arith) (omega arith)

negative_authorized :
    authorize sample_host alice bob (word - 200) 10 "key" signature (account alice 5_000) ≡ ok tt
unfolding authorize verify_signature address_from_public_key
negative_authorized = refl

signed_transfer_negative_example :
    let accounts' =
      (signed_transfer sample_host sample_disk alice bob
        (word - 200)
        10
        7
        "key"
        signature
        "now"
        keeper).0.accounts in
    (lookup bob accounts' ≡ some (account bob 100))
    × (lookup alice accounts'
        ≡ some (record { address = alice; balance = 5_190; nonce = 5; public_key = "" }))
signed_transfer_negative_example =
    signed_transfer_negative sample_host sample_disk alice bob 200 10 7 "key" signature "now"
      (account alice 5_000) (account bob 300) keeper refl refl bob_is_not_alice (omega arith)
      (omega arith) (omega arith) (omega arith) (omega arith) negative_authorized

alice_pays_bob :
    (e : StateError)
    → signed_transfer sample_host sample_disk alice bob 100 10 7 "key" signature "now" keeper
      ≢ (keeper, err e)
unfolding signed_transfer authorize verify_signature address_from_public_key execute_signed confirm
    save
alice_pays_bob e h = ground arith

signed_transfer_replay_example :
    let sk' =
      (signed_transfer sample_host sample_disk alice bob 100 10 7 "key" signature "now" keeper).0 in
    ((e : StateError) × (signed_transfer sample_host sample_disk alice bob 100 10 7 "key" signature
          "later" sk'
        ≡ (sk', err e)))
    ⊎ (verify_signature sample_host "key"
          (record { from = alice; to = bob; amount = 100; fee = 10; nonce = 4 +64 1 +64 1 })
          signature
        ≡ ok tt)
signed_transfer_replay_example =
    signed_transfer_replay sample_host sample_disk alice bob 100 10 7 "key" signature "now" "later"
      (account alice 5_000) keeper refl alice_pays_bob

signed_transfer_authorized_example :
    ((e : StateError) × (signed_transfer sample_host sample_disk alice bob 100 10 7 "key" signature
          "now" keeper
        ≡ (keeper, err e)))
    ⊎ ((sender : Account) × (lookup alice keeper.accounts ≡ some sender)
        × IsEntitled sample_host alice bob 100 10 "key" signature sender
        × ((sender.balance <64 100 +64 10) ≡ false)
        × (signed_transfer sample_host sample_disk alice bob 100 10 7 "key" signature "now" keeper
            ≡ execute_signed sample_host sample_disk alice bob 100 10 7 signature "now" sender
                keeper))
signed_transfer_authorized_example =
    signed_transfer_authorized sample_host sample_disk alice bob 100 10 7 "key" signature "now"
      keeper

paid : StateKeeper
paid = (confirm sample_disk payment keeper).0

new-confirm_example :
    (new_state_keeper sample_disk paid.file ≡ paid)
    × (paid.accounts ≡ ledger)
    × (paid.txs ≡ payment ∷ [])
unfolding paid
new-confirm_example =
    new-confirm sample_disk payment keeper
      (record { reads_back = refl; writes = λ old bytes. refl })

move_funds_effect_example :
    (lookup alice (move_funds alice bob 100 110 ledger)
      ≡ some (record { address = alice; balance = 4_890; nonce = 5; public_key = "" }))
    × (lookup bob (move_funds alice bob 100 110 ledger) ≡ some (account bob 400))
    × ((j : String)
        → j ≢ alice
        → j ≢ bob
        → lookup j (move_funds alice bob 100 110 ledger) ≡ lookup j ledger)
move_funds_effect_example =
    move_funds_effect alice bob 100 110 (account alice 5_000) ledger refl bob_is_not_alice

abbrev entries : List GenesisEntry
entries =
    record { address = "nuvex1a"; amount = 70; public_key = "" }
    ∷ record { address = "nuvex1b"; amount = 30; public_key = "" }
    ∷ []

entries_new : AllNew entries ledger
entries_new = (refl, (ground (arith, ==_iff {K = String} "nuvex1a" "nuvex1b"), tt), (refl, tt, tt))
