-- ===== src/Governance/Closed.antt =====
-- A proposal that is no longer open.
use nuvex.Base.{
  ℕ, ◌≡◌, sym, subst, ◌∙◌, ap, true, false, some, [], ◌∷◌, String, arith, Bool-cases, inl, inr,
  nat_key, string_key, ◌==◌, ==_iff, ok, Outcome-cases,
}
use nuvex.Base.Word.{Uint64}
use nuvex.Base.Float.{Float}
use nuvex.Dict.{Dict, lookup, insert, lookup-insert}
use nuvex.State.Accounts.{AccountMap}
use nuvex.State.Keeper.{get_balance}
use nuvex.Governance.{Proposal, GovernanceKeeper, is_voting, check_open, admit, vote}
use nuvex.Governance.Closing.{process_proposal, process_all, process_tick}

check_open-voting :
    (power : Uint64) (now : ℕ) (q p : Proposal)
    → check_open power now q ≡ ok p
    → is_voting q.status ≡ true
unfolding check_open
check_open-voting power now q p e = ground arith

admit-refused :
    (id : Uint64) (voter : String) (now : ℕ) (gk : GovernanceKeeper) (p q : Proposal)
    → lookup id gk.proposals ≡ some p
    → is_voting p.status ≡ false
    → admit id voter now gk ≡ ok q
    → ⊥
unfolding admit
admit-refused id voter now gk p q found closed e =
    let checked : check_open (get_balance voter gk.state) now p ≡ ok q = ground arith in
    let open_yet = check_open-voting (get_balance voter gk.state) now p q checked in cc

process_proposal_closed :
    (fl : Float) (now : ℕ) (p : Proposal) (accounts : AccountMap)
    → is_voting p.status ≡ false
    → process_proposal fl now p accounts ≡ (p, accounts)
unfolding process_proposal
process_proposal_closed fl now p accounts closed = ground arith

process_all_closed :
    (fl : Float) (now : ℕ) (id : Uint64) (p : Proposal) (m : Dict Uint64 Proposal)
    (accounts : AccountMap)
    → lookup id m ≡ some p
    → is_voting p.status ≡ false
    → lookup id (process_all fl now m accounts).0 ≡ some p
unfolding process_all
process_all_closed fl now id p [] accounts found closed = cc
process_all_closed fl now id p ((k, q) ∷ rest) accounts found closed = elim (Bool-cases (k == id)) [
  | inl same ↦
      let this : q ≡ p = ground arith in
      let stays =
        process_proposal_closed fl now q accounts (ap (λ r. is_voting r.status) this ∙ closed) in
      rw (same) (ap (λ s. some s.0) stays ∙ ap some this)
  | inr other ↦
      let later : lookup id rest ≡ some p = ground arith in
      rw (other)
        (process_all_closed fl now id p rest (process_proposal fl now q accounts).1 later closed)
]

lookup-insert_other :
    (id other : Uint64) (q p : Proposal) (m : Dict Uint64 Proposal)
    → (other == id) ≡ false
    → lookup id m ≡ some p
    → lookup id (insert other q m) ≡ some p
lookup-insert_other id other q p m e found = lookup-insert other id q m ∙ ground (arith)

vote_closed :
    (id other : Uint64) (p : Proposal) (voter option : String) (now : ℕ) (gk : GovernanceKeeper)
    → lookup id gk.proposals ≡ some p
    → is_voting p.status ≡ false
    → lookup id (vote other voter option now gk).0.proposals ≡ some p
unfolding vote
vote_closed id other p voter option now gk found closed =
    elim (Outcome-cases (admit other voter now gk)) [
      | inl (q, e) ↦ elim (Bool-cases (other == id)) [
        | inl same ↦ absurd (
            admit-refused other voter now gk p q
              (subst (λ i. lookup i gk.proposals ≡ some p) (sym ((==_iff other id).0 same)) found)
              closed e)
        | inr apart ↦ rw (e, vote) (lookup-insert_other id other _ p gk.proposals apart found)
      ]
      | inr (inl (x, e)) ↦ rw (e, vote) found
      | inr (inr e) ↦ rw (e, vote) found
    ]

-- A proposal that is no longer open stays as it is when the loop ticks and when a vote, for it or for
-- another proposal, comes in.
pub process_tick_closed :
    (fl : Float) (id other : Uint64) (p : Proposal) (voter option : String) (now : ℕ)
    (gk : GovernanceKeeper)
    → lookup id gk.proposals ≡ some p
    → is_voting p.status ≡ false
    → (lookup id (process_tick fl now gk).proposals ≡ some p)
      × (lookup id (vote other voter option now gk).0.proposals ≡ some p)
unfolding process_tick
process_tick_closed fl id other p voter option now gk found closed = (
  process_all_closed fl now id p gk.proposals gk.state.accounts found closed,
  vote_closed id other p voter option now gk found closed,
)
