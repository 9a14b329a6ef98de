-- ===== src/Governance/Tally.antt =====
-- The counters of a proposal and its list of votes.
use nuvex.Base.{
  ap, subst, ok, Outcome-cases, nat_key, ℕ, ◌+◌, ◌%◌, ◌<◌, ◌≡◌, sym, ◌∙◌, none, some, [], ◌∷◌,
  String, arith, Option-cases, Bool-cases, inl, inr, string_key, ◌==◌, true,
}
use nuvex.Base.Word.{Uint64, word}
use nuvex.Dict.{Dict, lookup, insert}
use nuvex.State.Keeper.{get_balance}
use nuvex.Governance.{
  Vote, Proposal, GovernanceKeeper, find_vote, remove_vote, up, down, retract, cast, check_open,
  admit, vote,
}
use nuvex.Governance.Ballot.{
  weight, sum_for, sum_all, IsBallot, sum_for-append, sum_all-append, sum_for-remove_vote,
  sum_all-remove_vote, find_vote-power, remove_vote-IsBallot, find_vote-remove_vote_own,
  append-IsBallot,
}

-- The counters are the sums of the votes' powers, modulo 2^64.
pub record IsTallied (p : Proposal) : Type 0 where
  pub yes : p.yes_power ≡ sum_for "yes" p.votes % word
  pub no : p.no_power ≡ sum_for "no" p.votes % word
  pub abstain : p.abstain_power ≡ sum_for "abstain" p.votes % word
  pub total : p.total_power ≡ sum_all p.votes % word
  pub ballot : IsBallot p.votes

up_sum :
    (option : String) (v : Vote) (counter sum : ℕ)
    → counter ≡ sum % word
    → up option v counter ≡ (sum + weight option v) % word
unfolding up
up_sum option v counter sum e = ground arith

down_sum :
    (option : String) (v : Vote) (counter sum rest : ℕ)
    → v.power < word
    → counter ≡ sum % word
    → sum ≡ rest + weight option v
    → down option v counter ≡ rest % word
unfolding down
down_sum option v counter sum rest h e s = ground arith

retract-IsTallied :
    (voter : String) (p : Proposal)
    → IsTallied p
    → IsTallied (retract voter p) × (find_vote voter (retract voter p).votes ≡ none)
unfolding retract
retract-IsTallied voter p t = elim (Option-cases (find_vote voter p.votes)) [
  | inl e ↦ rw (e, retract) (t, e)
  | inr (v, e) ↦
      let power = find_vote-power voter p.votes v t.ballot e in
      let rest = remove_vote voter p.votes in
      let sums = λ (o : String). sum_for-remove_vote o voter p.votes v e in
      let all = sum_all-remove_vote voter p.votes v e in
      rw (e, retract)
        (
          record {
            yes = down_sum "yes" v p.yes_power _ (sum_for "yes" rest) power t.yes (sums "yes");
            no = down_sum "no" v p.no_power _ (sum_for "no" rest) power t.no (sums "no");
            abstain =
                down_sum "abstain" v p.abstain_power _ (sum_for "abstain" rest) power t.abstain
                  (sums "abstain");
            total = omega (arith, power, all, t.total);
            ballot = remove_vote-IsBallot voter p.votes t.ballot;
          },
          find_vote-remove_vote_own voter p.votes t.ballot,
        )
]

cast-IsTallied :
    (v : Vote) (p : Proposal)
    → v.power < word
    → find_vote v.voter p.votes ≡ none
    → IsTallied p
    → IsTallied (cast v p)
unfolding cast
cast-IsTallied v p h e t =
    let counted = λ (o : String) (c : ℕ) (e : c ≡ sum_for o p.votes % word).
      up_sum o v c (sum_for o p.votes) e ∙ ap (λ s. s % word) (sym (sum_for-append o p.votes v)) in
    record {
      yes = counted "yes" p.yes_power t.yes;
      no = counted "no" p.no_power t.no;
      abstain = counted "abstain" p.abstain_power t.abstain;
      total = omega (arith, t.total, sum_all-append p.votes v);
      ballot = append-IsBallot p.votes v h t.ballot e;
    }

abbrev pub AllTallied : Dict Uint64 Proposal → Type 0
AllTallied [] = Unit {0}
AllTallied ((k, p) ∷ rest) = IsTallied p × AllTallied rest

lookup_here :
    (id k : Uint64) (q p : Proposal) (rest : Dict Uint64 Proposal)
    → (k == id) ≡ true
    → lookup id ((k, q) ∷ rest) ≡ some p
    → q ≡ p
lookup_here id k q p rest same e = ground arith

AllTallied-lookup :
    (id : Uint64) (m : Dict Uint64 Proposal) (p : Proposal)
    → AllTallied m
    → lookup id m ≡ some p
    → IsTallied p
AllTallied-lookup id [] p t e = cc
AllTallied-lookup id ((k, q) ∷ rest) p t e = elim (Bool-cases (k == id)) [
  | inl same ↦ subst IsTallied (lookup_here id k q p rest same e) t.0
  | inr other ↦ AllTallied-lookup id rest p t.1 (ground arith)
]

AllTallied-insert :
    (id : Uint64) (p : Proposal) (m : Dict Uint64 Proposal)
    → IsTallied p
    → AllTallied m
    → AllTallied (insert id p m)
AllTallied-insert id p [] t a = (t, tt)
AllTallied-insert id p ((k, q) ∷ rest) t a = elim (Bool-cases (k == id)) [
  | inl same ↦ rw (same) (t, a.1)
  | inr other ↦ rw (other) (a.0, AllTallied-insert id p rest t a.1)
]

check_open-ok : (power : Uint64) (now : ℕ) (q p : Proposal) → check_open power now q ≡ ok p → q ≡ p
unfolding check_open
check_open-ok power now q p e = ground arith

admit-lookup :
    (id : Uint64) (voter : String) (now : ℕ) (gk : GovernanceKeeper) (p : Proposal)
    → admit id voter now gk ≡ ok p
    → lookup id gk.proposals ≡ some p
unfolding admit
admit-lookup id voter now gk p e = elim (Option-cases (lookup id gk.proposals)) [
  | inl missing ↦ ground arith
  | inr (q, found) ↦
      let checked : check_open (get_balance voter gk.state) now q ≡ ok p = ground arith in
      found ∙ ap some (check_open-ok (get_balance voter gk.state) now q p checked)
]

-- A vote keeps the counters of every proposal the sums of its votes, and one vote for each voter.
pub vote-AllTallied :
    (id : Uint64) (voter option : String) (now : ℕ) (gk : GovernanceKeeper)
    → get_balance voter gk.state < word
    → AllTallied gk.proposals
    → AllTallied (vote id voter option now gk).0.proposals
unfolding vote
vote-AllTallied id voter option now gk h t = elim (Outcome-cases (admit id voter now gk)) [
  | inl (p, e) ↦
      let (retracted, gone) =
        retract-IsTallied voter p
          (AllTallied-lookup id gk.proposals p t (admit-lookup id voter now gk p e)) in
      rw (e, vote)
        (AllTallied-insert id _ gk.proposals (cast-IsTallied _ (retract voter p) h gone retracted)
          t)
  | inr (inl (x, e)) ↦ rw (e, vote) t
  | inr (inr e) ↦ rw (e, vote) t
]
