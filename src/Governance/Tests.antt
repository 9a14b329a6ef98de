-- ===== src/Governance/Tests.antt =====
-- The theorems on governance at a keeper with an open and a rejected proposal.
use nuvex.Base.{ℕ, ◌≡◌, ◌<◌, refl, true, false, some, [], ◌∷◌, String, arith, nat_key, string_key}
use nuvex.Base.Word.{word}
use nuvex.Base.Float.{Float}
use nuvex.Dict.{lookup}
use nuvex.State.Keeper.{get_balance}
use nuvex.State.Samples.{keeper, alice, bob}
use nuvex.Governance.{
  Vote, Proposal, GovernanceKeeper, ProposalStatus, voting, rejected, vote, admit, check_open, cast,
  retract, find_vote, remove_vote, up, down,
}
use nuvex.Governance.Closing.{process_tick}
use nuvex.Governance.Tally.{IsTallied, AllTallied, vote-AllTallied}
use nuvex.Governance.Closed.{process_tick_closed}

abbrev floats : Float
floats = record {
  F = ℕ;
  of_uint = λ n. n;
  floor = λ x. x;
  hours = λ n. n;
  literal = λ n d. n;
  add = λ x y. x;
  sub = λ x y. x;
  min = λ x y. x;
  abs = λ x. x;
  sqrt = λ x. x;
  mul = λ x y. x;
  div = λ x y. x;
  le = λ x y. true;
  lt = λ x y. true;
}

abbrev ballot : String → String → ℕ → Vote
ballot voter option power = record { voter = voter; option = option; power = power; timestamp = 3 }

abbrev proposal : ProposalStatus → Proposal
proposal status = record {
  id = 1;
  title = "t";
  description = "d";
  proposal_type = "text";
  proposer = alice;
  deposit = 1_000_000_000;
  status = status;
  start_time = 0;
  end_time = 100;
  votes = ballot alice "yes" 40 ∷ ballot "carol" "no" 30 ∷ ballot "dave" "maybe" 5 ∷ [];
  yes_power = 40;
  no_power = 30;
  abstain_power = 0;
  total_power = 75;
  is_accepted = false;
}

abbrev governance : GovernanceKeeper
governance = record {
  proposals = (1, proposal voting) ∷ (2, proposal rejected) ∷ [];
  next_id = 3;
  state = keeper;
}

tallied : (status : ProposalStatus) → IsTallied (proposal status)
unfolding find_vote
tallied status = record {
  yes = refl;
  no = refl;
  abstain = refl;
  total = refl;
  ballot = (omega arith, refl, (omega arith, refl, (omega arith, refl, tt)));
}

-- Alice changes her vote; her power is now her balance of 5,000.
vote_run :
    lookup 1 (vote 1 alice "no" 50 governance).0.proposals
    ≡ some (record (proposal voting) {
      votes =
          ballot "carol" "no" 30
          ∷ ballot "dave" "maybe" 5
          ∷ record (ballot alice "no" 5_000) { timestamp = 50 }
          ∷ [];
      yes_power = 0;
      no_power = 5_030;
      total_power = 5_035;
    })
unfolding vote admit check_open cast retract find_vote remove_vote up down get_balance
vote_run = refl

vote-AllTallied_example : AllTallied (vote 1 alice "no" 50 governance).0.proposals
vote-AllTallied_example =
    vote-AllTallied 1 alice "no" 50 governance power (tallied voting, (tallied rejected, tt))
  where
    power : get_balance alice keeper < word
    power = unfold get_balance in omega arith

process_tick_closed_example :
    (lookup 2 (process_tick floats 500 governance).proposals ≡ some (proposal rejected))
    × (lookup 2 (vote 1 bob "no" 500 governance).0.proposals ≡ some (proposal rejected))
process_tick_closed_example =
    process_tick_closed floats 2 1 (proposal rejected) bob "no" 500 governance refl refl
