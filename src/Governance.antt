-- ===== src/Governance.antt =====
-- x/nvx/keeper/governance.go: proposals, votes and deposits. A time is a count of nanoseconds.
pub mod Ballot
pub mod Tally
pub mod Closing
pub mod Closed
mod Tests
use nuvex.Base.{
  ℕ, ◌+◌, Bool, true, false, not, Option, none, some, List, [], ◌∷◌, ◌++◌, String, len, ltb,
  if◌then◌else◌, string_key, nat_key, ◌==◌, Outcome, ok, err, panic, length, nat_eq,
}
use nuvex.Base.Word.{Int64, Uint64, ◌+64◌, ◌-64◌}
use nuvex.Dict.{Dict, lookup, insert, values}
use nuvex.State.Accounts.{AccountMap, credit, debit}
use nuvex.State.Keeper.{StateKeeper, get_balance}

-- Seven days.
abbrev pub voting_period : ℕ
voting_period = 604_800_000_000_000

abbrev pub min_deposit : Uint64
min_deposit = 1_000_000_000

pub data ProposalStatus : Type 0 where
  voting passed rejected expired : ProposalStatus

abbrev pub is_voting : ProposalStatus → Bool
is_voting voting = true
is_voting passed = false
is_voting rejected = false
is_voting expired = false

abbrev pub is_passed : ProposalStatus → Bool
is_passed passed = true
is_passed voting = false
is_passed rejected = false
is_passed expired = false

-- The option is "yes", "no" or "abstain", or any other text that a caller passes.
pub record Vote : Type 0 where
  pub voter : String
  pub option : String
  pub power : Uint64
  pub timestamp : ℕ

pub record Proposal : Type 0 where
  pub id : Uint64
  pub title : String
  pub description : String
  pub proposal_type : String
  pub proposer : String
  pub deposit : Uint64
  pub status : ProposalStatus
  pub start_time : ℕ
  pub end_time : ℕ
  pub votes : List Vote
  pub yes_power : Uint64
  pub no_power : Uint64
  pub abstain_power : Uint64
  pub total_power : Uint64
  pub is_accepted : Bool

pub record GovernanceKeeper : Type 0 where
  pub proposals : Dict Uint64 Proposal
  pub next_id : Uint64
  pub state : StateKeeper

pub data GovernanceError : Type 0 where
  deposit_too_low not_enough_funds unknown_proposal not_open period_over no_power : GovernanceError

unfoldable pub new_governance_keeper : StateKeeper → GovernanceKeeper
new_governance_keeper state = record { proposals = []; next_id = 1; state = state }

abbrev pub with_accounts : AccountMap → StateKeeper → StateKeeper
with_accounts accounts state = record state { accounts = accounts }

-- The log line quotes the first 10 bytes of the proposer, here and of the voter in `vote`.
unfoldable pub create_proposal :
    String
    → String
    → String
    → String
    → Uint64
    → ℕ
    → GovernanceKeeper
    → GovernanceKeeper × Outcome GovernanceError Proposal
create_proposal proposer title description proposal_type deposit now gk =
    if ltb deposit min_deposit
    then (gk, err deposit_too_low)
    else if ltb (get_balance proposer gk.state) deposit
    then (gk, err not_enough_funds)
    else let proposal : Proposal = record {
      id = gk.next_id;
      title = title;
      description = description;
      proposal_type = proposal_type;
      proposer = proposer;
      deposit = deposit;
      status = voting;
      start_time = now;
      end_time = now + voting_period;
      votes = [];
      yes_power = 0;
      no_power = 0;
      abstain_power = 0;
      total_power = 0;
      is_accepted = false;
    } in
      (
        record {
          proposals = insert gk.next_id proposal gk.proposals;
          next_id = gk.next_id +64 1;
          state = with_accounts (debit proposer deposit gk.state.accounts) gk.state;
        },
        (if ltb (len proposer) 10 then panic else ok proposal),
      )

unfoldable pub find_vote : String → List Vote → Option Vote
find_vote voter [] = none
find_vote voter (v ∷ votes) = if v.voter == voter then some v else find_vote voter votes

unfoldable pub remove_vote : String → List Vote → List Vote
remove_vote voter [] = []
remove_vote voter (v ∷ votes) = if v.voter == voter then votes else v ∷ remove_vote voter votes

-- A counter goes up, or down, by a vote's power if the vote is for its option.
unfoldable pub up : String → Vote → Uint64 → Uint64
up option v counter = if v.option == option then counter +64 v.power else counter

unfoldable pub down : String → Vote → Uint64 → Uint64
down option v counter = if v.option == option then counter -64 v.power else counter

-- An earlier vote of the voter is taken back.
unfoldable pub retract : String → Proposal → Proposal
unfolding find_vote remove_vote down
retract voter p = elim (find_vote voter p.votes) [
  | none ↦ p
  | some v ↦ record p {
    yes_power = down "yes" v p.yes_power;
    no_power = down "no" v p.no_power;
    abstain_power = down "abstain" v p.abstain_power;
    total_power = p.total_power -64 v.power;
    votes = remove_vote voter p.votes;
  }
]

unfoldable pub cast : Vote → Proposal → Proposal
unfolding up
cast v p = record p {
  votes = p.votes ++ v ∷ [];
  total_power = p.total_power +64 v.power;
  yes_power = up "yes" v p.yes_power;
  no_power = up "no" v p.no_power;
  abstain_power = up "abstain" v p.abstain_power;
}

-- The checks of `Vote` on a proposal, with the voter's power.
unfoldable pub check_open : Uint64 → ℕ → Proposal → Outcome GovernanceError Proposal
check_open power now p =
    if not (is_voting p.status)
    then err not_open
    else if ltb p.end_time now
    then err period_over
    else if nat_eq power 0
    then err no_power
    else ok p

unfoldable pub admit : Uint64 → String → ℕ → GovernanceKeeper → Outcome GovernanceError Proposal
admit proposal_id voter now gk = elim (lookup proposal_id gk.proposals) [
  | none ↦ err unknown_proposal
  | some p ↦ check_open (get_balance voter gk.state) now p
]

unfoldable pub vote :
    Uint64
    → String
    → String
    → ℕ
    → GovernanceKeeper
    → GovernanceKeeper × Outcome GovernanceError Vote
vote proposal_id voter option now gk = elim (admit proposal_id voter now gk) [
  | err e ↦ (gk, err e)
  | panic ↦ (gk, panic)
  | ok p ↦
      let v : Vote = record {
        voter = voter;
        option = option;
        power = get_balance voter gk.state;
        timestamp = now;
      } in
      (
        record gk { proposals = insert proposal_id (cast v (retract voter p)) gk.proposals },
        (if ltb (len voter) 10 then panic else ok v),
      )
]

unfoldable pub get_proposal : Uint64 → GovernanceKeeper → Outcome GovernanceError Proposal
get_proposal id gk = elim (lookup id gk.proposals) [ none ↦ err unknown_proposal | some p ↦ ok p ]

unfoldable pub get_all_proposals : GovernanceKeeper → List Proposal
get_all_proposals gk = values gk.proposals

-- The counters of `GetStats`: all, active and passed proposals, and votes.
pub record GovernanceStats : Type 0 where
  pub total_proposals : ℕ
  pub active_proposals : ℕ
  pub passed_proposals : ℕ
  pub total_votes : ℕ

count_if : Bool → ℕ
count_if b = if b then 1 else 0

count_proposals : GovernanceStats → List Proposal → GovernanceStats
unfolding count_if
count_proposals stats [] = stats
count_proposals stats (p ∷ rest) =
    count_proposals
      (record {
        total_proposals = stats.total_proposals + 1;
        active_proposals = stats.active_proposals + count_if (is_voting p.status);
        passed_proposals = stats.passed_proposals + count_if (is_passed p.status);
        total_votes = stats.total_votes + length p.votes;
      })
      rest

unfoldable pub get_stats : GovernanceKeeper → GovernanceStats
unfolding count_proposals
get_stats gk =
    count_proposals
      (record { total_proposals = 0; active_proposals = 0; passed_proposals = 0; total_votes = 0 })
      (values gk.proposals)
