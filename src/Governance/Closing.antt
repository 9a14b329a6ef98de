-- ===== src/Governance/Closing.antt =====
-- x/nvx/keeper/governance.go: what happens to a proposal when its voting period is over.
use nuvex.Base.{ℕ, Bool, true, false, not, [], ◌∷◌, ltb, if◌then◌else◌}
use nuvex.Base.Word.{Uint64}
use nuvex.Base.Float.{Float}
use nuvex.Dict.{Dict}
use nuvex.State.Accounts.{AccountMap, credit}
use nuvex.Governance.{
  Proposal, GovernanceKeeper, passed, rejected, expired, is_voting, with_accounts,
}

module _ (fl : Float) where
  quorum_reached : Proposal → Bool
  quorum_reached p =
      fl.le (fl.literal 33 100) (fl.div (fl.of_uint p.total_power) (fl.of_uint 500_000_000_000_000))

  has_majority : Proposal → Bool
  has_majority p =
      fl.lt (fl.literal 50 100) (fl.div (fl.of_uint p.yes_power) (fl.of_uint p.total_power))

  -- Only a proposal that passes gives the deposit back.
  unfoldable pub finalize_proposal : Proposal → AccountMap → Proposal × AccountMap
  unfolding quorum_reached has_majority
  finalize_proposal p accounts =
      if not (quorum_reached p)
      then (record p { status = expired; is_accepted = false }, accounts)
      else if has_majority p
      then (record p { status = passed; is_accepted = true }, credit p.proposer p.deposit accounts)
      else (record p { status = rejected; is_accepted = false }, accounts)

  unfoldable pub process_proposal : ℕ → Proposal → AccountMap → Proposal × AccountMap
  process_proposal now p accounts =
      if is_voting p.status
      then (if ltb p.end_time now then finalize_proposal p accounts else (p, accounts))
      else (p, accounts)

  unfoldable pub process_all :
      ℕ → Dict Uint64 Proposal → AccountMap → Dict Uint64 Proposal × AccountMap
  process_all now [] accounts = ([], accounts)
  process_all now ((k, p) ∷ rest) accounts =
      let (p', accounts') = process_proposal now p accounts in
      let (rest', accounts'') = process_all now rest accounts' in ((k, p') ∷ rest', accounts'')

  -- One tick of `processLoop`.
  unfoldable pub process_tick : ℕ → GovernanceKeeper → GovernanceKeeper
  process_tick now gk =
      let (proposals, accounts) = process_all now gk.proposals gk.state.accounts in
      record gk { proposals = proposals; state = with_accounts accounts gk.state }
