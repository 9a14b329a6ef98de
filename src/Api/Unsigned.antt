-- ===== src/Api/Unsigned.antt =====
-- The requests that take coins from an account and carry no signature.
use nuvex.Base.{
  ℕ, List, ◌≤◌, ◌≡◌, ap, ◌∙◌, arith, Bool, true, false, some, String, Bool-cases, inl, inr,
  string_key, ltb, len,
}
use nuvex.Base.Float.{Float}
use nuvex.Base.Word.{Int64, ◌-64◌}
use nuvex.Dict.{lookup, contains, lookup-adjust_self}
use nuvex.Host.{Host}
use nuvex.State.Accounts.{Account, AccountMap, debit}
use nuvex.State.Keeper.{Disk, get_balance}
use nuvex.Mempool.{PendingTx}
use nuvex.Evm.{Ethereum}
use nuvex.Staking.{StakingKeeper, stake, min_stake}
use nuvex.Governance.{GovernanceKeeper, create_proposal, min_deposit}
use nuvex.Api.{Node, Clock, posted}
use nuvex.Api.Reads.{Numerals}
use nuvex.Api.Writes.{StakeBody, ProposalBody, handle_stake, handle_gov_create}
use nuvex.Api.Serve.{commanded, stake_coins, gov_create, serve, serve_command}

abbrev spent : ℕ → Account → Account
spent amount acc = record acc { balance = acc.balance -64 amount }

lookup-debit_own :
    (owner : String) (amount : ℕ) (accounts : AccountMap) (acc : Account)
    → lookup owner accounts ≡ some acc
    → lookup owner (debit owner amount accounts) ≡ some (spent amount acc)
unfolding debit
lookup-debit_own owner amount accounts acc h = lookup-adjust_self owner (spent amount) accounts h

stake-accounts :
    (host : Host) (owner : String) (amount : ℕ) (is_green : Bool) (nanos : Int64) (now : ℕ)
    (sk : StakingKeeper) (acc : Account)
    → lookup owner sk.state.accounts ≡ some acc
    → min_stake ≤ amount
    → amount ≤ acc.balance
    → (stake host owner amount is_green nanos now sk).0.state.accounts
      ≡ debit owner amount sk.state.accounts
unfolding stake get_balance
stake-accounts host owner amount is_green nanos now sk acc there enough funded =
    let big : ltb amount min_stake ≡ false = ground arith in
    let known : contains owner sk.state.accounts ≡ true = simp (there, contains) in
    let rich : ltb acc.balance amount ≡ false = ground arith in
    elim (Bool-cases (ltb (len owner) 10)) [
      | inl short ↦ simp (big, known, there, rich, short, stake, get_balance)
      | inr long ↦ simp (big, known, there, rich, long, stake, get_balance)
    ]

proposal-accounts :
    (proposer title description proposal_type : String) (deposit now : ℕ) (gk : GovernanceKeeper)
    (acc : Account)
    → lookup proposer gk.state.accounts ≡ some acc
    → min_deposit ≤ deposit
    → deposit ≤ acc.balance
    → (create_proposal proposer title description proposal_type deposit now gk).0.state.accounts
      ≡ debit proposer deposit gk.state.accounts
unfolding create_proposal get_balance
proposal-accounts proposer title description proposal_type deposit now gk acc there enough funded =
    let big : ltb deposit min_deposit ≡ false = ground arith in
    let rich : ltb acc.balance deposit ≡ false = ground arith in
    simp (big, there, rich, create_proposal, get_balance)

module _ {fl : Float} {Vm : Type 0} (host : Host) (disk : Disk) (eth : Ethereum Vm)
    (numerals : Numerals) (sort : List PendingTx → List PendingTx) where
  -- A POST of a stake, and one of a proposal, that names the owner of an account and an amount, at least the
  -- least stake or deposit and at most the balance, takes the amount from that account. Neither request
  -- carries a key or a signature.
  pub serve_unsigned :
      (clock : Clock) (stake_body : StakeBody) (proposal_body : ProposalBody) (n : Node fl Vm)
      (owner proposer : Account)
      → lookup stake_body.owner n.state.accounts ≡ some owner
      → min_stake ≤ stake_body.amount
      → stake_body.amount ≤ owner.balance
      → lookup proposal_body.proposer n.state.accounts ≡ some proposer
      → min_deposit ≤ proposal_body.deposit
      → proposal_body.deposit ≤ proposer.balance
      → (lookup stake_body.owner
            (serve host disk eth numerals sort clock
              (commanded true (stake_coins (some stake_body)))
              n).0.state.accounts
          ≡ some (record owner { balance = owner.balance -64 stake_body.amount }))
        × (lookup proposal_body.proposer
              (serve host disk eth numerals sort clock
                (commanded true (gov_create (some proposal_body)))
                n).0.state.accounts
            ≡ some (record proposer { balance = proposer.balance -64 proposal_body.deposit }))
  unfolding serve serve_command posted handle_stake handle_gov_create
  serve_unsigned clock b p n owner proposer there enough funded there' enough' funded' = (
    ap (lookup b.owner) (
          stake-accounts host b.owner b.amount b.is_green clock.nanos clock.now
            (record n.staking { state = n.state }) owner there enough funded)
        ∙ lookup-debit_own b.owner b.amount n.state.accounts owner there,
    ap (lookup p.proposer) (
          proposal-accounts p.proposer p.title p.description p.proposal_type p.deposit clock.now
            (record n.governance { state = n.state }) proposer there' enough' funded')
        ∙ lookup-debit_own p.proposer p.deposit n.state.accounts proposer there',
  )
