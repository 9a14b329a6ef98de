-- ===== src/Api/Tests.antt =====
-- A node in which alice has 5,000 NVX.
use nuvex.Base.{ℕ, ◌≡◌, refl, arith, true, false, none, some, List, [], ◌∷◌, string_key}
use nuvex.Dict.{lookup}
use nuvex.State.Samples.{sample_host, sample_disk, alice, account}
use nuvex.State.Keeper.{StateKeeper, get_balance}
use nuvex.Blockchain.Chain.{Blockchain}
use nuvex.Burn.{new_burn_keeper}
use nuvex.Mempool.{new_mempool, PendingTx}
use nuvex.Consensus.{new_consensus_engine}
use nuvex.Bft.{new_bft_consensus}
use nuvex.P2p.{new_p2p_node}
use nuvex.Evm.{new_evm_keeper}
use nuvex.Evm.Samples.{floats, eth}
use nuvex.Dex.{new_dex_keeper}
use nuvex.Staking.{new_staking_keeper, stake, not_enough_funds}
use nuvex.Governance.{new_governance_keeper}
use nuvex.Api.{Node, Clock, posted, answer, of_staking}
use nuvex.Api.Reads.{Numerals, handle_mining}
use nuvex.Mining.{get_stats}
use nuvex.Api.Writes.{handle_stake, StakeBody, SubmitBody, ProposalBody, VoteBody}
use nuvex.Api.Serve.{
  Request, mining, asked, commanded, status, balance, gov_vote, mempool_submit, stake_coins,
  gov_create, serve, serve_all, serve_command,
}
use nuvex.Api.Access.{
  serve_all-looked_at, serve_all-Kept, Kept, with_mining, looked_at, moves_coins, mining_requests,
}
use nuvex.Api.Unsigned.{serve_unsigned}
use nuvex.Api.Refused.{serve-refused}

abbrev state : StateKeeper
state = record { accounts = (alice, account alice 5_000_000_000) ∷ []; txs = []; file = none }

abbrev chain : Blockchain
chain = record { blocks = []; file = none }

abbrev node : Node floats ℕ
node = record {
  burns = new_burn_keeper;
  state = state;
  blockchain = chain;
  mempool = new_mempool;
  p2p = new_p2p_node "node" chain new_mempool;
  bft = new_bft_consensus [] chain new_mempool false "";
  engine = new_consensus_engine [];
  evm = new_evm_keeper 5;
  dex = new_dex_keeper floats;
  staking = new_staking_keeper state;
  governance = new_governance_keeper state;
  height = 7;
}

abbrev numerals : Numerals
numerals = record { parse_int = λ s. some 3; scan_uint = λ s. 1 }

abbrev sort : List PendingTx → List PendingTx
sort txs = txs

abbrev clock : Clock
clock = record { nanos = 9; now = 9; stamp = "now" }

abbrev reads : List (Clock × Request ℕ)
reads =
    (clock, asked status)
    ∷ (clock, mining)
    ∷ (clock, asked (balance "/balance/x"))
    ∷ (clock, commanded false (stake_coins none))
    ∷ (clock, mining)
    ∷ []

abbrev ballot : VoteBody
ballot = record { proposal_id = 1; voter = alice; option = "yes" }

abbrev submit_body : SubmitBody
submit_body = record { from = alice; to = "bob"; amount = 5; fee = 700; nonce = 1 }

abbrev harmless : List (Clock × Request ℕ)
harmless =
    (clock, commanded true (gov_vote (some ballot)))
    ∷ (clock, mining)
    ∷ (clock, commanded true (mempool_submit (some submit_body)))
    ∷ []

abbrev stake_body : StakeBody
stake_body = record { owner = alice; amount = 200_000_000; is_green = false }

abbrev proposal_body : ProposalBody
proposal_body = record {
  proposer = alice;
  title = "t";
  description = "d";
  proposal_type = "text";
  deposit = 1_000_000_000;
}

serve_all-looked_at_example :
    serve_all sample_host sample_disk eth numerals sort reads node
    ≡ with_mining (looked_at 2 7 node.engine.mining_keeper) node
unfolding mining_requests
serve_all-looked_at_example =
    serve_all-looked_at sample_host sample_disk eth numerals sort reads node tt

serve_all-Kept_example :
    Kept node (serve_all sample_host sample_disk eth numerals sort harmless node)
unfolding moves_coins
serve_all-Kept_example =
    serve_all-Kept sample_host sample_disk eth numerals sort harmless node (refl, (refl, tt))

serve_unsigned_example :
    (lookup alice
        (serve sample_host sample_disk eth numerals sort clock
          (commanded true (stake_coins (some stake_body)))
          node).0.state.accounts
      ≡ some (account alice 4_800_000_000))
    × (lookup alice
          (serve sample_host sample_disk eth numerals sort clock
            (commanded true (gov_create (some proposal_body)))
            node).0.state.accounts
        ≡ some (account alice 4_000_000_000))
serve_unsigned_example =
    serve_unsigned sample_host sample_disk eth numerals sort clock stake_body proposal_body node
      (account alice 5_000_000_000) (account alice 5_000_000_000) refl (omega arith) (omega arith)
      refl (omega arith) (omega arith)

-- A stake of more than alice has.
abbrev dear_body : StakeBody
dear_body = record { owner = alice; amount = 9_000_000_000; is_green = false }

serve-refused_example :
    (serve sample_host sample_disk eth numerals sort clock
      (commanded true (stake_coins (some dear_body)))
      (serve_all sample_host sample_disk eth numerals sort reads node)).0
    ≡ serve_all sample_host sample_disk eth numerals sort reads node
unfolding serve_all serve serve_command posted handle_mining get_stats handle_stake stake
    new_bft_consensus new_p2p_node get_balance answer new_staking_keeper new_governance_keeper
serve-refused_example =
    serve-refused sample_host sample_disk eth numerals sort reads clock
      (commanded true (stake_coins (some dear_body))) node (of_staking not_enough_funds)
      (refl, refl, refl, refl) refl
