-- ===== src/Api/Access.antt =====
-- What requests can change.
use nuvex.Base.{
  ℕ, zero, suc, ◌≡◌, refl, ap, ◌∙◌, Bool, true, false, Option, none, some, List, [], ◌∷◌, String,
  Outcome-cases, inl, inr, string_key,
}
use nuvex.Base.Float.{Float}
use nuvex.Base.Word.{Int64}
use nuvex.Host.{Host}
use nuvex.State.Keeper.{Disk}
use nuvex.Mempool.{PendingTx}
use nuvex.Evm.{Ethereum}
use nuvex.Bft.{BftConsensus}
use nuvex.Mining.{HalvingState, check_halving, get_stats}
use nuvex.Governance.{GovernanceKeeper, vote, admit}
use nuvex.Api.{Node, Clock, Reply, posted}
use nuvex.Api.Reads.{Numerals, handle_mining, handle_dex_quote}
use nuvex.Api.Writes.{
  handle_gov_vote, handle_mempool_submit, handle_p2p_connect, handle_evm_deploy, handle_evm_call,
  handle_evm_estimate_gas, handle_dex_create_pool, handle_dex_swap, handle_dex_add_liquidity,
  governance_of_node,
}
use nuvex.Api.Serve.{
  Command, send, mempool_submit, p2p_connect, evm_deploy, evm_call, evm_estimate, dex_create,
  dex_swap, dex_quote, dex_add_liquidity, stake_coins, unstake_coins, gov_create, gov_vote, Request,
  mining, asked, commanded, serve_command, serve, serve_all,
}

-- What holds before, and after the handler on any body, holds after.
pub posted-Keeps :
    {fl : Float} {Vm Body : Type 0} (P : Node fl Vm → Type 0) (is_post : Bool) (body : Option Body)
    (handle : Body → Node fl Vm → Node fl Vm × Reply fl) (n : Node fl Vm)
    → P n
    → ((b : Body) → P (handle b n).0)
    → P (posted is_post body handle n).0
unfolding posted
posted-Keeps P false body handle n before after = before
posted-Keeps P true none handle n before after = before
posted-Keeps P true (some b) handle n before after = after b

-- The requests that no POST is among.
abbrev pub AllReads : {F : Type 0} → List (Clock × Request F) → Type 0
AllReads [] = Unit {0}
AllReads ((clock, commanded true command) ∷ requests) = ⊥
AllReads ((clock, commanded false command) ∷ requests) = AllReads requests
AllReads ((clock, asked query) ∷ requests) = AllReads requests
AllReads ((clock, mining) ∷ requests) = AllReads requests

-- The mining keeper after so many requests of its statistics.
abbrev pub looked_at : ℕ → Int64 → HalvingState → HalvingState
looked_at zero height s = s
looked_at (suc k) height s = looked_at k height (check_halving height s)

abbrev pub with_mining : {fl : Float} {Vm : Type 0} → HalvingState → Node fl Vm → Node fl Vm
with_mining s n = record n { engine = record n.engine { mining_keeper = s } }

unfoldable pub mining_requests : {F : Type 0} → List (Clock × Request F) → ℕ
mining_requests [] = 0
mining_requests ((clock, mining) ∷ requests) = suc (mining_requests requests)
mining_requests ((clock, asked query) ∷ requests) = mining_requests requests
mining_requests ((clock, commanded is_post command) ∷ requests) = mining_requests requests

module _ {fl : Float} {Vm : Type 0} (host : Host) (disk : Disk) (eth : Ethereum Vm)
    (numerals : Numerals) (sort : List PendingTx → List PendingTx) where
  serve_command-false :
      (clock : Clock) (command : Command fl.F) (n : Node fl Vm)
      → (serve_command host disk eth numerals sort clock false command n).0 ≡ n
  unfolding serve_command posted
  serve_command-false clock (send body) n = refl
  serve_command-false clock (mempool_submit body) n = refl
  serve_command-false clock (p2p_connect dialled body) n = refl
  serve_command-false clock (evm_deploy body) n = refl
  serve_command-false clock (evm_call body) n = refl
  serve_command-false clock (evm_estimate body) n = refl
  serve_command-false clock (dex_create body) n = refl
  serve_command-false clock (dex_swap body) n = refl
  serve_command-false clock (dex_quote body) n = refl
  serve_command-false clock (dex_add_liquidity body) n = refl
  serve_command-false clock (stake_coins body) n = refl
  serve_command-false clock (unstake_coins body) n = refl
  serve_command-false clock (gov_create body) n = refl
  serve_command-false clock (gov_vote body) n = refl

  -- Requests that no POST is among leave the node as it is, but for the halving of the mining keeper:
  -- each request of `/mining` moves it on as a block of the node's height does.
  pub serve_all-looked_at :
      (requests : List (Clock × Request fl.F)) (n : Node fl Vm)
      → AllReads requests
      → serve_all host disk eth numerals sort requests n
        ≡ with_mining (looked_at (mining_requests requests) n.height n.engine.mining_keeper) n
  unfolding serve_all serve mining_requests handle_mining get_stats
  serve_all-looked_at [] n h = refl
  serve_all-looked_at ((clock, mining) ∷ requests) n h =
      serve_all-looked_at requests (with_mining (check_halving n.height n.engine.mining_keeper) n) h
  serve_all-looked_at ((clock, asked query) ∷ requests) n h = serve_all-looked_at requests n h
  serve_all-looked_at ((clock, commanded true command) ∷ requests) n h = absurd h
  serve_all-looked_at ((clock, commanded false command) ∷ requests) n h =
      ap (serve_all host disk eth numerals sort requests) (serve_command-false clock command n)
      ∙ serve_all-looked_at requests n h

-- Commands that move coins of the state: the transfer, which asks for a signature, and three that do
-- not.
unfoldable pub moves_coins : {F : Type 0} → Command F → Bool
moves_coins (send body) = true
moves_coins (stake_coins body) = true
moves_coins (unstake_coins body) = true
moves_coins (gov_create body) = true
moves_coins _ = false

-- The state, the chain, the burn counters and the height are the same, and so is all of the
-- consensus but for the pool that it shares with the node.
abbrev pub Kept : {fl : Float} {Vm : Type 0} → Node fl Vm → Node fl Vm → Type 0
Kept n n' =
    (n'.state ≡ n.state)
    × (n'.blockchain ≡ n.blockchain)
    × (n'.burns ≡ n.burns)
    × (record n'.bft { mempool = n.bft.mempool } ≡ n.bft)
    × (n'.height ≡ n.height)

Kept-refl : {fl : Float} {Vm : Type 0} (n : Node fl Vm) → Kept n n
Kept-refl n = (refl, refl, refl, refl, refl)

-- No request is a command that moves coins.
abbrev pub MovesNone : {F : Type 0} → List (Clock × Request F) → Type 0
MovesNone [] = Unit {0}
MovesNone ((clock, commanded is_post command) ∷ requests) =
    (moves_coins command ≡ false) × MovesNone requests
MovesNone ((clock, asked query) ∷ requests) = MovesNone requests
MovesNone ((clock, mining) ∷ requests) = MovesNone requests

vote-state :
    (id : ℕ) (voter option : String) (now : ℕ) (gk : GovernanceKeeper)
    → (vote id voter option now gk).0.state ≡ gk.state
unfolding vote
vote-state id voter option now gk = elim (Outcome-cases (admit id voter now gk)) [
  | inl (p, e) ↦ simp (e, vote)
  | inr (inl (e, h)) ↦ simp (h, vote)
  | inr (inr h) ↦ simp (h, vote)
]

module _ {fl : Float} {Vm : Type 0} (host : Host) (disk : Disk) (eth : Ethereum Vm)
    (numerals : Numerals) (sort : List PendingTx → List PendingTx) where
  serve_command-Kept :
      (clock : Clock) (is_post : Bool) (command : Command fl.F) (n : Node fl Vm)
      → moves_coins command ≡ false
      → Kept n (serve_command host disk eth numerals sort clock is_post command n).0
  unfolding moves_coins serve_command handle_mempool_submit handle_p2p_connect handle_evm_deploy
      handle_evm_call handle_evm_estimate_gas handle_dex_create_pool handle_dex_swap
      handle_dex_add_liquidity handle_gov_vote
  serve_command-Kept clock is_post (send body) n h = cc
  serve_command-Kept clock is_post (stake_coins body) n h = cc
  serve_command-Kept clock is_post (unstake_coins body) n h = cc
  serve_command-Kept clock is_post (gov_create body) n h = cc
  serve_command-Kept clock is_post (mempool_submit body) n h =
      posted-Keeps (Kept n) is_post body (handle_mempool_submit host disk eth clock) n (Kept-refl n)
        (λ b. (refl, refl, refl, refl, refl))
  serve_command-Kept clock is_post (evm_deploy body) n h =
      posted-Keeps (Kept n) is_post body (handle_evm_deploy host disk eth clock) n (Kept-refl n)
        (λ b. (refl, refl, refl, refl, refl))
  serve_command-Kept clock is_post (evm_call body) n h =
      posted-Keeps (Kept n) is_post body (handle_evm_call host disk eth clock) n (Kept-refl n)
        (λ b. (refl, refl, refl, refl, refl))
  serve_command-Kept clock is_post (evm_estimate body) n h =
      posted-Keeps (Kept n) is_post body (handle_evm_estimate_gas host disk eth clock) n
        (Kept-refl n) (λ b. (refl, refl, refl, refl, refl))
  serve_command-Kept clock is_post (dex_create body) n h =
      posted-Keeps (Kept n) is_post body (handle_dex_create_pool host disk eth clock) n
        (Kept-refl n) (λ b. (refl, refl, refl, refl, refl))
  serve_command-Kept clock is_post (dex_swap body) n h =
      posted-Keeps (Kept n) is_post body (handle_dex_swap host disk eth clock) n (Kept-refl n)
        (λ b. (refl, refl, refl, refl, refl))
  serve_command-Kept clock is_post (dex_add_liquidity body) n h =
      posted-Keeps (Kept n) is_post body (handle_dex_add_liquidity host disk eth clock) n
        (Kept-refl n) (λ b. (refl, refl, refl, refl, refl))
  serve_command-Kept clock is_post (p2p_connect dialled body) n h =
      posted-Keeps (Kept n) is_post body (handle_p2p_connect host disk eth clock dialled) n
        (Kept-refl n) (λ b. (refl, refl, refl, refl, refl))
  serve_command-Kept clock is_post (dex_quote body) n h =
      posted-Keeps (Kept n) is_post body
        (λ (id, token, amount) (m : Node fl Vm). (m, handle_dex_quote id token amount m)) n
        (Kept-refl n) (λ b. (refl, refl, refl, refl, refl))
  serve_command-Kept clock is_post (gov_vote body) n h =
      posted-Keeps (Kept n) is_post body (handle_gov_vote host disk eth clock) n (Kept-refl n) (λ b.
        (
          vote-state b.proposal_id b.voter b.option clock.now
              (governance_of_node host disk eth clock n),
          refl,
          refl,
          refl,
          refl,
        ))

  serve-Kept :
      (clock : Clock) (request : Request fl.F) (requests : List (Clock × Request fl.F))
      (n : Node fl Vm)
      → MovesNone ((clock, request) ∷ requests)
      → Kept n (serve host disk eth numerals sort clock request n).0 × MovesNone requests
  unfolding serve handle_mining
  serve-Kept clock mining requests n h = (Kept-refl n, h)
  serve-Kept clock (asked query) requests n h = (Kept-refl n, h)
  serve-Kept clock (commanded is_post command) requests n h =
      (serve_command-Kept clock is_post command n h.0, h.1)

  -- Requests that are neither a transfer, a stake, an unstake nor a new proposal change no account and
  -- no recorded transaction, and neither the chain, the burn counters, the height nor anything of the
  -- consensus but the pool that it shares with the node.
  pub serve_all-Kept :
      (requests : List (Clock × Request fl.F)) (n : Node fl Vm)
      → MovesNone requests
      → Kept n (serve_all host disk eth numerals sort requests n)
  unfolding serve_all
  serve_all-Kept [] n h = Kept-refl n
  serve_all-Kept ((clock, request) ∷ requests) n h =
      let (first, rest) = serve-Kept clock request requests n h in
      let later =
        serve_all-Kept requests (serve host disk eth numerals sort clock request n).0 rest in
      (
        later.0 ∙ first.0,
        later.1 ∙ first.1,
        later.2 ∙ first.2,
        ap (λ (b : BftConsensus). record b { mempool = n.bft.mempool }) later.3 ∙ first.3,
        later.4 ∙ first.4,
      )
