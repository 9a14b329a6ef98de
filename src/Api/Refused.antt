-- ===== src/Api/Refused.antt =====
-- A request that is answered with an error leaves the node as it was.
use nuvex.Base.{◌≡◌, refl, Bool, List, [], ◌∷◌, string_key}
use nuvex.Base.Float.{Float}
use nuvex.Host.{Host}
use nuvex.State.Keeper.{Disk}
use nuvex.Mempool.{PendingTx}
use nuvex.Evm.{Ethereum}
use nuvex.Api.{Node, Clock, ApiError, refused}
use nuvex.Api.Reads.{Numerals, handle_dex_quote, handle_mining}
use nuvex.Api.Writes.{
  handle_send, handle_mempool_submit, handle_p2p_connect, handle_evm_deploy, handle_evm_call,
  handle_evm_estimate_gas, handle_dex_create_pool, handle_dex_swap, handle_dex_add_liquidity,
  handle_stake, handle_unstake, handle_gov_create, handle_gov_vote,
}
use nuvex.Api.Access.{posted-Keeps}
use nuvex.Api.Serve.{
  Command, send, mempool_submit, p2p_connect, evm_deploy, evm_call, evm_estimate, dex_create,
  dex_swap, dex_quote, dex_add_liquidity, stake_coins, unstake_coins, gov_create, gov_vote, Request,
  mining, asked, commanded, serve_command, serve, serve_all,
}
use nuvex.Api.Errors.{
  Shared, posted-refused, handle_mempool_submit-refused, handle_stake-refused,
  handle_evm_deploy-refused, handle_evm_call-refused, handle_evm_estimate_gas-refused,
  handle_dex_create_pool-refused, handle_dex_swap-refused, handle_dex_add_liquidity-refused,
  handle_unstake-refused, handle_gov_create-refused, handle_gov_vote-refused, handle_send-refused,
  handle_send-Shared,
}

module _ {fl : Float} {Vm : Type 0} (host : Host) (disk : Disk) (eth : Ethereum Vm)
    (numerals : Numerals) (sort : List PendingTx → List PendingTx) (clock : Clock) where
  serve_command-refused :
      (is_post : Bool) (command : Command fl.F) (n : Node fl Vm) (e : ApiError)
      → Shared n
      → (serve_command host disk eth numerals sort clock is_post command n).1 ≡ refused e
      → (serve_command host disk eth numerals sort clock is_post command n).0 ≡ n
  unfolding serve_command handle_p2p_connect
  serve_command-refused is_post (send body) n e shared h =
      posted-refused is_post body (handle_send host disk eth clock) n e
        (λ b. handle_send-refused host disk eth clock b n e shared.0 shared.1) h
  serve_command-refused is_post (mempool_submit body) n e shared h =
      posted-refused is_post body (handle_mempool_submit host disk eth clock) n e
        (λ b. handle_mempool_submit-refused host disk eth clock b n e shared.2 shared.3) h
  serve_command-refused is_post (evm_deploy body) n e shared h =
      posted-refused is_post body (handle_evm_deploy host disk eth clock) n e
        (λ b. handle_evm_deploy-refused host disk eth clock b n e) h
  serve_command-refused is_post (evm_call body) n e shared h =
      posted-refused is_post body (handle_evm_call host disk eth clock) n e
        (λ b. handle_evm_call-refused host disk eth clock b n e) h
  serve_command-refused is_post (evm_estimate body) n e shared h =
      posted-refused is_post body (handle_evm_estimate_gas host disk eth clock) n e
        (λ b. handle_evm_estimate_gas-refused host disk eth clock b n e) h
  serve_command-refused is_post (dex_create body) n e shared h =
      posted-refused is_post body (handle_dex_create_pool host disk eth clock) n e
        (λ b. handle_dex_create_pool-refused host disk eth clock b n e) h
  serve_command-refused is_post (dex_swap body) n e shared h =
      posted-refused is_post body (handle_dex_swap host disk eth clock) n e
        (λ b. handle_dex_swap-refused host disk eth clock b n e) h
  serve_command-refused is_post (dex_add_liquidity body) n e shared h =
      posted-refused is_post body (handle_dex_add_liquidity host disk eth clock) n e
        (λ b. handle_dex_add_liquidity-refused host disk eth clock b n e) h
  serve_command-refused is_post (stake_coins body) n e shared h =
      posted-refused is_post body (handle_stake host disk eth clock) n e
        (λ b. handle_stake-refused host disk eth clock b n e shared.0 shared.1) h
  serve_command-refused is_post (unstake_coins body) n e shared h =
      posted-refused is_post body (handle_unstake host disk eth clock) n e
        (λ b. handle_unstake-refused host disk eth clock b n e shared.0 shared.1) h
  serve_command-refused is_post (gov_create body) n e shared h =
      posted-refused is_post body (handle_gov_create host disk eth clock) n e
        (λ b. handle_gov_create-refused host disk eth clock b n e shared.0 shared.1) h
  serve_command-refused is_post (gov_vote body) n e shared h =
      posted-refused is_post body (handle_gov_vote host disk eth clock) n e
        (λ b. handle_gov_vote-refused host disk eth clock b n e shared.0 shared.1) h
  serve_command-refused is_post (p2p_connect dialled body) n e shared h =
      posted-refused is_post body (handle_p2p_connect host disk eth clock dialled) n e (λ b p. refl)
        h
  serve_command-refused is_post (dex_quote body) n e shared h =
      posted-refused is_post body
        (λ (id, token, amount) (m : Node fl Vm). (m, handle_dex_quote id token amount m)) n e
        (λ b p. refl) h

  step-refused :
      (request : Request fl.F) (n : Node fl Vm) (e : ApiError)
      → Shared n
      → (serve host disk eth numerals sort clock request n).1 ≡ refused e
      → (serve host disk eth numerals sort clock request n).0 ≡ n
  unfolding serve handle_mining
  step-refused mining n e shared h = cc
  step-refused (asked query) n e shared h = refl
  step-refused (commanded is_post command) n e shared h =
      serve_command-refused is_post command n e shared h

  serve_command-Shared :
      (is_post : Bool) (command : Command fl.F) (n : Node fl Vm)
      → Shared n
      → Shared (serve_command host disk eth numerals sort clock is_post command n).0
  unfolding serve_command handle_mempool_submit handle_evm_deploy handle_evm_call
      handle_evm_estimate_gas handle_dex_create_pool handle_dex_swap handle_dex_add_liquidity
      handle_stake handle_unstake handle_gov_create handle_gov_vote handle_p2p_connect
  serve_command-Shared is_post (mempool_submit body) n h =
      posted-Keeps Shared is_post body (handle_mempool_submit host disk eth clock) n h
        (λ b. (h.0, h.1, refl, refl))
  serve_command-Shared is_post (evm_deploy body) n h =
      posted-Keeps Shared is_post body (handle_evm_deploy host disk eth clock) n h (λ b. h)
  serve_command-Shared is_post (evm_call body) n h =
      posted-Keeps Shared is_post body (handle_evm_call host disk eth clock) n h (λ b. h)
  serve_command-Shared is_post (evm_estimate body) n h =
      posted-Keeps Shared is_post body (handle_evm_estimate_gas host disk eth clock) n h (λ b. h)
  serve_command-Shared is_post (dex_create body) n h =
      posted-Keeps Shared is_post body (handle_dex_create_pool host disk eth clock) n h (λ b. h)
  serve_command-Shared is_post (dex_swap body) n h =
      posted-Keeps Shared is_post body (handle_dex_swap host disk eth clock) n h (λ b. h)
  serve_command-Shared is_post (dex_add_liquidity body) n h =
      posted-Keeps Shared is_post body (handle_dex_add_liquidity host disk eth clock) n h (λ b. h)
  serve_command-Shared is_post (p2p_connect dialled body) n h =
      posted-Keeps Shared is_post body (handle_p2p_connect host disk eth clock dialled) n h (λ b. h)
  serve_command-Shared is_post (dex_quote body) n h =
      posted-Keeps Shared is_post body
        (λ (id, token, amount) (m : Node fl Vm). (m, handle_dex_quote id token amount m)) n h
        (λ b. h)
  serve_command-Shared is_post (stake_coins body) n h =
      posted-Keeps Shared is_post body (handle_stake host disk eth clock) n h
        (λ b. (refl, refl, h.2, h.3))
  serve_command-Shared is_post (unstake_coins body) n h =
      posted-Keeps Shared is_post body (handle_unstake host disk eth clock) n h
        (λ b. (refl, refl, h.2, h.3))
  serve_command-Shared is_post (gov_create body) n h =
      posted-Keeps Shared is_post body (handle_gov_create host disk eth clock) n h
        (λ b. (refl, refl, h.2, h.3))
  serve_command-Shared is_post (gov_vote body) n h =
      posted-Keeps Shared is_post body (handle_gov_vote host disk eth clock) n h
        (λ b. (refl, refl, h.2, h.3))
  serve_command-Shared is_post (send body) n h =
      posted-Keeps Shared is_post body (handle_send host disk eth clock) n h
        (λ b. handle_send-Shared host disk eth clock b n h)

  serve-Shared :
      (request : Request fl.F) (n : Node fl Vm)
      → Shared n
      → Shared (serve host disk eth numerals sort clock request n).0
  unfolding serve handle_mining
  serve-Shared mining n h = h
  serve-Shared (asked query) n h = h
  serve-Shared (commanded is_post command) n h = serve_command-Shared is_post command n h

module _ {fl : Float} {Vm : Type 0} (host : Host) (disk : Disk) (eth : Ethereum Vm)
    (numerals : Numerals) (sort : List PendingTx → List PendingTx) where
  serve_all-Shared :
      (requests : List (Clock × Request fl.F)) (n : Node fl Vm)
      → Shared n
      → Shared (serve_all host disk eth numerals sort requests n)
  unfolding serve_all
  serve_all-Shared [] n h = h
  serve_all-Shared ((clock, request) ∷ requests) n h =
      serve_all-Shared requests (serve host disk eth numerals sort clock request n).0
        (serve-Shared host disk eth numerals sort clock request n h)

  -- After any requests to a node whose staking keeper and governance hold its state, and whose
  -- consensus and network hold its pool, a further request that is answered with an error, whatever
  -- it is, leaves the whole node as it was.
  pub serve-refused :
      (requests : List (Clock × Request fl.F)) (clock : Clock) (request : Request fl.F)
      (n : Node fl Vm) (e : ApiError)
      → Shared n
      → (serve host disk eth numerals sort clock request
          (serve_all host disk eth numerals sort requests n)).1
        ≡ refused e
      → (serve host disk eth numerals sort clock request
          (serve_all host disk eth numerals sort requests n)).0
        ≡ serve_all host disk eth numerals sort requests n
  serve-refused requests clock request n e shared h =
      let reached = serve_all host disk eth numerals sort requests n in
      let still = serve_all-Shared requests n shared in
      step-refused host disk eth numerals sort clock request reached e still h
