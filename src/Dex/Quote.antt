-- ===== src/Dex/Quote.antt =====
-- What a quote promises of a swap.
use nuvex.Base.{
  ◌≡◌, refl, sym, ◌∙◌, ap, true, false, ◌==◌, none, some, String, arith, Option-cases, inl, inr,
  ◌⊎◌, string_key, ok, err,
}
use nuvex.Base.Float.{Float}
use nuvex.Dict.{lookup}
use nuvex.Dex.{
  DexKeeper, DexError, LiquidityPool, SwapResult, swap, swap_in, settle_swap, get_quote, quote_of,
  Trade, trade, result_of, refused,
}

module _ (fl : Float) where
  settle_swap_cases :
      (id token : String) (amount least : fl.F) (trader now : String) (t : Trade fl)
      (token_out : String) (pool : LiquidityPool fl) (dk : DexKeeper fl) (r : SwapResult fl)
      → (settle_swap fl id token amount least trader now t token_out pool dk).1 ≡ ok r
      → ((r.success ≡ false)
          × ((settle_swap fl id token amount least trader now t token_out pool dk).0 ≡ dk))
        ⊎ (r ≡ result_of fl id token amount now t token_out)
  unfolding settle_swap result_of refused
  settle_swap_cases id token amount least trader now t token_out pool dk r e = ground arith

  -- The result is that of a trade in the direction that the token gives.
  swap_in_cases :
      (id token : String) (amount least : fl.F) (trader now : String) (pool : LiquidityPool fl)
      (dk : DexKeeper fl) (r : SwapResult fl)
      → (swap_in fl id token amount least trader now pool dk).1 ≡ ok r
      → ((r.success ≡ false) × ((swap_in fl id token amount least trader now pool dk).0 ≡ dk))
        ⊎ ((token == pool.token_a) ≡ true)
          × (r
              ≡ result_of fl id token amount now
                  (trade fl amount pool.reserve_a pool.reserve_b)
                  pool.token_b)
        ⊎ ((token == pool.token_a) ≡ false)
          × (r
              ≡ result_of fl id token amount now
                  (trade fl amount pool.reserve_b pool.reserve_a)
                  pool.token_a)
  unfolding swap_in
  swap_in_cases id token amount least trader now pool dk r e = ground (
    arith,
    settle_swap_cases id token amount least trader now
        (trade fl amount pool.reserve_a pool.reserve_b) pool.token_b pool dk r,
    settle_swap_cases id token amount least trader now
        (trade fl amount pool.reserve_b pool.reserve_a) pool.token_a pool dk r,
  )

  swap_known :
      (id token : String) (amount least : fl.F) (trader now : String) (pool : LiquidityPool fl)
      (dk : DexKeeper fl)
      → lookup id dk.pools ≡ some pool
      → swap fl id token amount least trader now dk
        ≡ swap_in fl id token amount least trader now pool dk
  unfolding swap
  swap_known id token amount least trader now pool dk e = simp (e, swap)

  swap_unknown :
      (id token : String) (amount least : fl.F) (trader now : String) (dk : DexKeeper fl)
      → lookup id dk.pools ≡ none
      → (swap fl id token amount least trader now dk).1 ≡ err DexError.unknown_pool
  unfolding swap
  swap_unknown id token amount least trader now dk e = simp (e, swap)

  -- The two copies of the formulas agree.
  quote_of-result_of :
      (id token : String) (amount reserve_in reserve_out : fl.F) (token_out now : String)
      → quote_of fl id token amount reserve_in reserve_out token_out
        ≡ record (result_of fl id token amount now
            (trade fl amount reserve_in reserve_out)
            token_out) { timestamp = "" }
  unfolding quote_of result_of trade
  quote_of-result_of id token amount reserve_in reserve_out token_out now = refl

  quote_first :
      (id token : String) (amount : fl.F) (pool : LiquidityPool fl) (dk : DexKeeper fl)
      → lookup id dk.pools ≡ some pool
      → (token == pool.token_a) ≡ true
      → get_quote fl id token amount dk
        ≡ ok (quote_of fl id token amount pool.reserve_a pool.reserve_b pool.token_b)
  unfolding get_quote
  quote_first id token amount pool dk e first = simp (e, first, get_quote)

  quote_second :
      (id token : String) (amount : fl.F) (pool : LiquidityPool fl) (dk : DexKeeper fl)
      → lookup id dk.pools ≡ some pool
      → (token == pool.token_a) ≡ false
      → get_quote fl id token amount dk
        ≡ ok (quote_of fl id token amount pool.reserve_b pool.reserve_a pool.token_a)
  unfolding get_quote
  quote_second id token amount pool dk e second = simp (e, second, get_quote)

  -- A swap that succeeds gives what the quote for it says, but for the time; one that returns a
  -- result without success changes nothing.
  pub swap-get_quote :
      (id token : String) (amount least : fl.F) (trader now : String) (dk : DexKeeper fl)
      (r : SwapResult fl)
      → (swap fl id token amount least trader now dk).1 ≡ ok r
      → ((r.success ≡ false) × ((swap fl id token amount least trader now dk).0 ≡ dk))
        ⊎ (get_quote fl id token amount dk ≡ ok (record r { timestamp = "" }))
  swap-get_quote id token amount least trader now dk r e =
      elim (Option-cases (lookup id dk.pools)) [
        | inl missing ↦
            let s = swap_unknown id token amount least trader now dk missing in absurd (cc)
        | inr (pool, found) ↦
            let s = swap_known id token amount least trader now pool dk found in
            let e' = ap (λ x. x.1) (sym s) ∙ e in
            elim (swap_in_cases id token amount least trader now pool dk r e') [
              | inl (f, kept) ↦ inl (f, ap (λ x. x.0) s ∙ kept)
              | inr (inl (first, made)) ↦ inr (
                  quote_first id token amount pool dk found first
                  ∙ ap ok (quote_of-result_of id token amount _ _ pool.token_b now)
                  ∙ ap (λ (x : SwapResult fl). ok (record x { timestamp = "" })) (sym made))
              | inr (inr (second, made)) ↦ inr (
                  quote_second id token amount pool dk found second
                  ∙ ap ok (quote_of-result_of id token amount _ _ pool.token_a now)
                  ∙ ap (λ (x : SwapResult fl). ok (record x { timestamp = "" })) (sym made))
            ]
      ]
