-- ===== src/Trade/Secondary.antt =====
-- trade/secondary.go: trades with the router of PancakeSwap, after the token has left the launchpad.
use go_fourmeme.Base.{ℕ, ◌+◌, Bool, true, Option, none, some, List, [], ◌∷◌}
use go_fourmeme.Base.Text.{Text, slice10}
use go_fourmeme.Base.Int.{ℤ, pos, ◌-ℤ◌, scale, div_ℤ, is_zero}
use go_fourmeme.Config.{pancake_router, wbnb}
use go_fourmeme.Entity.{address, number, path, BigFloat, Float64, MonitorTarget}
use go_fourmeme.World.{
  Env, message, call_contract, M, pure, ask, gets, check, or_panic, fail_if, ◌>>=◌, ◌>>◌,
  pancake_router_abi, erc20,
}
use go_fourmeme.Trade.Submit.{submit_unchecked}
use go_fourmeme.Trade.Positions.{add_position_from_estimate, to_wei}

-- `expectedOut * (100 - int(slippage*100)) / 100`, the quotient rounded down.
unfoldable pub keep_percent : ℕ → ℤ → ℤ
unfolding scale div_ℤ ◌-ℤ◌
keep_percent expected_out percent = div_ℤ (scale expected_out (pos 100 -ℤ percent)) 100

abbrev pub last_of : ℕ → List ℕ → ℕ
last_of a [] = a
last_of a (b ∷ bs) = last_of b bs

module _ (env : Env) where
  abbrev pub percent_of : Float64 → ℤ
  percent_of slippage = env.floats.int64 (env.floats.mul64 slippage (env.floats.literal 100 0))

  -- What is left of the amounts that the router answered: fewer than two give nil and no error.
  unfoldable pub min_out_of : List ℕ → Float64 → Option ℤ
  unfolding keep_percent
  min_out_of [] slippage = none
  min_out_of (a ∷ []) slippage = none
  min_out_of (a ∷ b ∷ bs) slippage = some (keep_percent (last_of b bs) (percent_of slippage))

  -- `calcSecondaryMinOut`
  unfoldable pub calc_secondary_min_out : ℤ → Text → Float64 → M (Option ℤ)
  unfolding min_out_of
  calc_secondary_min_out amount_in token_addr slippage = do
    input ← check (
        env.pack pancake_router_abi "getAmountsOut"
          (number (some amount_in) ∷ path (wbnb ∷ env.hex_to_address token_addr ∷ []) ∷ []))
    output ←
        check
          (← ask (call_contract pancake_router input) (λ t. env.contract t pancake_router input))
    amounts ← check (env.unpack_amounts output)
    pure (min_out_of amounts slippage)

  -- `calcSecondaryMinOutForSell`, a stub of the source.
  unfoldable pub calc_secondary_min_out_for_sell : ℤ → Text → Float64 → M (Option ℤ)
  calc_secondary_min_out_for_sell amount_in token_addr slippage = pure none

  -- Twenty minutes from now, in seconds.
  abbrev deadline : M ℤ
  deadline = gets (λ w. pos (env.now w.trace + 1200))

  abbrev router_tx : ℤ → Text → M Text
  router_tx amount input =
      submit_unchecked env env.wallet_address pancake_router amount 300_000 input
        (check env.private_key) none

  abbrev zero_amount : Option ℤ → Bool
  zero_amount none = true
  zero_amount (some a) = is_zero a

  abbrev print_needs : Option BigFloat → M BigFloat
  print_needs = or_panic

  -- `buyTokenSecondary`
  unfoldable pub buy_token_secondary : MonitorTarget → Text → M Text
  unfolding to_wei calc_secondary_min_out add_position_from_estimate
  buy_token_secondary target token_addr = do
    amount_in_wei ← to_wei env target.buy_amount_bnb
    fail_if (is_zero amount_in_wei) (message "amount is 0")
    min_amount_out ← calc_secondary_min_out amount_in_wei token_addr target.slippage_tolerance
    until ← deadline
    input ← check (
        env.pack pancake_router_abi "swapExactETHForTokens" (
          number min_amount_out
          ∷ path (wbnb ∷ env.hex_to_address token_addr ∷ [])
          ∷ address env.wallet_address
          ∷ number (some until)
          ∷ []))
    tx_hash ← router_tx amount_in_wei input
    or_panic (slice10 token_addr)
    print_needs target.buy_amount_bnb
    add_position_from_estimate env token_addr tx_hash target min_amount_out
    pure tx_hash

  -- `approveToken`
  unfoldable pub approve_token : Text → ℤ → M Text
  approve_token token_addr amount = do
    input ← check (env.pack erc20 "approve" (address pancake_router ∷ number (some amount) ∷ []))
    submit_unchecked env env.wallet_address (env.hex_to_address token_addr) (pos 0) 100_000 input
        (check env.private_key) none

  -- `SellTokenSecondary`: the approval is sent before anything else can fail.
  unfoldable pub sell_token_secondary : Text → Option ℤ → Float64 → M Text
  unfolding approve_token calc_secondary_min_out_for_sell
  sell_token_secondary token_addr token_amount slippage = do
    amount ← or_panic token_amount
    fail_if (is_zero amount) (message "amount is 0")
    approve_token token_addr amount
    min_amount_out ← calc_secondary_min_out_for_sell amount token_addr slippage
    until ← deadline
    input ← check (
        env.pack pancake_router_abi "swapExactTokensForETH" (
          number (some amount)
          ∷ number min_amount_out
          ∷ path (env.hex_to_address token_addr ∷ wbnb ∷ [])
          ∷ address env.wallet_address
          ∷ number (some until)
          ∷ []))
    tx_hash ← router_tx (pos 0) input
    or_panic (slice10 token_addr)
    pure tx_hash
