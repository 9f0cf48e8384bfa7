-- ===== src/Trade/Whitelist.antt =====
-- trade/whitelist_checker_handler.go: whether a new token is held widely enough.
pub mod Laws
use go_fourmeme.Base.{
  ℕ, ◌-◌, ◌^◌, Bool, false, not, ◌||◌, Option, none, some, List, [], ◌∷◌, ltb, leb, ◌==◌,
  if◌then◌else◌, length,
}
use go_fourmeme.Base.Text.{Text}
use go_fourmeme.Base.Int.{ℤ, pos, ◌-ℤ◌}
use go_fourmeme.Base.Decimal.{value}
use go_fourmeme.Entity.{BigFloat, Float64, Holder, TokenInfo, TokenStatus, trading}
use go_fourmeme.World.{
  Env, message, Call, holder_page, Reply, good, bad, World, Result, ok, err, panic, M, Trace, pure,
  throw, ask, gets, check_as, or_panic, ◌>>◌, ◌>>=◌,
}
use go_fourmeme.Client.Price.{get_bnb_price_usdt}
use go_fourmeme.Trade.Primary.{is_trading}

abbrev pub min_holders : ℕ
min_holders = 20

-- The page size that the holders are asked with.
abbrev pub page_size : ℕ
page_size = 20

module _ (env : Env) where
  -- The balances, summed up. A text that is no number panics.
  unfoldable pub sum_balances : List Holder → Option ℤ
  unfolding ◌-ℤ◌
  sum_balances [] = some (pos 0)
  sum_balances (h ∷ hs) = elim (env.parse_int h.balance) [
    | none ↦ none
    | some b ↦ elim (sum_balances hs) [ none ↦ none | some s ↦ some (s -ℤ (pos 0 -ℤ b)) ]
  ]

  -- More than 30 percent of what was sold is too much.
  abbrev too_concentrated : Float64 → Bool
  too_concentrated p =
      env.floats.lt64 (env.floats.literal 30 0) (env.floats.mul64 p (env.floats.literal 100 0))

  unfoldable pub check_share : TokenInfo → List Holder → M Bool
  unfolding sum_balances
  check_share info holders = do
    total ← or_panic (sum_balances holders)
    if info.offers == 0 then pure false else do
      share ←
          or_panic
            (env.floats.quo (env.floats.set_int total) (env.floats.set_int (pos info.offers)))
      pure (not (too_concentrated (env.floats.to_float64 share)))

  -- The number of holders is the length of the page.
  unfoldable pub check_holders : TokenInfo → List Holder → M Bool
  unfolding check_share
  check_holders info holders =
      if leb (length holders) min_holders then pure false else check_share info holders

  unfoldable pub check_page : Text → TokenInfo → M Bool
  unfolding check_holders
  check_page token_addr info = do
    reply ← ask (holder_page token_addr 1 page_size) (λ t. env.holders_of t token_addr 1 page_size)
    holders ← check_as reply (message "holders")
    check_holders info holders

  -- The market value in dollars, below 5000 too small.
  unfoldable pub check_value : Text → TokenInfo → Float64 → M Bool
  unfolding check_page
  check_value token_addr info price = do
    factor ← or_panic (env.floats.new_float price)
    product ← or_panic (env.floats.mul (env.floats.set_int (pos info.funds)) factor)
    wei ← or_panic (env.floats.new_float (env.floats.literal (10 ^ 18) 0))
    value ← or_panic (env.floats.quo product wei)
    if env.floats.lt64 (env.floats.to_float64 value) (env.floats.literal 5000 0)
        then pure false
        else check_page token_addr info

  abbrev pub bnb_price : M Float64
  bnb_price w = let (p, w') = get_bnb_price_usdt env w in (ok p, w')

  unfoldable pub check_price : Text → TokenInfo → Float64 → M Bool
  unfolding check_value
  check_price token_addr info price =
      if env.floats.le64 price (env.floats.literal 0 0)
      then throw (message "invalid bnbPrice")
      else check_value token_addr info price

  -- `CheckWhitelistConditions`, with the creation time in seconds.
  unfoldable pub check_whitelist_conditions : Text → TokenInfo → ℕ → M Bool
  unfolding check_price
  check_whitelist_conditions token_addr info create_time = do
    time ← gets (λ w. env.now w.trace)
    if ltb 600 (time - create_time)
        then pure false
        else if not (is_trading info.status) || info.liquidity_added
        then pure false
        else (bnb_price >>= check_price token_addr info)
