-- ===== src/Client/Fourmeme.antt =====
-- client/fourmeme_client.go: the status of a token, and the least amount that a trade may return.
use go_fourmeme.Base.{String, Bool, ◌||◌, Option, none, some, [], ◌∷◌, ◌==◌, if◌then◌else◌}
use go_fourmeme.Base.Text.{Text, slice10}
use go_fourmeme.Base.Int.{ℤ, pos, is_zero}
use go_fourmeme.Config.{addr_token_manager_helper3}
use go_fourmeme.Entity.{address, Float64, TokenStatus, trading, completed, TokenInfo}
use go_fourmeme.World.{
  Env, message, call_contract, Reply, good, bad, ok, err, panic, M, pure, ask, check_as, or_panic,
  ◌>>=◌, token_manager_helper,
}

-- The status derived from the flag that the contract returns.
unfoldable pub status_of : Bool → TokenStatus
status_of liquidity_added = if liquidity_added then completed else trading

-- The call of a view function: pack, ask, and report any failure under a title. The log line of a
-- failed call slices the address of the token.
unfoldable pub view_failed : Text → Reply Text → String → M Text
view_failed token_addr (good output) title w = (ok output, w)
view_failed token_addr (bad e) title w = elim (slice10 token_addr) [
  | none ↦ (panic, w)
  | some _ ↦ (err (message title), w)
]

-- `x.Int(z)` on a fresh `z`: an infinity leaves it 0.
abbrev pub int_or_zero : Option ℤ → ℤ
int_or_zero none = pos 0
int_or_zero (some a) = a

module _ (env : Env) where
  -- `GetTokenStatus`. The status that `unpack_info` leaves unset is filled in.
  unfoldable pub get_token_status : Text → M TokenInfo
  unfolding view_failed status_of
  get_token_status token_addr = do
    input ←
        check_as
          (env.pack token_manager_helper "getTokenInfo"
            (address (env.hex_to_address token_addr) ∷ []))
          (message "pack getTokenInfo")
    reply ←
        ask (call_contract addr_token_manager_helper3 input)
          (λ t. env.contract t addr_token_manager_helper3 input)
    output ← view_failed token_addr reply "call getTokenInfo"
    info ← check_as (env.unpack_info output) (message "unpack getTokenInfo")
    pure (record info { status = status_of info.liquidity_added })

  -- The price is offers per funds; the amount is divided by it and lowered by the slippage.
  unfoldable pub slipped : TokenInfo → ℤ → Float64 → M ℤ
  slipped info amount_in_wei slippage = do
    price ← or_panic (
        env.floats.quo (env.floats.set_int (pos info.offers)) (env.floats.set_int (pos info.funds)))
    expected_out ← or_panic (env.floats.quo (env.floats.set_int amount_in_wei) price)
    factor ← or_panic (env.floats.new_float (env.floats.sub64 (env.floats.literal 1 0) slippage))
    min_out ← or_panic (env.floats.mul expected_out factor)
    pure (int_or_zero (env.floats.to_int min_out))

  abbrev no_reserves : TokenInfo → Bool
  no_reserves info = info.offers == 0 || info.funds == 0

  -- `LocalCalcMinAmountOut`. A nil amount panics at its first use.
  unfoldable pub local_calc_min_amount_out : TokenInfo → Option ℤ → Float64 → M ℤ
  unfolding slipped
  local_calc_min_amount_out info none slippage w = (panic, w)
  local_calc_min_amount_out info (some amount_in_wei) slippage w =
      if is_zero amount_in_wei
      then (ok (pos 0), w)
      else if no_reserves info
      then (err (message "offers or funds are 0"), w)
      else slipped info amount_in_wei slippage w
