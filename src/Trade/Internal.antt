-- ===== src/Trade/Internal.antt =====
-- trade/internal_market: trades with the managers of the launchpad, v2 by TokenManager2 and v3 by
-- TokenManagerHelper3.
pub mod Laws
use go_fourmeme.Base.{ℕ, none, some, List, [], ◌∷◌}
use go_fourmeme.Base.Text.{Text}
use go_fourmeme.Base.Int.{ℤ, pos}
use go_fourmeme.Config.{Address, addr_token_manager2, addr_token_manager_helper3}
use go_fourmeme.Entity.{Arg, number, address}
use go_fourmeme.World.{
  Env, Error, message, M, check_as, ◌>>=◌, token_manager2, token_manager_helper,
}
use go_fourmeme.Trade.Submit.{submit}

-- The recipient of the fee of a v3 sale.
abbrev pub fee_recipient : Address
fee_recipient = 0x69aaaff7419fd2ce58079f05ff06b2ff66d446d2

module _ (env : Env) where
  abbrev pub buy_args : Text → ℤ → ℤ → List Arg
  buy_args token_addr amount_in_wei min_amount_out =
      number (some (pos 0))
      ∷ address (env.hex_to_address token_addr)
      ∷ address env.wallet_address
      ∷ number (some amount_in_wei)
      ∷ number (some min_amount_out)
      ∷ []

  -- `BuyTokenViaManagerV2`
  unfoldable pub buy_token_via_manager_v2 : Text → ℤ → ℤ → ℕ → M Text
  buy_token_via_manager_v2 token_addr amount_in_wei min_amount_out private_key = do
    input ←
        check_as
          (env.pack token_manager2 "buyTokenAMAP"
            (buy_args token_addr amount_in_wei min_amount_out))
          (message "pack buyTokenAMAP")
    submit env none none addr_token_manager2 amount_in_wei input token_addr private_key

  abbrev pub sell_args_v2 : Text → ℤ → ℤ → List Arg
  sell_args_v2 token_addr sell_amount min_funds =
      number (some (pos 0))
      ∷ address (env.hex_to_address token_addr)
      ∷ number (some sell_amount)
      ∷ number (some min_funds)
      ∷ number (some (pos 0))
      ∷ address env.wallet_address
      ∷ []

  -- `SellTokenViaManagerV2`: no coin goes with the call.
  unfoldable pub sell_token_via_manager_v2 : Text → ℤ → ℤ → ℕ → M Text
  sell_token_via_manager_v2 token_addr sell_amount min_funds private_key = do
    input ←
        check_as
          (env.pack token_manager2 "sellToken" (sell_args_v2 token_addr sell_amount min_funds))
          (message "pack sellToken")
    submit env none none addr_token_manager2 (pos 0) input token_addr private_key

  -- `BuyTokenViaManagerV3`
  unfoldable pub buy_token_via_manager_v3 : Text → ℤ → ℤ → ℕ → M Text
  buy_token_via_manager_v3 token_addr amount_in_wei min_amount_out private_key = do
    input ←
        check_as
          (env.pack token_manager_helper "buyWithEth"
            (buy_args token_addr amount_in_wei min_amount_out))
          (message "pack buyWithEth")
    submit env none none addr_token_manager_helper3 amount_in_wei input token_addr private_key

  abbrev pub sell_args_v3 : Text → ℤ → ℤ → List Arg
  sell_args_v3 token_addr sell_amount min_funds =
      number (some (pos 0))
      ∷ address (env.hex_to_address token_addr)
      ∷ address env.wallet_address
      ∷ number (some sell_amount)
      ∷ number (some min_funds)
      ∷ number (some (pos 50))
      ∷ address fee_recipient
      ∷ []

  -- `SellTokenViaManagerV3`
  unfoldable pub sell_token_via_manager_v3 : Text → ℤ → ℤ → ℕ → M Text
  sell_token_via_manager_v3 token_addr sell_amount min_funds private_key = do
    input ←
        check_as
          (env.pack token_manager_helper "sellForEth"
            (sell_args_v3 token_addr sell_amount min_funds))
          (message "pack sellForEth")
    submit env (some "sign") (some "send") addr_token_manager_helper3 (pos 0) input token_addr
        private_key
