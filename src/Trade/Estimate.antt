-- ===== src/Trade/Estimate.antt =====
-- trade/internal_market/v3: TryBuy and TrySell, estimates by view calls of the helper.
use go_fourmeme.Base.{
  ℕ, String, Bool, true, false, none, some, List, [], ◌∷◌, ltb, ◌==◌, if◌then◌else◌, length,
}
use go_fourmeme.Base.Text.{Text, slice10}
use go_fourmeme.Base.Int.{ℤ, pos}
use go_fourmeme.Config.{Address, addr_token_manager_helper3}
use go_fourmeme.Entity.{address, number}
use go_fourmeme.World.{
  Env, message, call_contract, ok, err, panic, M, pure, ask, check_as, or_panic, ◌>>=◌, ◌>>◌, Value,
  address_value, number_value, token_manager_helper,
}

pub record TryBuyResult : Type 0 where
  pub token_manager : Address
  pub quote : Address
  pub estimated_amount : ℕ
  pub estimated_cost : ℕ
  pub estimated_fee : ℕ
  pub amount_msg_value : ℕ
  pub amount_approval : ℕ
  pub amount_funds : ℕ

pub record TrySellResult : Type 0 where
  pub token_manager : Address
  pub quote : Address
  pub funds : ℕ
  pub fee : ℕ

-- The type assertions: eight values of these types, or too few, or a panic at a wrong type.
unfoldable pub buy_result : List Value → M TryBuyResult
buy_result
      (address_value manager
        ∷ address_value quote
        ∷ number_value amount
        ∷ number_value cost
        ∷ number_value fee
        ∷ number_value msg
        ∷ number_value approval
        ∷ number_value funds
        ∷ more)
      w =
    (
      ok (record {
        token_manager = manager;
        quote = quote;
        estimated_amount = amount;
        estimated_cost = cost;
        estimated_fee = fee;
        amount_msg_value = msg;
        amount_approval = approval;
        amount_funds = funds;
      }),
      w,
    )
buy_result out w = if ltb (length out) 8 then (err (message "unpack tryBuy"), w) else (panic, w)

unfoldable pub sell_result : List Value → M TrySellResult
sell_result
      (address_value manager ∷ address_value quote ∷ number_value funds ∷ number_value fee ∷ more)
      w =
    (ok (record { token_manager = manager; quote = quote; funds = funds; fee = fee }), w)
sell_result out w =
    if ltb (length out) 4 then (err (message "fields of trySell"), w) else (panic, w)

-- The log lines of the refusals and of the success slice the address of the token first.
unfoldable pub fail_logged : Bool → Text → String → M (Unit {0})
fail_logged false token_addr title w = (ok tt, w)
fail_logged true token_addr title w = elim (slice10 token_addr) [
  | none ↦ (panic, w)
  | some _ ↦ (err (message title), w)
]

abbrev pub is_empty : Text → Bool
is_empty [] = true
is_empty (x ∷ xs) = false

module _ (env : Env) where
  -- `TryBuy`: the wanted amount of tokens is not used.
  unfoldable pub try_buy : Text → ℤ → ℤ → M TryBuyResult
  unfolding buy_result fail_logged
  try_buy token_addr amount_in_wei want_token_amounts = do
    input ←
        check_as
          (env.pack token_manager_helper "tryBuy" (
            address (env.hex_to_address token_addr)
            ∷ number (some (pos 0))
            ∷ number (some amount_in_wei)
            ∷ []))
          (message "pack tryBuy")
    output ←
        check_as
          (← ask (call_contract addr_token_manager_helper3 input)
            (λ t. env.contract t addr_token_manager_helper3 input))
          (message "call tryBuy")
    fail_logged (is_empty output) token_addr "empty tryBuy"
    out ← check_as (env.unpack_values "tryBuy" output) (message "unpack tryBuy")
    result ← buy_result out
    fail_logged (result.estimated_amount == 0) token_addr "tryBuy of 0 tokens"
    or_panic (slice10 token_addr)
    pure result

  -- `TrySell`
  unfoldable pub try_sell : Text → ℤ → M TrySellResult
  unfolding sell_result fail_logged
  try_sell token_addr token_amount = do
    input ←
        check_as
          (env.pack token_manager_helper "trySell"
            (address (env.hex_to_address token_addr) ∷ number (some token_amount) ∷ []))
          (message "pack trySell")
    output ←
        check_as
          (← ask (call_contract addr_token_manager_helper3 input)
            (λ t. env.contract t addr_token_manager_helper3 input))
          (message "call trySell")
    fail_logged (is_empty output) token_addr "empty trySell"
    out ← check_as (env.unpack_values "trySell" output) (message "unpack trySell")
    result ← sell_result out
    fail_logged (result.funds == 0) token_addr "trySell of 0 BNB"
    or_panic (slice10 token_addr)
    pure result
