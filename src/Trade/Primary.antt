-- ===== src/Trade/Primary.antt =====
-- trade/primary.go and trade/buy_sell.go: trades on the launchpad, and the choice of the market.
pub mod Laws
use go_fourmeme.Base.{
  ℕ, suc, Bool, true, false, ◌||◌, Option, none, some, [], ◌∷◌, ◌==◌, if◌then◌else◌,
}
use go_fourmeme.Base.Text.{Text}
use go_fourmeme.Base.Int.{ℤ, pos, negsuc, is_zero}
use go_fourmeme.Base.Decimal.{decimal}
use go_fourmeme.Config.{Address, addr_token_manager2, addr_usdt, addr_usd1}
use go_fourmeme.Entity.{
  BigFloat, Float64, MonitorTarget, Position, TransactionRecord, TokenInfo, TokenStatus, trading,
  Receipt,
}
use go_fourmeme.World.{
  Env, Error, message, Call, insert_record, Reply, good, bad, World, Result, ok, err, panic, M,
  Trace, pure, throw, ask, gets, check, or_panic, attempt, ◌>>=◌, ◌>>◌,
}
use go_fourmeme.Manager.Positions.{find, get_all_positions, deref}
use go_fourmeme.Client.Fourmeme.{get_token_status, local_calc_min_amount_out}
use go_fourmeme.Client.Approve.{approve}
use go_fourmeme.Trade.Internal.{
  buy_token_via_manager_v2, sell_token_via_manager_v2, buy_token_via_manager_v3,
  sell_token_via_manager_v3,
}
use go_fourmeme.Trade.Positions.{
  to_wei, wait_for_receipt, extract_token_out_from_receipt, open_position,
}

-- The least amount: 1 where the estimate failed or came to 0.
abbrev pub at_least_one : Reply ℤ → ℤ
at_least_one (bad e) = pos 1
at_least_one (good a) = if is_zero a then pos 1 else a

-- A token that is paid in a dollar coin goes by the helper, any other by TokenManager2.
abbrev pub is_dollar : TokenInfo → Bool
is_dollar info = info.quote == addr_usdt || info.quote == addr_usd1

-- A signed decimal print.
abbrev pub print_ℤ : ℤ → Text
print_ℤ (pos n) = decimal n
print_ℤ (negsuc n) = b'-' ∷ decimal (suc n)

-- The rounds of three seconds that two minutes have room for, both ends included.
abbrev pub receipt_rounds : ℕ
receipt_rounds = 41

-- The position of a confirmed buy, without average price, time and targets.
abbrev pub bought : MonitorTarget → Text → Text → ℤ → Position
bought target token_addr tx_hash tokens = record {
  token_addr = token_addr;
  buy_tx_hash = tx_hash;
  buy_amount_bnb = target.buy_amount_bnb;
  buy_token_amount = some tokens;
  buy_price_avg = none;
  buy_time = 0;
  target_profit_mult = record { bits = 0 };
  target_loss_mult = record { bits = 0 };
  sold = false;
}

abbrev pub tokens_or : Option ℕ → ℤ → ℤ
tokens_or none least = least
tokens_or (some n) least = pos n

-- The error of the trade is dropped: the hash is returned as it is, empty after an error.
abbrev hash_or_empty : Reply Text → Text
hash_or_empty (good h) = h
hash_or_empty (bad e) = []

abbrev pub is_trading : TokenStatus → Bool
is_trading trading = true
is_trading _ = false

-- `isPrimaryMarket`: the information, if the token trades on the launchpad.
abbrev pub market_of : Reply TokenInfo → Option TokenInfo
market_of (bad e) = none
market_of (good info) = if is_trading info.status then some info else none

module _ (env : Env) where
  abbrev pub buy_record : Text → ℤ → ℕ → TransactionRecord
  buy_record token_addr amount_in_wei time = record {
    tx_hash = [];
    type = "buy_primary";
    token_addr = token_addr;
    amount_in = print_ℤ amount_in_wei;
    amount_out = [];
    status = "failed";
    error_msg = none;
    timestamp = time;
  }

  -- `database.SaveTxRecord` of a record that is there: an error of the database is dropped here.
  unfoldable pub save_tx_record : TransactionRecord → M (Unit {0})
  save_tx_record r w = (ok tt, record w { trace = insert_record r ∷ w.trace })

  -- What follows a failed trade: a record, and the error again.
  unfoldable pub buy_failed : Text → ℤ → Error → M Text
  unfolding save_tx_record
  buy_failed token_addr amount_in_wei e = do
    time ← gets (λ w. env.now w.trace)
    save_tx_record
        (record (buy_record token_addr amount_in_wei time) { error_msg = some (env.error_text e) })
    throw e

  -- A confirmed buy: its position, then its record.
  unfoldable pub book_buy : Text → ℤ → Position → M Text
  unfolding save_tx_record
  book_buy token_addr amount_in_wei position = do
    open_position position
    time ← gets (λ w. env.now w.trace)
    save_tx_record (record (buy_record token_addr amount_in_wei time) {
      status = "success";
      tx_hash = position.buy_tx_hash;
    })
    pure position.buy_tx_hash

  -- What follows a trade that was sent: without a receipt nothing is kept, though the hash is
  -- returned.
  unfoldable pub buy_sent : MonitorTarget → Text → ℤ → ℤ → Text → Reply Receipt → M Text
  buy_sent target token_addr amount_in_wei min_amount_out tx_hash (bad e) = pure tx_hash
  buy_sent target token_addr amount_in_wei min_amount_out tx_hash (good receipt) = do
    actual_out ← extract_token_out_from_receipt env receipt token_addr
    book_buy token_addr amount_in_wei
        (bought target token_addr tx_hash (tokens_or actual_out min_amount_out))

  unfoldable pub after_buy : MonitorTarget → Text → ℤ → ℤ → Reply Text → M Text
  after_buy target token_addr amount_in_wei min_amount_out (bad e) =
      buy_failed token_addr amount_in_wei e
  after_buy target token_addr amount_in_wei min_amount_out (good tx_hash) = do
    receipt ← attempt (wait_for_receipt env receipt_rounds tx_hash)
    buy_sent target token_addr amount_in_wei min_amount_out tx_hash receipt

  abbrev route_buy : TokenInfo → Text → ℤ → ℤ → ℕ → M Text
  route_buy info token_addr amount least key =
      if is_dollar info
      then buy_token_via_manager_v3 env token_addr amount least key
      else buy_token_via_manager_v2 env token_addr amount least key

  -- `PrimaryBuy`
  unfoldable pub primary_buy : MonitorTarget → Text → TokenInfo → M Text
  primary_buy target token_addr info = do
    amount_in_wei ← to_wei env target.buy_amount_bnb
    estimate ←
        attempt (local_calc_min_amount_out env info (some amount_in_wei) target.slippage_tolerance)
    key ← check env.private_key
    trade ← attempt (route_buy info token_addr amount_in_wei (at_least_one estimate) key)
    after_buy target token_addr amount_in_wei (at_least_one estimate) trade

  -- The text of TokenManager2 that the approval names; the address is read back from it.
  abbrev token_manager2_text : Text
  token_manager2_text = env.hex addr_token_manager2

  abbrev route_sell : TokenInfo → Text → ℤ → ℤ → ℕ → M (Reply Text)
  route_sell info token_addr amount least key =
      if is_dollar info
      then (approve env token_addr token_manager2_text amount key
          >> attempt (sell_token_via_manager_v3 env token_addr amount least key))
      else attempt (sell_token_via_manager_v2 env token_addr amount least key)

  unfoldable pub sell_position : MonitorTarget → Text → TokenInfo → Position → M Text
  sell_position target token_addr info held = do
    estimate ←
        attempt (local_calc_min_amount_out env info held.buy_token_amount target.slippage_tolerance)
    amount ← or_panic held.buy_token_amount
    key ← check env.private_key
    trade ← route_sell info token_addr amount (at_least_one estimate) key
    pure (hash_or_empty trade)

  -- `primarySell`: the map is asked for the address as it is.
  unfoldable pub primary_sell : MonitorTarget → Text → TokenInfo → M Text
  primary_sell target token_addr info w =
      elim (deref w.store (find token_addr (get_all_positions w.store))) [
        | none ↦ (ok [], w)
        | some held ↦ sell_position target token_addr info held w
      ]

  unfoldable pub is_primary_market : Text → M (Option TokenInfo)
  is_primary_market token_addr = do
    reply ← attempt (get_token_status env token_addr)
    pure (market_of reply)

  abbrev pub buy_on : MonitorTarget → Text → Option TokenInfo → M Text
  buy_on target token_addr none = pure []
  buy_on target token_addr (some info) =
      attempt (primary_buy target token_addr info)
      >> attempt (primary_sell target token_addr info)
      >> pure []

  -- `Buy`: on the launchpad a buy and at once a sale; their results are dropped.
  unfoldable pub buy : MonitorTarget → Text → M Text
  buy target token_addr = is_primary_market token_addr >>= buy_on target token_addr

  abbrev pub sell_on : MonitorTarget → Text → Option TokenInfo → M Text
  sell_on target token_addr none = pure []
  sell_on target token_addr (some info) = primary_sell target token_addr info

  -- `Sell`
  unfoldable pub sell : MonitorTarget → Text → M Text
  sell target token_addr = is_primary_market token_addr >>= sell_on target token_addr
