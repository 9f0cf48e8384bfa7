-- ===== src/Parser/Trades.antt =====
-- parser/fourmeme: the buys and the sales among the logs of a transaction become rows of the
-- database (buy_handler.go, sell_handler.go, common.go). The two handlers differ in their topics,
-- the type of the row and the column of the trader: a side stands for each.
pub mod Laws
use go_fourmeme.Base.{
  ℕ, ◌%◌, ◌^◌, String, Bool, true, false, ◌||◌, Option, none, some, List, [], ◌∷◌, ◌==◌,
  if◌then◌else◌, replicate,
}
use go_fourmeme.Base.Text.{Text}
use go_fourmeme.Base.Int.{pos}
use go_fourmeme.Base.Decimal.{decimal}
use go_fourmeme.Config.{
  Address, Hash, addr_token_manager1, addr_token_manager2, addr_token_manager_helper3, addr_zero,
  addr_usdt, addr_usd1, wbnb, topic_manager1_buy, topic_manager1_sell, topic_manager2_buy,
  topic_manager2_sell,
}
use go_fourmeme.Entity.{TokenInfo, BigFloat, Float64, Log, Receipt, Transaction}
use go_fourmeme.World.{
  Env, message, Reply, good, bad, World, Result, ok, err, panic, M, Trace, pure, check_as, attempt,
  gets, or_panic, ◌>>◌, ◌>>=◌,
}
use go_fourmeme.Client.Fourmeme.{get_token_status}
use go_fourmeme.Client.Price.{get_bnb_price_usdt}
use go_fourmeme.Utils.Words.{split_data_to_words}
use go_fourmeme.Utils.Seq.{calc_tx_unique_seq}
use go_fourmeme.Utils.Math.{div_10_pow}
use go_fourmeme.Database.{save_transaction}

pub data Side : Type 0 where
  buying selling : Side

abbrev pub legacy_topic : Side → Hash
legacy_topic buying = topic_manager1_buy
legacy_topic selling = topic_manager1_sell

abbrev pub current_topic : Side → Hash
current_topic buying = topic_manager2_buy
current_topic selling = topic_manager2_sell

abbrev pub record_type : Side → ℕ
record_type buying = 3
record_type selling = 4

pub record Trade : Type 0 where
  pub token : Address
  pub trader : Address
  pub token_amount : ℕ
  pub bnb_amount : ℕ
  pub protocol : String
  pub manager : Address

-- The words of an event of Manager1 and of Manager2; fewer than six are skipped.
unfoldable pub read_legacy : List ℕ → Option Trade
read_legacy (t ∷ u ∷ a ∷ b ∷ c ∷ d ∷ more) = some (record {
  token = t % 2 ^ 160;
  trader = u % 2 ^ 160;
  token_amount = a;
  bnb_amount = b;
  protocol = "managerV1";
  manager = addr_token_manager1;
})
read_legacy _ = none

unfoldable pub read_current : List ℕ → Option Trade
read_current (t ∷ u ∷ p ∷ a ∷ b ∷ d ∷ more) = some (record {
  token = t % 2 ^ 160;
  trader = u % 2 ^ 160;
  token_amount = a;
  bnb_amount = b;
  protocol = "managerV2";
  manager = addr_token_manager2;
})
read_current _ = none

unfoldable pub trade_under : Side → List Hash → Text → Option Trade
unfolding read_legacy read_current
trade_under side [] bytes = none
trade_under side (t0 ∷ more) bytes =
    if t0 == legacy_topic side
    then read_legacy (split_data_to_words bytes)
    else if t0 == current_topic side
    then read_current (split_data_to_words bytes)
    else none

-- The trade that a log tells of.
abbrev pub trade_of : Side → Log → Option Trade
trade_of side l = trade_under side l.topics l.bytes

unfoldable pub payment_symbol : Address → String
payment_symbol quote =
    if quote == addr_zero
    then "BNB"
    else if quote == addr_usdt
    then "BUSDT"
    else if quote == addr_usd1
    then "USD1"
    else if quote == wbnb
    then "WBNB"
    else ""

abbrev pub is_dollar_quote : Address → Bool
is_dollar_quote quote = quote == addr_usdt || quote == addr_usd1

-- The constant ZeroAddress.
abbrev pub zero_text : Text
zero_text = b'0' ∷ b'x' ∷ replicate 40 b'0'

-- `isFourmemeManager`
abbrev pub is_fourmeme_manager : Address → Bool
is_fourmeme_manager a =
    a == addr_token_manager2 || a == addr_token_manager_helper3 || a == addr_token_manager1

abbrev pub sender_of : Side → Text → Text
sender_of buying trader = []
sender_of selling trader = trader

abbrev pub receiver_of : Side → Text → Text
receiver_of buying trader = trader
receiver_of selling trader = []

module _ (env : Env) where
  abbrev pub quote_text : Address → Text
  quote_text quote = if quote == addr_zero then zero_text else env.hex quote

  -- `getPaymentToken`: the address and the symbol of what a token is paid in. The address of the
  -- quote is kept beside them: the symbol of a dollar coin is told by it.
  unfoldable pub payment_of : Reply TokenInfo → M (Address × Text × String)
  payment_of (bad e) w = (err (message "GetTokenStatus"), w)
  payment_of (good info) w = (ok (info.quote, quote_text info.quote, payment_symbol info.quote), w)

  unfoldable pub get_payment_token : Text → M (Address × Text × String)
  unfolding payment_of
  get_payment_token token_addr = attempt (get_token_status env token_addr) >>= payment_of

  -- A quotient and a product where both sides are there.
  abbrev pub quo_of : Option BigFloat → Option BigFloat → Option BigFloat
  quo_of (some a) (some b) = env.floats.quo a b
  quo_of _ _ = none

  abbrev pub mul_of : Option BigFloat → Option BigFloat → Option BigFloat
  mul_of (some a) (some b) = env.floats.mul a b
  mul_of _ _ = none

  -- An amount of a dollar coin is multiplied by the price of BNB.
  unfoldable pub in_dollars : Bool → Float64 → Option BigFloat → Option BigFloat
  in_dollars false price x = x
  in_dollars true price x = mul_of x (env.floats.new_float price)

  -- The row of a trade: the third part of its key is 0 for every log.
  abbrev pub row :
      Side → Receipt → Trade → String → BigFloat → BigFloat → BigFloat → BigFloat → ℕ → Transaction
  row side receipt trade symbol tokens payment price volume time = record {
    tx_unique_seq = calc_tx_unique_seq receipt.block_number receipt.transaction_index 0;
    block_number = decimal receipt.block_number;
    tx_index = decimal receipt.transaction_index;
    tx_hash = env.hash_hex receipt.tx_hash;
    send = sender_of side (env.hex trade.trader);
    receive = receiver_of side (env.hex trade.trader);
    type = record_type side;
    protocol = trade.protocol;
    protocol_address = env.hex trade.manager;
    token_address = env.hex trade.token;
    payment_token = symbol;
    token_amount = env.floats.print tokens;
    payment_amount = env.floats.print payment;
    price = env.floats.print price;
    volume = env.floats.print volume;
    created_at = time;
  }

  -- The row, where no number on the way is missing.
  abbrev pub row_from :
      Side
      → Receipt
      → Trade
      → String
      → ℕ
      → Option BigFloat
      → Option BigFloat
      → Option BigFloat
      → Option BigFloat
      → Option Transaction
  row_from side receipt trade symbol time (some tokens) (some payment) (some price) (some volume) =
      some (row side receipt trade symbol tokens payment price volume time)
  row_from side receipt trade symbol time _ _ _ _ = none

  -- What saveTradeRecord computes before it saves, `none` where it panics: 0 tokens for 0 BNB do.
  unfoldable pub trade_row :
      Side → Receipt → Trade → Address → String → Float64 → ℕ → Option Transaction
  unfolding in_dollars
  trade_row side receipt trade quote symbol usdt_price time =
      let tokens = div_10_pow env.floats (some (pos trade.token_amount)) (some (pos 18)) in
      let payment = div_10_pow env.floats (some (pos trade.bnb_amount)) (some (pos 18)) in
      let dollar = is_dollar_quote quote in
      row_from side receipt trade symbol time tokens payment
        (in_dollars dollar usdt_price (quo_of payment tokens))
        (in_dollars dollar usdt_price payment)

  -- A failed insertion is logged and dropped.
  unfoldable pub store_row : Option Transaction → M (Unit {0})
  unfolding save_transaction
  store_row none w = (panic, w)
  store_row (some tx) w = (ok tt, (save_transaction env tx w).1)

  -- `saveTradeRecord`
  unfoldable pub save_trade_record : Side → Receipt → Trade → Address → String → M (Unit {0})
  unfolding trade_row store_row
  save_trade_record side receipt trade quote symbol w =
      let (usdt_price, w1) = get_bnb_price_usdt env w in
      store_row (trade_row side receipt trade quote symbol usdt_price (env.now w1.trace)) w1

  -- A trade whose token cannot be asked for ends the loop: `false`.
  unfoldable pub save_with : Side → Receipt → Trade → Reply (Address × Text × String) → M Bool
  unfolding save_trade_record
  save_with side receipt trade (bad e) w = (ok false, w)
  save_with side receipt trade (good (quote, text, symbol)) w =
      (save_trade_record side receipt trade quote symbol >> pure true) w

  unfoldable pub book_trade : Side → Receipt → Trade → M Bool
  unfolding save_with get_payment_token
  book_trade side receipt trade =
      attempt (get_payment_token (env.hex trade.token)) >>= save_with side receipt trade

  abbrev pub go_on : M (Unit {0}) → Bool → M (Unit {0})
  go_on rest true w = rest w
  go_on rest false w = (ok tt, w)

  -- `BuyHandler.ParseLog` and `SellHandler.ParseLog`
  unfoldable pub parse_log : Side → Receipt → List Log → M (Unit {0})
  unfolding book_trade
  parse_log side receipt [] w = (ok tt, w)
  parse_log side receipt (l ∷ ls) w = elim (trade_of side l) [
    | none ↦ parse_log side receipt ls w
    | some trade ↦ (book_trade side receipt trade >>= go_on (parse_log side receipt ls)) w
  ]
