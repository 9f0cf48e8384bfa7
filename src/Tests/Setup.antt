-- ===== src/Tests/Setup.antt =====
-- A node, a database and an arithmetic to run the program with: whole numbers for floats, and a
-- node that accepts everything.
use go_fourmeme.Base.{
  ℕ, ◌-◌, ◌*◌, ◌/◌, ◌^◌, true, false, ◌&&◌, none, some, [], ◌∷◌, ltb, leb, ◌==◌, if◌then◌else◌,
  length, replicate,
}
use go_fourmeme.Base.Text.{Text, codes}
use go_fourmeme.Base.Int.{pos, pos_part}
use go_fourmeme.Entity.{MonitorTarget, BigFloat, Float64, Position, Receipt, TokenInfo, completed}
use go_fourmeme.Manager.Positions.{Store}
use go_fourmeme.World.{FloatOps, Env, World, good, usdt}

abbrev pub big : ℕ → BigFloat
big n = record { repr = n }

abbrev pub float : ℕ → Float64
float n = record { bits = n }

abbrev pub whole_floats : FloatOps
whole_floats = record {
  set_int = λ a. big (pos_part a);
  new_float = λ a. some (big a.bits);
  mul = λ a b. some (big (a.repr * b.repr));
  quo = λ a b. if a.repr == 0 && b.repr == 0 then none else some (big (a.repr / b.repr));
  to_int = λ a. some (pos a.repr);
  to_float64 = λ a. float a.repr;
  print = λ a. a.repr ∷ [];
  literal = λ m k. float (m / 10 ^ k);
  sub64 = λ a b. float (a.bits - b.bits);
  mul64 = λ a b. float (a.bits * b.bits);
  lt64 = λ a b. ltb a.bits b.bits;
  le64 = λ a b. leb a.bits b.bits;
  int64 = λ a. pos a.bits;
}

-- "0x" and the number in unary code, cut and filled to 40 characters.
abbrev pub show : ℕ → Text
show a = b'0' ∷ b'x' ∷ a ∷ replicate 39 b'0'

abbrev pub info : TokenInfo
info = record {
  version = 2;
  token_manager = 7;
  quote = 0;
  last_price = 1;
  trading_fee_rate = 1;
  min_trading_fee = 1;
  launch_time = 1;
  offers = 100;
  max_offers = 100;
  funds = 10;
  max_funds = 20;
  liquidity_added = false;
  status = completed;
}

abbrev pub empty_receipt : Receipt
empty_receipt = record {
  tx_hash = 1;
  block_number = 5;
  transaction_index = 2;
  contract_address = 0;
  gas_used = 21000;
  tx_type = 0;
  logs = [];
}

abbrev pub friendly : Env
friendly = record {
  floats = whole_floats;
  hex = show;
  hash_hex = show;
  hex_to_address = length;
  hex_to_hash = length;
  now = λ t. length t;
  pack = λ abi name args. good (length args ∷ []);
  nonce = λ t a. (3, none);
  gas_price = λ t. (some (pos 15), none);
  contract = λ t a bytes. good bytes;
  sign = λ key tx. good key;
  tx_hash = λ tx sig. show tx.nonce;
  unpack_amounts = λ bytes. good (1 ∷ 1000 ∷ []);
  unpack_amount = λ name bytes. good 1000;
  unpack_info = λ bytes. good info;
  unpack_values = λ name bytes. good [];
  sending = λ t tx. none;
  receipt = λ t h. good empty_receipt;
  inserting = λ t. none;
  private_key = good 77;
  price_answer = λ t. usdt (some (float 600));
  key_address = λ k. 9;
  wallet_address = 9;
  error_text = λ e. 0;
  head = λ t. good 7;
  receipts_of = λ t n. good (some empty_receipt ∷ []);
  holders_of = λ t token page size. good (replicate size (record { address = 1; balance = [] }));
  transaction_of = λ t h. good none;
  parse_int = λ s. some (pos (length s));
}

abbrev pub empty_store : Store
empty_store = record { cells = λ p. none; positions = [] }

abbrev pub start : World
start = record {
  trace = [];
  store = empty_store;
  next_cell = 0;
  price_cache = record { price = float 0; timestamp = 0 };
  last_processed = 0;
}

abbrev pub token : Text
token = codes "0xAbcdef0123456789abcdef0123456789ABCDEF01"

abbrev pub hash_text : Text
hash_text = codes "0x00112233445566778899"

abbrev pub held : Position
held = record {
  token_addr = token;
  buy_tx_hash = hash_text;
  buy_amount_bnb = some (big 1);
  buy_token_amount = some (pos 500);
  buy_price_avg = none;
  buy_time = 0;
  target_profit_mult = float 4;
  target_loss_mult = float 0;
  sold = false;
}

-- The position is in memory, and not yet in the map.
abbrev pub allocated : Store
allocated = record { cells = λ p. if p == 0 then some held else none; positions = [] }

abbrev pub target : MonitorTarget
target = record {
  token_name = [];
  token_address = token;
  fourmeme_managers = [];
  erc20_topics = [];
  pancake_topics = [];
  fourmeme_topics = [];
  method_ids_to_monitor = [];
  buy_on_liquidity_add = true;
  buy_amount_bnb = some (big 1);
  slippage_tolerance = float 0;
  take_profit_multiple = float 2;
  stop_loss_multiple = float 0;
  trigger_on_smart_wallet_buy = true;
  trigger_on_creator_action = false;
}
