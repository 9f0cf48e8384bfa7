-- ===== src/Entity.antt =====
-- The package entity: configuration, positions and database rows; and the values of go-ethereum
-- that the program reads. A float is kept as the number that represents it: only the operations of
-- `World.FloatOps` look inside.
use go_fourmeme.Base.{ℕ, String, Bool, Option, List}
use go_fourmeme.Base.Text.{Text}
use go_fourmeme.Base.Int.{ℤ}
use go_fourmeme.Config.{Address, Hash}

-- *big.Float
pub record BigFloat : Type 0 where
  pub repr : ℕ

-- float64
pub record Float64 : Type 0 where
  pub bits : ℕ

-- entity/config/monitor_target.go
pub record MonitorTarget : Type 0 where
  pub token_name : Text
  pub token_address : Text
  pub fourmeme_managers : List Text
  pub erc20_topics : List Text
  pub pancake_topics : List Text
  pub fourmeme_topics : List Text
  pub method_ids_to_monitor : List Text
  pub buy_on_liquidity_add : Bool
  pub buy_amount_bnb : Option BigFloat
  pub slippage_tolerance : Float64
  pub take_profit_multiple : Float64
  pub stop_loss_multiple : Float64
  pub trigger_on_smart_wallet_buy : Bool
  pub trigger_on_creator_action : Bool

-- entity/position.go. `none` is a nil pointer; a time is in seconds, 0 the zero time.
pub record Position : Type 0 where
  pub token_addr : Text
  pub buy_tx_hash : Text
  pub buy_amount_bnb : Option BigFloat
  pub buy_token_amount : Option ℤ
  pub buy_price_avg : Option BigFloat
  pub buy_time : ℕ
  pub target_profit_mult : Float64
  pub target_loss_mult : Float64
  pub sold : Bool

-- entity/po/transaction_record.go, without the key that the database assigns and the slippage,
-- which nothing writes.
pub record TransactionRecord : Type 0 where
  pub tx_hash : Text
  pub type : String
  pub token_addr : Text
  pub amount_in : Text
  pub amount_out : Text
  pub status : String
  pub error_msg : Option ℕ
  pub timestamp : ℕ

-- entity/po/transaction.go
pub record Transaction : Type 0 where
  pub tx_unique_seq : Text
  pub block_number : Text
  pub tx_index : Text
  pub tx_hash : Text
  pub send : Text
  pub receive : Text
  pub type : ℕ
  pub protocol : String
  pub protocol_address : Text
  pub token_address : Text
  pub payment_token : String
  pub token_amount : Text
  pub payment_amount : Text
  pub price : Text
  pub volume : Text
  pub created_at : ℕ

-- types.Log
pub record Log : Type 0 where
  pub address : Address
  pub topics : List Hash
  pub tx_hash : Hash
  pub bytes : Text

-- types.Receipt
pub record Receipt : Type 0 where
  pub tx_hash : Hash
  pub block_number : ℕ
  pub transaction_index : ℕ
  pub contract_address : Address
  pub gas_used : ℕ
  pub tx_type : ℕ
  pub logs : List (Option Log)

-- types.LegacyTx. `none` is a nil pointer.
pub record LegacyTx : Type 0 where
  pub nonce : ℕ
  pub to : Address
  pub amount : ℤ
  pub gas : ℕ
  pub gas_price : Option ℤ
  pub payload : Text

-- The arguments of `abi.Pack`.
pub data Arg : Type 0 where
  number : Option ℤ → Arg
  address : Address → Arg
  path : List Address → Arg

-- client/fourmeme_client.go: TokenStatus and TokenInfo.
pub data TokenStatus : Type 0 where
  unset unknown trading adding_liquidity halt completed : TokenStatus

pub record TokenInfo : Type 0 where
  pub version : ℕ
  pub token_manager : Address
  pub quote : Address
  pub last_price : ℕ
  pub trading_fee_rate : ℕ
  pub min_trading_fee : ℕ
  pub launch_time : ℕ
  pub offers : ℕ
  pub max_offers : ℕ
  pub funds : ℕ
  pub max_funds : ℕ
  pub liquidity_added : Bool
  pub status : TokenStatus

-- client/bscscan_client.go: Holder.
pub record Holder : Type 0 where
  pub address : Address
  pub balance : Text

-- types.Transaction, as far as it is read. `none` is the receiver of a contract's creation.
pub record SentTx : Type 0 where
  pub to : Option Address
  pub value : ℤ
