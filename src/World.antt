-- ===== src/World.antt =====
-- What the program shares and what it asks of others: the state of the process, the trace of the
-- requests to the node, the database and the web, and the code outside the repository as a
-- parameter.
use go_fourmeme.Base.{ℕ, String, Bool, true, false, Option, none, some, List, ◌∷◌}
use go_fourmeme.Base.Text.{Text}
use go_fourmeme.Base.Int.{ℤ}
use go_fourmeme.Config.{Address, Hash}
use go_fourmeme.Entity.{
  Holder, SentTx, BigFloat, Float64, TransactionRecord, Transaction, Receipt, LegacyTx, Arg,
  TokenInfo,
}
use go_fourmeme.Manager.Positions.{Store}

-- An error is known by a number: those of the program itself are below, those of others are any.
pub data Error : Type 0 where
  message : String → Error
  external : ℕ → Error
  not_found : Error

-- What `UnpackIntoInterface` puts into a slice of interfaces.
pub data Value : Type 0 where
  address_value : Address → Value
  number_value : ℕ → Value

-- The ABI files by the name that GetABI takes.
pub data AbiRef : Type 0 where
  token_manager token_manager2 token_manager_helper erc20 pancake_router_abi : AbiRef

-- A request that leaves the process, as one entry of the trace. The last one stands first.
pub data Call : Type 0 where
  nonce_at : Address → Call
  suggest_gas : Call
  call_contract : Address → Text → Call
  -- a transaction with its signature
  send : LegacyTx → ℕ → Call
  get_receipt : Text → Call
  get_transaction : Hash → Call
  holder_page : Text → ℕ → ℕ → Call
  query_price : Call
  query_head : Call
  block_receipts : ℕ → Call
  dial : Text → Call
  insert_record : TransactionRecord → Call
  insert_transaction : Transaction → Call
  wait : ℕ → Call

abbrev pub Trace : Type 0
Trace = List Call

-- How a Go call of another package ends: a value or an error.
pub data Reply (A : Type 0) : Type 0 where
  good : A → Reply A
  bad : Error → Reply A

-- math/big.Float and float64. `none` is the panic of an operation that has no value.
pub record FloatOps : Type 0 where
  pub set_int : ℤ → BigFloat
  -- a NaN panics
  pub new_float : Float64 → Option BigFloat
  pub mul : BigFloat → BigFloat → Option BigFloat
  pub quo : BigFloat → BigFloat → Option BigFloat
  -- towards zero; `none` for an infinity
  pub to_int : BigFloat → Option ℤ
  pub to_float64 : BigFloat → Float64
  pub print : BigFloat → Text
  -- literal m k is m / 10 ^ k
  pub literal : ℕ → ℕ → Float64
  pub sub64 : Float64 → Float64 → Float64
  pub mul64 : Float64 → Float64 → Float64
  pub lt64 : Float64 → Float64 → Bool
  pub le64 : Float64 → Float64 → Bool
  -- int(x)
  pub int64 : Float64 → ℤ

-- What the price service answered: updateBNBPrice tells these cases apart. The last is the entry of
-- the map under "USDT".
pub data PriceAnswer : Type 0 where
  unreachable unreadable malformed : PriceAnswer
  status : ℕ → PriceAnswer
  usdt : Option Float64 → PriceAnswer

-- go-ethereum and the services, each as a function of what was asked before: a node, a database or
-- a clock may answer the same request differently the next time.
pub record Env : Type 0 where
  pub floats : FloatOps
  pub hex : Address → Text
  pub hash_hex : Hash → Text
  pub hex_to_address : Text → Address
  pub hex_to_hash : Text → Hash
  pub now : Trace → ℕ
  pub pack : AbiRef → String → List Arg → Reply Text
  pub nonce : Trace → Address → ℕ × Option Error
  pub gas_price : Trace → Option ℤ × Option Error
  pub contract : Trace → Address → Text → Reply Text
  -- `types.SignTx` leaves the transaction as it is and adds a signature
  pub sign : ℕ → LegacyTx → Reply ℕ
  pub tx_hash : LegacyTx → ℕ → Text
  pub unpack_amounts : Text → Reply (List ℕ)
  pub unpack_amount : String → Text → Reply ℕ
  pub unpack_info : Text → Reply TokenInfo
  pub unpack_values : String → Text → Reply (List Value)
  pub sending : Trace → LegacyTx → Option Error
  pub receipt : Trace → Text → Reply Receipt
  pub inserting : Trace → Option Error
  pub private_key : Reply ℕ
  pub price_answer : Trace → PriceAnswer
  pub key_address : ℕ → Address
  pub wallet_address : Address
  pub error_text : Error → ℕ
  pub head : Trace → Reply ℕ
  pub receipts_of : Trace → ℕ → Reply (List (Option Receipt))
  -- the client of BscScan: a page of holders, by token, page and size
  pub holders_of : Trace → Text → ℕ → ℕ → Reply (List Holder)
  pub transaction_of : Trace → Hash → Reply (Option SentTx)
  -- `big.Int.SetString` to the base of ten
  pub parse_int : Text → Option ℤ

-- The cache of the BNB price: client/price_client.go, bnbPriceCache.
pub record PriceCache : Type 0 where
  pub price : Float64
  pub timestamp : ℕ

pub record World : Type 0 where
  pub trace : Trace
  pub store : Store
  pub next_cell : ℕ
  pub price_cache : PriceCache
  -- parser/block_parser.go, lastProcessedBlock
  pub last_processed : ℕ

-- A function of the program: it returns, returns an error, or panics; what it did stays done.
pub data Result (A : Type 0) : Type 0 where
  ok : A → Result A
  err : Error → Result A
  panic : Result A

abbrev pub M : Type 0 → Type 0
M A = World → Result A × World

module _ {A : Type 0} where
  abbrev pub pure : A → M A
  pure a w = (ok a, w)

  abbrev pub throw : Error → M A
  throw e w = (err e, w)

  abbrev pub panics : M A
  panics w = (panic, w)

  abbrev pub gets : (World → A) → M A
  gets f w = (ok (f w), w)

  abbrev pub ask : Call → (Trace → A) → M A
  ask c f w = (ok (f w.trace), record w { trace = c ∷ w.trace })

  -- `if err != nil { return err }`
  abbrev pub check : Reply A → M A
  check (good a) w = (ok a, w)
  check (bad e) w = (err e, w)

  -- the same, with an error of the caller's own
  abbrev pub check_as : Reply A → Error → M A
  check_as (good a) e w = (ok a, w)
  check_as (bad _) e w = (err e, w)

  -- nil where a value is needed
  abbrev pub or_panic : Option A → M A
  or_panic none w = (panic, w)
  or_panic (some a) w = (ok a, w)

  -- the error as a value, for code that goes on after it
  abbrev pub attempt : M A → M (Reply A)
  attempt m w =
      let (r, w') = m w in
      elim r [ ok a ↦ (ok (good a), w') | err e ↦ (ok (bad e), w') | panic ↦ (panic, w') ]

infixl 5 ◌>>=◌ ◌>>◌
abbrev pub ◌>>=◌ : {A B : Type 0} → M A → (A → M B) → M B
◌>>=◌ m f w =
    let (r, w') = m w in elim r [ ok a ↦ f a w' | err e ↦ (err e, w') | panic ↦ (panic, w') ]

abbrev pub ◌>>◌ : {A B : Type 0} → M A → M B → M B
m >> k = m >>= λ _. k

abbrev pub fail_if : Bool → Error → M (Unit {0})
fail_if true e w = (err e, w)
fail_if false e w = (ok tt, w)

abbrev pub modify : (World → World) → M (Unit {0})
modify f w = (ok tt, f w)
