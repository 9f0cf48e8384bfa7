-- ===== src/Parser/Events.antt =====
-- parser/handler.go: what a subscribed log is recorded as, and the buys that it sets off. A buy runs
-- in a goroutine of its own: it is kept as the address that it is started with.
pub mod Laws
use go_fourmeme.Base.{
  ℕ, ◌%◌, ◌^◌, String, Bool, true, false, Option, none, some, List, [], ◌∷◌, ◌==◌, if◌then◌else◌,
}
use go_fourmeme.Base.Text.{Text}
use go_fourmeme.Base.Decimal.{decimal, value}
use go_fourmeme.Config.{
  Address, Hash, addr_token_manager1, addr_token_manager2, addr_token_manager_helper3,
  topic_transfer, pair_created_topic, mint_topic, deposit_confirm_topic,
}
use go_fourmeme.Entity.{MonitorTarget, Log, TransactionRecord}
use go_fourmeme.World.{Env, Reply, good, bad, World, Result, ok, err, panic, M, Trace, erc20}
use go_fourmeme.Database.{save_tx_record}
use go_fourmeme.Parser.Trades.{is_fourmeme_manager}

-- A record as the handlers leave it, and the tokens that buys were started for.
pub record Handled : Type 0 where
  pub row : TransactionRecord
  pub buys : List Text

-- `isSmartWallet`, a stub of the source.
unfoldable pub is_smart_wallet : Address → Bool
is_smart_wallet a = false

-- The type of a transfer's record before smart wallets as receivers are looked at.
unfoldable pub transfer_type : Address → Address → String
unfolding is_smart_wallet
transfer_type from to =
    if is_fourmeme_manager from
    then "buy_from_manager"
    else if is_fourmeme_manager to
    then (if is_smart_wallet from then "sell_to_manager_smart" else "sell_to_manager")
    else "transfer"

module _ (env : Env) where
  abbrev pub fresh_record : Log → ℕ → TransactionRecord
  fresh_record l time = record {
    tx_hash = env.hash_hex l.tx_hash;
    type = "";
    token_addr = env.hex l.address;
    amount_in = [];
    amount_out = [];
    status = "info";
    error_msg = none;
    timestamp = time;
  }

  abbrev pub typed : TransactionRecord → String → List Text → Handled
  typed r kind buys = record { row = record r { type = kind }; buys = buys }

  -- A nil target panics where one of its fields is read.
  abbrev pub wants_smart : Option MonitorTarget → Option Bool
  wants_smart none = none
  wants_smart (some t) = some t.trigger_on_smart_wallet_buy

  abbrev pub smart_buy : Option Bool → Log → TransactionRecord → String → Option Handled
  smart_buy none l r kind = none
  smart_buy (some true) l r kind = some (typed r "smart_wallet_buy" (env.hex l.address ∷ []))
  smart_buy (some false) l r kind = some (typed r kind [])

  unfoldable pub transferred :
      Log → TransactionRecord → Option MonitorTarget → Address → Address → Reply ℕ → Option Handled
  unfolding transfer_type is_smart_wallet
  transferred l r target from to (bad e) = some (typed r "transfer" [])
  transferred l r target from to (good value) =
      let valued = record r { amount_out = decimal value } in
      if is_smart_wallet to
      then smart_buy (wants_smart target) l valued (transfer_type from to)
      else some (typed valued (transfer_type from to) [])

  -- `handleTransfer`
  unfoldable pub handle_transfer :
      Log → List Hash → TransactionRecord → Option MonitorTarget → Option Handled
  unfolding transferred
  handle_transfer l (t0 ∷ t1 ∷ t2 ∷ more) r target =
      transferred l r target (t1 % 2 ^ 160) (t2 % 2 ^ 160) (env.unpack_amount "Transfer" l.bytes)
  handle_transfer l _ r target = some (typed r "transfer" [])

  -- `handleLiquidityAdd`
  unfoldable pub handle_liquidity_add :
      Log → TransactionRecord → Option MonitorTarget → Option Handled
  handle_liquidity_add l r none = none
  handle_liquidity_add l r (some t) =
      some (typed r "add_liquidity" (if t.buy_on_liquidity_add then env.hex l.address ∷ [] else []))

  -- `handlePairCreated`
  unfoldable pub handle_pair_created : TransactionRecord → Option Handled
  handle_pair_created r = some (typed r "pair_created" [])

  -- `handleDepositConfirm`
  unfoldable pub handle_deposit_confirm : Log → TransactionRecord → Option Handled
  handle_deposit_confirm l r = some (typed r "deposit_confirm" (env.hex l.address ∷ []))

  -- The switch over the first topic: outside, `none` is the default branch.
  unfoldable pub dispatch :
      Log → Hash → TransactionRecord → Option MonitorTarget → Option (Option Handled)
  unfolding handle_transfer handle_liquidity_add handle_pair_created handle_deposit_confirm
  dispatch l t0 r target =
      if t0 == topic_transfer
      then some (handle_transfer l l.topics r target)
      else if t0 == pair_created_topic
      then some (handle_pair_created r)
      else if t0 == mint_topic
      then some (handle_liquidity_add l r target)
      else if t0 == deposit_confirm_topic
      then some (handle_deposit_confirm l r)
      else none

  -- The record is saved; an error of the database is dropped.
  unfoldable pub save_handled : Option (Option Handled) → M (List Text)
  unfolding save_tx_record
  save_handled none w = (ok [], w)
  save_handled (some none) w = (panic, w)
  save_handled (some (some h)) w = (ok h.buys, (save_tx_record env (some h.row) w).1)

  unfoldable pub handle_topics : Log → List Hash → Option MonitorTarget → M (List Text)
  unfolding dispatch save_handled
  handle_topics l [] target w = (ok [], w)
  handle_topics l (t0 ∷ more) target w =
      save_handled (dispatch l t0 (fresh_record l (env.now w.trace)) target) w

  -- `HandleEvent`: the tokens that buys were started for.
  unfoldable pub handle_event : Log → Option MonitorTarget → M (List Text)
  unfolding handle_topics
  handle_event l target = handle_topics l l.topics target
