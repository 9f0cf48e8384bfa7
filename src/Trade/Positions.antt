-- ===== src/Trade/Positions.antt =====
-- trade/trade_utils.go: amounts, receipts and the positions that trades open.
pub mod Laws
use go_fourmeme.Base.{
  ℕ, zero, suc, ◌+◌, ◌%◌, ◌^◌, Bool, false, ◌&&◌, Option, none, some, List, [], ◌∷◌, ◌==◌,
  if◌then◌else◌,
}
use go_fourmeme.Base.Text.{Text, eq_text}
use go_fourmeme.Base.Int.{ℤ, pos}
use go_fourmeme.Config.{Address, addr_token_manager2, topic_transfer}
use go_fourmeme.Entity.{BigFloat, MonitorTarget, Position, Log, Receipt}
use go_fourmeme.World.{
  Env, not_found, message, get_receipt, wait, good, bad, ok, err, panic, M, pure, gets, or_panic,
  ◌>>=◌,
}
use go_fourmeme.Manager.Positions.{returned, panicked, add_position}
use go_fourmeme.Client.Fourmeme.{int_or_zero}
use go_fourmeme.Utils.Words.{set_bytes}

-- A new cell for a position, and `manager.AddPosition` of the pointer to it.
unfoldable pub open_position : Position → M (Unit {0})
open_position position w =
    let ptr = w.next_cell in
    let store = record w.store {
      cells = λ q. if q == ptr then some position else w.store.cells q;
    } in
    let (store', outcome) = add_position (some ptr) store in
    (
      elim outcome [ returned ↦ ok tt | panicked ↦ panic ],
      record w { store = store'; next_cell = ptr + 1 },
    )

-- A transfer from the manager to the wallet. An address is the low 20 bytes of a topic.
unfoldable pub payout_topics : Address → List ℕ → Bool
payout_topics wallet (t0 ∷ t1 ∷ t2 ∷ more) =
    t0 == topic_transfer && t1 % 2 ^ 160 == addr_token_manager2 && t2 % 2 ^ 160 == wallet
payout_topics wallet _ = false

-- The log that `ExtractTokenOutFromReceipt` takes, of the token whose address is spelled so.
unfoldable pub is_payout : Address → Text → (Address → Text) → Log → Bool
unfolding payout_topics
is_payout wallet token_addr hex l =
    payout_topics wallet l.topics && eq_text (hex l.address) token_addr

module _ (env : Env) where
  -- `ToWei`: nil is 0, and an infinity leaves the fresh integer 0.
  unfoldable pub to_wei : Option BigFloat → M ℤ
  to_wei none = pure (pos 0)
  to_wei (some amount_bnb) = do
    wei ← or_panic (env.floats.mul amount_bnb (env.floats.set_int (pos (10 ^ 18))))
    pure (int_or_zero (env.floats.to_int wei))

  -- `WaitForReceipt`: a question every three seconds for as long as the receipt is not found; each
  -- round uses one unit of fuel. Out of fuel the deadline of the context has passed.
  unfoldable pub wait_for_receipt : ℕ → Text → M Receipt
  wait_for_receipt zero hash w = (err (message "deadline"), w)
  wait_for_receipt (suc rounds) hash w =
      let asked = record w { trace = get_receipt hash ∷ w.trace } in
      elim (env.receipt w.trace hash) [
        | good receipt ↦ (ok receipt, asked)
        | bad e ↦ elim e [
          | not_found ↦
              wait_for_receipt rounds hash
                (record w { trace = wait 3 ∷ get_receipt hash ∷ w.trace })
          | other ↦ (err other, asked)
        ]
      ]

  -- The first payout among the logs. A nil log panics.
  unfoldable pub extract_from : Text → List (Option Log) → M (Option ℕ)
  extract_from token_addr [] w = (ok none, w)
  extract_from token_addr (none ∷ logs) w = (panic, w)
  extract_from token_addr (some l ∷ logs) w =
      let rest = extract_from token_addr logs w in
      if is_payout env.wallet_address token_addr env.hex l
      then (ok (some (set_bytes 0 l.bytes)), w)
      else rest

  -- `ExtractTokenOutFromReceipt`
  unfoldable pub extract_token_out_from_receipt : Receipt → Text → M (Option ℕ)
  unfolding extract_from
  extract_token_out_from_receipt receipt token_addr = extract_from token_addr receipt.logs

  -- `AddPositionFromReceipt`
  unfoldable pub add_position_from_receipt : Text → Text → MonitorTarget → Option ℤ → M (Unit {0})
  unfolding open_position
  add_position_from_receipt token_addr tx_hash target token_out = do
    amount ← or_panic target.buy_amount_bnb
    tokens ← or_panic token_out
    price ← or_panic (env.floats.quo amount (env.floats.set_int tokens))
    time ← gets (λ w. env.now w.trace)
    open_position (record {
      token_addr = token_addr;
      buy_tx_hash = tx_hash;
      buy_amount_bnb = some amount;
      buy_token_amount = some tokens;
      buy_price_avg = some price;
      buy_time = time;
      target_profit_mult = target.take_profit_multiple;
      target_loss_mult = target.stop_loss_multiple;
      sold = false;
    })

  -- `AddPositionFromEstimate`
  unfoldable pub add_position_from_estimate : Text → Text → MonitorTarget → Option ℤ → M (Unit {0})
  unfolding add_position_from_receipt
  add_position_from_estimate token_addr tx_hash target estimated_out =
      add_position_from_receipt token_addr tx_hash target estimated_out
