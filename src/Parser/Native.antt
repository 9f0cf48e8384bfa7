-- ===== src/Parser/Native.antt =====
-- parser/native/transfer_handler.go: large plain transfers of BNB. The handler only writes a line to
-- the log, so what the line tells is what the model returns. The exit of a fatal log line is a panic.
pub mod Laws
use go_fourmeme.Base.{
  ℕ, ◌^◌, Bool, true, false, not, ◌&&◌, ◌||◌, Option, none, some, List, [], ◌∷◌, ltb, leb, ◌==◌,
  if◌then◌else◌,
}
use go_fourmeme.Base.Int.{ℤ, pos, negsuc}
use go_fourmeme.Config.{Address, addr_zero}
use go_fourmeme.Entity.{Log, Receipt, SentTx, Float64}
use go_fourmeme.World.{
  Env, Error, Call, get_transaction, nonce_at, Reply, good, bad, World, Result, ok, err, panic, M,
  Trace, pure, ask, or_panic, ◌>>◌, ◌>>=◌,
}

abbrev pub max_gas_for_simple : ℕ
max_gas_for_simple = 30000

-- A reported transfer: its receiver, the amount in BNB, and whether the receiver is new.
pub record Transfer : Type 0 where
  pub to : Address
  pub value : ℤ
  pub is_new : Bool

abbrev pub no_logs : {A : Type 0} → List A → Bool
no_logs [] = true
no_logs (l ∷ ls) = false

-- A receipt of a plain transfer: no contract, no logs, little gas, a type of 0 or 2.
unfoldable pub is_simple : List Log → Receipt → Bool
is_simple logs r =
    no_logs logs
    && r.contract_address == addr_zero
    && no_logs r.logs
    && leb r.gas_used max_gas_for_simple
    && (r.tx_type == 0 || r.tx_type == 2)

abbrev pub is_positive : ℤ → Bool
is_positive (pos n) = ltb 0 n
is_positive (negsuc n) = false

module _ (env : Env) where
  abbrev pub is_large : Float64 → Bool
  is_large amount = not (env.floats.le64 amount (env.floats.literal 10 0))

  unfoldable pub report : SentTx → Address → ℕ × Option Error → M (Option Transfer)
  report tx to (n, some e) w = (panic, w)
  report tx to (n, none) w = (ok (some (record { to = to; value = tx.value; is_new = n == 0 })), w)

  unfoldable pub report_large : SentTx → Address → Float64 → M (Option Transfer)
  unfolding report
  report_large tx to amount w =
      if is_large amount
      then report tx to (env.nonce w.trace to) (record w { trace = nonce_at to ∷ w.trace })
      else (ok none, w)

  -- The amount in BNB, as a float64.
  abbrev pub in_bnb : ℤ → Option Float64
  in_bnb value = elim (env.floats.new_float (env.floats.literal (10 ^ 18) 0)) [
    | none ↦ none
    | some unit ↦ elim (env.floats.quo (env.floats.set_int value) unit) [
      | none ↦ none
      | some x ↦ some (env.floats.to_float64 x)
    ]
  ]

  unfoldable pub measure : SentTx → Address → Option Float64 → M (Option Transfer)
  unfolding report_large
  measure tx to none w = (panic, w)
  measure tx to (some amount) w = report_large tx to amount w

  unfoldable pub look_at : SentTx → Option Address → M (Option Transfer)
  unfolding measure
  look_at tx none w = (ok none, w)
  look_at tx (some to) w =
      if is_positive tx.value then measure tx to (in_bnb tx.value) w else (ok none, w)

  unfoldable pub look_up : Reply (Option SentTx) → M (Option Transfer)
  unfolding look_at
  look_up (bad e) w = (ok none, w)
  look_up (good none) w = (ok none, w)
  look_up (good (some tx)) w = look_at tx tx.to w

  -- `TransferHandler.ParseLog` of a receipt that is there.
  unfoldable pub parse_transfer : List Log → Receipt → M (Option Transfer)
  unfolding look_up is_simple
  parse_transfer logs r w =
      if is_simple logs r
      then look_up (env.transaction_of w.trace r.tx_hash)
          (record w { trace = get_transaction r.tx_hash ∷ w.trace })
      else (ok none, w)
