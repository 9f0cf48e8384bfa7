-- ===== src/Parser/Native/Laws.antt =====
-- Which transfers are reported.
use go_fourmeme.Base.{
  ℕ, ◌≡◌, refl, inl, inr, true, false, Option, none, some, List, ◌∷◌, Bool-cases,
}
use go_fourmeme.Config.{Address}
use go_fourmeme.Entity.{Log, Receipt, SentTx, Float64}
use go_fourmeme.World.{nonce_at, Env, Error, get_transaction, Reply, good, bad, World, Result, ok}
use go_fourmeme.Parser.Native.{
  in_bnb, is_large, Transfer, is_simple, is_positive, report, report_large, measure, look_at,
  look_up, parse_transfer,
}

module _ (env : Env) (logs : List Log) (r : Receipt) (w : World) where
  -- A report is of a simple receipt, and tells the receiver and the value, which is above zero, of
  -- the transaction that the node answered for its hash.
  abbrev pub Reported : Result (Option Transfer) → Type 0
  Reported (ok (some t)) =
      (is_simple logs r ≡ true)
      × (tx : SentTx) × (env.transaction_of w.trace r.tx_hash ≡ good (some tx))
      × (tx.to ≡ some t.to)
      × (t.value ≡ tx.value)
      × (is_positive t.value ≡ true)
  Reported _ = Unit {0}

  module _ (simple : is_simple logs r ≡ true) (tx : SentTx)
      (told : env.transaction_of w.trace r.tx_hash ≡ good (some tx)) (to : Address)
      (sent : tx.to ≡ some to) (above : is_positive tx.value ≡ true) where
    report-Reported : (n : ℕ × Option Error) (v : World) → Reported (report env tx to n v).0
    unfolding report
    report-Reported (n, some e) v = tt
    report-Reported (n, none) v = (simple, tx, told, sent, refl, above)

    measure-Reported : (x : Option Float64) (v : World) → Reported (measure env tx to x v).0
    unfolding measure report_large
    measure-Reported none v = tt
    measure-Reported (some amount) v = elim (Bool-cases (is_large env amount)) [
      | inl large ↦
          rw large
            (report-Reported (env.nonce v.trace to) (record v { trace = nonce_at to ∷ v.trace }))
      | inr small ↦ rw small tt
    ]

  look_at-Reported :
      (tx : SentTx) (to : Option Address) (v : World)
      → is_simple logs r ≡ true
      → env.transaction_of w.trace r.tx_hash ≡ good (some tx)
      → tx.to ≡ to
      → Reported (look_at env tx to v).0
  unfolding look_at
  look_at-Reported tx none v simple told sent = tt
  look_at-Reported tx (some to) v simple told sent = elim (Bool-cases (is_positive tx.value)) [
    | inl above ↦ rw above (measure-Reported simple tx told to sent above (in_bnb env tx.value) v)
    | inr other ↦ rw other tt
  ]

  look_up-Reported :
      (reply : Reply (Option SentTx)) (v : World)
      → is_simple logs r ≡ true
      → env.transaction_of w.trace r.tx_hash ≡ reply
      → Reported (look_up env reply v).0
  unfolding look_up
  look_up-Reported (bad e) v simple told = tt
  look_up-Reported (good none) v simple told = tt
  look_up-Reported (good (some tx)) v simple told = look_at-Reported tx tx.to v simple told refl

  -- The handler of native transfers reports only the receipts of plain transfers, with the receiver
  -- and the value of the node's transaction, the value above zero; of any other receipt it asks the
  -- node nothing.
  pub parse_transfer-Reported :
      Reported (parse_transfer env logs r w).0
      × (is_simple logs r ≡ false → parse_transfer env logs r w ≡ (ok none, w))
  unfolding parse_transfer
  parse_transfer-Reported = elim (Bool-cases (is_simple logs r)) [
    | inl simple ↦ rw simple (
      look_up-Reported (env.transaction_of w.trace r.tx_hash)
          (record w { trace = get_transaction r.tx_hash ∷ w.trace }) simple refl,
      λ h. cc,
    )
    | inr other ↦ rw other (tt, λ h. refl)
  ]
