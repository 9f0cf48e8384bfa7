-- ===== src/Database.antt =====
-- database/repository.go: the two insertions that the program makes. The database answers with an
-- error or none.
use go_fourmeme.Base.{Option, none, some, ◌∷◌}
use go_fourmeme.Entity.{TransactionRecord, Transaction}
use go_fourmeme.World.{Env, Error, insert_record, insert_transaction, Result, ok, err, M}

abbrev pub stored : Option Error → Result (Unit {0})
stored none = ok tt
stored (some e) = err e

module _ (env : Env) where
  -- `SaveTxRecord`: the time is set here, whatever it was.
  unfoldable pub save_tx_record : Option TransactionRecord → M (Unit {0})
  save_tx_record none w = (ok tt, w)
  save_tx_record (some r) w = (
    stored (env.inserting w.trace),
    record w { trace = insert_record (record r { timestamp = env.now w.trace }) ∷ w.trace },
  )

  -- `SaveTransaction`
  unfoldable pub save_transaction : Transaction → M (Unit {0})
  save_transaction tx w =
      (stored (env.inserting w.trace), record w { trace = insert_transaction tx ∷ w.trace })
