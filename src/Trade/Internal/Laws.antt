-- ===== src/Trade/Internal/Laws.antt =====
-- The four trades with the managers against the contract of a submission.
use go_fourmeme.Base.{◌≡◌}
use go_fourmeme.Base.Text.{Text}
use go_fourmeme.Base.Int.{ℤ}
use go_fourmeme.Config.{Address}
use go_fourmeme.World.{Env, Error, Reply, good, bad, World, Result, err}
use go_fourmeme.Trade.Submit.Laws.{Submits}

module _ (env : Env) where
  -- A trade whose arguments cannot be packed asks nothing of anybody and reports `e`. Otherwise it
  -- is a submission of the packed call.
  abbrev pub Trades : World → Reply Text → Error → Address → ℤ → Text → Result Text × World → Type 0
  Trades w (good input) e to amount token_addr r = Submits env w to amount input token_addr r
  Trades w (bad _) e to amount token_addr r = r ≡ (err e, w)
