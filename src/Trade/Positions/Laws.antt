-- ===== src/Trade/Positions/Laws.antt =====
-- Waiting for a receipt ends well when the node answers in time.
use go_fourmeme.Base.{ℕ, zero, suc, ◌≡◌, ◌∷◌}
use go_fourmeme.Base.Text.{Text}
use go_fourmeme.World.{Env, wait, get_receipt, not_found, bad, World, Trace}

-- The trace after so many questions that found nothing, each with its pause.
abbrev pub after_rounds : ℕ → Text → Trace → Trace
after_rounds zero hash t = t
after_rounds (suc k) hash t = after_rounds k hash (wait 3 ∷ get_receipt hash ∷ t)

-- The node finds nothing in the first `k` rounds.
abbrev pub Missing : Env → ℕ → Text → Trace → Type 0
Missing env zero hash t = Unit {0}
Missing env (suc k) hash t =
    (env.receipt t hash ≡ bad not_found) × Missing env k hash (wait 3 ∷ get_receipt hash ∷ t)
