-- ===== src/Parser/Blocks/Laws.antt =====
-- Which blocks the polling of parser/block_parser.go asks for.
use go_fourmeme.Base.{ℕ, zero, suc, ◌≡◌, true, false, Option, none, some, List, [], ◌∷◌, ◌++◌, All}
use go_fourmeme.Base.Text.{Text}
use go_fourmeme.Entity.{MonitorTarget}
use go_fourmeme.World.{Env, block_receipts, World, Result, ok, Trace}
use go_fourmeme.Parser.Blocks.{poll_new_blocks, watches}

-- The blocks that the node was asked for, the first one first.
abbrev pub asked : Trace → List ℕ
asked [] = []
asked (block_receipts n ∷ t) = asked t ++ (n ∷ [])
asked (c ∷ t) = asked t

-- `count` numbers from `from` on.
abbrev pub range : ℕ → ℕ → List ℕ
range zero from = []
range (suc count) from = from ∷ range count (suc from)

module _ (env : Env) (t : MonitorTarget) (ts : List MonitorTarget) where
  -- What a loop or a poll did: it ended well, asked for these blocks, and remembers this one.
  abbrev pub Asked : List ℕ → ℕ → World → Result (Unit {0}) × World → Type 0
  Asked ns last w (r, w') =
      (r ≡ ok tt) × (asked w'.trace ≡ asked w.trace ++ ns) × (w'.last_processed ≡ last)

  -- The state after so many polls.
  abbrev pub after_polls : ℕ → World → World
  after_polls zero w = w
  after_polls (suc k) w = after_polls k (poll_new_blocks env (t ∷ ts) w).1

-- What is known of the target that was found for an address, or of all where none was.
abbrev pub Found : Text → List MonitorTarget → Option MonitorTarget → Type 0
Found addr targets none = All (λ t. watches addr t ≡ false) targets
Found addr targets (some t) = watches addr t ≡ true
