-- ===== src/Manager/Tokens/Laws.antt =====
-- What the statistics of a trade change.
use go_fourmeme.Base.{ℕ, ◌≡◌, Bool, Option, none, some, length}
use go_fourmeme.Base.Text.{Text, to_lower}
use go_fourmeme.Config.{Address}
use go_fourmeme.Entity.{Float64}
use go_fourmeme.Manager.Positions.{Outcome, returned}
use go_fourmeme.Manager.Tokens.{TokenCache, TokenCacheEntry, Tokens, counted}

-- An address prints as 42 characters.
abbrev pub HexIsFull : TokenCache → Type 0
HexIsFull ops = (a : Address) → length (ops.hex a) ≡ 42

-- What was set is found at the same time.
abbrev pub GetsWhatIsSet : TokenCache → Type 0
GetsWhatIsSet ops =
    (now : ℕ) (key : Text) (e : TokenCacheEntry) (c : ops.Cache)
    → ops.get now key (ops.set now key e c) ≡ some e

module _ (ops : TokenCache) where
  -- What is known after a trade of a token whose entry was this one.
  abbrev pub Updated :
      ℕ
      → Text
      → Bool
      → Float64
      → Tokens ops
      → Option TokenCacheEntry
      → Outcome × Tokens ops
      → Type 0
  Updated now token is_buy amount s none x = x ≡ (returned, s)
  Updated now token is_buy amount s (some e) (r, s') =
      (r ≡ returned)
      × (ops.get now (to_lower token) s'.cache ≡ some (counted ops is_buy amount e))
      × (s'.blacklist ≡ s.blacklist)
      × (s'.whitelist ≡ s.whitelist)
      × (s'.black_rows ≡ s.black_rows)
