-- ===== src/Manager/Tokens.antt =====
-- manager/token_cache_manager.go: the trades of new tokens, and the creators on the two lists. The
-- cache is that of the package go-cache, which `TokenCache` stands for; `now` is the time of a call.
-- An entry is a pointer that only the cache holds, so it is kept as its value.
pub mod Laws
use go_fourmeme.Base.{
  ℕ, ◌+◌, ◌-◌, String, Bool, true, false, ◌&&◌, ◌||◌, Option, none, some, List, [], ◌∷◌, map, leb,
  if◌then◌else◌,
}
use go_fourmeme.Base.Text.{Text, codes, eq_text, to_lower, equal_fold, slice10}
use go_fourmeme.Config.{Address}
use go_fourmeme.Entity.{Float64}
use go_fourmeme.Manager.Positions.{Outcome, returned, panicked}

pub record TokenCacheEntry : Type 0 where
  pub creator : Address
  pub create_time : ℕ
  pub level : String
  pub buy_count : ℕ
  pub sell_count : ℕ
  pub buy_amount_bnb : Float64
  pub sell_amount_bnb : Float64

-- go-cache, and what else the code uses: the print of an address, and float64's 0 and sum.
pub record TokenCache : Type 1 where
  pub Cache : Type 0
  pub get : ℕ → Text → Cache → Option TokenCacheEntry
  pub set : ℕ → Text → TokenCacheEntry → Cache → Cache
  pub delete : Text → Cache → Cache
  pub hex : Address → Text
  pub zero64 : Float64
  pub add64 : Float64 → Float64 → Float64

-- A membership test of the list of texts that stands for a set.
abbrev pub listed : Text → List Text → Bool
listed k [] = false
listed k (x ∷ xs) = eq_text x k || listed k xs

-- The text that stands in the place of the seller's address.
abbrev pub seller_address : Text
seller_address = codes "seller_address"

module _ (ops : TokenCache) where
  -- The cache, the two lists, and the rows that were handed to the database for them.
  pub record Tokens : Type 0 where
    pub cache : ops.Cache
    pub blacklist : List Text
    pub whitelist : List Text
    pub black_rows : List Text
    pub white_rows : List Text

  abbrev pub key_of : Address → Text
  key_of a = to_lower (ops.hex a)

  -- `InitTokenCache`, from an empty cache and the creators that the database lists.
  unfoldable pub init_token_cache : ops.Cache → List Text → List Text → Tokens
  init_token_cache empty blacks whites = record {
    cache = empty;
    blacklist = map to_lower blacks;
    whitelist = map to_lower whites;
    black_rows = [];
    white_rows = [];
  }

  -- The log line at the end slices the address.
  abbrev pub logged : Text → Tokens → Outcome × Tokens
  logged token_addr s = (elim (slice10 token_addr) [ none ↦ panicked | some _ ↦ returned ], s)

  -- `AddTokenToCache`
  unfoldable pub add_token_to_cache : ℕ → Text → Address → Tokens → Outcome × Tokens
  add_token_to_cache now token_addr creator s =
      let entry : TokenCacheEntry = record {
        creator = creator;
        create_time = now;
        level = "normal";
        buy_count = 0;
        sell_count = 0;
        buy_amount_bnb = ops.zero64;
        sell_amount_bnb = ops.zero64;
      } in
      logged token_addr (record s { cache = ops.set now (to_lower token_addr) entry s.cache })

  -- `AddToBlacklist`
  unfoldable pub add_to_blacklist : Address → Text → Tokens → Outcome × Tokens
  add_to_blacklist creator token_addr s = logged token_addr (record s {
    blacklist = key_of creator ∷ s.blacklist;
    black_rows = key_of creator ∷ s.black_rows;
  })

  -- `AddToWhitelist`
  unfoldable pub add_to_whitelist : Address → Text → Tokens → Outcome × Tokens
  add_to_whitelist creator token_addr s = logged token_addr (record s {
    whitelist = key_of creator ∷ s.whitelist;
    white_rows = key_of creator ∷ s.white_rows;
  })

  -- `IsBlacklisted` and `IsWhitelisted`
  unfoldable pub is_blacklisted : Address → Tokens → Bool
  is_blacklisted a s = listed (key_of a) s.blacklist

  unfoldable pub is_whitelisted : Address → Tokens → Bool
  is_whitelisted a s = listed (key_of a) s.whitelist

  -- An entry with one more trade.
  abbrev pub counted : Bool → Float64 → TokenCacheEntry → TokenCacheEntry
  counted true amount e = record e {
    buy_count = e.buy_count + 1;
    buy_amount_bnb = ops.add64 e.buy_amount_bnb amount;
  }
  counted false amount e = record e {
    sell_count = e.sell_count + 1;
    sell_amount_bnb = ops.add64 e.sell_amount_bnb amount;
  }

  -- The creator sold within a minute.
  abbrev pub sold_early : ℕ → Bool → TokenCacheEntry → Bool
  sold_early now true e = false
  sold_early now false e =
      equal_fold (ops.hex e.creator) seller_address && leb (now - e.create_time) 60

  abbrev pub put_entry : ℕ → Text → TokenCacheEntry → Outcome × Tokens → Outcome × Tokens
  put_entry now key e (panicked, s) = (panicked, s)
  put_entry now key e (returned, s) = (returned, record s { cache = ops.set now key e s.cache })

  -- The entry is removed, and set again at the end.
  abbrev pub dropped : Text → Outcome × Tokens → Outcome × Tokens
  dropped key (panicked, s) = (panicked, s)
  dropped key (returned, s) = (returned, record s { cache = ops.delete key s.cache })

  unfoldable pub update_found :
      ℕ → Text → Bool → Float64 → Option TokenCacheEntry → Tokens → Outcome × Tokens
  unfolding add_to_blacklist
  update_found now token_addr is_buy amount none s = (returned, s)
  update_found now token_addr is_buy amount (some e) s =
      put_entry now (to_lower token_addr) (counted is_buy amount e) (
        if sold_early now is_buy e
        then dropped (to_lower token_addr) (add_to_blacklist e.creator token_addr s)
        else (returned, s))

  -- `UpdateTradeStats`
  unfoldable pub update_trade_stats : ℕ → Text → Bool → Float64 → Tokens → Outcome × Tokens
  unfolding update_found
  update_trade_stats now token_addr is_buy amount s =
      update_found now token_addr is_buy amount (ops.get now (to_lower token_addr) s.cache) s
