-- ===== src/Tests/Tokens.antt =====
-- The token cache at concrete inputs.
use go_fourmeme.Base.{Option, none, some, [], if◌then◌else◌}
use go_fourmeme.Base.Text.{Text, eq_text}
use go_fourmeme.Manager.Tokens.{TokenCache, TokenCacheEntry, Tokens}
use go_fourmeme.Tests.Setup.{show, float}

-- A cache without expiry, as a function of the key.
abbrev lasting : TokenCache
lasting = record {
  Cache = Text → Option TokenCacheEntry;
  get = λ now key c. c key;
  set = λ now key e c. λ k. if eq_text key k then some e else c k;
  delete = λ key c. λ k. if eq_text key k then none else c k;
  hex = show;
  zero64 = float 0;
  add64 = λ a b. a;
}

abbrev one_sale : TokenCacheEntry
one_sale = record {
  creator = 3;
  create_time = 0;
  level = "normal";
  buy_count = 0;
  sell_count = 1;
  buy_amount_bnb = float 0;
  sell_amount_bnb = float 1;
}

abbrev cached : Tokens lasting
cached = record {
  cache = λ k. some one_sale;
  blacklist = [];
  whitelist = [];
  black_rows = [];
  white_rows = [];
}
