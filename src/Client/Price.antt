-- ===== src/Client/Price.antt =====
-- client/price_client.go: the price of BNB in USDT, kept for ten minutes.
use go_fourmeme.Base.{
  ℕ, ◌-◌, ◌≡◌, Bool, true, false, ◌&&◌, Option, none, some, ◌∷◌, ltb, if◌then◌else◌,
}
use go_fourmeme.Entity.{Float64}
use go_fourmeme.World.{Env, PriceAnswer, status, usdt, query_price, World}

-- Ten minutes, in seconds.
abbrev pub update_interval : ℕ
update_interval = 600

module _ (env : Env) where
  abbrev is_positive : Float64 → Bool
  is_positive x = env.floats.lt64 (env.floats.literal 0 0) x

  -- What an answer says of the price, by the checks of `updateBNBPrice`.
  unfoldable pub read_price : PriceAnswer → Option Float64
  read_price (status n) = none
  read_price (usdt (some p)) = if env.floats.le64 p (env.floats.literal 0 0) then none else some p
  read_price _ = none

  unfoldable pub keep_price : Option Float64 → World → Bool × World
  keep_price none w = (false, w)
  keep_price (some p) w =
      (true, record w { price_cache = record { price = p; timestamp = env.now w.trace } })

  -- `updateBNBPrice`
  unfoldable pub update_bnb_price : World → Bool × World
  update_bnb_price w =
      keep_price (read_price (env.price_answer w.trace))
        (record w { trace = query_price ∷ w.trace })

  unfoldable pub is_fresh : World → Bool
  is_fresh w =
      ltb (env.now w.trace - w.price_cache.timestamp) update_interval
      && is_positive w.price_cache.price

  abbrev pub after_update : Bool × World → Float64 × World
  after_update (true, w) = (w.price_cache.price, w)
  after_update (false, w) = (env.floats.literal 800 0, w)

  -- `GetBNBPriceUSDT`
  unfoldable pub get_bnb_price_usdt : World → Float64 × World
  get_bnb_price_usdt w =
      if is_fresh w then (w.price_cache.price, w) else after_update (update_bnb_price w)

  -- `InitBnbPriceCache`, less the goroutine that repeats the update.
  unfoldable pub init_bnb_price_cache : World → World
  unfolding update_bnb_price
  init_bnb_price_cache w = (update_bnb_price w).1

  -- A fresh price is answered without a request. Otherwise there is one request, and the answer is
  -- the price that it brought, now kept with its time, or 800 where it brought none and the cache
  -- stays as it was.
  abbrev pub Answers : World → Option Float64 → Float64 × World → Type 0
  Answers w (some q) (p, w') =
      (p ≡ q)
      × (w'.price_cache ≡ record { price = q; timestamp = env.now (query_price ∷ w.trace) })
      × (w'.trace ≡ query_price ∷ w.trace)
  Answers w none (p, w') =
      (p ≡ env.floats.literal 800 0)
      × (w'.price_cache ≡ w.price_cache)
      × (w'.trace ≡ query_price ∷ w.trace)
