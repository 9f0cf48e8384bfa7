-- ===== src/Trade/Whitelist/Laws.antt =====
-- What the page of holders decides.
use go_fourmeme.Base.{
  ℕ, ◌-◌, ◌≤◌, ◌≡◌, refl, ◌≢◌, inl, inr, Bool, true, false, not, ◌||◌, List, arith, ltb, leb,
  if◌then◌else◌, Bool-cases, length,
}
use go_fourmeme.Base.Text.{Text}
use go_fourmeme.Entity.{Float64, Holder, TokenInfo}
use go_fourmeme.World.{Env, World, Reply, good, bad, Result, ok, err, panic, M, Trace, pure, ◌>>=◌}
use go_fourmeme.Trade.Primary.{is_trading}
use go_fourmeme.Trade.Whitelist.{
  bnb_price, page_size, check_holders, check_page, check_value, check_price,
  check_whitelist_conditions,
}

-- A run that does not answer true.
abbrev NotTrue : Result Bool → Type 0
NotTrue (ok b) = b ≡ false
NotTrue (err e) = Unit {0}
NotTrue panic = Unit {0}

-- BscScan answers no page with more holders than were asked for.
abbrev pub PagesFit : Env → Type 0
PagesFit env =
    (t : Trace) (token : Text) (page size : ℕ) (holders : List Holder)
    → env.holders_of t token page size ≡ good holders
    → length holders ≤ size

bind-NotTrue :
    {A : Type 0} (x : Result A × World) (f : A → M Bool) (w : World)
    → ((a : A) (v : World) → NotTrue (f a v).0)
    → NotTrue (((λ _. x) >>= f) w).0
bind-NotTrue (ok a, v) f w h = h a v
bind-NotTrue (err e, v) f w h = tt
bind-NotTrue (panic, v) f w h = tt

unless-NotTrue :
    (c : Bool) (m : M Bool) (w : World)
    → NotTrue (m w).0
    → NotTrue ((if c then pure false else m) w).0
unless-NotTrue true m w h = refl
unless-NotTrue false m w h = h

NotTrue→≢ : (r : Result Bool) → NotTrue r → r ≢ ok true
NotTrue→≢ (ok b) h e = cc
NotTrue→≢ (err x) h e = cc
NotTrue→≢ panic h e = cc

module _ (env : Env) (fits : PagesFit env) where
  check_page-NotTrue :
      (token_addr : Text) (info : TokenInfo) (w : World)
      → NotTrue (check_page env token_addr info w).0
  unfolding check_page check_holders
  check_page-NotTrue token_addr info w =
      answered (env.holders_of w.trace token_addr 1 page_size) refl
    where
      answered :
          (r : Reply (List Holder))
          → env.holders_of w.trace token_addr 1 page_size ≡ r
          → NotTrue (check_page env token_addr info w).0
      answered (bad e) eq = rw eq tt
      answered (good holders) eq =
          let few : length holders ≤ 20 = fits w.trace token_addr 1 20 holders eq in
          let small : leb (length holders) 20 ≡ true = ground arith in rw (eq, small) refl

  check_value-NotTrue :
      (token_addr : Text) (info : TokenInfo) (price : Float64) (w : World)
      → NotTrue (check_value env token_addr info price w).0
  unfolding check_value
  check_value-NotTrue token_addr info price w = ground (arith, check_page-NotTrue token_addr info w)

  check_price-NotTrue :
      (token_addr : Text) (info : TokenInfo) (price : Float64) (w : World)
      → NotTrue (check_price env token_addr info price w).0
  unfolding check_price
  check_price-NotTrue token_addr info price w =
      elim (Bool-cases (env.floats.le64 price (env.floats.literal 0 0))) [
        | inl bad_price ↦ rw bad_price tt
        | inr fine ↦ rw fine (check_value-NotTrue token_addr info price w)
      ]

  -- As long as BscScan answers no page with more holders than were asked for, no token ever meets
  -- the conditions of the whitelist: the check answers false, or it fails.
  pub check_whitelist_conditions-NotTrue :
      (token_addr : Text) (info : TokenInfo) (create_time : ℕ) (w : World)
      → (check_whitelist_conditions env token_addr info create_time w).0 ≢ ok true
  unfolding check_whitelist_conditions
  check_whitelist_conditions-NotTrue token_addr info create_time w =
      let asked =
        bind-NotTrue (bnb_price env w) (check_price env token_addr info) w
          (check_price-NotTrue token_addr info) in
      NotTrue→≢ (check_whitelist_conditions env token_addr info create_time w).0 (
        unless-NotTrue (ltb 600 (env.now w.trace - create_time))
          (if not (is_trading info.status) || info.liquidity_added
            then pure false
            else (bnb_price env >>= check_price env token_addr info))
          w
          (unless-NotTrue (not (is_trading info.status) || info.liquidity_added)
            (bnb_price env >>= check_price env token_addr info) w asked))
