-- ===== src/Trade/Primary/Laws.antt =====
-- What a trade on the launchpad leaves behind: transactions, records and positions.
use go_fourmeme.Base.{
  ℕ, zero, suc, ◌≡◌, refl, ◌∙◌, ◌⊎◌, inl, inr, Option, some, List, [], ◌∷◌, arith, Bool-cases,
}
use go_fourmeme.Base.Text.{Text}
use go_fourmeme.Base.Int.{ℤ}
use go_fourmeme.Entity.{MonitorTarget, TransactionRecord, TokenInfo}
use go_fourmeme.World.{
  M, Env, insert_record, wait, get_receipt, Reply, good, bad, World, Result, ok, err, panic, Trace,
  attempt, pure, ◌>>=◌,
}
use go_fourmeme.Manager.Positions.{get_all_positions, deref, get_position}
use go_fourmeme.Manager.Positions.Laws.{
  IsHexAddress, HasNormalKeys, find-none_of_length, length-IsHexAddress,
}
use go_fourmeme.Client.Fourmeme.{get_token_status}
use go_fourmeme.Trade.Submit.Laws.{accepted}
use go_fourmeme.Trade.Positions.{wait_for_receipt}
use go_fourmeme.Trade.Primary.{
  buy_record, book_buy, bought, tokens_or, primary_sell, sell, is_primary_market, market_of,
  sell_on, is_trading,
}

-- The records that were handed to the database, the last one first.
abbrev pub records : Trace → List TransactionRecord
records [] = []
records (insert_record r ∷ t) = r ∷ records t
records (c ∷ t) = records t

module _ (env : Env) where
  -- As long as every key of the position map is normalised, primarySell of an address written with
  -- "0x" finds no position: it returns an empty hash and no error, and does nothing at all.
  pub primary_sell_idle :
      (target : MonitorTarget) (addr : Text) (info : TokenInfo) (w : World)
      → IsHexAddress addr
      → HasNormalKeys w.store
      → primary_sell env target addr info w ≡ (ok [], w)
  unfolding primary_sell get_all_positions deref
  primary_sell_idle target addr info w hex keys =
      rw
        (
          find-none_of_length addr w.store.positions (length-IsHexAddress addr hex) keys,
          primary_sell,
        )
        refl

  get_token_status-accepted :
      (addr : Text) (w : World)
      → (accepted env (get_token_status env addr w).1.trace ≡ accepted env w.trace)
        × ((get_token_status env addr w).1.store ≡ w.store)
  unfolding get_token_status
  get_token_status-accepted addr w = (ground arith, ground arith)

  wait_for_receipt-records :
      (f : ℕ) (hash : Text) (w : World)
      → (records (wait_for_receipt env f hash w).1.trace ≡ records w.trace)
        × ((wait_for_receipt env f hash w).1.store ≡ w.store)
  unfolding wait_for_receipt
  wait_for_receipt-records zero hash w = (refl, refl)
  wait_for_receipt-records (suc f) hash w = ground (
    arith,
    wait_for_receipt-records f hash (record w { trace = wait 3 ∷ get_receipt hash ∷ w.trace }),
  )

  market_step :
      (target : MonitorTarget) (addr : Text) (r : Result TokenInfo × World)
      → IsHexAddress addr
      → HasNormalKeys r.1.store
      → let w' =
          ((attempt (λ _. r) >>= λ reply. pure (market_of reply)) >>= sell_on env target addr)
            r.1 in
        accepted env w'.1.trace ≡ accepted env r.1.trace
  market_step target addr (ok info, w) hex keys = elim (Bool-cases (is_trading info.status)) [
    | inl trades ↦ rw trades (rw (primary_sell_idle target addr info w hex keys) refl)
    | inr other ↦ rw other refl
  ]
  market_step target addr (err e, w) hex keys = refl
  market_step target addr (panic, w) hex keys = refl

  -- As long as every key of the position map is normalised, Sell of an address written with "0x"
  -- makes the node accept no transaction, whatever the node answers: the launchpad sale that it is
  -- for never takes place.
  pub sell_sends_nothing :
      (target : MonitorTarget) (addr : Text) (w : World)
      → IsHexAddress addr
      → HasNormalKeys w.store
      → accepted env (sell env target addr w).1.trace ≡ accepted env w.trace
  unfolding sell is_primary_market
  sell_sends_nothing target addr w hex keys =
      let (same, kept) = get_token_status-accepted addr w in
      market_step target addr (get_token_status env addr w) hex (rw kept keys) ∙ same

  -- What is left of a buy once its trade has been tried, by how the trade went and how the wait for
  -- the receipt ended. A failed trade: one more record, "failed" with the error, no position, the
  -- error again.
  abbrev pub Booked : World → MonitorTarget → Text → ℤ → Reply Text → Result Text × World → Type 0
  Booked w target addr amount (bad e) r =
      (r.0 ≡ err e)
      × (records r.1.trace
          ≡ record (buy_record env addr amount (env.now w.trace)) {
            error_msg = some (env.error_text e);
          }
            ∷ records w.trace)
      × (r.1.store ≡ w.store)
  Booked w target addr amount (good h) (ok h', w') =
      (h' ≡ h)
      × (((records w'.trace ≡ records w.trace) × (w'.store ≡ w.store))
          ⊎ ((time : ℕ) × (records w'.trace
                ≡ record (buy_record env addr amount time) { status = "success"; tx_hash = h }
                  ∷ records w.trace)
              × (get_position addr w'.store ≡ some w.next_cell)))
  Booked w target addr amount (good h) (err e, w') = ⊥
  Booked w target addr amount (good h) (panic, w') = records w'.trace ≡ records w.trace

  -- The record of a confirmed buy.
  success : Text → ℤ → Text → ℕ → TransactionRecord
  success addr amount h time = record (buy_record env addr amount time) {
    status = "success";
    tx_hash = h;
  }

  abbrev NoError : Result (Option ℕ) → Type 0
  NoError (ok a) = Unit {0}
  NoError (err e) = ⊥
  NoError panic = Unit {0}

  module _ (target : MonitorTarget) (addr h : Text) (amount least : ℤ) (w : World) where
    abbrev book : Option ℕ → M Text
    book out = book_buy env addr amount (bought target addr h (tokens_or out least))
