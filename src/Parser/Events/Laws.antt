-- ===== src/Parser/Events/Laws.antt =====
-- Which logs set off a buy.
use go_fourmeme.Base.{
  ℕ, ◌%◌, ◌^◌, ◌≡◌, refl, ap, ◌∙◌, Bool, ◌&&◌, ◌||◌, Option, none, some, List, [], ◌∷◌, arith, ◌==◌,
  if◌then◌else◌,
}
use go_fourmeme.Config.{Hash, mint_topic, topic_manager2_sell}
use go_fourmeme.Entity.{MonitorTarget, Log, TransactionRecord}
use go_fourmeme.World.{Env, World, Reply, good, bad, ok}
use go_fourmeme.Parser.Events.{
  is_smart_wallet, Handled, fresh_record, transferred, handle_transfer, dispatch, save_handled,
  handle_topics, handle_event,
}

-- The logs that a buy is started for: sales with Manager2, and new liquidity where it is asked for.
abbrev pub starts_buy : Hash → MonitorTarget → Bool
starts_buy t0 t = t0 == topic_manager2_sell || (t0 == mint_topic && t.buy_on_liquidity_add)

module _ (env : Env) (t : MonitorTarget) where
  abbrev NoBuys : Option Handled → Type 0
  NoBuys none = ⊥
  NoBuys (some h) = h.buys ≡ []

  handle_transfer-NoBuys :
      (l : Log) (topics : List Hash) (r : TransactionRecord)
      → NoBuys (handle_transfer env l topics r (some t))
  unfolding handle_transfer transferred is_smart_wallet
  handle_transfer-NoBuys l [] r = refl
  handle_transfer-NoBuys l (t0 ∷ []) r = refl
  handle_transfer-NoBuys l (t0 ∷ t1 ∷ []) r = refl
  handle_transfer-NoBuys l (t0 ∷ t1 ∷ t2 ∷ more) r = replied (env.unpack_amount "Transfer" l.bytes)
    where
      replied :
          (v : Reply ℕ) → NoBuys (transferred env l r (some t) (t1 % 2 ^ 160) (t2 % 2 ^ 160) v)
      replied (bad e) = refl
      replied (good v) = refl

  saved : (o : Option Handled) (w : World) → NoBuys o → (save_handled env (some o) w).0 ≡ ok []
  unfolding save_handled
  saved none w h = absurd h
  saved (some h) w e = ap ok e

  handle_topics-buys :
      (l : Log) (t0 : Hash) (more : List Hash) (w : World)
      → l.topics ≡ t0 ∷ more
      → (handle_topics env l (t0 ∷ more) (some t) w).0
        ≡ ok (if starts_buy t0 t then env.hex l.address ∷ [] else [])
  unfolding handle_topics dispatch save_handled
  handle_topics-buys l t0 more w e =
      let r = fresh_record env l (env.now w.trace) in
      let idle =
        saved (handle_transfer env l l.topics r (some t)) w (handle_transfer-NoBuys l l.topics r) in
      ground (arith, idle)

  -- HandleEvent of a log with topics never fails, given a target, and starts one buy of the token at
  -- the log's address if the first topic is that of a sale with Manager2, or if it is that of new
  -- liquidity and the target asks for a buy then; otherwise it starts none.
  pub handle_event-buys :
      (l : Log) (t0 : Hash) (more : List Hash) (w : World)
      → l.topics ≡ t0 ∷ more
      → (handle_event env l (some t) w).0
        ≡ ok (if starts_buy t0 t then env.hex l.address ∷ [] else [])
  unfolding handle_event
  handle_event-buys l t0 more w e =
      ap (λ ts. (handle_topics env l ts (some t) w).0) e ∙ handle_topics-buys l t0 more w e
