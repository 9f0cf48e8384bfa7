-- ===== src/Parser/Trades/Laws.antt =====
-- The rows that a transaction's trades leave in the database.
use go_fourmeme.Base.{
  ℕ, suc, ◌+◌, ◌≤◌, String, ◌≡◌, refl, sym, ap, ◌∙◌, inl, inr, Bool, true, false, Option, none,
  some, List, [], ◌∷◌, ◌++◌, append_assoc, arith, Bool-cases, length, length-append, All,
}
use go_fourmeme.Base.Text.{Text}
use go_fourmeme.Base.Int.{pos}
use go_fourmeme.Config.{Address}
use go_fourmeme.Entity.{BigFloat, Float64, Log, Receipt, Transaction, TokenInfo}
use go_fourmeme.World.{
  Env, insert_transaction, query_price, Reply, good, bad, World, Result, ok, err, panic, M, Trace,
  attempt, pure, ◌>>◌, ◌>>=◌,
}
use go_fourmeme.Client.Fourmeme.{get_token_status}
use go_fourmeme.Client.Price.{
  after_update, get_bnb_price_usdt, update_bnb_price, keep_price, read_price, is_fresh,
}
use go_fourmeme.Utils.Math.{div_10_pow}
use go_fourmeme.Utils.Seq.{calc_tx_unique_seq}
use go_fourmeme.Parser.Trades.{
  in_dollars, is_dollar_quote, quo_of, payment_of, Side, Trade, trade_of, record_type,
  get_payment_token, row, row_from, trade_row, store_row, save_trade_record, save_with, book_trade,
  go_on, parse_log,
}

-- The rows that were handed to the database, the last one first.
abbrev pub rows : Trace → List Transaction
rows [] = []
rows (insert_transaction tx ∷ t) = tx ∷ rows t
rows (c ∷ t) = rows t

-- The key that every row of a transaction gets.
abbrev pub key_of : Receipt → Text
key_of receipt = calc_tx_unique_seq receipt.block_number receipt.transaction_index 0

abbrev pub IsRowOf : Side → Receipt → Transaction → Type 0
IsRowOf side receipt tx = (tx.tx_unique_seq ≡ key_of receipt) × (tx.type ≡ record_type side)

-- At most `most` rows were added, each of this side and under this receipt's key.
abbrev pub Saves {ℓ} : {A : Type ℓ} → Side → Receipt → ℕ → World → A × World → Type 0
Saves side receipt most w x =
    (news : List Transaction) × (rows x.1.trace ≡ news ++ rows w.trace)
    × All (IsRowOf side receipt) news
    × (length news ≤ most)

All-append : {A : Type 0} (P : A → Type 0) (xs ys : List A) → All P xs → All P ys → All P (xs ++ ys)
All-append P [] ys all rest = rest
All-append P (x ∷ xs) ys (p, all) rest = (p, All-append P xs ys all rest)

module _ (env : Env) where
  get_token_status-rows :
      (addr : Text) (w : World) → rows (get_token_status env addr w).1.trace ≡ rows w.trace
  unfolding get_token_status
  get_token_status-rows addr w = ground arith

  keep_price-rows :
      (q : Option Float64) (w : World) → rows (keep_price env q w).1.trace ≡ rows w.trace
  unfolding keep_price
  keep_price-rows none w = refl
  keep_price-rows (some p) w = refl

  after_update-rows : (x : Bool × World) → rows (after_update env x).1.trace ≡ rows x.1.trace
  after_update-rows (true, w) = refl
  after_update-rows (false, w) = refl

  get_bnb_price_usdt-rows : (w : World) → rows (get_bnb_price_usdt env w).1.trace ≡ rows w.trace
  unfolding get_bnb_price_usdt update_bnb_price
  get_bnb_price_usdt-rows w = elim (Bool-cases (is_fresh env w)) [
    | inl fresh ↦ rw fresh refl
    | inr stale ↦ rw stale (
        after_update-rows (update_bnb_price env w)
        ∙ keep_price-rows (read_price env (env.price_answer w.trace))
            (record w { trace = query_price ∷ w.trace }))
  ]

  payment_of-rows :
      (r : Reply TokenInfo) (w : World) → rows (payment_of env r w).1.trace ≡ rows w.trace
  unfolding payment_of
  payment_of-rows (bad e) w = refl
  payment_of-rows (good info) w = refl

  asked-rows :
      (x : Result TokenInfo × World) (w : World)
      → rows ((attempt (λ _. x) >>= payment_of env) w).1.trace ≡ rows x.1.trace
  asked-rows (ok info, v) w = payment_of-rows (good info) v
  asked-rows (err e, v) w = payment_of-rows (bad e) v
  asked-rows (panic, v) w = refl

  get_payment_token-rows :
      (addr : Text) (w : World) → rows (get_payment_token env addr w).1.trace ≡ rows w.trace
  unfolding get_payment_token
  get_payment_token-rows addr w =
      asked-rows (get_token_status env addr w) w ∙ get_token_status-rows addr w

  module _ (side : Side) (receipt : Receipt) where
    store_row-Saves :
        (trade : Trade) (symbol : String) (time : ℕ) (a b c d : Option BigFloat) (w : World)
        → Saves side receipt 1 w
            (store_row env (row_from env side receipt trade symbol time a b c d) w)
    unfolding store_row
    store_row-Saves trade symbol time (some a) (some b) (some c) (some d) w =
        (row env side receipt trade symbol a b c d time ∷ [], refl, ((refl, refl), tt), omega arith)
    store_row-Saves trade symbol time _ _ _ _ w = ([], refl, tt, omega arith)

    Saves-moved :
        {A : Type 0}
        → (most : ℕ) (v w : World) (x : A × World) → rows v.trace ≡ rows w.trace
        → Saves side receipt most v x
        → Saves side receipt most w x
    Saves-moved most v w x same (news, added, all, few) =
        (news, added ∙ ap (λ xs. news ++ xs) same, all, few)

    Saves-none :
        {A : Type 0}
        → (most : ℕ) (w : World) (x : A × World) → rows x.1.trace ≡ rows w.trace
        → Saves side receipt most w x
    Saves-none most w x same = ([], same, tt, omega arith)

    trade_row-Saves :
        (trade : Trade) (quote : Address) (symbol : String) (price : Float64) (time : ℕ) (w : World)
        → Saves side receipt 1 w
            (store_row env (trade_row env side receipt trade quote symbol price time) w)
    unfolding trade_row
    trade_row-Saves trade quote symbol price time w =
        let tokens = div_10_pow env.floats (some (pos trade.token_amount)) (some (pos 18)) in
        let payment = div_10_pow env.floats (some (pos trade.bnb_amount)) (some (pos 18)) in
        store_row-Saves trade symbol time tokens payment
          (in_dollars env (is_dollar_quote quote) price (quo_of env payment tokens))
          (in_dollars env (is_dollar_quote quote) price payment) w

    save_trade_record-Saves :
        (trade : Trade) (quote : Address) (symbol : String) (w : World)
        → Saves side receipt 1 w (save_trade_record env side receipt trade quote symbol w)
    unfolding save_trade_record
    save_trade_record-Saves trade quote symbol w =
        let (price, w1) = get_bnb_price_usdt env w in
        Saves-moved 1 w1 w
          (store_row env (trade_row env side receipt trade quote symbol price (env.now w1.trace))
            w1)
          (get_bnb_price_usdt-rows w)
          (trade_row-Saves trade quote symbol price (env.now w1.trace) w1)

    then_true :
        (w : World) (x : Result (Unit {0}) × World)
        → Saves side receipt 1 w x
        → Saves side receipt 1 w (((λ _. x) >> pure true) w)
    then_true w (ok u, v) saved = saved
    then_true w (err e, v) saved = saved
    then_true w (panic, v) saved = saved

    save_with-Saves :
        (trade : Trade) (r : Reply (Address × Text × String)) (w : World)
        → Saves side receipt 1 w (save_with env side receipt trade r w)
    unfolding save_with
    save_with-Saves trade (bad e) w = Saves-none 1 w (ok false, w) refl
    save_with-Saves trade (good (quote, text, symbol)) w =
        then_true w (save_trade_record env side receipt trade quote symbol w)
          (save_trade_record-Saves trade quote symbol w)

    asked-Saves :
        (trade : Trade) (w : World) (x : Result (Address × Text × String) × World)
        → rows x.1.trace ≡ rows w.trace
        → Saves side receipt 1 w ((attempt (λ _. x) >>= save_with env side receipt trade) w)
    asked-Saves trade w (ok p, v) same =
        Saves-moved 1 v w (save_with env side receipt trade (good p) v) same
          (save_with-Saves trade (good p) v)
    asked-Saves trade w (err e, v) same =
        Saves-moved 1 v w (save_with env side receipt trade (bad e) v) same
          (save_with-Saves trade (bad e) v)
    asked-Saves trade w (panic, v) same = Saves-none {A = Result Bool} 1 w (panic, v) same

    book_trade-Saves :
        (trade : Trade) (w : World) → Saves side receipt 1 w (book_trade env side receipt trade w)
    unfolding book_trade
    book_trade-Saves trade w =
        asked-Saves trade w (get_payment_token env (env.hex trade.token) w)
          (get_payment_token-rows (env.hex trade.token) w)

    Saves-then :
        (m n most : ℕ) (w v : World) {A B : Type 0} (x : A × World) (y : B × World)
        → m + n ≤ most
        → x.1 ≡ v
        → Saves side receipt m w x
        → Saves side receipt n v y
        → Saves side receipt most w y
    Saves-then m n most w v x y sum at_v (olds, e, old_all, old_few) (news, e', new_all, new_few) =
        (
          news ++ olds,
          e'
              ∙ ap (λ xs. news ++ xs) (ap (λ u. rows u.trace) (sym at_v) ∙ e)
              ∙ sym (append_assoc news olds (rows w.trace)),
          All-append (IsRowOf side receipt) news olds new_all old_all,
          omega (arith, length-append news olds, old_few, new_few, sum),
        )

    go_on-Saves :
        (n : ℕ) (w : World) (rest : M (Unit {0})) (x : Result Bool × World)
        → Saves side receipt 1 w x
        → ((v : World) → Saves side receipt n v (rest v))
        → Saves side receipt (suc n) w (((λ _. x) >>= go_on env rest) w)
    go_on-Saves n w rest (ok true, v) saved later =
        Saves-then 1 n (suc n) w v (ok true, v) (rest v) (omega arith) refl saved (later v)
    go_on-Saves n w rest (ok false, v) (news, e, all, few) later =
        (news, e, all, omega (arith, few))
    go_on-Saves n w rest (err e', v) (news, e, all, few) later = (news, e, all, omega (arith, few))
    go_on-Saves n w rest (panic, v) (news, e, all, few) later = (news, e, all, omega (arith, few))

    parse_log-none :
        (l : Log) (ls : List Log) (w : World)
        → trade_of side l ≡ none
        → parse_log env side receipt (l ∷ ls) w ≡ parse_log env side receipt ls w
    unfolding parse_log
    parse_log-none l ls w e = rw (e, parse_log) refl

    parse_log-some :
        (l : Log) (ls : List Log) (w : World) (trade : Trade)
        → trade_of side l ≡ some trade
        → parse_log env side receipt (l ∷ ls) w
          ≡ (book_trade env side receipt trade >>= go_on env (parse_log env side receipt ls)) w
    unfolding parse_log
    parse_log-some l ls w trade e = rw (e, parse_log) refl

    -- Parsing the logs of a transaction hands at most one row to the database for each of them,
    -- whatever the node and the database answer and also where it panics; each row is of the side
    -- that was parsed for and has the same primary key, made of the block, the index of the
    -- transaction and 0: any two rows of one transaction collide.
    pub parse_log-Saves :
        (ls : List Log) (w : World)
        → Saves side receipt (length ls) w (parse_log env side receipt ls w)
    parse_log-Saves [] w = unfold parse_log in Saves-none 0 w (ok tt, w) refl
    parse_log-Saves (l ∷ ls) w = told (trade_of side l) refl (λ v. parse_log-Saves ls v)
      where
        told :
            (o : Option Trade)
            → trade_of side l ≡ o
            → ((v : World) → Saves side receipt (length ls) v (parse_log env side receipt ls v))
            → Saves side receipt (suc (length ls)) w (parse_log env side receipt (l ∷ ls) w)
        told none e later =
            let (news, added, all, few) = later w in
            rw (parse_log-none l ls w e) (news, added, all, omega (arith, few))
        told (some trade) e later = rw (parse_log-some l ls w trade e) (
            go_on-Saves (length ls) w (parse_log env side receipt ls)
              (book_trade env side receipt trade w) (book_trade-Saves trade w) later)
