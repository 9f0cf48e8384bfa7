-- ===== src/Tests/Parser.antt =====
-- Blocks, logs and the whitelist at concrete inputs.
use go_fourmeme.Base.{
  ℕ, ◌*◌, ◌^◌, ◌≡◌, refl, ap, ◌≢◌, true, false, none, some, List, [], ◌∷◌, ◌++◌, arith,
  if◌then◌else◌, length, replicate, length-replicate,
}
use go_fourmeme.Base.Int.{pos}
use go_fourmeme.Config.{topic_manager2_buy, topic_manager2_sell, topic_create}
use go_fourmeme.Entity.{Log, Holder}
use go_fourmeme.World.{Env, not_found, World, ok, Reply, good, bad}
use go_fourmeme.Parser.Trades.{buying, parse_log}
use go_fourmeme.Parser.Trades.Laws.{Saves, parse_log-Saves}
use go_fourmeme.Parser.Events.{handle_event}
use go_fourmeme.Parser.Events.Laws.{starts_buy, handle_event-buys}
use go_fourmeme.Parser.Native.{is_simple, parse_transfer}
use go_fourmeme.Parser.Native.Laws.{Reported, parse_transfer-Reported}
use go_fourmeme.Trade.Whitelist.{check_whitelist_conditions}
use go_fourmeme.Trade.Whitelist.Laws.{PagesFit, check_whitelist_conditions-NotTrue}
use go_fourmeme.Tests.Setup.{friendly, start, target, token, info, empty_receipt}

abbrev running : World
running = record start { last_processed = 5 }

-- Six words of which the fourth and the fifth are amounts.
abbrev word : ℕ → List ℕ
word n = replicate 31 0 ++ (n ∷ [])

abbrev bought : Log
bought = record {
  address = 5;
  topics = topic_manager2_buy ∷ [];
  tx_hash = 1;
  bytes = word 1 ++ (word 2 ++ (word 3 ++ (word 4 ++ (word 5 ++ word 6))));
}

parse_log-Saves_example :
    Saves buying empty_receipt 2 start
      (parse_log friendly buying empty_receipt (bought ∷ bought ∷ []) start)
parse_log-Saves_example = parse_log-Saves friendly buying empty_receipt (bought ∷ bought ∷ []) start

abbrev creation : Log
creation = record { address = 5; topics = topic_create ∷ []; tx_hash = 1; bytes = word 8 ++ word 5 }

abbrev sold : Log
sold = record { address = 5; topics = topic_manager2_sell ∷ []; tx_hash = 1; bytes = [] }

handle_event-buys_example :
    (handle_event friendly sold (some target) start).0
    ≡ ok (if starts_buy topic_manager2_sell target then friendly.hex 5 ∷ [] else [])
handle_event-buys_example = handle_event-buys friendly target sold topic_manager2_sell [] start refl

abbrev size_of : Reply (List Holder) → ℕ
size_of (good hs) = length hs
size_of (bad e) = 0

friendly-PagesFit : PagesFit friendly
friendly-PagesFit t addr page size holders e =
    let h : Holder = record { address = 1; balance = [] } in
    let same : length (replicate size h) ≡ length holders = ap size_of e in
    omega (arith, same, length-replicate size h)

check_whitelist_conditions-NotTrue_example :
    (check_whitelist_conditions friendly token info 0 start).0 ≢ ok true
check_whitelist_conditions-NotTrue_example =
    check_whitelist_conditions-NotTrue friendly friendly-PagesFit token info 0 start

-- A node that knows a transaction of 20 units.
abbrev paying : Env
paying = record friendly {
  transaction_of = λ t h. good (some (record { to = some 3; value = pos (20 * 10 ^ 18) }));
}

parse_transfer-Reported_example :
    Reported paying [] empty_receipt start (parse_transfer paying [] empty_receipt start).0
    × (is_simple [] empty_receipt ≡ false
        → parse_transfer paying [] empty_receipt start ≡ (ok none, start))
parse_transfer-Reported_example = parse_transfer-Reported paying [] empty_receipt start

-- A node that finds the receipt at the second question.
abbrev slow : Env
slow = record friendly {
  receipt = λ t h. elim t [ [] ↦ bad not_found | c ∷ cs ↦ good empty_receipt ];
}
