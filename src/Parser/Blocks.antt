-- ===== src/Parser/Blocks.antt =====
-- parser/block_parser.go: new blocks are fetched one by one, their receipts handed on. The
-- goroutines of one round only ask for receipts, so they are run here in the order of their start.
pub mod Laws
use go_fourmeme.Base.{
  ℕ, zero, suc, ◌+◌, ◌-◌, ◌%◌, ◌^◌, Bool, true, false, ◌&&◌, ◌||◌, Option, none, some, List, [],
  ◌∷◌, ◌++◌, map, leb, ◌==◌, if◌then◌else◌,
}
use go_fourmeme.Base.Text.{Text, eq_text, equal_fold}
use go_fourmeme.Config.{Address, Hash, pancake_factory, pancake_router}
use go_fourmeme.Entity.{MonitorTarget, Log, Receipt}
use go_fourmeme.World.{
  Env, Call, block_receipts, query_head, Reply, good, bad, World, Result, ok, err, panic, M, ◌>>◌,
}

-- `HandleEventV3` (parser/handlerV2.go): its list of handlers is empty.
abbrev pub handle_event_v3 : List Log → Receipt → MonitorTarget → M (Unit {0})
handle_event_v3 logs receipt target w = (ok tt, w)

-- The logs of a receipt that are there.
abbrev pub present : List (Option Log) → List Log
present [] = []
present (none ∷ ls) = present ls
present (some l ∷ ls) = l ∷ present ls

abbrev pub handle_receipts : MonitorTarget → List (Option Receipt) → M (Unit {0})
handle_receipts target [] w = (ok tt, w)
handle_receipts target (none ∷ rs) w = handle_receipts target rs w
handle_receipts target (some r ∷ rs) w =
    (handle_event_v3 (present r.logs) r target >> handle_receipts target rs) w

abbrev pub first_target : List MonitorTarget → Option MonitorTarget
first_target [] = none
first_target (t ∷ ts) = some t

-- `getAllAddressesMap` and `getAllTopic0Map`, as lists: only membership is asked.
abbrev pub elem : ℕ → List ℕ → Bool
elem a [] = false
elem a (b ∷ bs) = a == b || elem a bs

abbrev pub is_given : Text → Bool
is_given [] = false
is_given (c ∷ s) = true

-- `uint64` subtraction wraps around.
abbrev pub before : ℕ → ℕ
before latest = (latest + (2 ^ 64 - 1)) % 2 ^ 64

abbrev pub set_last : ℕ → M (Unit {0})
set_last n w = (ok tt, record w { last_processed = n })

abbrev pub last_or_before : ℕ → ℕ → ℕ
last_or_before last latest = if last == 0 then before latest else last

module _ (env : Env) (targets : List MonitorTarget) where
  abbrev pub target_addresses : MonitorTarget → List Address
  target_addresses t =
      let managers = map env.hex_to_address t.fourmeme_managers in
      if is_given t.token_address then env.hex_to_address t.token_address ∷ managers else managers

  abbrev pub addresses_of : List MonitorTarget → List Address
  addresses_of [] = pancake_factory ∷ pancake_router ∷ []
  addresses_of (t ∷ ts) = target_addresses t ++ addresses_of ts

  abbrev pub topics_of : List MonitorTarget → List Hash
  topics_of [] = []
  topics_of (t ∷ ts) =
      map env.hex_to_hash (t.erc20_topics ++ t.pancake_topics ++ t.fourmeme_topics) ++ topics_of ts

  abbrev pub passes : Log → List Hash → Bool
  passes l [] = false
  passes l (t0 ∷ more) = elem l.address (addresses_of targets) && elem t0 (topics_of targets)

  -- `filterLogs`
  unfoldable pub filter_logs : List Log → List Log
  filter_logs [] = []
  filter_logs (l ∷ ls) = let rest = filter_logs ls in if passes l l.topics then l ∷ rest else rest

  -- The receipts of a block that came; without a first target the index panics.
  unfoldable pub handle_block : Option MonitorTarget → Reply (List (Option Receipt)) → M (Unit {0})
  handle_block target (bad e) w = (ok tt, w)
  handle_block none (good rs) w = (panic, w)
  handle_block (some target) (good rs) w = handle_receipts target rs w

  -- `processBlockReceipts`
  unfoldable pub process_block_receipts : ℕ → M (Unit {0})
  unfolding handle_block
  process_block_receipts n w =
      handle_block (first_target targets) (env.receipts_of w.trace n)
        (record w { trace = block_receipts n ∷ w.trace })

  -- The loop of `count` blocks from `from` on.
  unfoldable pub process_blocks : ℕ → ℕ → M (Unit {0})
  unfolding process_block_receipts
  process_blocks zero from w = (ok tt, w)
  process_blocks (suc count) from w =
      (process_block_receipts from >> process_blocks count (suc from)) w

  unfoldable pub poll_to : ℕ → M (Unit {0})
  unfolding process_blocks
  poll_to latest w =
      let last = last_or_before w.last_processed latest in
      let kept = record w { last_processed = last } in
      if leb latest last
      then (ok tt, kept)
      else (process_blocks (latest - last) (suc last) >> set_last latest) kept

  unfoldable pub poll_head : Reply ℕ → M (Unit {0})
  unfolding poll_to
  poll_head (bad e) w = (ok tt, w)
  poll_head (good latest) w = poll_to latest w

  -- `pollNewBlocks`
  unfoldable pub poll_new_blocks : M (Unit {0})
  unfolding poll_head
  poll_new_blocks w = poll_head (env.head w.trace) (record w { trace = query_head ∷ w.trace })

-- `findTargetByAddress`: the first target with this token or, whatever the case, this manager.
abbrev pub has_manager : Text → List Text → Bool
has_manager addr [] = false
has_manager addr (m ∷ ms) = equal_fold m addr || has_manager addr ms

abbrev pub watches : Text → MonitorTarget → Bool
watches addr t = eq_text t.token_address addr || has_manager addr t.fourmeme_managers

unfoldable pub find_target_by_address : Text → List MonitorTarget → Option MonitorTarget
find_target_by_address addr [] = none
find_target_by_address addr (t ∷ ts) =
    let rest = find_target_by_address addr ts in if watches addr t then some t else rest
