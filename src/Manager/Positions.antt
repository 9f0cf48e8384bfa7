-- ===== src/Manager/Positions.antt =====
-- manager/position_manager.go: positions by token, behind one lock, so that each operation is one
-- step. The map holds pointers: `cells` is the memory that they point into.
pub mod Laws
use go_fourmeme.Base.{ℕ, true, Option, none, some, List, [], ◌∷◌, ◌==◌, if◌then◌else◌}
use go_fourmeme.Base.Text.{Text, eq_text, to_lower, trim_0x, slice10}
use go_fourmeme.Entity.{BigFloat, Position}

pub record Store : Type 0 where
  pub cells : ℕ → Option Position
  pub positions : List (Text × ℕ)

-- `normalizeKey`: lower case, less one "0x".
unfoldable pub normalize_key : Text → Text
normalize_key addr = to_lower (trim_0x addr)

unfoldable pub find : Text → List (Text × ℕ) → Option ℕ
find k [] = none
find k ((j, p) ∷ m) = if eq_text j k then some p else find k m

-- `positions[k] = p`
unfoldable pub put : Text → ℕ → List (Text × ℕ) → List (Text × ℕ)
put k p [] = (k, p) ∷ []
put k p ((j, q) ∷ m) = if eq_text j k then (k, p) ∷ m else (j, q) ∷ put k p m

-- `delete(positions, k)`
unfoldable pub erase : Text → List (Text × ℕ) → List (Text × ℕ)
erase k [] = []
erase k ((j, q) ∷ m) = if eq_text j k then erase k m else (j, q) ∷ erase k m

unfoldable pub deref : Store → Option ℕ → Option Position
deref s none = none
deref s (some p) = s.cells p

-- How an operation ends: it returns, or it panics with the lock released by the `defer`.
pub data Outcome : Type 0 where
  returned panicked : Outcome

-- The log line of an update slices both hashes and the key to ten bytes.
unfoldable pub log_update : Text → Option Position → Option Position → Outcome
log_update key (some old) (some new) = elim (slice10 key) [
  | none ↦ panicked
  | some _ ↦ elim (slice10 old.buy_tx_hash) [
    | none ↦ panicked
    | some _ ↦ elim (slice10 new.buy_tx_hash) [ none ↦ panicked | some _ ↦ returned ]
  ]
]
log_update key none new = panicked
log_update key (some old) none = panicked

-- The closing log line of the other operations slices the key.
unfoldable pub log_slice : Text → Outcome
log_slice key = elim (slice10 key) [ none ↦ panicked | some _ ↦ returned ]

-- That of `AddPosition` also prints the amount, by a method that panics on a nil *big.Float.
unfoldable pub log_added : Text → Option BigFloat → Outcome
unfolding log_slice
log_added key none = panicked
log_added key (some amount) = log_slice key

-- The end of `AddPosition`: `positions[tokenKey] = pos`, then the log line.
unfoldable pub insert_position : Text → ℕ → Position → Store → Store × Outcome
unfolding put log_added
insert_position key ptr new s =
    (record s { positions = put key ptr s.positions }, log_added key new.buy_amount_bnb)

-- `AddPosition`, on a pointer; `none` is nil. An update that cannot be logged is not made.
unfoldable pub add_position : Option ℕ → Store → Store × Outcome
unfolding normalize_key find deref log_update insert_position
add_position none s = (s, returned)
add_position (some ptr) s = elim (s.cells ptr) [
  | none ↦ (s, panicked)
  | some new ↦
      let key = normalize_key new.token_addr in
      elim (find key s.positions) [
        | none ↦ insert_position key ptr new s
        | some old ↦ elim (log_update key (s.cells old) (some new)) [
          | panicked ↦ (s, panicked)
          | returned ↦ insert_position key ptr new s
        ]
      ]
]

-- `GetPosition`: the pointer, if there is one.
unfoldable pub get_position : Text → Store → Option ℕ
unfolding normalize_key find
get_position token_addr s = find (normalize_key token_addr) s.positions

-- `GetAllPositions`: a copy of the map, with the same pointers.
unfoldable pub get_all_positions : Store → List (Text × ℕ)
get_all_positions s = s.positions

abbrev pub mark : Option Position → Option Position
mark none = none
mark (some old) = some (record old { sold = true })

-- `pos.Sold = true` through the pointer.
unfoldable pub set_sold : ℕ → Store → Store
set_sold ptr s = record s { cells = λ q. if q == ptr then mark (s.cells ptr) else s.cells q }

-- `MarkAsSold`
unfoldable pub mark_as_sold : Text → Store → Store × Outcome
unfolding normalize_key find set_sold log_slice
mark_as_sold token_addr s =
    let key = normalize_key token_addr in
    elim (find key s.positions) [
      | none ↦ (s, returned)
      | some ptr ↦ (set_sold ptr s, log_slice key)
    ]

-- `DeletePosition`
unfoldable pub delete_position : Text → Store → Store × Outcome
unfolding normalize_key erase log_slice
delete_position token_addr s =
    let key = normalize_key token_addr in
    (record s { positions = erase key s.positions }, log_slice key)
