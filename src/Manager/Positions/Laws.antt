-- ===== src/Manager/Positions/Laws.antt =====
-- What the position manager promises: a map by normalised address, safe against panics on
-- well-formed input, with positions shared by pointer.
use go_fourmeme.Base.{
  ℕ, ◌≡◌, refl, ap, ◌∙◌, ◌⊎◌, inl, inr, none, some, List, [], ◌∷◌, arith, ◌==◌, if◌then◌else◌,
  Bool-cases, length, All,
}
use go_fourmeme.Base.Text.{Text, eq_text, eq_text→eq, eq_text_iff, length-to_lower, trim_0x}
use go_fourmeme.Entity.{Position}
use go_fourmeme.Manager.Positions.{
  Store, normalize_key, find, put, erase, returned, insert_position, add_position, get_position,
  get_all_positions, set_sold, mark_as_sold, delete_position,
}

find-put :
    (k j : Text) (p : ℕ) (m : List (Text × ℕ))
    → find j (put k p m) ≡ (if eq_text k j then some p else find j m)
unfolding find put
find-put k j p [] = refl
find-put k j p ((i, q) ∷ m) =
    ground (arith, eq_text_iff k j, eq_text_iff i k, eq_text_iff i j, find-put k j p m)

find-erase :
    (k j : Text) (m : List (Text × ℕ))
    → find j (erase k m) ≡ (if eq_text k j then none else find j m)
unfolding find erase
find-erase k j [] = ground arith
find-erase k j ((i, q) ∷ m) =
    ground (arith, eq_text_iff k j, eq_text_iff i k, eq_text_iff i j, find-erase k j m)

-- A returned AddPosition of a position makes the manager answer its pointer for every spelling of
-- its address that normalises alike, and leaves every other answer and the memory as they were.
pub get_position-add_position :
    (ptr : ℕ) (new : Position) (addr : Text) (s : Store)
    → s.cells ptr ≡ some new
    → (add_position (some ptr) s).1 ≡ returned
    → let s' = (add_position (some ptr) s).0 in
      (get_position addr s' ≡ (
        if eq_text (normalize_key new.token_addr) (normalize_key addr)
        then some ptr
        else get_position addr s))
      × (s'.cells ≡ s.cells)
unfolding add_position get_position insert_position
get_position-add_position ptr new addr s e r =
    ground (arith, find-put (normalize_key new.token_addr) (normalize_key addr) ptr s.positions)

-- DeletePosition removes exactly the position of that address.
pub get_position-delete_position :
    (gone addr : Text) (s : Store)
    → get_position addr (delete_position gone s).0
      ≡ (if eq_text (normalize_key gone) (normalize_key addr) then none else get_position addr s)
unfolding delete_position get_position
get_position-delete_position gone addr s =
    find-erase (normalize_key gone) (normalize_key addr) s.positions

-- A hexadecimal address as the program writes it: 42 characters that begin with "0x".
abbrev pub IsHexAddress : Text → Type 0
IsHexAddress [] = ⊥
IsHexAddress (a ∷ []) = ⊥
IsHexAddress (a ∷ b ∷ s) = (a ≡ b'0') × (b ≡ b'x') × (length s ≡ 40)

length-normalize_key : (addr : Text) → IsHexAddress addr → length (normalize_key addr) ≡ 40
unfolding normalize_key trim_0x
length-normalize_key [] h = absurd h
length-normalize_key (a ∷ []) h = absurd h
length-normalize_key (a ∷ b ∷ s) (ha, hb, hs) = rw (ha, hb) (length-to_lower s ∙ hs)

pub length-IsHexAddress : (addr : Text) → IsHexAddress addr → length addr ≡ 42
length-IsHexAddress [] h = absurd h
length-IsHexAddress (a ∷ []) h = absurd h
length-IsHexAddress (a ∷ b ∷ s) (ha, hb, hs) = omega arith

abbrev pub KeyIsNormal : Text × ℕ → Type 0
KeyIsNormal e = length e.0 ≡ 40

put-All :
    (k : Text) (p : ℕ) (m : List (Text × ℕ))
    → length k ≡ 40
    → All KeyIsNormal m
    → All KeyIsNormal (put k p m)
unfolding put
put-All k p [] hk h = (hk, tt)
put-All k p ((j, q) ∷ m) hk (hj, hm) = elim (Bool-cases (eq_text j k)) [
  | inl same ↦ rw same (hk, hm)
  | inr other ↦ rw other (hj, put-All k p m hk hm)
]

erase-All : (k : Text) (m : List (Text × ℕ)) → All KeyIsNormal m → All KeyIsNormal (erase k m)
unfolding erase
erase-All k [] h = tt
erase-All k ((j, q) ∷ m) (hj, hm) = elim (Bool-cases (eq_text j k)) [
  | inl same ↦ rw same (erase-All k m hm)
  | inr other ↦ rw other (hj, erase-All k m hm)
]

-- Every key has the 40 characters of a normalised address.
abbrev pub HasNormalKeys : Store → Type 0
HasNormalKeys s = All KeyIsNormal s.positions

-- An AddPosition either leaves the map alone or puts the pointer under the normalised address.
add_position-cases :
    (ptr : ℕ) (new : Position) (s : Store)
    → s.cells ptr ≡ some new
    → let m = (add_position (some ptr) s).0.positions in
      (m ≡ s.positions) ⊎ (m ≡ put (normalize_key new.token_addr) ptr s.positions)
unfolding add_position insert_position
add_position-cases ptr new s e = ground arith

pub add_position-HasNormalKeys :
    (ptr : ℕ) (new : Position) (s : Store)
    → s.cells ptr ≡ some new
    → IsHexAddress new.token_addr
    → HasNormalKeys s
    → HasNormalKeys (add_position (some ptr) s).0
add_position-HasNormalKeys ptr new s e hex h = elim (add_position-cases ptr new s e) [
  | inl same ↦ rw same h
  | inr added ↦ rw added (
      put-All (normalize_key new.token_addr) ptr s.positions
        (length-normalize_key new.token_addr hex) h)
]

pub find-none_of_length :
    (k : Text) (m : List (Text × ℕ)) → length k ≡ 42 → All KeyIsNormal m → find k m ≡ none
unfolding find
find-none_of_length k [] h _ = refl
find-none_of_length k ((j, q) ∷ m) h (hj, hm) = elim (Bool-cases (eq_text j k)) [
  | inl same ↦ absurd (omega (arith, ap length (eq_text→eq j k same)))
  | inr other ↦ rw other (find-none_of_length k m h hm)
]

mark_as_sold-HasNormalKeys :
    (addr : Text) (s : Store) → HasNormalKeys s → HasNormalKeys (mark_as_sold addr s).0
mark_as_sold-HasNormalKeys addr s h = rw same h
  where
    same : (mark_as_sold addr s).0.positions ≡ s.positions
    same = unfold mark_as_sold set_sold in ground arith

delete_position-HasNormalKeys :
    (addr : Text) (s : Store) → HasNormalKeys s → HasNormalKeys (delete_position addr s).0
unfolding delete_position
delete_position-HasNormalKeys addr s h = erase-All (normalize_key addr) s.positions h

-- The calls that the rest of the program makes on the manager.
pub data Op : Type 0 where
  add : ℕ → Position → Op
  mark_sold delete : Text → Op

-- A caller allocates the position that it adds.
unfoldable pub run_op : Op → Store → Store
run_op (add ptr new) s =
    (add_position (some ptr) (record s { cells = λ q. if q == ptr then some new else s.cells q })).0
run_op (mark_sold addr) s = (mark_as_sold addr s).0
run_op (delete addr) s = (delete_position addr s).0

unfoldable pub run : List Op → Store → Store
unfolding run_op
run [] s = s
run (o ∷ os) s = run os (run_op o s)

abbrev pub AddsHex : Op → Type 0
AddsHex (add ptr new) = IsHexAddress new.token_addr
AddsHex (mark_sold addr) = Unit
AddsHex (delete addr) = Unit

run_op-HasNormalKeys :
    (o : Op) (s : Store) → AddsHex o → HasNormalKeys s → HasNormalKeys (run_op o s)
unfolding run_op
run_op-HasNormalKeys (add ptr new) s hex h =
    add_position-HasNormalKeys ptr new
      (record s { cells = λ q. if q == ptr then some new else s.cells q }) (ground arith) hex h
run_op-HasNormalKeys (mark_sold addr) s hex h = mark_as_sold-HasNormalKeys addr s h
run_op-HasNormalKeys (delete addr) s hex h = delete_position-HasNormalKeys addr s h

run-HasNormalKeys :
    (os : List Op) (s : Store) → All AddsHex os → HasNormalKeys s → HasNormalKeys (run os s)
unfolding run
run-HasNormalKeys [] s _ h = h
run-HasNormalKeys (o ∷ os) s (ho, hos) h =
    run-HasNormalKeys os (run_op o s) hos (run_op-HasNormalKeys o s ho h)

-- After any sequence of operations that adds positions under "0x" addresses only, starting from
-- normalised keys, a look-up of such an address as it is in the map of GetAllPositions finds
-- nothing: the keys are normalised and the address is not.
pub find-raw_address :
    (os : List Op) (s : Store) (addr : Text)
    → All AddsHex os
    → HasNormalKeys s
    → IsHexAddress addr
    → find addr (get_all_positions (run os s)) ≡ none
find-raw_address os s addr hos h hex =
    unfold get_all_positions in
    find-none_of_length addr (run os s).positions (length-IsHexAddress addr hex)
      (run-HasNormalKeys os s hos h)
