-- ===== src/Tests/Positions.antt =====
-- The position manager at concrete inputs.
use go_fourmeme.Base.{◌≡◌, refl, none, some, [], ◌∷◌, if◌then◌else◌}
use go_fourmeme.Base.Text.{eq_text, to_lower, trim_0x, slice10}
use go_fourmeme.Tests.Setup.{held, token, allocated, empty_store}
use go_fourmeme.Manager.Positions.{
  normalize_key, find, add_position, get_position, get_all_positions, delete_position,
}
use go_fourmeme.Manager.Positions.Laws.{
  get_position-add_position, get_position-delete_position, find-raw_address, add, run,
}

get_position-add_position_example :
    let s' = (add_position (some 0) allocated).0 in
    (get_position token s' ≡ (
      if eq_text (normalize_key held.token_addr) (normalize_key token)
      then some 0
      else get_position token allocated))
    × (s'.cells ≡ allocated.cells)
unfolding add_position slice10 to_lower trim_0x
get_position-add_position_example = get_position-add_position 0 held token allocated refl refl

get_position-delete_position_example :
    let s = (add_position (some 0) allocated).0 in
    get_position token (delete_position token s).0
    ≡ (if eq_text (normalize_key token) (normalize_key token) then none else get_position token s)
get_position-delete_position_example =
    get_position-delete_position token token (add_position (some 0) allocated).0

find-raw_address_example : find token (get_all_positions (run (add 0 held ∷ []) empty_store)) ≡ none
find-raw_address_example =
    find-raw_address (add 0 held ∷ []) empty_store token ((refl, refl, refl), tt) tt
      (refl, refl, refl)
