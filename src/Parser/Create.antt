-- ===== src/Parser/Create.antt =====
-- parser/fourmeme/create_handler.go: changes of a token's owner. The handler only writes a line to
-- the log, so the line is what the model returns.
pub mod Laws
use go_fourmeme.Base.{ℕ, ◌%◌, ◌^◌, Option, none, some, List, [], ◌∷◌, ◌==◌, if◌then◌else◌}
use go_fourmeme.Base.Text.{Text}
use go_fourmeme.Config.{Address, Hash, addr_zero, topic_ownership_transferred, topic_create}
use go_fourmeme.Entity.{Log}
use go_fourmeme.Parser.Trades.{is_fourmeme_manager}
use go_fourmeme.Utils.Words.{split_data_to_words}

-- The lines: a new token with its creator, a burnt one, one handed to a manager, one handed on.
pub data OwnerEvent : Type 0 where
  created destroyed handed : Address → Address → OwnerEvent
  passed_on : Address → Address → Address → OwnerEvent

-- The creator and the token of a create event, where it has two words at least.
abbrev pub creation_words : List ℕ → Option (Address × Address)
creation_words (creator ∷ token ∷ more) = some (creator % 2 ^ 160, token % 2 ^ 160)
creation_words _ = none

unfoldable pub creation_under : List Hash → Text → Option (Address × Address)
creation_under [] bytes = none
creation_under (t0 ∷ more) bytes =
    if t0 == topic_create then creation_words (split_data_to_words bytes) else none

abbrev pub creation_of : Log → Option (Address × Address)
creation_of l = creation_under l.topics l.bytes

-- `parseCreator`: the creator of the first create event of this token.
unfoldable pub parse_creator : List Log → Address → Option Address
parse_creator [] token = none
parse_creator (l ∷ ls) token =
    let rest = parse_creator ls token in
    elim (creation_of l) [ none ↦ rest | some c ↦ if token == c.1 then some c.0 else rest ]

abbrev pub creator_or : Option Address → Address → Address
creator_or none previous = previous
creator_or (some c) previous = c

abbrev pub owner_event : List Log → Address → Address → Address → OwnerEvent
owner_event logs token previous new =
    if previous == addr_zero
    then created token (creator_or (parse_creator logs token) previous)
    else if new == addr_zero
    then destroyed token previous
    else if is_fourmeme_manager new
    then handed token previous
    else passed_on token previous new

abbrev pub event_under : List Log → Address → List Hash → Option OwnerEvent
event_under logs token (t0 ∷ t1 ∷ t2 ∷ more) =
    if t0 == topic_ownership_transferred
    then some (owner_event logs token (t1 % 2 ^ 160) (t2 % 2 ^ 160))
    else none
event_under logs token _ = none

-- The loop of `CreateHandler.ParseLog`: it ends at the first transfer of ownership.
unfoldable pub owner_change : List Log → List Log → Option OwnerEvent
unfolding parse_creator
owner_change logs [] = none
owner_change logs (l ∷ ls) =
    let rest = owner_change logs ls in
    elim (event_under logs l.address l.topics) [ none ↦ rest | some e ↦ some e ]

-- `CreateHandler.ParseLog`
unfoldable pub parse_create : List Log → Option OwnerEvent
unfolding owner_change
parse_create logs = owner_change logs logs
