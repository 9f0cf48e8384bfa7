-- ===== src/Parser/Create/Laws.antt =====
-- Where the creator of a new token is read from.
use go_fourmeme.Base.{◌≡◌, Bool, true, false, ◌&&◌, Option, none, some, List, ◌==◌, All, any}
use go_fourmeme.Config.{Address}
use go_fourmeme.Entity.{Log}
use go_fourmeme.Parser.Create.{creation_of}

abbrev pub makes : Address → Option (Address × Address) → Bool
makes token none = false
makes token (some c) = token == c.1

abbrev pub makes_as : Address → Address → Option (Address × Address) → Bool
makes_as token creator none = false
makes_as token creator (some c) = c.0 == creator && token == c.1

abbrev pub CreatorIn : List Log → Address → Option Address → Type 0
CreatorIn logs token none = All (λ l. makes token (creation_of l) ≡ false) logs
CreatorIn logs token (some c) = any (λ l. makes_as token c (creation_of l)) logs ≡ true
