-- ===== src/Utils/Words.antt =====
-- utils/log_data.go: the data of an event as big-endian words of 32 bytes.
pub mod Laws
use go_fourmeme.Base.{ℕ, zero, suc, ◌+◌, ◌*◌, List, [], ◌∷◌, length, take, drop}
use go_fourmeme.Base.Text.{Text}

-- `big.Int.SetBytes`, behind the number `acc`.
unfoldable pub set_bytes : ℕ → Text → ℕ
set_bytes acc [] = acc
set_bytes acc (b ∷ bs) = set_bytes (acc * 256 + b) bs

-- The loop `for i := 0; i < len(data); i += 32`, on the bytes from `i` on; the last word may be
-- short. Fuel bounds the rounds.
unfoldable pub split_from : ℕ → Text → List ℕ
unfolding set_bytes
split_from zero bs = []
split_from (suc f) [] = []
split_from (suc f) (b ∷ bs) =
    let rest = split_from f (drop 32 (b ∷ bs)) in set_bytes 0 (take 32 (b ∷ bs)) ∷ rest

-- `SplitDataToWords`: a round takes a byte at least, so as many rounds as bytes are enough.
unfoldable pub split_data_to_words : Text → List ℕ
unfolding split_from
split_data_to_words bs = split_from (length bs) bs
