-- ===== src/Utils/Seq.antt =====
-- utils/db_utils.go: the primary key of a trade record.
pub mod Laws
use go_fourmeme.Base.{ℕ, ◌-◌, ◌++◌, length, replicate}
use go_fourmeme.Base.Text.{Text}
use go_fourmeme.Base.Decimal.{decimal}

-- `fmt.Sprintf("%0*d", totalLength, num)`.
unfoldable pub fill_zero_padding : ℕ → ℕ → Text
fill_zero_padding num total_length =
    replicate (total_length - length (decimal num)) b'0' ++ decimal num

-- `CalcTxUniqueSeq`: block, transaction index, log index.
unfoldable pub calc_tx_unique_seq : ℕ → ℕ → ℕ → Text
calc_tx_unique_seq block_number tx_index log_index =
    fill_zero_padding block_number 9
    ++ fill_zero_padding tx_index 4
    ++ fill_zero_padding log_index 4
