-- ===== src/Tests/Utils.antt =====
-- The package utils at concrete inputs.
use go_fourmeme.Base.{ℕ, ◌^◌, ◌≤◌, ◌≡◌, refl, [], ◌∷◌, ◌++◌, arith, length, replicate, All}
use go_fourmeme.Base.Text.{codes}
use go_fourmeme.Base.Int.{pos}
use go_fourmeme.Base.Decimal.{decimal}
use go_fourmeme.Utils.Words.{split_data_to_words}
use go_fourmeme.Utils.Words.Laws.{
  encode_words, split_data_to_words-encode_words, IsWord, split_data_to_words_bound,
  length-split_data_to_words,
}
use go_fourmeme.Utils.Seq.{fill_zero_padding, calc_tx_unique_seq}
use go_fourmeme.Utils.Seq.Laws.{calc_tx_unique_seq_inj, length-calc_tx_unique_seq}
use go_fourmeme.Utils.Pool.{acquire, new_worker_pool}
use go_fourmeme.Utils.Pool.Tasks.{
  System, waiting, running, finished, Step, spawn, enter, Reach, here, next, initial, count_running,
  running_le_cap, release_never_waits,
}

last_word_short : split_data_to_words (replicate 32 0 ++ 1 ∷ 2 ∷ []) ≡ 0 ∷ 258 ∷ []
unfolding split_data_to_words
last_word_short = refl

length-split_data_to_words_example : length (split_data_to_words (replicate 33 1)) ≡ 2
length-split_data_to_words_example = length-split_data_to_words (replicate 33 1)

split_data_to_words-encode_words_example :
    split_data_to_words (encode_words (5 ∷ 2 ^ 200 ∷ [])) ≡ 5 ∷ 2 ^ 200 ∷ []
split_data_to_words-encode_words_example =
    split_data_to_words-encode_words (5 ∷ 2 ^ 200 ∷ []) (omega arith)

split_data_to_words_bound_example : All IsWord (split_data_to_words (255 ∷ 1 ∷ []))
split_data_to_words_bound_example = split_data_to_words_bound (255 ∷ 1 ∷ []) (omega arith)

seq_runs : calc_tx_unique_seq 1234 56 0 ≡ codes "00000123400560000"
unfolding calc_tx_unique_seq fill_zero_padding decimal
seq_runs = refl

calc_tx_unique_seq_inj_example : (◌≡◌ {A = ℕ} 1234 1234) × (◌≡◌ {A = ℕ} 56 56) × (◌≡◌ {A = ℕ} 0 0)
calc_tx_unique_seq_inj_example =
    calc_tx_unique_seq_inj 1234 56 0 1234 56 0 (omega arith) (omega arith) refl

length-calc_tx_unique_seq_example : length (calc_tx_unique_seq 1234 56 0) ≡ 17
length-calc_tx_unique_seq_example = length-calc_tx_unique_seq 1234 56 0 (omega arith)

-- One goroutine that has entered.
abbrev busy_one : System
busy_one = record { pool = record { cap = 2; used = 1 }; tasks = running ∷ [] }

Reach-busy_one : Reach (initial (pos 2)) busy_one
unfolding initial acquire new_worker_pool
Reach-busy_one =
    next
      (next {t = initial (pos 2)}
        {u = record { pool = record { cap = 2; used = 0 }; tasks = waiting ∷ [] }} here
        (spawn refl))
      (enter [] [] (record { cap = 2; used = 1 }) refl refl refl)

running_le_cap_example : count_running (running ∷ []) ≤ 2
running_le_cap_example = running_le_cap 2 {t = busy_one} (omega arith) Reach-busy_one

release_never_waits_example : (u : System) × Step busy_one u × (u.tasks ≡ finished ∷ [])
release_never_waits_example = release_never_waits (pos 2) [] [] {t = busy_one} Reach-busy_one refl
