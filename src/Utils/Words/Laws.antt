-- ===== src/Utils/Words/Laws.antt =====
-- Splitting event data into words: the count, the bounds, and the ABI's encoding read back.
use go_fourmeme.Base.{
  ℕ, zero, suc, ◌+◌, ◌*◌, ◌/◌, ◌%◌, ◌^◌, ◌≤◌, ◌<◌, ◌≡◌, refl, ap, ◌∙◌, List, [], ◌∷◌, ◌++◌, arith,
  length, take, drop, length-append, length-drop, length-take, take-length_append,
  drop-length_append, All,
}
use go_fourmeme.Base.Text.{Text}
use native.Mathlib.Nat.{pow-suc, le_trans}
use native.Mathlib.Decide.{dec_le}
use go_fourmeme.Utils.Words.{set_bytes, split_from, split_data_to_words}

-- ABI encoding of an unsigned integer: `n` big-endian bytes in front of `out`.
unfoldable pub encode_bytes : ℕ → ℕ → Text → Text
encode_bytes zero w out = out
encode_bytes (suc n) w out = encode_bytes n (w / 256) ((w % 256) ∷ out)

unfoldable pub encode_words : List ℕ → Text
unfolding encode_bytes
encode_words [] = []
encode_words (w ∷ ws) = encode_bytes 32 w [] ++ encode_words ws

-- The words that are needed for the bytes.
words_for : ℕ → ℕ
words_for n = (n + 31) / 32

split_from-length :
    (f : ℕ) (bs : Text) → length bs ≤ f → length (split_from f bs) ≡ words_for (length bs)
unfolding split_from words_for
split_from-length zero [] h = refl
split_from-length zero (b ∷ bs) h = absurd (omega arith)
split_from-length (suc f) [] h = refl
split_from-length (suc f) (b ∷ bs) h = omega (
  arith,
  length-drop 32 (b ∷ bs),
  split_from-length f (drop 32 (b ∷ bs)) (omega (arith, length-drop 32 (b ∷ bs))),
)

-- For data of any length, SplitDataToWords gives one word for each 32 bytes begun: the length
-- divided by 32, rounded up.
pub length-split_data_to_words :
    (bs : Text) → length (split_data_to_words bs) ≡ (length bs + 31) / 32
unfolding split_data_to_words words_for
length-split_data_to_words bs = split_from-length (length bs) bs (omega arith)

abbrev pub IsByte : ℕ → Type 0
IsByte b = b < 256

-- A number below 256 ^ n, shifted past one more byte.
shift_bound : (n a b : ℕ) → a < 256 ^ n → b < 256 → a * 256 + b < 256 ^ suc n
shift_bound n a b p q = omega (arith, pow-suc 256 n)

set_bytes_bound :
    (n acc : ℕ) (bs : Text)
    → acc < 256 ^ n
    → All IsByte bs
    → set_bytes acc bs < 256 ^ (n + length bs)
unfolding set_bytes
set_bytes_bound n acc [] h _ = let e : n + 0 ≡ n = omega arith in rw e h
set_bytes_bound n acc (b ∷ bs) h (hb, hbs) =
    let e : n + suc (length bs) ≡ suc n + length bs = omega arith in
    rw e (set_bytes_bound (suc n) (acc * 256 + b) bs (shift_bound n acc b h hb) hbs)

set_bytes-encode_bytes :
    (n w : ℕ) (out : Text) → w < 256 ^ n → set_bytes 0 (encode_bytes n w out) ≡ set_bytes w out
unfolding set_bytes encode_bytes
set_bytes-encode_bytes zero w out h = let e : w ≡ 0 = omega arith in rw e refl
set_bytes-encode_bytes (suc n) w out h =
    let low : w / 256 < 256 ^ n = omega (arith, pow-suc 256 n) in
    let e : w / 256 * 256 + w % 256 ≡ w = omega arith in
    set_bytes-encode_bytes n (w / 256) ((w % 256) ∷ out) low ∙ ap (λ t. set_bytes t out) e

length-encode_bytes : (n w : ℕ) (out : Text) → length (encode_bytes n w out) ≡ n + length out
unfolding encode_bytes
length-encode_bytes zero w out = omega arith
length-encode_bytes (suc n) w out = omega (arith, length-encode_bytes n (w / 256) ((w % 256) ∷ out))

length-encode_words : (ws : List ℕ) → length (encode_words ws) ≡ 32 * length ws
unfolding encode_words
length-encode_words [] = refl
length-encode_words (w ∷ ws) = omega (
  arith,
  length-append (encode_bytes 32 w []) (encode_words ws),
  length-encode_bytes 32 w [],
  length-encode_words ws,
)

split_step :
    (f : ℕ) (bs : Text)
    → 0 < length bs
    → split_from (suc f) bs ≡ set_bytes 0 (take 32 bs) ∷ split_from f (drop 32 bs)
unfolding split_from
split_step f [] h = absurd (omega arith)
split_step f (b ∷ bs) h = refl

abbrev pub IsWord : ℕ → Type 0
IsWord w = w < 256 ^ 32

encode_words-cons :
    (w : ℕ) (ws : List ℕ) → encode_words (w ∷ ws) ≡ encode_bytes 32 w [] ++ encode_words ws
unfolding encode_words
encode_words-cons w ws = refl

read_back : (w : ℕ) → IsWord w → set_bytes 0 (encode_bytes 32 w []) ≡ w
unfolding set_bytes
read_back w h = set_bytes-encode_bytes 32 w [] h

split_from-nil : (f : ℕ) → split_from f (encode_words []) ≡ []
unfolding split_from encode_words
split_from-nil zero = refl
split_from-nil (suc f) = refl

split_from-encode_words :
    (f : ℕ) (ws : List ℕ) → length ws ≤ f → All IsWord ws → split_from f (encode_words ws) ≡ ws
split_from-encode_words f [] h _ = split_from-nil f
split_from-encode_words zero (w ∷ ws) h _ = absurd (omega arith)
split_from-encode_words (suc f) (w ∷ ws) h (hw, hws) =
    let head = encode_bytes 32 w [] in
    let len : length head ≡ 32 = length-encode_bytes 32 w [] in
    let some_bytes : 0 < length (head ++ encode_words ws) =
      omega (arith, length-append head (encode_words ws), len) in
    rw encode_words-cons (
      split_step f (head ++ encode_words ws) some_bytes
      ∙ rw
          (
            take-length_append 32 head (encode_words ws) len,
            drop-length_append 32 head (encode_words ws) len,
          )
          (cc (read_back w hw, split_from-encode_words f ws (omega arith) hws)))

-- For words below 2 ^ 256, SplitDataToWords of their ABI encoding gives back the words: every field
-- of an event that the handlers read by position is the value that the contract wrote.
pub split_data_to_words-encode_words :
    (ws : List ℕ) → All IsWord ws → split_data_to_words (encode_words ws) ≡ ws
unfolding split_data_to_words
split_data_to_words-encode_words ws h =
    split_from-encode_words (length (encode_words ws)) ws (omega (arith, length-encode_words ws)) h

All-take : (P : ℕ → Type 0) (n : ℕ) (xs : Text) → All P xs → All P (take n xs)
All-take P zero xs h = tt
All-take P (suc n) [] h = tt
All-take P (suc n) (x ∷ xs) h = (h.0, All-take P n xs h.1)

All-drop : (P : ℕ → Type 0) (n : ℕ) (xs : Text) → All P xs → All P (drop n xs)
All-drop P zero xs h = h
All-drop P (suc n) [] h = tt
All-drop P (suc n) (x ∷ xs) h = All-drop P n xs h.1

pow_mono : (m n : ℕ) → m ≤ n → 256 ^ m ≤ 256 ^ n
pow_mono m zero h = let e : m ≡ 0 = omega arith in rw e (omega arith)
pow_mono m (suc n) h = elim (dec_le m n) [
  | yes below ↦ omega (arith, pow-suc 256 n, pow_mono m n below)
  | no last ↦ let e : m ≡ suc n = omega arith in rw e (omega arith)
]

chunk_bound : (m n : ℕ) → n ≤ 32 → m < 256 ^ n → m < 256 ^ 32
chunk_bound m n h p = le_trans p (pow_mono n 32 h)

split_from_bound : (f : ℕ) (bs : Text) → All IsByte bs → All IsWord (split_from f bs)
unfolding split_from
split_from_bound zero bs h = tt
split_from_bound (suc f) [] h = tt
split_from_bound (suc f) (b ∷ bs) h =
    let chunk = take 32 (b ∷ bs) in
    (
      chunk_bound (set_bytes 0 chunk) (0 + length chunk) (omega (arith, length-take 32 (b ∷ bs)))
          (set_bytes_bound 0 0 chunk (omega arith) (All-take IsByte 32 (b ∷ bs) h)),
      split_from_bound f (drop 32 (b ∷ bs)) (All-drop IsByte 32 (b ∷ bs) h),
    )

-- Of data that consists of bytes, every word is below 2 ^ 256.
pub split_data_to_words_bound : (bs : Text) → All IsByte bs → All IsWord (split_data_to_words bs)
unfolding split_data_to_words
split_data_to_words_bound bs h = split_from_bound (length bs) bs h
