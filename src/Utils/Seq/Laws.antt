-- ===== src/Utils/Seq/Laws.antt =====
-- The key has a fixed width, and tells apart the events that fit it.
use native.Mathlib.Nat.{pow-suc}
use go_fourmeme.Base.{
  ℕ, zero, suc, ◌+◌, ◌-◌, ◌/◌, ◌%◌, ◌^◌, ◌≤◌, ◌<◌, ◌≡◌, refl, sym, ap, ◌∙◌, [], ◌∷◌, ◌++◌, arith,
  length, take, drop, replicate, length-append, length-replicate, take-length_append,
  drop-length_append,
}
use go_fourmeme.Base.Text.{Text}
use go_fourmeme.Base.Decimal.{digits, decimal, value, value-decimal}
use go_fourmeme.Utils.Seq.{fill_zero_padding, calc_tx_unique_seq}

length-digits :
    (f k n : ℕ) (out : Text) → n ≤ f → n < 10 ^ suc k → length (digits f n out) ≤ suc k + length out
unfolding digits
length-digits zero k n out h p = omega arith
length-digits (suc f) zero n out h p = ground arith
length-digits (suc f) (suc k) n out h p =
    let small : n / 10 < 10 ^ suc k = omega (arith, pow-suc 10 (suc k)) in
    ground (arith, length-digits f k (n / 10) ((b'0' + n % 10) ∷ out) (omega arith) small)

length-decimal : (k n : ℕ) → n < 10 ^ suc k → length (decimal n) ≤ suc k
unfolding decimal
length-decimal k n p = omega (arith, length-digits n k n [] (omega arith) p)

-- A number of at most k + 1 digits is padded to exactly k + 1.
length-fill_zero_padding : (k n : ℕ) → n < 10 ^ suc k → length (fill_zero_padding n (suc k)) ≡ suc k
unfolding fill_zero_padding
length-fill_zero_padding k n p = omega (
  arith,
  length-append (replicate (suc k - length (decimal n)) b'0') (decimal n),
  length-replicate {A = ℕ} (suc k - length (decimal n)) b'0',
  length-decimal k n p,
)

value-zeros : (k : ℕ) (s : Text) → value 0 (replicate k b'0' ++ s) ≡ value 0 s
value-zeros zero s = refl
value-zeros (suc k) s = value-zeros k s

-- Padding does not change the number that is read.
value-fill_zero_padding : (n k : ℕ) → value 0 (fill_zero_padding n k) ≡ n
unfolding fill_zero_padding
value-fill_zero_padding n k = value-zeros (k - length (decimal n)) (decimal n) ∙ value-decimal n

fill_zero_padding_inj : (m n k : ℕ) → fill_zero_padding m k ≡ fill_zero_padding n k → m ≡ n
fill_zero_padding_inj m n k e =
    sym (value-fill_zero_padding m k) ∙ ap (value 0) e ∙ value-fill_zero_padding n k

-- A place on the chain that fits the key: a block of nine digits, indices of four.
pub record Fits (block tx_index log_index : ℕ) : Type 0 where
  pub block_fits : block < 10 ^ 9
  pub tx_fits : tx_index < 10 ^ 4
  pub log_fits : log_index < 10 ^ 4

-- For a block below 10 ^ 9 and indices below 10 ^ 4 the key has exactly 17 characters, so it fits
-- the column of 30.
pub length-calc_tx_unique_seq : (b t l : ℕ) → Fits b t l → length (calc_tx_unique_seq b t l) ≡ 17
unfolding calc_tx_unique_seq
length-calc_tx_unique_seq b t l h = omega (
  arith,
  length-append (fill_zero_padding b 9 ++ fill_zero_padding t 4) (fill_zero_padding l 4),
  length-append (fill_zero_padding b 9) (fill_zero_padding t 4),
  length-fill_zero_padding 8 b h.block_fits,
  length-fill_zero_padding 3 t h.tx_fits,
  length-fill_zero_padding 3 l h.log_fits,
)

cut_append :
    (n : ℕ) {a b c d : Text} → length a ≡ n → length c ≡ n → a ++ b ≡ c ++ d → (a ≡ c) × (b ≡ d)
cut_append n {a} {b} {c} {d} la lc e = (
  sym (take-length_append n a b la) ∙ ap (take n) e ∙ take-length_append n c d lc,
  sym (drop-length_append n a b la) ∙ ap (drop n) e ∙ drop-length_append n c d lc,
)

-- Two places that fit have the same key only if block, transaction index and log index agree: the
-- primary key tells the events of the chain apart.
pub calc_tx_unique_seq_inj :
    (b t l b' t' l' : ℕ)
    → Fits b t l
    → Fits b' t' l'
    → calc_tx_unique_seq b t l ≡ calc_tx_unique_seq b' t' l'
    → (b ≡ b') × (t ≡ t') × (l ≡ l')
unfolding calc_tx_unique_seq
calc_tx_unique_seq_inj b t l b' t' l' h h' e =
    let len : length (fill_zero_padding b 9 ++ fill_zero_padding t 4) ≡ 13 = omega (
      arith,
      length-append (fill_zero_padding b 9) (fill_zero_padding t 4),
      length-fill_zero_padding 8 b h.block_fits,
      length-fill_zero_padding 3 t h.tx_fits,
    ) in
    let len' : length (fill_zero_padding b' 9 ++ fill_zero_padding t' 4) ≡ 13 = omega (
      arith,
      length-append (fill_zero_padding b' 9) (fill_zero_padding t' 4),
      length-fill_zero_padding 8 b' h'.block_fits,
      length-fill_zero_padding 3 t' h'.tx_fits,
    ) in
    let outer = cut_append 13 len len' e in
    let inner =
      cut_append 9 (length-fill_zero_padding 8 b h.block_fits)
        (length-fill_zero_padding 8 b' h'.block_fits) outer.0 in
    (
      fill_zero_padding_inj b b' 9 inner.0,
      fill_zero_padding_inj t t' 4 inner.1,
      fill_zero_padding_inj l l' 4 outer.1,
    )
