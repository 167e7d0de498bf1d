-- ===== src/Connection/DecimalText.antt =====
-- The text of a CQL decimal against a reading of decimal numbers.
use mariadb_scylla_storage_e.Prelude.{
  ℕ, zero, suc, ◌+◌, ◌-◌, ◌<◌, ◌≤◌, ◌^◌, Bool, true, false, Option, none, some, [], ◌∷◌, ◌++◌,
  append-nil, ◌≡◌, ◌∙◌, refl, sym, ap, arith, length, length-append, take, drop, All, leb, ◌==◌,
  if◌then◌else◌, Bool-cases, inl, inr, replicate,
}
use mariadb_scylla_storage_e.Prelude.Int.{pos, to_word, is_zero}
use mariadb_scylla_storage_e.Prelude.Text.{Bytes, codes}
use mariadb_scylla_storage_e.Numerals.{show_ℕ, to_string, padded, is_digit, unsigned_prefix}
use mariadb_scylla_storage_e.Numerals.RoundTrip.{IsDigit, show_ℕ-IsDigit, unsigned_prefix-padded}
use mariadb_scylla_storage_e.Numerals.Width.{length-replicate}
use mariadb_scylla_storage_e.Query.Reader.{split_word}
use mariadb_scylla_storage_e.Query.Scanning.{split_word-append}
use mariadb_scylla_storage_e.Connection.Values.{point_in, decimal_string}
use mariadb_scylla_storage_e.Connection.Numbers.{IsByte, big_endian, unscaled_lem}

-- The number that digits spell, and nothing behind them.
abbrev digits_only : ℕ → Option (ℕ × Bytes) → Option (ℕ × ℕ)
digits_only scale none = none
digits_only scale (some (n, [])) = some (n, scale)
digits_only scale (some (n, _ ∷ _)) = none

abbrev behind_digits : Bytes → Bytes → Option (ℕ × ℕ)
behind_digits whole [] = digits_only 0 (unsigned_prefix whole)
behind_digits whole (c ∷ fraction) =
    if c == b'.' then digits_only (length fraction) (unsigned_prefix (whole ++ fraction)) else none

-- A decimal number without a sign: the number that all its digits spell, and how many of them stand
-- behind the point.
unfoldable pub read_decimal : Bytes → Option (ℕ × ℕ)
read_decimal s = let (whole, r) = split_word is_digit s in behind_digits whole r

-- A number as it is printed is a number padded to no width.
padded_none : (n : ℕ) → padded 0 (show_ℕ n) ≡ show_ℕ n
unfolding padded
padded_none n =
    let none_left : 0 - length (show_ℕ n) ≡ 0 = omega arith in
    ap (λ k. replicate k b'0' ++ show_ℕ n) none_left

unsigned_prefix-all : (w n : ℕ) → unsigned_prefix (padded w (show_ℕ n)) ≡ some (n, [])
unsigned_prefix-all w n =
    rw (append-nil (padded w (show_ℕ n))) at (unsigned_prefix-padded w n [] tt)

read_decimal-whole : (n : ℕ) → read_decimal (show_ℕ n) ≡ some (n, 0)
unfolding read_decimal
read_decimal-whole n =
    let digits_read : split_word is_digit (show_ℕ n) ≡ (show_ℕ n, []) =
      rw (append-nil (show_ℕ n)) at
        (split_word-append is_digit (show_ℕ n) [] (show_ℕ-IsDigit n).0 tt) in
    rw digits_read
      (ap (digits_only 0) (ap unsigned_prefix (sym (padded_none n)) ∙ unsigned_prefix-all 0 n))

read_decimal-point :
    (whole fraction : Bytes) (w n : ℕ)
    → All IsDigit whole
    → whole ++ fraction ≡ padded w (show_ℕ n)
    → read_decimal (whole ++ (b'.' ∷ fraction)) ≡ some (n, length fraction)
unfolding read_decimal
read_decimal-point whole fraction w n h e =
    rw (split_word-append is_digit whole (b'.' ∷ fraction) h refl)
      (ap (digits_only (length fraction)) (ap unsigned_prefix e ∙ unsigned_prefix-all w n))

take-drop : (k : ℕ) (s : Bytes) → take k s ++ drop k s ≡ s
take-drop zero s = refl
take-drop (suc k) [] = refl
take-drop (suc k) (c ∷ s) = ap (λ t. c ∷ t) (take-drop k s)

length-drop : (k : ℕ) (s : Bytes) → length (drop k s) ≡ length s - k
length-drop zero s = omega arith
length-drop (suc k) [] = omega arith
length-drop (suc k) (c ∷ s) = length-drop k s ∙ omega arith

take-IsDigit : (k : ℕ) (s : Bytes) → All IsDigit s → All IsDigit (take k s)
take-IsDigit zero s h = tt
take-IsDigit (suc k) [] h = tt
take-IsDigit (suc k) (c ∷ s) (h, hs) = (h, take-IsDigit k s hs)

-- "0." with zeros in front of the number.
padded_front :
    (k n : ℕ)
    → length (show_ℕ n) ≤ k
    → read_decimal (codes "0." ++ (replicate (k - length (show_ℕ n)) b'0' ++ show_ℕ n))
      ≡ some (n, k)
unfolding padded
padded_front k n h =
    let s = show_ℕ n in
    let zeros : Bytes = replicate (k - length s) b'0' in
    let wide : suc k - length s ≡ suc (k - length s) = omega arith in
    read_decimal-point (codes "0") (zeros ++ s) (suc k) n (refl, tt)
      (ap (λ j. replicate j b'0' ++ s) (sym wide))
    ∙ ap (λ j. some (n, j))
        (length-append zeros s
          ∙ (ap (λ j. j + length s) (length-replicate (k - length s) b'0') ∙ omega arith))

read_decimal-point_in : (k n : ℕ) → read_decimal (point_in k (show_ℕ n)) ≡ some (n, k)
unfolding point_in
read_decimal-point_in k n = elim (Bool-cases (leb (length (show_ℕ n)) k)) [
  | inl e ↦ rw e (padded_front k n (ground arith))
  | inr e ↦
      let s = show_ℕ n in
      rw e (
        read_decimal-point (take (length s - k) s) (drop (length s - k) s) 0 n
          (take-IsDigit (length s - k) s (show_ℕ-IsDigit n).0)
          (take-drop (length s - k) s ∙ sym (padded_none n))
        ∙ ap (λ j. some (n, j)) (length-drop (length s - k) s ∙ ground arith))
]

small_word : (k : ℕ) → k < 2 ^ 31 → to_word 64 (pos k) ≡ k
small_word k h = ground arith

point_or_whole :
    (k n : ℕ) (b : Bool)
    → is_zero (pos k) ≡ b
    → read_decimal (if b then to_string (pos n) else point_in k (to_string (pos n))) ≡ some (n, k)
unfolding to_string
point_or_whole k n true e = read_decimal-whole n ∙ ap (λ j. some (n, j)) (ground arith)
point_or_whole k n false e = read_decimal-point_in k n

-- The text of a decimal of at most seven bytes, with a scale of 0 or more, stands for the number
-- that the bytes spell, without a sign, with as many digits behind the point as the scale says.
pub read_decimal-decimal_string :
    (bytes : Bytes) (k : ℕ)
    → All IsByte bytes
    → length bytes ≤ 7
    → k < 2 ^ 31
    → read_decimal (decimal_string bytes (pos k)) ≡ some (big_endian 0 bytes, k)
unfolding decimal_string
read_decimal-decimal_string bytes k h short small =
    rw (unscaled_lem bytes h short, small_word k small)
      (point_or_whole k (big_endian 0 bytes) (is_zero (pos k)) refl)
