-- ===== src/Numerals/Width.antt =====
-- How many digits `to_string` and the padding with zeros print.
use mariadb_scylla_storage_e.Prelude.{
  ℕ, zero, suc, ◌+◌, ◌-◌, ◌*◌, ◌/◌, ◌%◌, ◌<◌, ◌≤◌, [], ◌∷◌, ◌++◌, ◌≡◌, refl, ap, arith, length,
  length-append, replicate,
}
use mariadb_scylla_storage_e.Numerals.{digits, show_ℕ, padded}

-- The powers of ten.
abbrev pub tens : ℕ → ℕ
tens zero = 1
tens (suc w) = 10 * tens w

length-digits : (f w n : ℕ) → n < tens (suc w) → length (digits f n) ≤ suc w
unfolding digits
length-digits zero w n h = omega arith
length-digits (suc f) zero n h = ground arith
length-digits (suc f) (suc w) n h =
    let shorter = length-digits f w (n / 10) (omega arith) in
    let last = length-append (digits f (n / 10)) ((b'0' + n % 10) ∷ []) in
    ground (arith, shorter, last)

pub length-replicate : (n : ℕ) (c : ℕ) → length (replicate n c) ≡ n
length-replicate zero c = refl
length-replicate (suc n) c = omega (arith, length-replicate n c)

-- A number with at most `suc w` digits is padded to exactly that many.
pub length-padded : (w n : ℕ) → n < tens (suc w) → length (padded (suc w) (show_ℕ n)) ≡ suc w
unfolding padded show_ℕ
length-padded w n h =
    let s = digits (suc n) n in
    omega (
      arith,
      length-append (replicate (suc w - length s) b'0') s,
      length-replicate (suc w - length s) b'0',
      length-digits (suc n) w n h,
    )

length-digits_long : (f n : ℕ) → 10 ≤ n → length (digits (suc f) n) ≡ length (digits f (n / 10)) + 1
unfolding digits
length-digits_long f n h = ground (arith, length-append (digits f (n / 10)) ((b'0' + n % 10) ∷ []))

length-digits_some : (f n : ℕ) → 1 ≤ length (digits (suc f) n)
unfolding digits
length-digits_some f n = ground (arith, length-append (digits f (n / 10)) ((b'0' + n % 10) ∷ []))

length-digits_four : (f n : ℕ) → 1000 ≤ n → 4 ≤ length (digits (suc (suc (suc (suc f)))) n)
length-digits_four f n h = omega (
  arith,
  length-digits_long (suc (suc (suc f))) n (omega arith),
  length-digits_long (suc (suc f)) (n / 10) (omega arith),
  length-digits_long (suc f) (n / 10 / 10) (omega arith),
  length-digits_some f (n / 10 / 10 / 10),
)

fuel_four : (n : ℕ) → 1000 ≤ n → suc (suc (suc (suc (n - 3)))) ≡ suc n
fuel_four n h = omega arith

length-digits_thousand : (n : ℕ) → 1000 ≤ n → 4 ≤ length (digits (suc n) n)
length-digits_thousand n h = rw (fuel_four n h) at (length-digits_four (n - 3) n h)

-- A number of four digits needs no padding to four.
pub padded-show_ℕ : (n : ℕ) → 1000 ≤ n → padded 4 (show_ℕ n) ≡ show_ℕ n
unfolding padded show_ℕ
padded-show_ℕ n h =
    let none_left : 4 - length (digits (suc n) n) ≡ 0 = omega (arith, length-digits_thousand n h) in
    ap (λ k. replicate k b'0' ++ digits (suc n) n) none_left
