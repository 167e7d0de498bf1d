-- ===== src/Connection/Numbers.antt =====
-- The numbers that the connection makes of dates, varints and decimals.
use mariadb_scylla_storage_e.Prelude.{
  ℕ, zero, suc, ◌+◌, ◌-◌, ◌*◌, ◌^◌, ◌≤◌, ◌<◌, [], ◌∷◌, ◌≡◌, refl, sym, ap, arith, if◌then◌else◌,
  leb, All, length, take, Bool-cases, inl, inr,
}
use mariadb_scylla_storage_e.Prelude.Int.{pos, sub_ℕ, ◌+ℤ◌, signed}
use mariadb_scylla_storage_e.Prelude.Text.{Bytes}
use mariadb_scylla_storage_e.Connection.Values.{
  days_since_epoch, shift_in, shift_all, unscaled, varint_value,
}

-- The days of a CQL date are its value less 2^31: the overflowing constant and the 32-bit
-- subtraction give the right number of days for every date, before the epoch and after it.
pub days_since_epoch_lem :
    (date_val : ℕ) → date_val < 2 ^ 32 → days_since_epoch date_val ≡ sub_ℕ date_val (2 ^ 31)
unfolding days_since_epoch
days_since_epoch_lem date_val h = ground arith

abbrev pub IsByte : ℕ → Type 0
IsByte b = b < 256

-- The number that the bytes spell behind `acc`, the most significant first, with no bound.
abbrev pub big_endian : ℕ → Bytes → ℕ
big_endian acc [] = acc
big_endian acc (b ∷ s) = big_endian (acc * 256 + b) s

-- 256 to the number of bytes.
abbrev pub span : Bytes → ℕ
span [] = 1
span (_ ∷ s) = 256 * span s

big_endian-add : (acc : ℕ) (s : Bytes) → big_endian acc s ≡ acc * span s + big_endian 0 s
big_endian-add acc [] = omega arith
big_endian-add acc (b ∷ s) =
    grind (arith, big_endian-add (acc * 256 + b) s, big_endian-add (0 * 256 + b) s)

span-pos : (s : Bytes) → 0 < span s
span-pos [] = omega arith
span-pos (b ∷ s) = omega (arith, span-pos s)

big_endian-lt-span : (s : Bytes) → All IsByte s → big_endian 0 s < span s
big_endian-lt-span [] h = omega arith
big_endian-lt-span (b ∷ s) (hb, h) =
    grind (arith, big_endian-add (0 * 256 + b) s, big_endian-lt-span s h)

mul_mono : (a b n : ℕ) → a ≤ b → a * n ≤ b * n
mul_mono a b n h = grind arith

le-mul-span : (m : ℕ) (s : Bytes) → m ≤ m * span s
le-mul-span m s = grind (arith, span-pos s)

shift_in_exact : (v b : ℕ) → v * 256 < 2 ^ 64 → shift_in v b ≡ v * 256 + b
shift_in_exact v b h = omega arith

shift_in_negative :
    (k b : ℕ)
    → 0 < k
    → k * 256 ≤ 2 ^ 64
    → b < 256
    → shift_in (2 ^ 64 - k) b ≡ 2 ^ 64 - (k * 256 - b)
shift_in_negative k b p h hb = omega arith

mul_sub_lem : (k b n : ℕ) → b ≤ k * 256 → (k * 256 - b) * n + b * n ≡ k * (256 * n)
mul_sub_lem k b n h =
    let e : k * 256 - b + b ≡ k * 256 = omega arith in omega (arith, ap (λ (t : ℕ). t * n) e)

-- `shift_all` is exact while the number fits.
shift_all-big_endian :
    (v : ℕ) (s : Bytes) → All IsByte s → (v + 1) * span s ≤ 2 ^ 64 → shift_all v s ≡ big_endian v s
unfolding shift_all
shift_all-big_endian v [] h fits = refl
shift_all-big_endian v (b ∷ s) (hb, h) fits =
    let room : (v + 1) * 256 ≤ 2 ^ 64 = omega (arith, le-mul-span ((v + 1) * 256) s) in
    let exact : shift_in v b ≡ v * 256 + b = shift_in_exact v b (omega arith) in
    rw exact (shift_all-big_endian (v * 256 + b) s h (fits_next room))
  where
    fits_next : (v + 1) * 256 ≤ 2 ^ 64 → (v * 256 + b + 1) * span s ≤ 2 ^ 64
    fits_next room =
        omega (arith, mul_mono (v * 256 + b + 1) ((v + 1) * 256) (span s) (omega arith))

-- From a number `k` below 2^64 it stays that far below, by the same rule.
shift_all-negative :
    (k : ℕ) (s : Bytes)
    → All IsByte s
    → 0 < k
    → k * span s ≤ 2 ^ 64
    → shift_all (2 ^ 64 - k) s + k * span s ≡ 2 ^ 64 + big_endian 0 s
unfolding shift_all
shift_all-negative k [] h p fits = omega arith
shift_all-negative k (b ∷ s) (hb, h) p fits =
    let room : k * 256 ≤ 2 ^ 64 = omega (arith, le-mul-span (k * 256) s) in
    let less : (k * 256 - b) * span s ≤ 2 ^ 64 =
      omega (arith, mul_sub_lem k b (span s) (omega arith)) in
    rw (shift_in_negative k b p room hb) (
      omega (
        arith,
        shift_all-negative (k * 256 - b) s h (omega arith) less,
        mul_sub_lem k b (span s) (omega arith),
        big_endian-add (0 + b) s,
      ))

power : ℕ → ℕ
power zero = 1
power (suc n) = 256 * power n

span-le-power : (s : Bytes) (n : ℕ) → length s ≤ n → span s ≤ power n
unfolding power
span-le-power [] zero h = omega arith
span-le-power [] (suc n) h = omega (arith, span-le-power [] n (omega arith))
span-le-power (b ∷ s) zero h = absurd (omega arith)
span-le-power (b ∷ s) (suc n) h = omega (arith, span-le-power s n (omega arith))

span-le : (s : Bytes) → length s ≤ 8 → span s ≤ 2 ^ 64
unfolding power
span-le s h = span-le-power s 8 h

pub take_all : (n : ℕ) (s : Bytes) → length s ≤ n → take n s ≡ s
take_all zero [] h = refl
take_all zero (b ∷ s) h = absurd (omega arith)
take_all (suc n) [] h = refl
take_all (suc n) (b ∷ s) h = ap (λ t. b ∷ t) (take_all n s (omega arith))

-- The bounds on a number by its first byte.
big_endian_bounds :
    (first : ℕ) (rest : Bytes)
    → All IsByte rest
    → (first * span rest ≤ big_endian 0 (first ∷ rest))
      × (big_endian 0 (first ∷ rest) < (first + 1) * span rest)
big_endian_bounds first rest h = (
  omega (arith, big_endian-add (0 + first) rest),
  omega (arith, big_endian-add (0 + first) rest, big_endian-lt-span rest h),
)

signed_small : (n : ℕ) → n < 2 ^ 63 → signed 64 n ≡ pos n
signed_small n h = ground arith

signed_large : (x n m : ℕ) → x + m ≡ 2 ^ 64 + n → n < m → m ≤ n + 2 ^ 63 → signed 64 x ≡ sub_ℕ n m
signed_large x n m e p q = ground arith

-- A varint of at most eight bytes is the number that its bytes stand for in two's complement: what
-- they spell, less 256 to the number of bytes if the first byte has the sign bit.
pub varint_value_lem :
    (first : ℕ) (rest : Bytes)
    → All IsByte (first ∷ rest)
    → length (first ∷ rest) ≤ 8
    → varint_value first rest ≡ (
        if leb 128 first
        then sub_ℕ (big_endian 0 (first ∷ rest)) (span (first ∷ rest))
        else pos (big_endian 0 (first ∷ rest)))
unfolding varint_value
varint_value_lem first rest h short =
    let bytes : Bytes = first ∷ rest in
    let n = big_endian 0 bytes in
    let fit = span-le bytes short in
    let (low, high) = big_endian_bounds first rest h.1 in
    elim (Bool-cases (leb 128 first)) [
      | inl e ↦
          let top : 128 ≤ first = ground arith in
          rw (e, take_all 8 bytes short)
            (signed_large _ n (span bytes)
              (omega (arith, shift_all-negative 1 bytes h (omega arith) (omega (arith, fit))))
              (big_endian-lt-span bytes h)
              (omega (arith, fit, low, mul_mono 128 first (span rest) top)))
      | inr e ↦
          let below : first + 1 ≤ 128 = ground arith in
          rw (e, take_all 8 bytes short)
            (rw (shift_all-big_endian 0 bytes h (omega (arith, fit))) (
              signed_small n
                (omega (arith, fit, high, mul_mono (first + 1) 128 (span rest) below))))
    ]

pub unscaled_lem :
    (bytes : Bytes)
    → All IsByte bytes
    → length bytes ≤ 7
    → unscaled bytes ≡ pos (big_endian 0 bytes)
unfolding unscaled power
unscaled_lem bytes h short =
    let fit = span-le-power bytes 7 short in
    rw (shift_all-big_endian 0 bytes h (omega (arith, fit)))
      (signed_small _ (omega (arith, fit, big_endian-lt-span bytes h)))

sub_add_lem : (n m : ℕ) → sub_ℕ n m +ℤ pos m ≡ pos n
unfolding ◌+ℤ◌
sub_add_lem n m = ground arith

add_zero_lem : (n : ℕ) → pos n +ℤ pos 0 ≡ pos n
unfolding ◌+ℤ◌
add_zero_lem n = ground arith

-- The unscaled number that the connection takes from a decimal of one to seven bytes is the number
-- that the bytes stand for in two's complement only if that is not negative: a negative one comes
-- out greater by 256 to the number of bytes.
pub unscaled-varint_value :
    (first : ℕ) (rest : Bytes)
    → All IsByte (first ∷ rest)
    → length (first ∷ rest) ≤ 7
    → unscaled (first ∷ rest)
      ≡ varint_value first rest +ℤ pos (if leb 128 first then span (first ∷ rest) else 0)
unscaled-varint_value first rest h short = elim (Bool-cases (leb 128 first)) [
  | inl e ↦
      rw
        (
          unscaled_lem (first ∷ rest) h short,
          varint_value_lem first rest h (omega (arith, short)),
          e,
        )
        (sym (sub_add_lem _ _))
  | inr e ↦
      rw
        (
          unscaled_lem (first ∷ rest) h short,
          varint_value_lem first rest h (omega (arith, short)),
          e,
        )
        (sym (add_zero_lem _))
]
