-- ===== src/Numerals/RoundTrip.antt =====
-- Reading back what `to_string` prints.
use mariadb_scylla_storage_e.Prelude.{
  ℕ, zero, suc, ◌+◌, ◌-◌, ◌*◌, ◌/◌, ◌%◌, ◌<◌, true, false, some, [], ◌∷◌, ◌++◌, append-nil, ◌≡◌,
  ◌≢◌, refl, arith, All, All-append, length, replicate,
}
use mariadb_scylla_storage_e.Prelude.Int.{ℤ, pos, negsuc}
use mariadb_scylla_storage_e.Prelude.Text.{Bytes}
use mariadb_scylla_storage_e.Numerals.{
  ok, digits, show_ℕ, to_string, is_digit, take_digits, unsigned_prefix, padded, integer_prefix,
  fits, stoll, stoi,
}

abbrev pub IsDigit : ℕ → Type 0
IsDigit c = is_digit c ≡ true

-- The text does not go on with a digit.
abbrev pub EndsNumber : Bytes → Type 0
EndsNumber [] = Unit
EndsNumber (c ∷ _) = is_digit c ≡ false

-- The number that digits spell behind `acc`.
value : ℕ → Bytes → ℕ
value acc [] = acc
value acc (c ∷ s) = value (acc * 10 + (c - b'0')) s

value-append :
    (acc : ℕ) (s : Bytes) (c : ℕ) → value acc (s ++ c ∷ []) ≡ value acc s * 10 + (c - b'0')
unfolding value
value-append acc [] c = refl
value-append acc (d ∷ s) c = value-append (acc * 10 + (d - b'0')) s c

digits-IsDigit : (f n : ℕ) → All IsDigit (digits f n)
unfolding digits
digits-IsDigit zero n = tt
digits-IsDigit (suc f) n = ground (
  arith,
  All-append IsDigit (digits f (n / 10)) ((b'0' + n % 10) ∷ []) (digits-IsDigit f (n / 10)),
)

value-digits : (f n : ℕ) → n < f → value 0 (digits f n) ≡ n
unfolding digits value
value-digits zero n h = absurd (omega arith)
value-digits (suc f) n h =
    ground (arith, value-digits f (n / 10), value-append 0 (digits f (n / 10)) (b'0' + n % 10))

append-ne-nil : (s : Bytes) (c : ℕ) → s ++ c ∷ [] ≢ []
append-ne-nil [] c = cc
append-ne-nil (d ∷ s) c = cc

digits-ne-nil : (f n : ℕ) → digits (suc f) n ≢ []
unfolding digits
digits-ne-nil f n = ground (arith, append-ne-nil (digits f (n / 10)) (b'0' + n % 10))

take_digits-append :
    (s rest : Bytes) (acc : ℕ)
    → All IsDigit s
    → EndsNumber rest
    → take_digits acc (s ++ rest) ≡ (value acc s, rest)
unfolding take_digits value
take_digits-append [] [] acc h k = refl
take_digits-append [] (c ∷ rest) acc h k = rw k
take_digits-append (c ∷ s) rest acc h k =
    ground (arith, take_digits-append s rest (acc * 10 + (c - b'0')) h.1)

unsigned_prefix-digits :
    (s rest : Bytes)
    → s ≢ []
    → All IsDigit s
    → EndsNumber rest
    → unsigned_prefix (s ++ rest) ≡ some (value 0 s, rest)
unfolding unsigned_prefix value
unsigned_prefix-digits [] rest ne h k = absurd (ne refl)
unsigned_prefix-digits (c ∷ s) rest ne h k =
    ground (arith, take_digits-append s rest (0 * 10 + (c - b'0')) h.1)

unsigned_prefix-show_ℕ :
    (n : ℕ) (rest : Bytes) → EndsNumber rest → unsigned_prefix (show_ℕ n ++ rest) ≡ some (n, rest)
unfolding show_ℕ
unsigned_prefix-show_ℕ n rest k = rw (
  unsigned_prefix-digits _ rest (digits-ne-nil n n) (digits-IsDigit (suc n) n) k,
  value-digits (suc n) n (omega arith),
)

-- Digits carry no blank and no sign in front.
integer_prefix-digits :
    (s : Bytes) (n : ℕ) (rest : Bytes)
    → s ≢ []
    → All IsDigit s
    → unsigned_prefix (s ++ rest) ≡ some (n, rest)
    → integer_prefix (s ++ rest) ≡ some (pos n, rest)
unfolding integer_prefix
integer_prefix-digits [] n rest ne h e = absurd (ne refl)
integer_prefix-digits (c ∷ s) n rest ne h e = ground arith

-- `strtoll` reads back a printed integer and stops behind it, if no digit follows.
pub integer_prefix-to_string :
    (z : ℤ) (rest : Bytes) → EndsNumber rest → integer_prefix (to_string z ++ rest) ≡ some (z, rest)
unfolding to_string
integer_prefix-to_string (pos n) rest k =
    unfold show_ℕ in
    integer_prefix-digits (digits (suc n) n) n rest (digits-ne-nil n n) (digits-IsDigit (suc n) n)
      (unsigned_prefix-show_ℕ n rest k)
integer_prefix-to_string (negsuc n) rest k =
    unfold integer_prefix in rw (unsigned_prefix-show_ℕ (suc n) rest k) (ground arith)

-- `stoll` reads back every printed 64-bit integer.
pub stoll-to_string : (z : ℤ) → fits 64 z ≡ true → stoll (to_string z) ≡ ok z
unfolding stoll
stoll-to_string z h = rw (← append-nil (to_string z)) (rw (integer_prefix-to_string z [] tt, h))

-- `stoi` reads back every printed 32-bit integer.
pub stoi-to_string : (z : ℤ) → fits 32 z ≡ true → stoi (to_string z) ≡ ok z
unfolding stoi
stoi-to_string z h = rw (← append-nil (to_string z)) (rw (integer_prefix-to_string z [] tt, h))

value-zeros : (k : ℕ) (s : Bytes) → value 0 (replicate k b'0' ++ s) ≡ value 0 s
unfolding value
value-zeros zero s = refl
value-zeros (suc k) s = value-zeros k s

zeros-IsDigit : (k : ℕ) → All IsDigit (replicate k b'0')
zeros-IsDigit zero = tt
zeros-IsDigit (suc k) = (refl, zeros-IsDigit k)

concat-ne-nil : (s t : Bytes) → t ≢ [] → s ++ t ≢ []
concat-ne-nil [] t h = h
concat-ne-nil (c ∷ s) t h = cc

pub padded-IsDigit : (w n : ℕ) → All IsDigit (padded w (show_ℕ n))
unfolding padded show_ℕ
padded-IsDigit w n =
    All-append IsDigit (replicate (w - length (digits (suc n) n)) b'0') (digits (suc n) n)
      (zeros-IsDigit _) (digits-IsDigit (suc n) n)

padded-ne-nil : (w n : ℕ) → padded w (show_ℕ n) ≢ []
unfolding padded show_ℕ
padded-ne-nil w n = concat-ne-nil _ (digits (suc n) n) (digits-ne-nil n n)

pub unsigned_prefix-padded :
    (w n : ℕ) (rest : Bytes)
    → EndsNumber rest
    → unsigned_prefix (padded w (show_ℕ n) ++ rest) ≡ some (n, rest)
unfolding padded show_ℕ
unsigned_prefix-padded w n rest k = rw (
  unsigned_prefix-digits (padded w (show_ℕ n)) rest (padded-ne-nil w n) (padded-IsDigit w n) k,
  value-zeros _ (digits (suc n) n),
  value-digits (suc n) n (omega arith),
)

-- A number padded with zeros reads back too.
pub integer_prefix-padded :
    (w n : ℕ) (rest : Bytes)
    → EndsNumber rest
    → integer_prefix (padded w (show_ℕ n) ++ rest) ≡ some (pos n, rest)
integer_prefix-padded w n rest k =
    integer_prefix-digits (padded w (show_ℕ n)) n rest (padded-ne-nil w n) (padded-IsDigit w n)
      (unsigned_prefix-padded w n rest k)

-- What `stoll` reads in front of a text that does not go on with a digit.
pub stoll-to_string_append :
    (z : ℤ) (rest : Bytes) → EndsNumber rest → fits 64 z ≡ true → stoll (to_string z ++ rest) ≡ ok z
unfolding stoll
stoll-to_string_append z rest k h = rw (integer_prefix-to_string z rest k, h)

-- What is printed for a number is not empty, and has only digits behind a sign.
pub show_ℕ-IsDigit : (n : ℕ) → All IsDigit (show_ℕ n) × (show_ℕ n ≢ [])
unfolding show_ℕ
show_ℕ-IsDigit n = (digits-IsDigit (suc n) n, digits-ne-nil n n)
