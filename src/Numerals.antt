-- ===== src/Numerals.antt =====
-- The conversions between numbers and texts of the C++ standard library that the engine calls:
-- `std::to_string` and `operator<<` on integers, `std::stoll`, `std::stoi`, the `%d` of `sscanf`,
-- `std::setw` with `std::setfill('0')`, and the two hex digits of a byte.
pub mod RoundTrip
pub mod Width
use mariadb_scylla_storage_e.Prelude.{
  ℕ, zero, suc, ◌+◌, ◌-◌, ◌*◌, ◌/◌, ◌%◌, ◌^◌, Bool, ◌&&◌, ◌||◌, Option, none, some, List, [], ◌∷◌,
  ◌++◌, ◌≡◌, refl, ltb, leb, ◌==◌, if◌then◌else◌, length, replicate,
}
use mariadb_scylla_storage_e.Prelude.Int.{ℤ, pos, negsuc, negate}
use mariadb_scylla_storage_e.Prelude.Text.{Bytes, codes}

-- The exceptions that the conversions throw.
pub data Exception : Type 0 where
  invalid_argument out_of_range : Exception

pub data Result {ℓ} (A : Type ℓ) : Type ℓ where
  ok : A → Result A
  throw : Exception → Result A

infixl 5 ◌>>=◌
abbrev pub ◌>>=◌ {ℓ κ} : {A : Type ℓ} {B : Type κ} → Result A → (A → Result B) → Result B
ok a >>= f = f a
throw e >>= f = throw e

-- The decimal digits of `n`; fuel above `n` is enough, since each round divides by ten.
digits : ℕ → ℕ → Bytes
digits zero n = []
digits (suc f) n =
    let rest = digits f (n / 10) in
    if ltb n 10 then (b'0' + n) ∷ [] else rest ++ (b'0' + n % 10) ∷ []

unfoldable pub show_ℕ : ℕ → Bytes
unfolding digits
show_ℕ n = digits (suc n) n

unfoldable pub to_string : ℤ → Bytes
unfolding show_ℕ
to_string (pos n) = show_ℕ n
to_string (negsuc n) = b'-' ∷ show_ℕ (suc n)

-- `std::setw(w) << std::setfill('0')` before a number.
unfoldable pub padded : ℕ → Bytes → Bytes
padded w s = replicate (w - length s) b'0' ++ s

abbrev hex_digit : ℕ → ℕ
hex_digit d = if ltb d 10 then b'0' + d else b'a' + (d - 10)

-- `std::hex << std::setw(2) << std::setfill('0') << (int)b` of a byte.
unfoldable pub hex_byte : ℕ → Bytes
hex_byte b = hex_digit (b / 16) ∷ hex_digit (b % 16) ∷ []

abbrev pub is_digit : ℕ → Bool
is_digit c = leb b'0' c && leb c b'9'

-- The number that the leading digits spell behind `acc`, and the rest of the text.
take_digits : ℕ → Bytes → ℕ × Bytes
take_digits acc [] = (acc, [])
take_digits acc (c ∷ s) = if is_digit c then take_digits (acc * 10 + (c - b'0')) s else (acc, c ∷ s)

unfoldable pub unsigned_prefix : Bytes → Option (ℕ × Bytes)
unfolding take_digits
unsigned_prefix [] = none
unsigned_prefix (c ∷ s) = if is_digit c then some (take_digits 0 (c ∷ s)) else none

abbrev as_positive : Option (ℕ × Bytes) → Option (ℤ × Bytes)
as_positive none = none
as_positive (some (n, s)) = some (pos n, s)

abbrev as_negative : Option (ℕ × Bytes) → Option (ℤ × Bytes)
as_negative none = none
as_negative (some (n, s)) = some (negate (pos n), s)

signed_prefix : Bytes → Option (ℤ × Bytes)
unfolding unsigned_prefix
signed_prefix [] = none
signed_prefix (c ∷ s) =
    if c == b'-'
    then as_negative (unsigned_prefix s)
    else if c == b'+'
    then as_positive (unsigned_prefix s)
    else as_positive (unsigned_prefix (c ∷ s))

-- `isspace` in the C locale: space, and the codes 9 to 13.
abbrev is_space : ℕ → Bool
is_space c = c == b' ' || (leb 9 c && leb c 13)

skip_space : Bytes → Bytes
skip_space [] = []
skip_space (c ∷ s) = if is_space c then skip_space s else c ∷ s

-- What `strtoll` and `%d` read: blanks, a sign, digits. `none` if there is no digit.
unfoldable pub integer_prefix : Bytes → Option (ℤ × Bytes)
unfolding signed_prefix skip_space
integer_prefix s = signed_prefix (skip_space s)

-- Whether a number fits a signed word of `w` bits.
abbrev pub fits : ℕ → ℤ → Bool
fits w (pos n) = ltb n (2 ^ (w - 1))
fits w (negsuc n) = ltb n (2 ^ (w - 1))

abbrev in_word : ℕ → Option (ℤ × Bytes) → Result ℤ
in_word w none = throw invalid_argument
in_word w (some (z, _)) = if fits w z then ok z else throw out_of_range

-- `std::stoll`: text behind the number is ignored.
unfoldable pub stoll : Bytes → Result ℤ
unfolding integer_prefix
stoll s = in_word 64 (integer_prefix s)

-- `std::stoi`
unfoldable pub stoi : Bytes → Result ℤ
unfolding integer_prefix
stoi s = in_word 32 (integer_prefix s)

largest : stoll (codes " 9223372036854775807x") ≡ ok (pos 9223372036854775807)
unfolding stoll
largest = refl

negative : to_string (negsuc 41) ≡ codes "-42"
unfolding to_string
negative = refl

too_large : stoi (codes "2147483648") ≡ throw out_of_range
unfolding stoi
too_large = refl
