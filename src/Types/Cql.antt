-- ===== src/Types/Cql.antt =====
-- CQL's reading of a literal as a value of a column's type.
use mathlib.Core.Option.{bind}
use mariadb_scylla_storage_e.Prelude.{
  ◌%◌, not, ◌==◌, ◌&&◌, ◌||◌, leb, ltb, ℕ, Bool, true, false, Option, none, some, [], ◌∷◌,
  if◌then◌else◌,
}
use mariadb_scylla_storage_e.Prelude.Int.{ℤ}
use mariadb_scylla_storage_e.Prelude.Text.{Bytes, codes, bytes_eq, is_empty}
use mariadb_scylla_storage_e.Numerals.{integer_prefix, unsigned_prefix, fits}
use mariadb_scylla_storage_e.Types.Literal.{read_literal, read_hex}

pub data CqlValue : Type 0 where
  null : CqlValue
  integer : ℤ → CqlValue
  text blob : Bytes → CqlValue
  boolean : Bool → CqlValue
  -- A year, a month and a day; an hour, a minute and a second of a day.
  date time : ℕ → ℕ → ℕ → CqlValue

-- A number with nothing behind it, in the range of `w` bits.
abbrev pub whole : ℕ → Option (ℤ × Bytes) → Option CqlValue
whole w none = none
whole w (some (z, [])) = if fits w z then some (integer z) else none
whole w (some (z, _ ∷ _)) = none

abbrev pub ended : Option (Bytes × Bytes) → Option CqlValue
ended none = none
ended (some (s, [])) = some (text s)
ended (some (s, _ ∷ _)) = none

abbrev pub as_blob : Option Bytes → Option CqlValue
as_blob none = none
as_blob (some s) = some (blob s)

unfoldable pub read_integer : ℕ → Bytes → Option CqlValue
read_integer w lit = whole w (integer_prefix lit)

unfoldable pub read_text : Bytes → Option CqlValue
read_text lit = ended (read_literal lit)

unfoldable pub read_blob : Bytes → Option CqlValue
read_blob (a ∷ b ∷ s) = if bytes_eq (a ∷ b ∷ []) (codes "0x") then as_blob (read_hex s) else none
read_blob _ = none

unfoldable pub read_boolean : Bytes → Option CqlValue
read_boolean lit =
    if bytes_eq lit (codes "true")
    then some (boolean true)
    else if bytes_eq lit (codes "false")
    then some (boolean false)
    else none

-- What follows a character that must stand in front.
abbrev pub behind : ℕ → Bytes → Option Bytes
behind sep [] = none
behind sep (c ∷ s) = if c == sep then some s else none

-- Three numbers with a separator between them, and nothing behind.
unfoldable pub read_three : ℕ → Bytes → Option (ℕ × ℕ × ℕ)
read_three sep s = bind (unsigned_prefix s) (λ a. bind (behind sep a.1) (λ s1.
    bind (unsigned_prefix s1) (λ b. bind (behind sep b.1) (λ s2.
      bind (unsigned_prefix s2) (λ c. if is_empty c.1 then some (a.0, b.0, c.0) else none)))))

abbrev pub days_in_month : ℕ → ℕ → ℕ
days_in_month year month =
    if month == 2
    then if (year % 4 == 0 && not (year % 100 == 0)) || (year % 400 == 0) then 29 else 28
    else if month == 4 || (month == 6) || (month == 9) || (month == 11)
    then 30
    else 31

-- A date only if there is such a day, and a time only within one day.
abbrev pub dated : ℕ → ℕ → ℕ → Option CqlValue
dated y mo d =
    if leb 1 mo && leb mo 12 && leb 1 d && leb d (days_in_month y mo)
    then some (date y mo d)
    else none

abbrev pub clocked : ℕ → ℕ → ℕ → Option CqlValue
clocked h mi s = if ltb h 24 && ltb mi 60 && ltb s 60 then some (time h mi s) else none

abbrev pub with_text : Option (Bytes × Bytes) → (Bytes → Option CqlValue) → Option CqlValue
with_text none f = none
with_text (some (s, [])) f = f s
with_text (some (s, _ ∷ _)) f = none

-- A date with dashes, and a time of whole seconds with colons.
unfoldable pub read_date : Bytes → Option CqlValue
read_date lit =
    with_text (read_literal lit) (λ s. bind (read_three b'-' s) (λ t. dated t.0 t.1 t.2))

unfoldable pub read_time : Bytes → Option CqlValue
read_time lit =
    with_text (read_literal lit) (λ s. bind (read_three b':' s) (λ t. clocked t.0 t.1 t.2))

-- The reading by the name of the type, of the types that are written here. A timestamp is a number of
-- milliseconds.
unfoldable pub read_as : Bytes → Bytes → Option CqlValue
unfolding read_integer read_text read_blob read_boolean read_date read_time
read_as ty lit =
    if bytes_eq ty (codes "tinyint")
    then read_integer 8 lit
    else if bytes_eq ty (codes "smallint")
    then read_integer 16 lit
    else if bytes_eq ty (codes "int")
    then read_integer 32 lit
    else if bytes_eq ty (codes "bigint")
    then read_integer 64 lit
    else if bytes_eq ty (codes "timestamp")
    then read_integer 64 lit
    else if bytes_eq ty (codes "text")
    then read_text lit
    else if bytes_eq ty (codes "blob")
    then read_blob lit
    else if bytes_eq ty (codes "boolean")
    then read_boolean lit
    else if bytes_eq ty (codes "date")
    then read_date lit
    else if bytes_eq ty (codes "time")
    then read_time lit
    else none

unfoldable pub read_value : Bytes → Bytes → Option CqlValue
unfolding read_as
read_value ty lit = if bytes_eq lit (codes "NULL") then some null else read_as ty lit
