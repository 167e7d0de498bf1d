-- ===== src/Types/Moments.antt =====
-- The literals of dates and of times of day against CQL's reading of them.
use mathlib.Core.Option.{bind}
use mariadb_scylla_storage_e.Prelude.{
  ℕ, false, true, some, [], ◌∷◌, ◌++◌, append_assoc, append-nil, ◌≡◌, ◌≢◌, ◌∙◌, refl, sym, arith,
  All, All-append, All-imp, ◌==◌,
}
use mariadb_scylla_storage_e.Prelude.Text.{Bytes}
use mariadb_scylla_storage_e.Numerals.{show_ℕ, padded, is_digit, unsigned_prefix}
use mariadb_scylla_storage_e.Numerals.RoundTrip.{IsDigit, unsigned_prefix-padded, padded-IsDigit}
use mariadb_scylla_storage_e.Server.{MysqlTime}
use mariadb_scylla_storage_e.Types.Literal.{quoted, quoted_plain, read_literal, read_literal-quoted}
use mariadb_scylla_storage_e.Types.Value.{date_literal, time_literal}
use mariadb_scylla_storage_e.Types.Cql.{read_three, dated, clocked, read_date, read_time}

-- Three numbers as they are written, the first at least `w` digits wide.
abbrev three : ℕ → ℕ → ℕ → ℕ → ℕ → Bytes
three w sep a b c =
    padded w (show_ℕ a) ++ (sep ∷ (padded 2 (show_ℕ b) ++ (sep ∷ padded 2 (show_ℕ c))))

==-same : (n : ℕ) → (n == n) ≡ true
==-same n = ground arith

read_three-three :
    (w sep a b c : ℕ) → is_digit sep ≡ false → read_three sep (three w sep a b c) ≡ some (a, b, c)
unfolding read_three bind
read_three-three w sep a b c h =
    let last : unsigned_prefix (padded 2 (show_ℕ c)) ≡ some (c, []) =
      rw (append-nil (padded 2 (show_ℕ c))) at (unsigned_prefix-padded 2 c [] tt) in
    rw (
      unsigned_prefix-padded w a (sep ∷ (padded 2 (show_ℕ b) ++ (sep ∷ padded 2 (show_ℕ c)))) h,
      ==-same sep,
      unsigned_prefix-padded 2 b (sep ∷ padded 2 (show_ℕ c)) h,
      ==-same sep,
      last,
    )

digit_plain : (c : ℕ) → IsDigit c → c ≢ b'\''
digit_plain c h = ground arith

padded_plain : (w n : ℕ) → All (λ c. c ≢ b'\'') (padded w (show_ℕ n))
padded_plain w n = All-imp IsDigit _ (padded w (show_ℕ n)) digit_plain (padded-IsDigit w n)

three_plain : (w sep a b c : ℕ) → sep ≢ b'\'' → All (λ c'. c' ≢ b'\'') (three w sep a b c)
three_plain w sep a b c h =
    All-append _ (padded w (show_ℕ a)) _ (padded_plain w a)
      (h, All-append _ (padded 2 (show_ℕ b)) _ (padded_plain 2 b) (h, padded_plain 2 c))

quoted-three :
    (w sep a b c : ℕ)
    → sep ≢ b'\''
    → quoted (three w sep a b c)
      ≡ b'\''
        ∷ (padded w (show_ℕ a)
            ++ (sep ∷ (padded 2 (show_ℕ b) ++ (sep ∷ (padded 2 (show_ℕ c) ++ b'\'' ∷ [])))))
quoted-three w sep a b c h =
    quoted_plain (three w sep a b c) (three_plain w sep a b c h)
    ∙ rw (
      append_assoc (padded w (show_ℕ a))
          (sep ∷ (padded 2 (show_ℕ b) ++ (sep ∷ padded 2 (show_ℕ c)))) (b'\'' ∷ []),
      append_assoc (padded 2 (show_ℕ b)) (sep ∷ padded 2 (show_ℕ c)) (b'\'' ∷ []),
    )

pub date_literal-quoted :
    (t : MysqlTime) → date_literal t ≡ quoted (three 4 b'-' t.year t.month t.day)
unfolding date_literal
date_literal-quoted t = sym (quoted-three 4 b'-' t.year t.month t.day (ground arith))

pub time_literal-quoted :
    (t : MysqlTime) → time_literal t ≡ quoted (three 2 b':' t.hour t.minute t.second)
unfolding time_literal
time_literal-quoted t = sym (quoted-three 2 b':' t.hour t.minute t.second (ground arith))

quoted_read : (s : Bytes) → read_literal (quoted s) ≡ some (s, [])
quoted_read s = rw (append-nil (quoted s)) at (read_literal-quoted s [] tt)

pub read_date-date_literal :
    (t : MysqlTime) → read_date (date_literal t) ≡ dated t.year t.month t.day
unfolding read_date bind
read_date-date_literal t = rw (
  date_literal-quoted t,
  quoted_read (three 4 b'-' t.year t.month t.day),
  read_three-three 4 b'-' t.year t.month t.day refl,
)

pub read_time-time_literal :
    (t : MysqlTime) → read_time (time_literal t) ≡ clocked t.hour t.minute t.second
unfolding read_time bind
read_time-time_literal t = rw (
  time_literal-quoted t,
  quoted_read (three 2 b':' t.hour t.minute t.second),
  read_three-three 2 b':' t.hour t.minute t.second refl,
)
