-- ===== src/Handler/Columns.antt =====
-- `column_map`: the columns of an answer by their names.
use mariadb_scylla_storage_e.Prelude.{
  true, false, none, some, List, [], ◌∷◌, map, ◌≡◌, ◌≢◌, ◌∙◌, refl, sym, Bool-cases, inl, inr, All,
}
use mariadb_scylla_storage_e.Prelude.Text.{Bytes, bytes_eq, bytes_eq_iff}
use mariadb_scylla_storage_e.Handler.Record.{lower, column_value}

-- The columns of an answer: names and texts.
abbrev pub Columns : Type 0
Columns = List (Bytes × Bytes)

abbrev pub names_of : Columns → List Bytes
names_of = map (λ c. c.0)

abbrev pub texts_of : Columns → List Bytes
texts_of = map (λ c. c.1)

-- No two columns have the same name without regard to case.
abbrev pub IsDistinct : Columns → Type 0
IsDistinct [] = Unit
IsDistinct (c ∷ cols) = All (λ d. lower d.0 ≢ lower c.0) cols × IsDistinct cols

-- A column of this name and this text is among them.
pub data HasColumn (key text : Bytes) : Columns → Type 0 where
  here :
      {name : Bytes} {cols : Columns} → lower name ≡ key → HasColumn key text ((name, text) ∷ cols)
  there :
      {c : Bytes × Bytes} {cols : Columns} → HasColumn key text cols → HasColumn key text (c ∷ cols)

bytes_eq-false : (s t : Bytes) → s ≢ t → bytes_eq s t ≡ false
bytes_eq-false s t h = elim (Bool-cases (bytes_eq s t)) [
  | inl e ↦ absurd (h ((bytes_eq_iff s t).0 e))
  | inr e ↦ e
]

bytes_eq-true : (s t : Bytes) → s ≡ t → bytes_eq s t ≡ true
bytes_eq-true s t h = (bytes_eq_iff s t).1 h

column_value-none :
    (cols : Columns) (key : Bytes)
    → All (λ d. lower d.0 ≢ key) cols
    → column_value (names_of cols) (texts_of cols) key ≡ none
unfolding column_value
column_value-none [] key h = refl
column_value-none (c ∷ cols) key (h, hs) =
    rw (column_value-none cols key hs, bytes_eq-false (lower c.0) key h)

HasColumn-ne :
    (cols : Columns) (key text other : Bytes)
    → HasColumn key text cols
    → All (λ d. lower d.0 ≢ other) cols
    → key ≢ other
HasColumn-ne [] key text other m hs = elim m [ ]
HasColumn-ne (c ∷ cols) key text other (here e) (h, hs) = λ q. h (e ∙ q)
HasColumn-ne (c ∷ cols) key text other (there m) (h, hs) = HasColumn-ne cols key text other m hs

-- Under distinct names the value of every column is found, in whichever order the columns stand.
pub column_value-HasColumn :
    (cols : Columns) (key text : Bytes)
    → IsDistinct cols
    → HasColumn key text cols
    → column_value (names_of cols) (texts_of cols) key ≡ some text
unfolding column_value
column_value-HasColumn [] key text d m = elim m [ ]
column_value-HasColumn (c ∷ cols) key text (d, ds) (here e) =
    rw (column_value-none cols key (rw (sym e) d), bytes_eq-true (lower c.0) key e)
column_value-HasColumn (c ∷ cols) key text (d, ds) (there m) =
    rw (column_value-HasColumn cols key text ds m)
