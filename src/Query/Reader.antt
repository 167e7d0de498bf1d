-- ===== src/Query/Reader.antt =====
-- CQL's reading of the statements that the engine writes, with one blank where it writes one: names,
-- terms and lists of them.
use mathlib.Core.Option.{bind}
use mariadb_scylla_storage_e.Prelude.{
  ℕ, zero, suc, ◌-◌, Bool, true, false, not, ◌||◌, ◌&&◌, Option, none, some, List, [], ◌∷◌, ◌==◌,
  leb, length, take, if◌then◌else◌,
}
use mariadb_scylla_storage_e.Prelude.Text.{Bytes, codes, is_empty}
use mariadb_scylla_storage_e.Types.Literal.{read_literal}

-- The longest text in front whose characters pass, and the rest.
unfoldable pub split_word : (ℕ → Bool) → Bytes → Bytes × Bytes
split_word p [] = ([], [])
split_word p (c ∷ s) = let (w, r) = split_word p s in if p c then (c ∷ w, r) else ([], c ∷ s)

unfoldable pub read_word : (ℕ → Bool) → Bytes → Option (Bytes × Bytes)
read_word p s = let (w, r) = split_word p s in if is_empty w then none else some (w, r)

-- A name with no quotes: letters, digits and underscores.
abbrev pub is_name : ℕ → Bool
is_name c =
    leb b'a' c && leb c b'z'
    || (leb b'A' c && leb c b'Z')
    || (leb b'0' c && leb c b'9')
    || (c == b'_')

-- The characters of a term that is no text.
abbrev pub is_bare : ℕ → Bool
is_bare c = not (c == b',' || (c == b')') || (c == b' ') || (c == b'\''))

unfoldable pub read_name : Bytes → Option (Bytes × Bytes)
read_name s = read_word is_name s

-- The text that was read, as it stands there.
abbrev pub consumed : Bytes → Option (Bytes × Bytes) → Option (Bytes × Bytes)
consumed s none = none
consumed s (some (_, rest)) = some (take (length s - length rest) s, rest)

-- A text in quotes, or a term that is no text, and what follows it.
unfoldable pub read_term : Bytes → Option (Bytes × Bytes)
read_term [] = none
read_term (c ∷ s) =
    if c == b'\'' then consumed (c ∷ s) (read_literal (c ∷ s)) else read_word is_bare (c ∷ s)

-- What follows a word that must stand in front.
unfoldable pub strip : Bytes → Bytes → Option Bytes
strip [] s = some s
strip (c ∷ word) [] = none
strip (c ∷ word) (d ∷ s) = let rest = strip word s in if c == d then rest else none

module _ {ℓ} {A : Type ℓ} (sep : Bytes) (item : Bytes → Option (A × Bytes)) where
  abbrev pub one_or_more :
      (Bytes → Option (List A × Bytes)) → Option (A × Bytes) → Option (List A × Bytes)
  one_or_more more none = none
  one_or_more more (some (x, r)) = elim (strip sep r) [
    | none ↦ some (x ∷ [], r)
    | some s ↦ bind (more s) (λ t. some (x ∷ t.0, t.1))
  ]

  -- One item or more with the separator between them; the fuel bounds their number.
  unfoldable pub read_list : ℕ → Bytes → Option (List A × Bytes)
  read_list zero s = none
  read_list (suc fuel) s = one_or_more (read_list fuel) (item s)

-- `Insert` is what CQL reads in an INSERT: the literals stand for the columns' values in order.
pub record Insert : Type 0 where
  pub keyspace : Bytes
  pub table : Bytes
  pub columns : List Bytes
  pub literals : List Bytes

abbrev pub only_if_empty {ℓ} : {A : Type ℓ} → A → Bytes → Option A
only_if_empty a [] = some a
only_if_empty a (_ ∷ _) = none

unfoldable pub read_values : Bytes → Bytes → List Bytes → Bytes → Option Insert
read_values keyspace table columns s = bind (strip (codes ") VALUES (") s) (λ s1.
    bind (read_list (codes ", ") read_term (suc (length s1)) s1) (λ v.
      bind (strip (codes ")") v.1) (λ s2.
        only_if_empty
          (record { keyspace = keyspace; table = table; columns = columns; literals = v.0 }) s2)))

unfoldable pub read_columns : Bytes → Bytes → Bytes → Option Insert
read_columns keyspace table s = bind (strip (codes " (") s) (λ s1.
    bind (read_list (codes ", ") read_name (suc (length s1)) s1)
      (λ c. read_values keyspace table c.0 c.1))

-- A table with its keyspace in front.
unfoldable pub read_table : Bytes → Option (Bytes × Bytes × Bytes)
read_table s =
    bind (read_name s)
      (λ k. bind (strip (codes ".") k.1) (λ s1. bind (read_name s1) (λ t. some (k.0, t.0, t.1))))

unfoldable pub read_insert : Bytes → Option Insert
read_insert s =
    bind (strip (codes "INSERT INTO ") s)
      (λ s1. bind (read_table s1) (λ t. read_columns t.0 t.1 t.2))

-- `Equation` is a name and a literal with ` = ` between them.
abbrev pub Equation : Type 0
Equation = Bytes × Bytes

unfoldable pub read_equation : Bytes → Option (Equation × Bytes)
read_equation s =
    bind (read_name s) (λ n.
      bind (strip (codes " = ") n.1) (λ s1. bind (read_term s1) (λ v. some ((n.0, v.0), v.1))))

-- Equations joined by ` AND ` behind the word WHERE.
unfoldable pub read_where : Bytes → Option (List Equation × Bytes)
read_where s =
    bind (strip (codes " WHERE ") s)
      (λ s1. read_list (codes " AND ") read_equation (suc (length s1)) s1)

-- `Update` is what CQL reads in an UPDATE.
pub record Update : Type 0 where
  pub keyspace : Bytes
  pub table : Bytes
  pub assigned : List Equation
  pub compared : List Equation

unfoldable pub read_set : Bytes → Bytes → Bytes → Option Update
read_set keyspace table s = bind (strip (codes " SET ") s) (λ s1.
    bind (read_list (codes ", ") read_equation (suc (length s1)) s1) (λ a.
      bind (read_where a.1) (λ c.
        only_if_empty
          (record { keyspace = keyspace; table = table; assigned = a.0; compared = c.0 }) c.1)))

unfoldable pub read_update : Bytes → Option Update
read_update s =
    bind (strip (codes "UPDATE ") s) (λ s1. bind (read_table s1) (λ t. read_set t.0 t.1 t.2))

-- `Delete` is what CQL reads in a DELETE of whole rows.
pub record Delete : Type 0 where
  pub keyspace : Bytes
  pub table : Bytes
  pub compared : List Equation

unfoldable pub read_delete : Bytes → Option Delete
read_delete s = bind (strip (codes "DELETE FROM ") s) (λ s1. bind (read_table s1) (λ t.
    bind (read_where t.2)
      (λ c. only_if_empty (record { keyspace = t.0; table = t.1; compared = c.0 }) c.1)))

-- `Select` is what CQL reads in a SELECT; with no WHERE clause it compares nothing.
pub record Select : Type 0 where
  pub columns : List Bytes
  pub keyspace : Bytes
  pub table : Bytes
  pub compared : List Equation
  pub filtering : Bool

-- The end of a SELECT, with the words ALLOW FILTERING or without.
unfoldable pub read_filtering : Bytes → Option Bool
read_filtering s = elim (strip (codes " ALLOW FILTERING") s) [
  | none ↦ only_if_empty false s
  | some r ↦ only_if_empty true r
]

-- The same behind a WHERE clause or none.
unfoldable pub read_conditions : Bytes → Option (List Equation × Bool)
read_conditions s = elim (read_where s) [
  | none ↦ bind (read_filtering s) (λ b. some ([], b))
  | some c ↦ bind (read_filtering c.1) (λ b. some (c.0, b))
]

unfoldable pub read_select : Bytes → Option Select
read_select s = bind (strip (codes "SELECT ") s) (λ s1.
    bind (read_list (codes ", ") read_name (suc (length s1)) s1) (λ c.
      bind (strip (codes " FROM ") c.1) (λ s2. bind (read_table s2) (λ t.
        bind (read_conditions t.2) (λ w. some (record {
          columns = c.0;
          keyspace = t.0;
          table = t.1;
          compared = w.0;
          filtering = w.1;
        }))))))
