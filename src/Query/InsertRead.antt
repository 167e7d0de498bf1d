-- ===== src/Query/InsertRead.antt =====
-- What CQL reads in the INSERT that is written for a row.
use mathlib.Core.Option.{bind}
use mariadb_scylla_storage_e.Prelude.{
  none, some, List, [], ◌∷◌, ◌++◌, map, ◌≡◌, ◌≢◌, ◌∙◌, refl, ap, arith, All, All-imp, All-map,
  map-same,
}
use mariadb_scylla_storage_e.Prelude.Int.{ℤ}
use mariadb_scylla_storage_e.Prelude.Text.{Bytes, codes}
use mariadb_scylla_storage_e.Server.{Server, IsLawful}
use mariadb_scylla_storage_e.Query.Table.{Table}
use mariadb_scylla_storage_e.Query.Shape.{join, cell}
use mariadb_scylla_storage_e.Query.Statements.{full_name, build_insert_cql}
use mariadb_scylla_storage_e.Query.Texts.{build_insert_cql_lem}
use mariadb_scylla_storage_e.Query.Reader.{read_term, read_columns, read_values, read_insert, strip}
use mariadb_scylla_storage_e.Query.Scanning.{EndsTerm, IsTerm, strip-append}
use mariadb_scylla_storage_e.Query.Listing.{IsName, items_read, names_read, read_table-full_name}
use mariadb_scylla_storage_e.Query.FieldTerm.{
  IsReadable, IsExact, HasValue, cell-IsTerm, IsExact-HasValue,
}

no_comma : (s : Bytes) → strip (codes ", ") (b')' ∷ s) ≡ none
unfolding strip
no_comma s = refl

bracket_last : strip (codes ")") (codes ")") ≡ some []
unfolding strip
bracket_last = refl

-- The text of an INSERT.
abbrev insert_of : Bytes → Bytes → List Bytes → List Bytes → Bytes
insert_of keyspace table names literals =
    codes "INSERT INTO "
    ++ (full_name keyspace table
        ++ (codes " ("
            ++ (join (codes ", ") names
                ++ (codes ") VALUES (" ++ (join (codes ", ") literals ++ codes ")")))))

read_insert-insert_of :
    (keyspace table : Bytes) (x : Bytes) (xs : List Bytes) (y : Bytes) (ys : List Bytes)
    → IsName keyspace
    → IsName table
    → All IsName (x ∷ xs)
    → All IsTerm (y ∷ ys)
    → read_insert (insert_of keyspace table (x ∷ xs) (y ∷ ys))
      ≡ some (record { keyspace = keyspace; table = table; columns = x ∷ xs; literals = y ∷ ys })
unfolding read_insert read_columns read_values bind
read_insert-insert_of keyspace table x xs y ys hk ht hn hl =
    let literals = join (codes ", ") (y ∷ ys) ++ codes ")" in
    let names = join (codes ", ") (x ∷ xs) ++ (codes ") VALUES (" ++ literals) in
    rw (
      strip-append (codes "INSERT INTO ") (full_name keyspace table ++ (codes " (" ++ names)),
      read_table-full_name keyspace table (codes " (" ++ names) hk ht refl,
      strip-append (codes " (") names,
      names_read x xs (codes ") VALUES (" ++ literals) hn refl (no_comma _),
      strip-append (codes ") VALUES (") literals,
      rw (map-same ys) at (
          items_read (codes ", ") read_term (λ w. w) EndsTerm (λ s. refl) (omega arith) y ys
            (codes ")") hl refl (no_comma [])),
      bracket_last,
    )

module _ (S : Server) (law : IsLawful S) (m : S.Memory) (table : Table S) where
  read_insert-columns :
      (buf : ℤ) (keyspace table_name : Bytes) (fs : List S.Field)
      → fs ≢ []
      → IsName keyspace
      → IsName table_name
      → All (IsReadable S) fs
      → read_insert (
          insert_of keyspace table_name (map S.field_name fs) (map (cell S m table.record0 buf) fs))
        ≡ some (record {
          keyspace = keyspace;
          table = table_name;
          columns = map S.field_name fs;
          literals = map (cell S m table.record0 buf) fs;
        })
  read_insert-columns buf keyspace table_name [] ne hk ht h = absurd (ne refl)
  read_insert-columns buf keyspace table_name (f ∷ fs) ne hk ht h =
      read_insert-insert_of keyspace table_name (S.field_name f) (map S.field_name fs)
        (cell S m table.record0 buf f) (map (cell S m table.record0 buf) fs) hk ht
        (All-map IsName S.field_name (f ∷ fs) (All-imp (IsReadable S) _ (f ∷ fs) (λ g r. r.0) h))
        (All-map IsTerm (cell S m table.record0 buf) (f ∷ fs)
          (All-imp (IsReadable S) _ (f ∷ fs) (λ g r. cell-IsTerm S law m table buf g r.1) h))

  -- CQL reads the INSERT of a row as one INSERT into the table, with a literal for every column, in
  -- order, and in each literal the value that the row has in the column, whatever the texts of the
  -- row hold. The table has a column, the names need no quotes, no column is a floating point number
  -- or a decimal, and every value that is not null is one of its CQL type that the literal stands for
  -- exactly, as `is_exact` says.
  pub read_insert-build_insert_cql :
      (buf : ℤ) (keyspace table_name : Bytes)
      → table.field ≢ []
      → IsName keyspace
      → IsName table_name
      → All (IsReadable S) table.field
      → All (IsExact S law m table buf) table.field
      → (read_insert (build_insert_cql S m table buf keyspace table_name).0
          ≡ some (record {
            keyspace = keyspace;
            table = table_name;
            columns = map S.field_name table.field;
            literals = map (cell S m table.record0 buf) table.field;
          }))
        × All (HasValue S law m table buf) table.field
  read_insert-build_insert_cql buf keyspace table_name ne hk ht h exact = (
    ap (λ (r : Bytes × Table S). read_insert r.0)
          (build_insert_cql_lem S law m table buf keyspace table_name)
        ∙ read_insert-columns buf keyspace table_name table.field ne hk ht h,
    IsExact-HasValue S law m table buf table.field h exact,
  )
