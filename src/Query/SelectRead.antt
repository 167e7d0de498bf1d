-- ===== src/Query/SelectRead.antt =====
-- What CQL reads in a SELECT.
use mathlib.Core.Option.{bind}
use mariadb_scylla_storage_e.Prelude.{
  ℕ, Bool, true, false, none, some, List, [], ◌∷◌, ◌++◌, append_assoc, map, ◌≡◌, ◌≢◌, ◌∙◌, refl, ap,
  arith, All, if◌then◌else◌,
}
use mariadb_scylla_storage_e.Prelude.Text.{Bytes, codes}
use mariadb_scylla_storage_e.Server.{Server}
use mariadb_scylla_storage_e.Query.Table.{Table}
use mariadb_scylla_storage_e.Query.Shape.{join, build_column_list-join}
use mariadb_scylla_storage_e.Query.Statements.{full_name, build_select_cql}
use mariadb_scylla_storage_e.Query.Reader.{
  Equation, read_filtering, read_conditions, read_select, read_where, is_name, strip,
}
use mariadb_scylla_storage_e.Query.Scanning.{Stops, EndsTerm, strip-append}
use mariadb_scylla_storage_e.Query.Listing.{IsName, names_read, read_table-full_name}
use mariadb_scylla_storage_e.Query.Clauses.{has_nonblank, has_where_clause}
use mariadb_scylla_storage_e.Query.EquationRead.{show_equation, IsEquation, read_where-join}

word_not_blank : (c : ℕ) (s : Bytes) → is_name c ≡ true → has_nonblank (c ∷ s) ≡ true
unfolding has_nonblank
word_not_blank c s h = ground arith

has_where_clause-append : (name s : Bytes) → IsName name → has_where_clause (name ++ s) ≡ true
unfolding has_where_clause
has_where_clause-append [] s (ne, h) = absurd (ne refl)
has_where_clause-append (c ∷ name) s (ne, h) = word_not_blank c (name ++ s) h.0

has_where_clause-join :
    (e : Equation) (es : List Equation)
    → IsEquation e
    → has_where_clause (join (codes " AND ") (map show_equation (e ∷ es))) ≡ true
has_where_clause-join (name, literal) [] h = has_where_clause-append name _ h.0
has_where_clause-join (name, literal) (e ∷ es) h =
    ap has_where_clause (append_assoc name (codes " = " ++ literal) _)
    ∙ has_where_clause-append name _ h.0

-- The end of a SELECT, as it is written.
abbrev filter_text : Bool → Bytes
filter_text b = if b then codes " ALLOW FILTERING" else []

abbrev condition_text : Bytes → Bytes
condition_text clause = if has_where_clause clause then codes " WHERE " ++ clause else []

read_filtering-text : (b : Bool) → read_filtering (filter_text b) ≡ some b
unfolding read_filtering strip
read_filtering-text true = refl
read_filtering-text false = refl

filter_text-EndsTerm : (b : Bool) → EndsTerm (filter_text b)
filter_text-EndsTerm true = refl
filter_text-EndsTerm false = tt

filter_text-no_and : (b : Bool) → strip (codes " AND ") (filter_text b) ≡ none
unfolding strip
filter_text-no_and true = refl
filter_text-no_and false = refl

filter_text-no_where : (b : Bool) → read_where (filter_text b) ≡ none
unfolding read_where strip bind
filter_text-no_where true = refl
filter_text-no_where false = refl

read_conditions-text :
    (es : List Equation) (b : Bool)
    → All IsEquation es
    → read_conditions
        (condition_text (join (codes " AND ") (map show_equation es)) ++ filter_text b)
      ≡ some (es, b)
unfolding read_conditions bind has_where_clause
read_conditions-text [] b h =
    rw (filter_text-no_where b, read_conditions) (rw (read_filtering-text b))
read_conditions-text (e ∷ es) b h =
    let clause = join (codes " AND ") (map show_equation (e ∷ es)) in
    rw
      (
        has_where_clause-join e es h.0,
        append_assoc (codes " WHERE ") clause (filter_text b),
        read_where-join (e ∷ es) (filter_text b) (cc) h (filter_text-EndsTerm b)
            (filter_text-no_and b),
        read_conditions,
      )
      (rw (read_filtering-text b))

condition_text-Stops :
    (clause : Bytes) (b : Bool) → Stops is_name (condition_text clause ++ filter_text b)
condition_text-Stops clause b = go (has_where_clause clause) b
  where
    go :
        (h b : Bool)
        → Stops is_name ((if h then codes " WHERE " ++ clause else []) ++ filter_text b)
    go true b = refl
    go false true = refl
    go false false = tt

from_no_comma : (s : Bytes) → strip (codes ", ") (codes " FROM " ++ s) ≡ none
unfolding strip
from_no_comma s = refl

read_select-text :
    (x : Bytes) (xs : List Bytes) (keyspace table : Bytes) (es : List Equation) (b : Bool)
    → IsName keyspace
    → IsName table
    → All IsName (x ∷ xs)
    → All IsEquation es
    → read_select (
        codes "SELECT "
        ++ (join (codes ", ") (x ∷ xs)
            ++ (codes " FROM "
                ++ (full_name keyspace table
                    ++ (condition_text (join (codes " AND ") (map show_equation es))
                        ++ filter_text b)))))
      ≡ some (record {
        columns = x ∷ xs;
        keyspace = keyspace;
        table = table;
        compared = es;
        filtering = b;
      })
unfolding read_select bind
read_select-text x xs keyspace table es b hk ht hn h =
    let clause = join (codes " AND ") (map show_equation es) in
    let conditions = condition_text clause ++ filter_text b in
    let source = full_name keyspace table ++ conditions in
    rw (
      strip-append (codes "SELECT ") (join (codes ", ") (x ∷ xs) ++ (codes " FROM " ++ source)),
      names_read x xs (codes " FROM " ++ source) hn refl (from_no_comma source),
      strip-append (codes " FROM ") source,
      read_table-full_name keyspace table conditions hk ht (condition_text-Stops clause b),
      read_conditions-text es b h,
    )

-- The same for names that are not none.
read_select-names :
    (names : List Bytes) (keyspace table : Bytes) (es : List Equation) (b : Bool)
    → names ≢ []
    → IsName keyspace
    → IsName table
    → All IsName names
    → All IsEquation es
    → read_select (
        codes "SELECT "
        ++ (join (codes ", ") names
            ++ (codes " FROM "
                ++ (full_name keyspace table
                    ++ (condition_text (join (codes " AND ") (map show_equation es))
                        ++ filter_text b)))))
      ≡ some (record {
        columns = names;
        keyspace = keyspace;
        table = table;
        compared = es;
        filtering = b;
      })
read_select-names [] keyspace table es b ne = absurd (ne refl)
read_select-names (x ∷ xs) keyspace table es b ne = read_select-text x xs keyspace table es b

-- CQL reads a SELECT with a clause of equations, or none, as it was put together.
pub read_select-build_select_cql :
    (S : Server) (table : Table S) (keyspace table_name : Bytes) (allow_filtering : Bool)
    (names : List Bytes) (es : List Equation)
    → map S.field_name table.field ≡ names
    → names ≢ []
    → IsName keyspace
    → IsName table_name
    → All IsName names
    → All IsEquation es
    → read_select (
        build_select_cql S table keyspace table_name allow_filtering
          (join (codes " AND ") (map show_equation es)))
      ≡ some (record {
        columns = names;
        keyspace = keyspace;
        table = table_name;
        compared = es;
        filtering = allow_filtering;
      })
unfolding build_select_cql read_select bind
read_select-build_select_cql S table keyspace table_name allow names es e ne hk ht hn h =
    ap
      (λ cs. read_select (
        codes "SELECT "
        ++ (cs
            ++ (codes " FROM "
                ++ (full_name keyspace table_name
                    ++ (condition_text (join (codes " AND ") (map show_equation es))
                        ++ filter_text allow))))))
      (build_column_list-join S table ∙ ap (join (codes ", ")) e)
    ∙ read_select-names names keyspace table_name es allow ne hk ht hn h
