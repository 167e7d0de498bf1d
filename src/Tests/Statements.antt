-- ===== src/Tests/Statements.antt =====
-- The theorems on statements at a concrete table.
use mariadb_scylla_storage_e.Prelude.{[], ◌∷◌, ◌≡◌, refl}
use mariadb_scylla_storage_e.Prelude.Int.{pos, ◌+ℤ◌, ◌-ℤ◌}
use mariadb_scylla_storage_e.Prelude.Text.{codes}
use mariadb_scylla_storage_e.Server.Cells.{cells, cells-IsLawful}
use mariadb_scylla_storage_e.Types.Value.{get_cql_value, literal_of}
use mariadb_scylla_storage_e.Types.Literal.{quoted, escape_string}
use mariadb_scylla_storage_e.Types.Mapping.{mariadb_to_cql_type}
use mariadb_scylla_storage_e.Numerals.{to_string}
use mariadb_scylla_storage_e.Query.Clauses.{build_where_from_key}
use mariadb_scylla_storage_e.Query.Statements.{
  build_insert_cql, build_update_cql, build_delete_cql, build_create_table_cql,
}
use mariadb_scylla_storage_e.Query.Texts.{
  build_insert_cql_lem, build_update_cql_lem, build_delete_cql_lem, build_create_table_cql_lem,
}
use mariadb_scylla_storage_e.Query.KeyLookup.{IsAtBase, build_where_from_key-IsAtBase}
use mariadb_scylla_storage_e.Query.KeyText.{build_where_from_key-join}
use mariadb_scylla_storage_e.Tests.{id_field, id_part, users, memory}

build_insert_cql_lem_example :
    build_insert_cql cells memory users (pos 200) (codes "shop") (codes "users")
    ≡ (codes "INSERT INTO shop.users (id, name) VALUES (8, 'Ann')", users)
unfolding get_cql_value literal_of to_string ◌+ℤ◌ ◌-ℤ◌ quoted escape_string
build_insert_cql_lem_example =
    build_insert_cql_lem cells cells-IsLawful memory users (pos 200) (codes "shop") (codes "users")

build_update_cql_lem_example :
    build_update_cql cells memory users (pos 100) (pos 200) (codes "shop") (codes "users")
    ≡ (codes "UPDATE shop.users SET name = 'Ann' WHERE id = 7", users)
unfolding get_cql_value literal_of to_string ◌+ℤ◌ ◌-ℤ◌ quoted escape_string
build_update_cql_lem_example =
    build_update_cql_lem cells cells-IsLawful memory users (pos 100) (pos 200) (codes "shop")
      (codes "users") ((refl, (id_field, refl)), tt)

build_delete_cql_lem_example :
    build_delete_cql cells memory users (pos 100) (codes "shop") (codes "users")
    ≡ (codes "DELETE FROM shop.users WHERE id = 7", users)
unfolding get_cql_value literal_of to_string ◌+ℤ◌ ◌-ℤ◌ quoted escape_string
build_delete_cql_lem_example =
    build_delete_cql_lem cells cells-IsLawful memory users (pos 100) (codes "shop") (codes "users")
      ((refl, (id_field, refl)), tt)

build_create_table_cql_lem_example :
    build_create_table_cql cells users (codes "shop") (codes "users")
    ≡ codes "CREATE TABLE IF NOT EXISTS shop.users (id int, name text, PRIMARY KEY (id))"
unfolding mariadb_to_cql_type
build_create_table_cql_lem_example =
    build_create_table_cql_lem cells users (codes "shop") (codes "users")
      ((refl, (id_field, refl)), tt) cc

build_where_from_key-IsAtBase_example :
    IsAtBase cells (pos 100) (build_where_from_key cells memory users (pos 101) 1).1.field 0
    × Unit {0}
build_where_from_key-IsAtBase_example =
    build_where_from_key-IsAtBase cells cells-IsLawful memory users (pos 101) 1 (id_part ∷ []) refl
      ((refl, (id_field, refl)), tt)

build_where_from_key-join_example :
    (build_where_from_key cells memory users (pos 101) 1).0 ≡ codes "id = 7"
unfolding get_cql_value literal_of to_string ◌+ℤ◌ ◌-ℤ◌ quoted escape_string
build_where_from_key-join_example =
    build_where_from_key-join cells cells-IsLawful memory users (pos 101) 1 (id_part ∷ []) refl
      ((refl, (id_field, refl)), tt)
