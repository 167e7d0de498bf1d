-- ===== src/Handler/Comment.antt =====
-- `parse_table_comment`.
use mariadb_scylla_storage_e.Prelude.{
  true, false, ◌||◌, ◌&&◌, Option, none, some, List, [], ◌∷◌, ◌++◌, if◌then◌else◌, ◌==◌,
}
use mariadb_scylla_storage_e.Prelude.Text.{Bytes, codes, bytes_eq, is_empty, is_blank}
use mariadb_scylla_storage_e.Numerals.{Result, ok, ◌>>=◌, stoi}
use mariadb_scylla_storage_e.Handler.State.{Handler}

-- `std::getline` with ';': a token ends at each semicolon, and at the end of the text if anything
-- is left.
unfoldable pub tokens_from : Bytes → Bytes → List Bytes
tokens_from cur [] = if is_empty cur then [] else cur ∷ []
tokens_from cur (c ∷ s) = elim (c == b';') [
  | true ↦ cur ∷ tokens_from [] s
  | false ↦ tokens_from (cur ++ c ∷ []) s
]

unfoldable pub tokens : Bytes → List Bytes
unfolding tokens_from
tokens s = tokens_from [] s

-- The text in front of the first '=' and the text behind it.
unfoldable pub split_from : Bytes → Bytes → Option (Bytes × Bytes)
split_from key [] = none
split_from key (c ∷ s) = elim (c == b'=') [
  | true ↦ some (key, s)
  | false ↦ split_from (key ++ c ∷ []) s
]

unfoldable pub split_at_equals : Bytes → Option (Bytes × Bytes)
unfolding split_from
split_at_equals token = split_from [] token

-- The two `erase` calls.
trim_left : Bytes → Bytes
trim_left [] = []
trim_left (c ∷ s) = if is_blank c then trim_left s else c ∷ s

trim_right : Bytes → Bytes
trim_right [] = []
trim_right (c ∷ s) = let rest = trim_right s in if is_blank c && is_empty rest then [] else c ∷ rest

unfoldable pub trim : Bytes → Bytes
unfolding trim_left trim_right
trim s = trim_right (trim_left s)

unfoldable pub apply_setting : Handler → Bytes → Bytes → Result Handler
apply_setting h key value =
    if bytes_eq key (codes "scylla_hosts")
    then ok (record h { scylla_hosts = value })
    else if bytes_eq key (codes "scylla_keyspace")
    then ok (record h { keyspace_name = value })
    else if bytes_eq key (codes "scylla_table")
    then ok (record h { table_name = value })
    else if bytes_eq key (codes "scylla_port")
    then (stoi value >>= λ port. ok (record h { scylla_port = port }))
    else if bytes_eq key (codes "scylla_verbose")
    then ok (record h {
      verbose_logging =
          bytes_eq value (codes "true")
          || bytes_eq value (codes "1")
          || bytes_eq value (codes "yes");
    })
    else ok h

-- One round of the loop.
unfoldable pub apply_token : Handler → Bytes → Result Handler
apply_token h token = elim (split_at_equals token) [
  | none ↦ ok h
  | some (key, value) ↦ apply_setting h (trim key) (trim value)
]

unfoldable pub apply_tokens : Handler → List Bytes → Result Handler
apply_tokens h [] = ok h
apply_tokens h (token ∷ rest) = apply_token h token >>= λ h'. apply_tokens h' rest

-- A missing comment changes nothing, and neither does an empty one.
unfoldable pub parse_table_comment : Handler → Option Bytes → Result Handler
parse_table_comment h none = ok h
parse_table_comment h (some comment) = apply_tokens h (tokens comment)
