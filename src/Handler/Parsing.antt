-- ===== src/Handler/Parsing.antt =====
-- The connection of a handler that reads a table comment.
use mariadb_scylla_storage_e.Prelude.{Option, none, some, List, [], ◌∷◌, ◌≡◌, ◌∙◌, refl, arith}
use mariadb_scylla_storage_e.Prelude.Text.{Bytes}
use mariadb_scylla_storage_e.Numerals.{Result, ok, throw, ◌>>=◌}
use mariadb_scylla_storage_e.Connection.Session.{Connection}
use mariadb_scylla_storage_e.Handler.State.{Handler}
use mariadb_scylla_storage_e.Handler.Comment.{
  parse_table_comment, apply_tokens, apply_token, apply_setting, split_at_equals, trim, tokens,
}

abbrev pub HasConn : Option Connection → Result Handler → Type 0
HasConn c (ok h) = h.conn ≡ c
HasConn c (throw e) = Unit

apply_setting-HasConn :
    (h : Handler) (key value : Bytes) → HasConn h.conn (apply_setting h key value)
unfolding apply_setting
apply_setting-HasConn h key value = ground arith

apply_token-HasConn : (h : Handler) (token : Bytes) → HasConn h.conn (apply_token h token)
unfolding apply_token
apply_token-HasConn h token = go (split_at_equals token)
  where
    go :
        (r : Option (Bytes × Bytes))
        → HasConn h.conn
            (elim r [ none ↦ ok h | some (key, value) ↦ apply_setting h (trim key) (trim value) ])
    go none = refl
    go (some (key, value)) = apply_setting-HasConn h (trim key) (trim value)

apply_tokens-HasConn :
    (h : Handler) (c : Option Connection) (ts : List Bytes)
    → h.conn ≡ c
    → HasConn c (apply_tokens h ts)
unfolding apply_tokens
apply_tokens-HasConn h c [] e = e
apply_tokens-HasConn h c (token ∷ ts) e =
    go (apply_token h token) (apply_token-HasConn h token) (λ h'. apply_tokens-HasConn h' c ts)
  where
    go :
        (r : Result Handler)
        → HasConn h.conn r
        → ((h' : Handler) → h'.conn ≡ c → HasConn c (apply_tokens h' ts))
        → HasConn c (r >>= λ h'. apply_tokens h' ts)
    go (ok h') k rest = rest h' (k ∙ e)
    go (throw x) k rest = tt

pub parse_table_comment-HasConn :
    (h : Handler) (comment : Option Bytes) → HasConn h.conn (parse_table_comment h comment)
unfolding parse_table_comment
parse_table_comment-HasConn h none = refl
parse_table_comment-HasConn h (some s) = apply_tokens-HasConn h h.conn (tokens s) refl
