-- ===== src/Handler/Settings.antt =====
-- The settings of a table comment.
use mariadb_scylla_storage_e.Prelude.{
  ℕ, false, some, List, [], ◌∷◌, ◌++◌, append_assoc, append-nil, map, ◌≡◌, refl, ap, ◌∙◌, ◌==◌, All,
  All-append, fun_ext,
}
use mariadb_scylla_storage_e.Prelude.Text.{Bytes, codes, is_empty}
use mariadb_scylla_storage_e.Numerals.{Result, ok, ◌>>=◌}
use mariadb_scylla_storage_e.Query.Shape.{join}
use mariadb_scylla_storage_e.Handler.State.{Handler}
use mariadb_scylla_storage_e.Handler.Comment.{
  tokens_from, tokens, split_from, split_at_equals, trim, apply_setting, apply_token, apply_tokens,
  parse_table_comment,
}

abbrev pub Lacks : ℕ → Bytes → Type 0
Lacks c = All (λ d. (d == c) ≡ false)

-- A text with no blank at either end.
abbrev pub IsTrimmed : Bytes → Type 0
IsTrimmed s = trim s ≡ s

-- A setting as it is written: no semicolon, no '=' in the key, no blanks at the ends.
pub record IsWritable (setting : Bytes × Bytes) : Type 0 where
  pub key_semicolon : Lacks b';' setting.0
  pub key_equals : Lacks b'=' setting.0
  pub value_semicolon : Lacks b';' setting.1
  pub key_trimmed : IsTrimmed setting.0
  pub value_trimmed : IsTrimmed setting.1

abbrev pub render : Bytes × Bytes → Bytes
render (key, value) = key ++ (b'=' ∷ value)

-- The settings one after the other.
unfoldable pub apply_settings : Handler → List (Bytes × Bytes) → Result Handler
apply_settings h [] = ok h
apply_settings h ((key, value) ∷ rest) = apply_setting h key value >>= λ h'. apply_settings h' rest

tokens_from-append :
    (s cur rest : Bytes) → Lacks b';' s → tokens_from cur (s ++ rest) ≡ tokens_from (cur ++ s) rest
unfolding tokens_from
tokens_from-append [] cur rest h = rw append-nil
tokens_from-append (c ∷ s) cur rest (e, h) =
    rw (e, tokens_from)
      (tokens_from-append s (cur ++ c ∷ []) rest h ∙ rw (append_assoc cur (c ∷ []) s))

split_from-append :
    (s key rest : Bytes)
    → Lacks b'=' s
    → split_from key (s ++ (b'=' ∷ rest)) ≡ some (key ++ s, rest)
unfolding split_from
split_from-append [] key rest h = rw append-nil
split_from-append (c ∷ s) key rest (e, h) =
    rw (e, split_from)
      (split_from-append s (key ++ c ∷ []) rest h ∙ rw (append_assoc key (c ∷ []) s))

abbrev IsToken : Bytes → Type 0
IsToken s = Lacks b';' s × (is_empty s ≡ false)

tokens-join : (ts : List Bytes) → All IsToken ts → tokens (join (codes ";") ts) ≡ ts
unfolding tokens tokens_from
tokens-join [] h = refl
tokens-join (x ∷ []) ((l, ne), _) =
    rw (← append-nil x) (rw (tokens_from-append x [] [] l) (rw (ne, append-nil)))
tokens-join (x ∷ y ∷ ts) ((l, ne), h) =
    tokens_from-append x [] (b';' ∷ join (codes ";") (y ∷ ts)) l
    ∙ ap (λ rest. x ∷ rest) (tokens-join (y ∷ ts) h)

Lacks-render :
    (key value : Bytes) → Lacks b';' key → Lacks b';' value → Lacks b';' (render (key, value))
Lacks-render key value hk hv =
    All-append (λ d. (d == b';') ≡ false) key (b'=' ∷ value) hk (refl, hv)

is_empty-append : (s t : Bytes) (c : ℕ) → is_empty (s ++ (c ∷ t)) ≡ false
is_empty-append [] t c = refl
is_empty-append (d ∷ s) t c = refl

render-IsToken :
    (settings : List (Bytes × Bytes)) → All IsWritable settings → All IsToken (map render settings)
render-IsToken [] h = tt
render-IsToken ((key, value) ∷ settings) (w, h) = (
  (Lacks-render key value w.key_semicolon w.value_semicolon, is_empty-append key value b'='),
  render-IsToken settings h,
)

split_at_equals-render :
    (key value : Bytes) → Lacks b'=' key → split_at_equals (render (key, value)) ≡ some (key, value)
unfolding split_at_equals
split_at_equals-render key value h = split_from-append key [] value h

apply_token-render :
    (h : Handler) (key value : Bytes)
    → IsWritable (key, value)
    → apply_token h (render (key, value)) ≡ apply_setting h key value
unfolding apply_token
apply_token-render h key value w =
    rw (split_at_equals-render key value w.key_equals, apply_token)
      (rw (w.key_trimmed, w.value_trimmed))

apply_tokens-render :
    (h : Handler) (settings : List (Bytes × Bytes))
    → All IsWritable settings
    → apply_tokens h (map render settings) ≡ apply_settings h settings
unfolding apply_tokens apply_settings
apply_tokens-render h [] v = refl
apply_tokens-render h ((key, value) ∷ settings) (w, v) =
    rw (apply_token-render h key value w) (
      ap (λ k. apply_setting h key value >>= k) (fun_ext (λ h'. apply_tokens-render h' settings v)))

-- A comment that is written as `key=value` settings with semicolons between them, as the
-- documentation says, has the effect of the settings one after the other, so the last one for a
-- key counts. No key or value holds a semicolon, no key holds an '=', and none has blanks at its
-- ends.
pub parse_table_comment-join :
    (h : Handler) (settings : List (Bytes × Bytes))
    → All IsWritable settings
    → parse_table_comment h (some (join (codes ";") (map render settings)))
      ≡ apply_settings h settings
unfolding parse_table_comment
parse_table_comment-join h settings v =
    rw (tokens-join (map render settings) (render-IsToken settings v))
      (apply_tokens-render h settings v)
