-- ===== src/Query/Scanning.antt =====
-- The reader of terms and lists against the texts that are written.
use mathlib.Core.Option.{bind}
use mariadb_scylla_storage_e.Prelude.{
  ℕ, zero, suc, ◌+◌, ◌-◌, ◌<◌, Bool, true, false, ◌||◌, Option, none, some, List, [], ◌∷◌, ◌++◌,
  append_assoc, map, ◌≡◌, ◌≢◌, ◌∙◌, refl, ap, arith, length, length-append, take, All, ◌==◌,
}
use mariadb_scylla_storage_e.Prelude.Int.{ℤ, pos, negsuc}
use mariadb_scylla_storage_e.Prelude.Text.{Bytes, codes}
use mariadb_scylla_storage_e.Numerals.{show_ℕ, to_string, is_digit, hex_byte}
use mariadb_scylla_storage_e.Numerals.RoundTrip.{IsDigit, show_ℕ-IsDigit}
use mariadb_scylla_storage_e.Types.Literal.{
  quoted, hex_bytes, hex_literal, EndsLiteral, read_literal-quoted,
}
use mariadb_scylla_storage_e.Query.Shape.{join}
use mariadb_scylla_storage_e.Query.Reader.{
  split_word, read_word, is_bare, consumed, read_term, strip, one_or_more, read_list,
}

-- The text does not go on with a character that passes.
abbrev pub Stops : (ℕ → Bool) → Bytes → Type 0
Stops p [] = Unit
Stops p (c ∷ _) = p c ≡ false

-- A text of characters that pass.
abbrev pub IsWord : (ℕ → Bool) → Bytes → Type 0
IsWord p w = (w ≢ []) × All (λ c. p c ≡ true) w

pub split_word-append :
    (p : ℕ → Bool) (w r : Bytes)
    → All (λ c. p c ≡ true) w
    → Stops p r
    → split_word p (w ++ r) ≡ (w, r)
unfolding split_word
split_word-append p [] [] h k = refl
split_word-append p [] (c ∷ r) h k = rw k
split_word-append p (c ∷ w) r (h, hs) k = rw (split_word-append p w r hs k, h)

pub read_word-append :
    (p : ℕ → Bool) (w r : Bytes) → IsWord p w → Stops p r → read_word p (w ++ r) ≡ some (w, r)
unfolding read_word
read_word-append p [] r (ne, h) k = absurd (ne refl)
read_word-append p (c ∷ w) r (ne, h) k = rw (split_word-append p (c ∷ w) r h k)

take-append : (s r : Bytes) → take (length (s ++ r) - length r) (s ++ r) ≡ s
take-append s r = rw (length-append s r, sum_less (length s) (length r)) (take_front s r)
  where
    sum_less : (a b : ℕ) → a + b - b ≡ a
    sum_less a b = omega arith

    take_front : (s r : Bytes) → take (length s) (s ++ r) ≡ s
    take_front [] r = refl
    take_front (c ∷ s) r = ap (λ t. c ∷ t) (take_front s r)

-- What stands behind a term: the end, a comma, a bracket or a blank.
abbrev pub EndsTerm : Bytes → Type 0
EndsTerm [] = Unit
EndsTerm (c ∷ _) = (c == b',' || (c == b')') || (c == b' ')) ≡ true

EndsTerm-Stops : (r : Bytes) → EndsTerm r → Stops is_bare r
EndsTerm-Stops [] k = tt
EndsTerm-Stops (c ∷ r) k = ground arith

EndsTerm-EndsLiteral : (r : Bytes) → EndsTerm r → EndsLiteral r
EndsTerm-EndsLiteral [] k = tt
EndsTerm-EndsLiteral (c ∷ r) k = ground arith

-- A literal that is read as it is written, whatever ends it.
abbrev pub IsTerm : Bytes → Type 0
IsTerm lit = (r : Bytes) → EndsTerm r → read_term (lit ++ r) ≡ some (lit, r)

pub quoted-IsTerm : (s : Bytes) → IsTerm (quoted s)
unfolding read_term quoted
quoted-IsTerm s r k =
    ap (consumed (quoted s ++ r)) (read_literal-quoted s r (EndsTerm-EndsLiteral r k))
    ∙ ap (λ t. some (t, r)) (take-append (quoted s) r)

word_term :
    (c : ℕ) (w r : Bytes)
    → is_bare c ≡ true
    → read_term (c ∷ (w ++ r)) ≡ read_word is_bare (c ∷ (w ++ r))
unfolding read_term
word_term c w r h = ground arith

pub IsWord-IsTerm : (w : Bytes) → IsWord is_bare w → IsTerm w
IsWord-IsTerm [] (ne, h) r k = absurd (ne refl)
IsWord-IsTerm (c ∷ w) (ne, h) r k =
    word_term c w r h.0 ∙ read_word-append is_bare (c ∷ w) r (ne, h) (EndsTerm-Stops r k)

digit_bare : (c : ℕ) → is_digit c ≡ true → is_bare c ≡ true
digit_bare c h = ground arith

digits_bare : (s : Bytes) → All IsDigit s → All (λ c. is_bare c ≡ true) s
digits_bare [] h = tt
digits_bare (c ∷ s) (h, hs) = (digit_bare c h, digits_bare s hs)

to_string-IsWord : (z : ℤ) → IsWord is_bare (to_string z)
unfolding to_string
to_string-IsWord (pos n) = let (h, ne) = show_ℕ-IsDigit n in (ne, digits_bare (show_ℕ n) h)
to_string-IsWord (negsuc n) =
    let (h, ne) = show_ℕ-IsDigit (suc n) in ((cc), (refl, digits_bare (show_ℕ (suc n)) h))

pub to_string-IsTerm : (z : ℤ) → IsTerm (to_string z)
to_string-IsTerm z = IsWord-IsTerm (to_string z) (to_string-IsWord z)

hex_bare : (s : Bytes) → All (λ b. b < 256) s → All (λ c. is_bare c ≡ true) (hex_bytes s)
unfolding hex_bytes hex_byte
hex_bare [] h = tt
hex_bare (b ∷ s) (h, hs) = (ground arith, (ground arith, hex_bare s hs))

pub hex_literal-IsTerm : (s : Bytes) → All (λ b. b < 256) s → IsTerm (hex_literal s)
unfolding hex_literal
hex_literal-IsTerm s h =
    IsWord-IsTerm (codes "0x" ++ hex_bytes s) ((cc), (refl, (refl, hex_bare s h)))

pub strip-append : (word s : Bytes) → strip word (word ++ s) ≡ some s
unfolding strip
strip-append [] s = refl
strip-append (c ∷ word) s = ground (arith, strip-append word s)

module _ {ℓ} {A : Type ℓ} (sep : Bytes) (item : Bytes → Option (A × Bytes)) (show : A → Bytes)
    (Ends : Bytes → Type 0) (ends_sep : (s : Bytes) → Ends (sep ++ s)) where
  -- A value that is read as it is shown, whatever ends it.
  abbrev pub IsRead : A → Type ℓ
  IsRead x = (r : Bytes) → Ends r → item (show x ++ r) ≡ some (x, r)

  -- A list of such values with the separator between them is read as the values, if something else
  -- stands behind it.
  pub read_list-join :
      (fuel : ℕ) (x : A) (xs : List A) (r : Bytes)
      → length xs < fuel
      → Ends r
      → strip sep r ≡ none
      → IsRead x
      → All IsRead xs
      → read_list sep item fuel (join sep (map show (x ∷ xs)) ++ r) ≡ some (x ∷ xs, r)
  unfolding read_list bind
  read_list-join zero x xs r l k n h hs = absurd (omega arith)
  read_list-join (suc fuel) x [] r l k n h hs =
      ap (one_or_more sep item (read_list sep item fuel)) (h r k) ∙ rw (n, one_or_more)
  read_list-join (suc fuel) x (y ∷ xs) r l k n h (g, gs) =
      let rest = join sep (map show (y ∷ xs)) in
      ap (λ s. one_or_more sep item (read_list sep item fuel) (item s))
        (append_assoc (show x) (sep ++ rest) r ∙ ap (λ s. show x ++ s) (append_assoc sep rest r))
      ∙ (ap (one_or_more sep item (read_list sep item fuel))
            (h (sep ++ (rest ++ r)) (ends_sep (rest ++ r)))
          ∙ rw (
            strip-append sep (rest ++ r),
            one_or_more,
            read_list-join fuel y xs r (omega arith) k n g gs,
          ))
