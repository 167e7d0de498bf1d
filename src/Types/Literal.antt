-- ===== src/Types/Literal.antt =====
-- `escape_string`, the quoting of a text and the hex form of a blob, against a reader of CQL
-- literals.
use native.Mathlib.Decide.{ℕ_discrete}
use mariadb_scylla_storage_e.Prelude.{
  ℕ, ◌+◌, ◌-◌, ◌*◌, ◌<◌, Option, none, some, ◌&&◌, [], ◌∷◌, ◌++◌, append_assoc, append-nil, ◌∙◌,
  ◌≡◌, ◌≢◌, refl, sym, arith, ◌==◌, leb, if◌then◌else◌, All,
}
use mariadb_scylla_storage_e.Prelude.Text.{Bytes, codes}
use mariadb_scylla_storage_e.Numerals.{hex_byte}

-- The loop of `escape_string`: `result` is the text so far.
escape_from : Bytes → Bytes → Bytes
escape_from result [] = result
escape_from result (c ∷ s) =
    escape_from (if c == b'\'' then result ++ codes "''" else result ++ c ∷ []) s

unfoldable pub escape_string : Bytes → Bytes
unfolding escape_from
escape_string s = escape_from [] s

-- `"'" << escape_string(s) << "'"`
unfoldable pub quoted : Bytes → Bytes
quoted s = b'\'' ∷ (escape_string s ++ b'\'' ∷ [])

-- The loop that writes a blob, behind "0x".
unfoldable pub hex_bytes : Bytes → Bytes
hex_bytes [] = []
hex_bytes (b ∷ s) = hex_byte b ++ hex_bytes s

unfoldable pub hex_literal : Bytes → Bytes
unfolding hex_bytes
hex_literal s = codes "0x" ++ hex_bytes s

-- CQL's reading of a string literal, behind its opening quote: two quotes are one, and one quote
-- ends the literal. The result is the text and what follows.
read_quoted : Bytes → Bytes → Option (Bytes × Bytes)
read_quoted out [] = none
read_quoted out (c ∷ []) = if c == b'\'' then some (out, []) else none
read_quoted out (c ∷ d ∷ s) =
    let doubled = read_quoted (out ++ b'\'' ∷ []) s in
    let plain = read_quoted (out ++ c ∷ []) (d ∷ s) in
    if c == b'\'' then if d == b'\'' then doubled else some (out, d ∷ s) else plain

unfoldable pub read_literal : Bytes → Option (Bytes × Bytes)
unfolding read_quoted
read_literal [] = none
read_literal (c ∷ s) = if c == b'\'' then read_quoted [] s else none

-- The text does not go on with a quote.
abbrev pub EndsLiteral : Bytes → Type 0
EndsLiteral [] = Unit
EndsLiteral (c ∷ _) = c ≢ b'\''

-- What one round of the loop adds, and what all rounds add.
hide : ℕ → Bytes
hide c = if c == b'\'' then codes "''" else c ∷ []

escaped : Bytes → Bytes
escaped [] = []
escaped (c ∷ s) = hide c ++ escaped s

escape_from-escaped : (result s : Bytes) → escape_from result s ≡ result ++ escaped s
unfolding escape_from escaped hide
escape_from-escaped result [] = sym (append-nil result)
escape_from-escaped result (c ∷ s) = ground (
  arith,
  escape_from-escaped (result ++ codes "''") s,
  escape_from-escaped (result ++ c ∷ []) s,
  append_assoc result (codes "''") (escaped s),
  append_assoc result (c ∷ []) (escaped s),
)

read_quoted_end :
    (out rest : Bytes) → EndsLiteral rest → read_quoted out (b'\'' ∷ rest) ≡ some (out, rest)
unfolding read_quoted
read_quoted_end out [] h = refl
read_quoted_end out (c ∷ rest) h = ground arith

read_quoted_plain :
    (out t : Bytes) (c : ℕ)
    → c ≢ b'\''
    → t ≢ []
    → read_quoted out (c ∷ t) ≡ read_quoted (out ++ c ∷ []) t
unfolding read_quoted
read_quoted_plain out [] c h ne = absurd (ne refl)
read_quoted_plain out (d ∷ t) c h ne = ground arith

concat-cons-ne-nil : (s t : Bytes) (c : ℕ) → s ++ c ∷ t ≢ []
concat-cons-ne-nil [] t c = cc
concat-cons-ne-nil (d ∷ s) t c = cc

read_quoted-hide :
    (out t : Bytes) (c : ℕ) → t ≢ [] → read_quoted out (hide c ++ t) ≡ read_quoted (out ++ c ∷ []) t
unfolding hide
read_quoted-hide out t c ne = elim (ℕ_discrete c b'\'') [
  | yes e ↦ rw e (unfold read_quoted in refl)
  | no h ↦ ground (arith, read_quoted_plain out t c h ne)
]

read_quoted-escaped :
    (s out rest : Bytes)
    → EndsLiteral rest
    → read_quoted out (escaped s ++ b'\'' ∷ rest) ≡ some (out ++ s, rest)
unfolding escaped
read_quoted-escaped [] out rest h = rw append-nil (read_quoted_end out rest h)
read_quoted-escaped (c ∷ s) out rest h =
    rw (append_assoc (hide c), read_quoted-hide out _ c (concat-cons-ne-nil (escaped s) rest b'\''))
      (read_quoted-escaped s (out ++ c ∷ []) rest h ∙ rw (append_assoc out (c ∷ []) s))

-- A quoted text reads back as the text itself, whatever it holds, and the literal ends where the
-- quoting ended, provided that no quote follows.
pub read_literal-quoted :
    (s rest : Bytes) → EndsLiteral rest → read_literal (quoted s ++ rest) ≡ some (s, rest)
unfolding read_literal quoted escape_string
read_literal-quoted s rest h =
    rw (escape_from-escaped, append_assoc) (read_quoted-escaped s [] rest h)

escaped_plain : (s : Bytes) → All (λ c. c ≢ b'\'') s → escaped s ≡ s
unfolding escaped hide
escaped_plain [] h = refl
escaped_plain (c ∷ s) (h, hs) = ground (arith, escaped_plain s hs)

-- A text with no quote is quoted as it stands.
pub quoted_plain : (s : Bytes) → All (λ c. c ≢ b'\'') s → quoted s ≡ b'\'' ∷ (s ++ b'\'' ∷ [])
unfolding quoted escape_string
quoted_plain s h = rw (escape_from-escaped, escaped_plain s h)

-- CQL's reading of the digits of a blob.
nibble : ℕ → Option ℕ
nibble c =
    if leb b'0' c && leb c b'9'
    then some (c - b'0')
    else if leb b'a' c && leb c b'f'
    then some (c - b'a' + 10)
    else none

byte_of : Option ℕ → Option ℕ → Option Bytes → Option Bytes
byte_of (some h) (some l) (some s) = some ((h * 16 + l) ∷ s)
byte_of _ _ _ = none

unfoldable pub read_hex : Bytes → Option Bytes
unfolding nibble byte_of
read_hex [] = some []
read_hex (_ ∷ []) = none
read_hex (h ∷ l ∷ s) = byte_of (nibble h) (nibble l) (read_hex s)

-- The digits of a blob read back as its bytes.
pub read_hex-hex_bytes : (s : Bytes) → All (λ b. b < 256) s → read_hex (hex_bytes s) ≡ some s
unfolding read_hex hex_bytes hex_byte
read_hex-hex_bytes [] h = refl
read_hex-hex_bytes (b ∷ s) h = ground (arith, read_hex-hex_bytes s h.1)
