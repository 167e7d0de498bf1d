-- ===== src/Query/EquationRead.antt =====
-- The reader of equations against the SET and WHERE clauses that are written.
use mathlib.Core.Option.{bind}
use mariadb_scylla_storage_e.Prelude.{
  suc, ◌≤◌, none, some, List, [], ◌∷◌, ◌++◌, append_assoc, map, ◌≡◌, ◌≢◌, refl, arith, length, All,
  All-imp,
}
use mariadb_scylla_storage_e.Prelude.Text.{Bytes, codes}
use mariadb_scylla_storage_e.Query.Shape.{join}
use mariadb_scylla_storage_e.Query.Reader.{Equation, read_equation, read_where, strip, read_list}
use mariadb_scylla_storage_e.Query.Scanning.{EndsTerm, IsTerm, strip-append}
use mariadb_scylla_storage_e.Query.Listing.{IsName, read_name-append, items_read}

-- An equation as it is written.
abbrev pub show_equation : Equation → Bytes
show_equation (name, literal) = name ++ (codes " = " ++ literal)

abbrev pub IsEquation : Equation → Type 0
IsEquation (name, literal) = IsName name × IsTerm literal

read_equation-append :
    (e : Equation) (r : Bytes)
    → IsEquation e
    → EndsTerm r
    → read_equation (show_equation e ++ r) ≡ some (e, r)
unfolding read_equation bind
read_equation-append (name, literal) r (hn, hl) k = rw (
  append_assoc name (codes " = " ++ literal) r,
  read_name-append name (codes " = " ++ (literal ++ r)) hn refl,
  strip-append (codes " = ") (literal ++ r),
  hl r k,
)

-- Equations with a separator that begins with a comma or a blank between them.
pub equations_read :
    (sep : Bytes)
    → ((s : Bytes) → EndsTerm (sep ++ s))
    → 1 ≤ length sep
    → (es : List Equation) (r : Bytes) → es ≢ []
    → All IsEquation es
    → EndsTerm r
    → strip sep r ≡ none
    → read_list sep read_equation
        (suc (length (join sep (map show_equation es) ++ r)))
        (join sep (map show_equation es) ++ r)
      ≡ some (es, r)
equations_read sep ends short [] r ne h k n = absurd (ne refl)
equations_read sep ends short (e ∷ es) r ne h k n =
    items_read sep read_equation show_equation EndsTerm ends short e es r
      (All-imp IsEquation _ (e ∷ es) (λ e' g r' k'. read_equation-append e' r' g k') h) k n

pub read_where-join :
    (es : List Equation) (r : Bytes)
    → es ≢ []
    → All IsEquation es
    → EndsTerm r
    → strip (codes " AND ") r ≡ none
    → read_where (codes " WHERE " ++ (join (codes " AND ") (map show_equation es) ++ r))
      ≡ some (es, r)
unfolding read_where bind
read_where-join es r ne h k n =
    rw (strip-append (codes " WHERE ") (join (codes " AND ") (map show_equation es) ++ r))
      (equations_read (codes " AND ") (λ s. refl) (omega arith) es r ne h k n)
