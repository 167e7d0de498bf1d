-- ===== src/Query/Listing.antt =====
-- The reader of names, tables and lists against what is written.
use mathlib.Core.Option.{bind}
use mariadb_scylla_storage_e.Prelude.{
  suc, ◌≤◌, Option, none, some, List, [], ◌∷◌, ◌++◌, append_assoc, map, length-map, ◌≡◌, refl,
  arith, length, length-append, All, All-imp, map-same,
}
use mariadb_scylla_storage_e.Prelude.Text.{Bytes, codes}
use mariadb_scylla_storage_e.Query.Shape.{join}
use mariadb_scylla_storage_e.Query.Statements.{full_name}
use mariadb_scylla_storage_e.Query.Reader.{is_name, read_name, read_table, strip, read_list}
use mariadb_scylla_storage_e.Query.Scanning.{
  Stops, IsWord, read_word-append, strip-append, read_list-join,
}

-- A name that needs no quotes.
abbrev pub IsName : Bytes → Type 0
IsName s = IsWord is_name s

pub read_name-append : (w r : Bytes) → IsName w → Stops is_name r → read_name (w ++ r) ≡ some (w, r)
unfolding read_name
read_name-append w r h k = read_word-append is_name w r h k

-- A list of one text or more is as long as it has texts behind the first.
length-join :
    (sep : Bytes) (x : Bytes) (xs : List Bytes)
    → 1 ≤ length sep
    → length xs ≤ length (join sep (x ∷ xs))
length-join sep x [] h = omega arith
length-join sep x (y ∷ xs) h =
    let rest = join sep (y ∷ xs) in
    omega (arith, length-append x (sep ++ rest), length-append sep rest, length-join sep y xs h)

-- A list of values that are read as they are shown, with something else behind it.
pub items_read {ℓ} :
    {A : Type ℓ} (sep : Bytes) (item : Bytes → Option (A × Bytes)) (show : A → Bytes)
    (Ends : Bytes → Type 0)
    → ((s : Bytes) → Ends (sep ++ s))
    → 1 ≤ length sep
    → (x : A) (xs : List A) (r : Bytes)
    → All (λ a. (r : Bytes) → Ends r → item (show a ++ r) ≡ some (a, r)) (x ∷ xs)
    → Ends r
    → strip sep r ≡ none
    → read_list sep item
        (suc (length (join sep (map show (x ∷ xs)) ++ r)))
        (join sep (map show (x ∷ xs)) ++ r)
      ≡ some (x ∷ xs, r)
items_read sep item show Ends ends_sep short x xs r (h, hs) k n =
    read_list-join sep item show Ends ends_sep (suc (length (join sep (map show (x ∷ xs)) ++ r))) x
      xs r
      (omega (
        arith,
        length-append (join sep (map show (x ∷ xs))) r,
        length-join sep (show x) (map show xs) short,
        length-map show xs,
      ))
      k n h hs

pub read_table-full_name :
    (keyspace table r : Bytes)
    → IsName keyspace
    → IsName table
    → Stops is_name r
    → read_table (full_name keyspace table ++ r) ≡ some (keyspace, table, r)
unfolding read_table bind
read_table-full_name keyspace table r hk ht k = rw (
  append_assoc keyspace (b'.' ∷ table) r,
  read_name-append keyspace (b'.' ∷ (table ++ r)) hk refl,
  strip-append (codes ".") (table ++ r),
  read_name-append table r ht k,
)

-- Names with commas between them.
pub names_read :
    (x : Bytes) (xs : List Bytes) (r : Bytes)
    → All IsName (x ∷ xs)
    → Stops is_name r
    → strip (codes ", ") r ≡ none
    → read_list
        (codes ", ")
        read_name
        (suc (length (join (codes ", ") (x ∷ xs) ++ r)))
        (join (codes ", ") (x ∷ xs) ++ r)
      ≡ some (x ∷ xs, r)
names_read x xs r h k n = rw (map-same xs) at (
    items_read (codes ", ") read_name (λ w. w) (Stops is_name) (λ s. refl) (omega arith) x xs r
      (All-imp IsName _ (x ∷ xs) (λ w g r'. read_name-append w r' g) h) k n)
