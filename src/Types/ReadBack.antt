-- ===== src/Types/ReadBack.antt =====
-- The texts of integers in `store_field_value`.
use mariadb_scylla_storage_e.Prelude.{
  Bool, true, false, [], ◌≡◌, refl, ap, arith, Bool-cases, inl, inr, ◌∷◌,
}
use mariadb_scylla_storage_e.Prelude.Int.{ℤ}
use mariadb_scylla_storage_e.Prelude.Text.{Bytes, codes, bytes_eq, bytes_eq_iff}
use mariadb_scylla_storage_e.Numerals.{ok, throw, invalid_argument, stoll}
use mariadb_scylla_storage_e.Server.{Server, FieldType}
use mariadb_scylla_storage_e.Types.Store.{reads_as_null, store_as}

abbrev pub is_integer : FieldType → Bool
is_integer FieldType.tiny = true
is_integer FieldType.short = true
is_integer FieldType.long = true
is_integer FieldType.int24 = true
is_integer FieldType.longlong = true
is_integer _ = false

stoll-null : stoll (codes "NULL") ≡ throw invalid_argument
unfolding stoll
stoll-null = refl

stoll-nil : stoll [] ≡ throw invalid_argument
unfolding stoll
stoll-nil = refl

-- A text that `stoll` reads is not taken for a null.
pub reads_as_null_of_stoll : (s : Bytes) (z : ℤ) → stoll s ≡ ok z → reads_as_null s ≡ false
reads_as_null_of_stoll [] z h = cc stoll-nil
reads_as_null_of_stoll (c ∷ s) z h = elim (Bool-cases (bytes_eq (c ∷ s) (codes "NULL"))) [
  | inl same ↦ cc (stoll-null, ap stoll ((bytes_eq_iff (c ∷ s) (codes "NULL")).0 same))
  | inr other ↦ rw other
]

pub store_as_integer :
    (S : Server) (m : S.Memory) (field : S.Field) (ty : FieldType) (s : Bytes) (z : ℤ)
    → is_integer ty ≡ true
    → stoll s ≡ ok z
    → store_as S m field ty s ≡ ok (S.store_int m field z)
unfolding store_as
store_as_integer S m field FieldType.tiny s z h e = rw e
store_as_integer S m field _ s z h e = ground arith
