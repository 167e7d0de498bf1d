-- ===== src/Query/Table.antt =====
-- What the builders use of a MariaDB `TABLE`.
use mariadb_scylla_storage_e.Prelude.{ℕ, suc, Option, none, some, List, ◌≡◌, All, get_elem?}
use mariadb_scylla_storage_e.Prelude.Int.{ℤ}
use mariadb_scylla_storage_e.Prelude.Text.{Bytes}
use mariadb_scylla_storage_e.Server.{Server}

-- `KEY_PART_INFO`: `field` is the place in `table->field` of the object that it points to.
pub record KeyPart : Type 0 where
  pub field : ℕ
  pub fieldnr : ℕ
  pub store_length : ℕ

-- `TABLE` and its share: `primary_key` holds the user defined parts of the primary key, and is
-- `none` for `MAX_KEY`; `record0` is the address `record[0]`.
pub record Table (S : Server) : Type 0 where
  pub field : List S.Field
  pub record0 : ℤ
  pub primary_key : Option (List KeyPart)
  pub null_bytes : ℕ
  pub reclength : ℕ
  pub comment : Option Bytes

-- A key part points to the field that its number names.
abbrev pub IsLinked {ℓ} : {A : Type ℓ} → List A → KeyPart → Type ℓ
IsLinked {A} fields part =
    (part.fieldnr ≡ suc part.field) × ((f : A) × (get_elem? fields part.field ≡ some f))

abbrev pub HasLinkedKey {ℓ} : {A : Type ℓ} → List A → Option (List KeyPart) → Type ℓ
HasLinkedKey fields none = Unit
HasLinkedKey fields (some parts) = All (IsLinked fields) parts
