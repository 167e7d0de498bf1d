-- ===== src/Handler/Info.antt =====
-- Capabilities, statistics and locks of `ha_scylla`. A word of flags is the list of the flags that are
-- set in it.
use mariadb_scylla_storage_e.Prelude.{
  ℕ, Bool, true, false, not, ◌&&◌, ◌||◌, List, [], ◌∷◌, ◌++◌, if◌then◌else◌,
}
use mariadb_scylla_storage_e.Prelude.Text.{Bytes, codes}
use mariadb_scylla_storage_e.Handler.State.{Code, success}

-- The `HA_` flags that the source names.
pub data TableFlag : Type 0 where
  binlog_row_capable binlog_stmt_capable no_transactions rec_not_in_seq : TableFlag
  null_in_key can_geometry can_index_blobs auto_part_key can_rtreekeys : TableFlag

pub data IndexFlag : Type 0 where
  read_next read_prev read_order read_range keyread_only : IndexFlag

abbrev table_type : Bytes
table_type = codes "SCYLLA"

abbrev index_type : ℕ → Bytes
index_type inx = codes "NONE"

unfoldable pub table_flags : List TableFlag
table_flags =
    binlog_row_capable ∷ binlog_stmt_capable ∷ no_transactions ∷ rec_not_in_seq ∷ null_in_key
    ∷ can_geometry ∷ can_index_blobs ∷ auto_part_key ∷ can_rtreekeys ∷ []

unfoldable pub index_flags : ℕ → ℕ → Bool → List IndexFlag
index_flags idx part all_parts = read_next ∷ read_prev ∷ read_order ∷ read_range ∷ keyread_only ∷ []

abbrev pub max_supported_keys : ℕ
max_supported_keys = 1

abbrev pub max_supported_key_parts : ℕ
max_supported_key_parts = 64

abbrev pub max_supported_key_length : ℕ
max_supported_key_length = 3500

abbrev pub max_supported_key_part_length : ℕ
max_supported_key_part_length = 3500

-- No code of the engine calls it: its statements have ALLOW FILTERING anyway.
unfoldable pub needs_allow_filtering {ℓ} : {Table : Type ℓ} → Table → Bool
needs_allow_filtering table_arg = true

-- The `HA_STATUS_` flags that `info` looks at; `other` stands for the rest.
pub data Status : Type 0 where
  auto variable const other : Status

abbrev same_status : Status → Status → Bool
same_status auto auto = true
same_status variable variable = true
same_status const const = true
same_status other other = true
same_status _ _ = false

abbrev pub has_status : Status → List Status → Bool
has_status s [] = false
has_status s (f ∷ flag) = same_status s f || has_status s flag

-- `stats`, as far as `info` writes it.
pub record Stats : Type 0 where
  pub auto_increment_value : ℕ
  pub records : ℕ
  pub deleted : ℕ
  pub data_file_length : ℕ
  pub index_file_length : ℕ
  pub mean_rec_length : ℕ
  pub create_time : ℕ

abbrev variable_stats : Stats → Stats
variable_stats stats = record stats {
  records = 10000;
  deleted = 0;
  data_file_length = 0;
  index_file_length = 0;
  mean_rec_length = 0;
}

unfoldable pub info : Stats → List Status → Code × Stats
info stats flag =
    let s1 = if has_status auto flag then record stats { auto_increment_value = 1 } else stats in
    let s2 = if has_status variable flag then variable_stats s1 else s1 in
    let s3 = if has_status const flag then record s2 { create_time = 0 } else s2 in (success, s3)

-- `thr_lock_type`: the two types that the source names, and the rest by their numbers.
pub data LockType : Type 0 where
  ignore unlock : LockType
  level : ℕ → LockType

abbrev is_ignore : LockType → Bool
is_ignore ignore = true
is_ignore _ = false

abbrev is_unlock : LockType → Bool
is_unlock unlock = true
is_unlock _ = false

-- `lock.type`, and the array behind `to` with the lock of this handler put at its end.
unfoldable pub store_lock {ℓ} :
    {Lock : Type ℓ} → Lock → LockType → List Lock → LockType → LockType × List Lock
store_lock lock type to lock_type =
    (if not (is_ignore lock_type) && is_unlock type then lock_type else type, to ++ (lock ∷ []))

unfoldable pub external_lock {ℓ} : {Thread : Type ℓ} → Thread → ℕ → Code
external_lock thd lock_type = success

unfoldable pub start_stmt {ℓ} : {Thread : Type ℓ} → Thread → LockType → Code
start_stmt thd lock_type = success

unfoldable pub records_in_range {ℓ} : {KeyRange : Type ℓ} → ℕ → KeyRange → KeyRange → ℕ
records_in_range inx min_key max_key = 10
