-- ===== src/Server/Cells.antt =====
-- A small lawful server, on which the theorems are tried out: a memory maps each address to a cell
-- and to a null flag, and a field points to one of each. Numbers outside 64 bits are read as 0.
use mariadb_scylla_storage_e.Prelude.{
  ◌%◌, ◌<◌, Bool, true, false, Option, none, some, [], ◌∷◌, map, ◌≡◌, refl, arith, if◌then◌else◌,
  All,
}
use mariadb_scylla_storage_e.Prelude.Int.{ℤ, pos, ◌+ℤ◌, ◌==ℤ◌, negate, +ℤ-negate}
use mariadb_scylla_storage_e.Prelude.Text.{Bytes}
use mariadb_scylla_storage_e.Numerals.{ok, fits}
use mariadb_scylla_storage_e.Server.{Server, IsLawful, FieldType, timestamp_date, MysqlTime}

pub data Cell : Type 0 where
  empty : Cell
  int : ℤ → Cell
  text : Bytes → Cell
  moment : MysqlTime → Cell

pub record CellMemory : Type 0 where
  pub cell : ℤ → Cell
  pub null : ℤ → Bool

pub record CellField : Type 0 where
  pub name : Bytes
  pub type : FieldType
  pub binary : Bool
  pub ptr : ℤ
  pub null_ptr : Option ℤ

abbrev no_time : MysqlTime
no_time = record {
  year = 0;
  month = 0;
  day = 0;
  hour = 0;
  minute = 0;
  second = 0;
  second_part = 0;
  neg = false;
  time_type = timestamp_date;
}

abbrev as_int : Cell → ℤ
as_int (int z) = if fits 64 z then z else pos 0
as_int _ = pos 0

abbrev as_bytes : Bytes → Bytes
as_bytes = map (λ b. b % 256)

abbrev as_text : Cell → Bytes
as_text (text s) = as_bytes s
as_text _ = []

abbrev as_time : Cell → MysqlTime
as_time (moment t) = t
as_time _ = no_time

abbrev update {ℓ} : {A : Type ℓ} → (ℤ → A) → ℤ → A → ℤ → A
update f p v q = if q ==ℤ p then v else f q

abbrev write : CellMemory → CellField → Cell → CellMemory
write m f c = record m { cell = update m.cell f.ptr c }

abbrev flag : CellMemory → Option ℤ → Bool → CellMemory
flag m none b = m
flag m (some p) b = record m { null = update m.null p b }

abbrev flagged : CellMemory → Option ℤ → Bool
flagged m none = false
flagged m (some p) = m.null p

abbrev shift : Option ℤ → ℤ → Option ℤ
shift none d = none
shift (some p) d = some (p +ℤ d)

abbrev pub cells : Server
cells = record {
  Memory = CellMemory;
  Field = CellField;
  Real = Bytes;
  field_name = λ f. f.name;
  field_type = λ f. f.type;
  is_binary = λ f. f.binary;
  ptr = λ f. f.ptr;
  pack_length = λ f. 1;
  has_null_ptr = λ f. elim f.null_ptr [ none ↦ false | some _ ↦ true ];
  move_field = λ f p. record f { ptr = p };
  move_field_offset = λ f d. record f { ptr = f.ptr +ℤ d; null_ptr = shift f.null_ptr d };
  is_null = λ m f. flagged m f.null_ptr;
  val_int = λ m f. as_int (m.cell f.ptr);
  val_real = λ m f. as_text (m.cell f.ptr);
  val_str = λ m f. as_text (m.cell f.ptr);
  get_date = λ m f. as_time (m.cell f.ptr);
  set_null = λ m f. flag m f.null_ptr true;
  set_notnull = λ m f. flag m f.null_ptr false;
  store_int = λ m f z. write m f (int z);
  store_real = λ m f r. write m f (text r);
  store_str = λ m f c s. write m f (text s);
  store_time = λ m f t. write m f (moment t);
  clear = λ m p n. record m { cell = update m.cell p empty; null = update m.null p false };
  show_real = λ r. r;
  stod = λ s. ok s;
  mktime = λ t. pos 0;
}

as_bytes-All : (s : Bytes) → All (λ b. b < 256) (as_bytes s)
as_bytes-All [] = tt
as_bytes-All (b ∷ s) = (omega arith, as_bytes-All s)

as_text-All : (c : Cell) → All (λ b. b < 256) (as_text c)
as_text-All empty = tt
as_text-All (int z) = tt
as_text-All (text s) = as_bytes-All s
as_text-All (moment t) = tt

as_int-fits : (c : Cell) → fits 64 (as_int c) ≡ true
as_int-fits empty = refl
as_int-fits (int z) = ground arith
as_int-fits (text s) = refl
as_int-fits (moment t) = refl

shift-negate : (o : Option ℤ) (d : ℤ) → shift (shift o d) (negate d) ≡ o
shift-negate none d = refl
shift-negate (some p) d = rw (+ℤ-negate p d)

-- The hypotheses on a server can be met.
pub cells-IsLawful : IsLawful cells
cells-IsLawful = record {
  ptr-move_field = λ f p. refl;
  move_field-move_field = λ f p q. refl;
  move_field_self = λ f. refl;
  field_name-move_field = λ f p. refl;
  field_type-move_field = λ f p. refl;
  is_binary-move_field = λ f p. refl;
  pack_length-move_field = λ f p. refl;
  field_name-move_field_offset = λ f d. refl;
  field_type-move_field_offset = λ f d. refl;
  is_binary-move_field_offset = λ f d. refl;
  move_field_offset_back =
      λ f d. λ i. record f { ptr = +ℤ-negate f.ptr d i; null_ptr = shift-negate f.null_ptr d i };
  val_int-fits = λ m f. as_int-fits (m.cell f.ptr);
  val_str-IsBytes = λ m f. as_text-All (m.cell f.ptr);
}
