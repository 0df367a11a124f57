-- ===== src/Convert/Inserter.antt =====
-- `CreateInserter` of go/mariadb.go and the inserters that it makes. A builder is the list of the
-- cells that were appended to it, the newest last.
use adbc_driver_mariadb.Base.{
  ℕ, String, ◌+◌, ◌*◌, ◌/◌, ◌%◌, Bool, true, false, not, ◌||◌, List, [], ◌∷◌, ◌++◌, none, some,
  ◌==◌, ltb, length, take, drop, if◌then◌else◌,
}
use adbc_driver_mariadb.Base.Text.{Bytes, codes, equal}
use adbc_driver_mariadb.Base.Int.{ℤ, pos_part}
use adbc_driver_mariadb.Base.Result.{Result, ok, err}
use adbc_driver_mariadb.Arrow.{
  TimeUnit, ArrowType, binary, date32, date64, json, uuid, timestamp, duration, fixed_size_list,
  Field, get_value,
}
use adbc_driver_mariadb.Temporal.Duration.{arrow_duration}

-- A value from database/sql; `other` is of any type but `[]byte` and `string`.
pub data SqlValue : Type 0 where
  null : SqlValue
  bytes : Bytes → SqlValue
  text : Bytes → SqlValue
  other_value : Bytes → SqlValue

-- `floats` are float32 bit patterns, one list cell of a fixed-size list.
pub data Cell : Type 0 where
  null_cell : Cell
  bytes_cell : Bytes → Cell
  duration_cell : ℤ → Cell
  floats_cell : List ℕ → Cell
  library_cell : Bytes → Cell

abbrev pub Builder : Type 0
Builder = List Cell

abbrev pub append_cell : Builder → Cell → Builder
append_cell b c = b ++ (c ∷ [])

pub data InsertError : Type 0 where
  wrong_type : InsertError
  invalid_time : Bytes → InsertError
  wrong_width : ℕ → ℕ → InsertError
  zero_datetime : InsertError
  library_error : Bytes → InsertError

abbrev pub Inserted : Type 0
Inserted = Result InsertError Builder

-- `zeroDatetimeBehavior`
pub data ZeroBehavior : Type 0 where
  error_behavior convert_to_null : ZeroBehavior

abbrev dash_at : Bytes → Bool
dash_at [] = false
dash_at (c ∷ cs) = c == b'-'

-- `hasZeroDatePrefix`: a year, a month or a day of zeros. Slices of the value are by position.
unfoldable pub has_zero_date_prefix : Bytes → Bool
unfolding equal
has_zero_date_prefix value =
    if ltb (length value) 10
    then false
    else if not (dash_at (drop 4 value)) || not (dash_at (drop 7 value))
    then false
    else equal (take 4 value) (codes "0000")
      || equal (take 2 (drop 5 value)) (codes "00")
      || equal (take 2 (drop 8 value)) (codes "00")

-- `isZeroDatetimeValue`, whose error is always nil.
unfoldable pub is_zero_datetime : SqlValue → Bool
unfolding has_zero_date_prefix
is_zero_datetime null = false
is_zero_datetime (bytes v) = has_zero_date_prefix v
is_zero_datetime (text v) = has_zero_date_prefix v
is_zero_datetime (other_value v) = false

-- The inserters; `library` is the default converter's.
pub data Inserter : Type 0 where
  json_inserter uuid_inserter bit_inserter spatial_inserter library_inserter : Inserter
  vector_inserter : ℕ → Inserter
  duration_inserter : TimeUnit → Inserter
  zero_datetime_inserter : ZeroBehavior → Inserter

abbrev pub meta_is : Field → String → String → Bool
meta_is f key value = elim (get_value f.metadata key) [
  | none ↦ false
  | some v ↦ equal v (codes value)
]

-- `CreateInserter`. The default converter's inserter and the builder casts are taken to succeed:
-- the builder is the one that Arrow makes for the field's type.
unfoldable pub create_inserter : ZeroBehavior → ArrowType → Field → Inserter
unfolding get_value equal
create_inserter z json f = json_inserter
create_inserter z uuid f = uuid_inserter
create_inserter z binary f =
    if meta_is f "sql.database_type_name" "BIT"
    then bit_inserter
    else if meta_is f "mariadb.is_spatial" "true"
    then spatial_inserter
    else library_inserter
create_inserter z (fixed_size_list n elem) f =
    if meta_is f "mariadb.native_type" "vector"
    then vector_inserter (pos_part n)
    else library_inserter
create_inserter z (duration unit) f =
    if meta_is f "mariadb.native_type" "time_duration"
    then duration_inserter unit
    else library_inserter
create_inserter z date32 f = zero_datetime_inserter z
create_inserter z date64 f = zero_datetime_inserter z
create_inserter z (timestamp unit zone) f = zero_datetime_inserter z
create_inserter z _ f = library_inserter

-- A little-endian 32-bit word.
abbrev pub le_word : ℕ → ℕ → ℕ → ℕ → ℕ
le_word a b c d = a + 256 * b + 65_536 * c + 16_777_216 * d

-- The loop of `mariadbVectorInserter.AppendValue`, four bytes a round. (Its length check leaves no
-- rest; a rest of fewer than four bytes would be read out of bounds.)
unfoldable pub decode_words : Bytes → List ℕ
decode_words (a ∷ b ∷ c ∷ d ∷ rest) = le_word a b c d ∷ decode_words rest
decode_words _ = []

-- MariaDB's four-byte SRID in front of the WKB payload is dropped, where a byte-order mark follows.
unfoldable pub strip_srid : Bytes → Bytes
strip_srid (s0 ∷ s1 ∷ s2 ∷ s3 ∷ o ∷ wkb) =
    if o == 0 || o == 1 then o ∷ wkb else s0 ∷ s1 ∷ s2 ∷ s3 ∷ o ∷ wkb
strip_srid t = t

unfoldable pub insert_vector : ℕ → Bytes → Builder → Inserted
unfolding decode_words
insert_vector dim raw b =
    if length raw == dim * 4
    then ok (append_cell b (floats_cell (decode_words raw)))
    else err (wrong_width (length raw) (dim * 4))

unfoldable pub insert_duration : TimeUnit → Bytes → Builder → Inserted
unfolding arrow_duration
insert_duration unit value b = elim (arrow_duration unit value) [
  | ok d ↦ ok (append_cell b (duration_cell d))
  | err refused ↦ err (invalid_time refused)
]

-- What the inserters call: the extension builder's `AppendValueFromString` for the type of the
-- builder, and the default inserter.
pub record InsertLibrary : Type 0 where
  pub append_string : Bytes → Builder → Inserted
  pub default_append : SqlValue → Builder → Inserted

module _ (lib : InsertLibrary) where
  unfoldable pub insert_zero : ZeroBehavior → Bool → SqlValue → Builder → Inserted
  insert_zero z false v b = lib.default_append v b
  insert_zero error_behavior true v b = err zero_datetime
  insert_zero convert_to_null true v b = ok (append_cell b null_cell)

  -- `AppendValue` of each inserter.
  unfoldable pub append_value : Inserter → SqlValue → Builder → Inserted
  unfolding insert_vector insert_duration strip_srid insert_zero is_zero_datetime
  append_value library_inserter v b = lib.default_append v b
  append_value (zero_datetime_inserter z) v b = insert_zero z (is_zero_datetime v) v b
  append_value i null b = ok (append_cell b null_cell)
  append_value json_inserter (bytes v) b = lib.append_string v b
  append_value json_inserter (text v) b = lib.append_string v b
  append_value uuid_inserter (bytes v) b = lib.append_string v b
  append_value uuid_inserter (text v) b = lib.append_string v b
  append_value bit_inserter (bytes v) b = ok (append_cell b (bytes_cell v))
  append_value spatial_inserter (bytes v) b = ok (append_cell b (bytes_cell (strip_srid v)))
  append_value (vector_inserter dim) (bytes v) b = insert_vector dim v b
  append_value (vector_inserter dim) (text v) b = insert_vector dim v b
  append_value (duration_inserter unit) (bytes v) b = insert_duration unit v b
  append_value (duration_inserter unit) (text v) b = insert_duration unit v b
  append_value i v b = err wrong_type

-- `ConvertArrowToGo` on a cell of a VECTOR column: the packed bytes of the words at `index`.
unfoldable pub encode_words : List ℕ → Bytes
encode_words [] = []
encode_words (w ∷ ws) =
    w % 256 ∷ (w / 256 % 256) ∷ (w / 65_536 % 256) ∷ (w / 16_777_216 % 256) ∷ encode_words ws

unfoldable pub vector_bytes : ℕ → ℕ → List ℕ → Bytes
unfolding encode_words
vector_bytes dimension index values =
    encode_words (take dimension (drop (index * dimension) values))
