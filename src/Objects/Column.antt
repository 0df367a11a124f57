-- ===== src/Objects/Column.antt =====
-- `buildColumnInfo` of go/connection_getobjects.go, with `clampInt32` and `clampInt16`.
use adbc_driver_mariadb.Base.{
  Bool, true, false, ◌&&◌, ◌||◌, [], ◌++◌, Option, none, some, String, if◌then◌else◌,
}
use adbc_driver_mariadb.Base.Text.{Bytes, codes, equal, to_upper, to_lower, contains}
use adbc_driver_mariadb.Base.Int.{ℤ, pos, negsuc, ltb_ℤ, wrap32, wrap16}

-- `min` and `max` on int64.
abbrev pub min_ℤ : ℤ → ℤ → ℤ
min_ℤ a b = if ltb_ℤ b a then b else a

abbrev pub max_ℤ : ℤ → ℤ → ℤ
max_ℤ a b = if ltb_ℤ a b then b else a

unfoldable pub clamp_int32 : ℤ → ℤ
clamp_int32 value = wrap32 (max_ℤ (negsuc 2_147_483_647) (min_ℤ (pos 2_147_483_647) value))

unfoldable pub clamp_int16 : ℤ → ℤ
clamp_int16 value = wrap16 (max_ℤ (negsuc 32_767) (min_ℤ (pos 32_767) value))

-- The metadata of one column, as the row has it; the texts that may be NULL are options, and where
-- the source reads `.String` of one that is NULL it reads the empty text.
pub record ColumnRow : Type 0 where
  pub data_type : Bytes
  pub column_type : Bytes
  pub column_name : Bytes
  pub is_nullable : Bytes
  pub ordinal_position : ℤ
  pub column_comment : Option Bytes
  pub column_default : Option Bytes
  pub char_max_length : Option ℤ
  pub char_octet_length : Option ℤ
  pub numeric_precision : Option ℤ
  pub numeric_scale : Option ℤ
  pub datetime_precision : Option ℤ
  pub extra : Option Bytes
  pub generation_expression : Option Bytes

-- `driverbase.ColumnInfo`, the fields that are set.
pub record ColumnInfo : Type 0 where
  pub column_name : Bytes
  pub ordinal_position : ℤ
  pub remarks : Option Bytes
  pub xdbc_type_name : Bytes
  pub xdbc_column_size : Option ℤ
  pub xdbc_decimal_digits : Option ℤ
  pub xdbc_num_prec_radix : Option ℤ
  pub xdbc_nullable : Option ℤ
  pub xdbc_is_nullable : Bytes
  pub xdbc_column_def : Option Bytes
  pub xdbc_char_octet_length : Option ℤ
  pub xdbc_is_autoincrement : Bool
  pub xdbc_is_generatedcolumn : Bool

abbrev pub is : String → Bytes → Bool
is name s = equal s (codes name)

abbrev pub is_integer_type : Bytes → Bool
is_integer_type s =
    is "TINYINT" s || is "SMALLINT" s || is "MEDIUMINT" s || is "INT" s || is "BIGINT" s

unfoldable pub full_type_name : Bytes → Bytes → Bytes
full_type_name data_type column_type =
    if is_integer_type (to_upper data_type) && contains (to_upper column_type) (codes "UNSIGNED")
    then data_type ++ codes " UNSIGNED"
    else data_type

-- The switch on the upper-case type name.
unfoldable pub radix : Bytes → Option ℤ
radix s =
    if is "BIT" s
    then some (pos 2)
    else if is_integer_type s
        || is "INTEGER" s
        || is "DECIMAL" s
        || is "DEC" s
        || is "NUMERIC" s
        || is "FIXED" s
        || is "FLOAT" s
        || is "DOUBLE" s
        || is "DOUBLE PRECISION" s
        || is "REAL" s
        || is "YEAR" s
    then some (pos 10)
    else none

abbrev pub invisible_marker : Bytes
invisible_marker = codes "[MariaDB: INVISIBLE]"

-- Whether the extra text is there and has `word`, after `fold` changed its case.
abbrev pub extra_has : (Bytes → Bytes) → String → Option Bytes → Bool
extra_has fold word none = false
extra_has fold word (some extra) = contains (fold extra) (codes word)

abbrev with_marker : Option Bytes → Bytes
with_marker none = invisible_marker
with_marker (some r) = if equal r [] then invisible_marker else r ++ (codes " " ++ invisible_marker)

unfoldable pub remarks_of : Option Bytes → Option Bytes → Option Bytes
unfolding to_upper
remarks_of comment extra =
    if extra_has to_upper "INVISIBLE" extra then some (with_marker comment) else comment

-- The first of the candidates that is there.
abbrev pub first : Option ℤ → Option ℤ → Option ℤ
first (some a) b = some a
first none b = b

abbrev pub clamped : (ℤ → ℤ) → Option ℤ → Option ℤ
clamped clamp none = none
clamped clamp (some n) = some (clamp n)

-- Given the constants `XdbcColumnNoNulls` and `XdbcColumnNullable` of the base library.
module _ (no_nulls nullable : ℤ) where
  abbrev pub nullable_of : Bytes → Option ℤ
  nullable_of s = if is "YES" s then some nullable else if is "NO" s then some no_nulls else none

  abbrev is_not_empty : Option Bytes → Bool
  is_not_empty none = false
  is_not_empty (some s) = if equal s [] then false else true

  unfoldable pub build_column_info : ColumnRow → ColumnInfo
  unfolding clamp_int32 clamp_int16 full_type_name radix remarks_of to_lower
  build_column_info row = record {
    column_name = row.column_name;
    ordinal_position = row.ordinal_position;
    remarks = remarks_of row.column_comment row.extra;
    xdbc_type_name = full_type_name row.data_type row.column_type;
    xdbc_column_size =
        clamped clamp_int32
          (first row.char_max_length (first row.numeric_precision row.datetime_precision));
    xdbc_decimal_digits = clamped clamp_int16 (first row.numeric_scale row.datetime_precision);
    xdbc_num_prec_radix = radix (to_upper row.data_type);
    xdbc_nullable = nullable_of row.is_nullable;
    xdbc_is_nullable = row.is_nullable;
    xdbc_column_def = row.column_default;
    xdbc_char_octet_length = clamped clamp_int32 row.char_octet_length;
    xdbc_is_autoincrement = extra_has to_lower "auto_increment" row.extra;
    xdbc_is_generatedcolumn =
        extra_has to_upper "GENERATED" row.extra || is_not_empty row.generation_expression;
  }
