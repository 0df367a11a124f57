-- ===== src/Schema/Column.antt =====
-- The field that `GetTableSchema` of go/connection.go makes of a column that
-- INFORMATION_SCHEMA.COLUMNS describes.
use text.Mathlib.Text.{◌==◌ as str_eq}
use adbc_driver_mariadb.Base.{
  String, Bool, ◌&&◌, ◌||◌, List, [], ◌∷◌, ◌++◌, Option, none, some, if◌then◌else◌,
}
use adbc_driver_mariadb.Base.Text.{Bytes, codes, equal, to_upper, contains, equal_fold}
use adbc_driver_mariadb.Base.Int.{ℤ, scale, wrap64}
use adbc_driver_mariadb.Base.Result.{Result, ok, err, ◌>>=◌}
use adbc_driver_mariadb.Arrow.{Metadata, Field}
use adbc_driver_mariadb.Convert.Column.{ColumnType, Library, is, convert_raw_column_type}
use adbc_driver_mariadb.Session.Server.{Failure, wrapped_io_for}
use adbc_driver_mariadb.Schema.TypeValues.{ValuesError, parse_type_values}
use adbc_driver_mariadb.Schema.Dimension.{parse_type_dimension}

pub record TableColumn : Type 0 where
  pub ordinal_position : ℤ
  pub column_name : Bytes
  pub data_type : Bytes
  pub column_type : Bytes
  pub is_nullable : Bytes
  pub character_maximum_length : Option ℤ
  pub numeric_precision : Option ℤ
  pub numeric_scale : Option ℤ
  pub datetime_precision : Option ℤ
  pub character_set_name : Option Bytes
  pub collation_name : Option Bytes

abbrev pub is_integer : Bytes → Bool
is_integer s = is "TINYINT" s || is "SMALLINT" s || is "MEDIUMINT" s || is "INT" s || is "BIGINT" s

abbrev pub is_temporal : Bytes → Bool
is_temporal s = is "TIME" s || is "DATETIME" s || is "TIMESTAMP" s

-- `dbTypeName`
unfoldable pub db_type_name : Bool → TableColumn → Bytes
unfolding to_upper contains equal
db_type_name json col =
    if is_integer (to_upper col.data_type) && contains (to_upper col.column_type) (codes "UNSIGNED")
    then col.data_type ++ codes " UNSIGNED"
    else if json
    then codes "JSON"
    else col.data_type

abbrev pub or_else : {A : Type 0} → Option A → Option A → Option A
or_else none d = d
or_else (some a) d = some a

unfoldable pub precision_of : TableColumn → Option ℤ
unfolding to_upper equal
precision_of col =
    if is_temporal (to_upper col.data_type)
    then or_else col.datetime_precision col.numeric_precision
    else col.numeric_precision

-- `int64(dimension) * 4`
abbrev pub packed_length : Option ℤ → Option ℤ
packed_length none = none
packed_length (some dimension) = some (wrap64 (scale 4 dimension))

unfoldable pub length_of : TableColumn → Option ℤ
unfolding equal_fold parse_type_dimension
length_of col =
    let vector =
      or_else (packed_length (parse_type_dimension col.column_type (codes "VECTOR")))
        col.character_maximum_length in
    let length =
      if equal_fold col.data_type (codes "VECTOR") then vector else col.character_maximum_length in
    let bits = or_else (parse_type_dimension col.column_type (codes "BIT")) length in
    if equal_fold col.data_type (codes "BIT") then bits else length

unfoldable pub column_type_of : Bool → TableColumn → ColumnType
unfolding db_type_name precision_of length_of
column_type_of json col = record {
  name = col.column_name;
  database_type_name = db_type_name json col;
  nullable = equal col.is_nullable (codes "YES");
  length = length_of col;
  precision = precision_of col;
  scale = col.numeric_scale;
}

-- `metadata[key] = value`; the order of the keys says nothing.
unfoldable pub put : String → Bytes → Metadata → Metadata
put key value [] = (key, value) ∷ []
put key value ((k, v) ∷ m) =
    let rest = put key value m in if str_eq k key then (k, value) ∷ m else (k, v) ∷ rest

abbrev pub put_if : String → Option Bytes → Metadata → Metadata
put_if key none m = m
put_if key (some v) m = put key v m

-- `metadata.ToMap()`
unfoldable pub to_map : Metadata → Metadata → Metadata
unfolding put
to_map [] m = m
to_map ((k, v) ∷ rest) m = to_map rest (put k v m)

abbrev pub fail_as : {E A : Type 0} → (E → Failure) → Result E A → Result Failure A
fail_as f (ok a) = ok a
fail_as f (err e) = err (f e)

abbrev pub is_enumerated : Bytes → Bool
is_enumerated s = is "ENUM" s || is "SET" s

abbrev pub values_key : Bytes → String
values_key data_type =
    if equal_fold data_type (codes "SET") then "mariadb.set_values" else "mariadb.enum_values"

unfoldable pub column_metadata : TableColumn → Metadata → Metadata
unfolding put to_map
column_metadata col metadata = put_if "mariadb.collation" col.collation_name (
    put_if "mariadb.character_set" col.character_set_name
      (put "mariadb.column_type" col.column_type (to_map metadata [])))

-- `json.Marshal` on a list of strings, and the texts of the parser's errors.
module _ (lib : Library) (marshal : List Bytes → Result Bytes Bytes)
    (values_error : Bytes → ValuesError → Bytes) where
  unfoldable pub encoded_values : TableColumn → Result Failure Bytes
  unfolding parse_type_values
  encoded_values col = do
    values ←
        fail_as
          (λ e.
            wrapped_io_for "failed to parse %s declaration for %s"
              (col.data_type ∷ col.column_name ∷ []) (values_error col.column_type e))
          (parse_type_values col.column_type)
    fail_as
        (wrapped_io_for "failed to encode %s values for %s" (col.data_type ∷ col.column_name ∷ []))
        (marshal values)

  unfoldable pub with_values : TableColumn → Metadata → Result Failure Metadata
  unfolding encoded_values put to_upper equal equal_fold
  with_values col m =
      let named =
        encoded_values col >>= (λ encoded. ok (put (values_key col.data_type) encoded m)) in
      if is_enumerated (to_upper col.data_type) then named else ok m

  -- One round of the loop over the columns.
  unfoldable pub build_field : Bool → TableColumn → Result Failure Field
  unfolding column_type_of convert_raw_column_type column_metadata with_values
  build_field json col = do
    converted ←
        fail_as (wrapped_io_for "failed to convert column type for %s" (col.column_name ∷ []))
          (convert_raw_column_type lib (column_type_of json col))
    metadata ← with_values col (column_metadata col converted.metadata)
    ok (record {
      name = col.column_name;
      type = converted.type;
      nullable = converted.nullable;
      metadata = metadata;
    })
