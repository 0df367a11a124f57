-- ===== src/Convert/Column.antt =====
-- `ConvertRawColumnType` of go/mariadb.go: from a column's description to an Arrow type.
use Prim.Native.String.{String}
use adbc_driver_mariadb.Base.{
  Bool, ◌&&◌, ◌||◌, [], ◌∷◌, ◌++◌, Option, none, some, ◌==◌, if◌then◌else◌,
}
use adbc_driver_mariadb.Base.Text.{Bytes, codes, equal, to_upper, to_lower, cut_prefix}
use adbc_driver_mariadb.Base.Int.{ℤ, pos, ltb_ℤ, leb_ℤ, quot, rem, wrap32, pos_part}
use adbc_driver_mariadb.Base.Decimal.{print_int}
use adbc_driver_mariadb.Base.Result.{Result, ok, err}
use adbc_driver_mariadb.Arrow.{
  TimeUnit, second, millisecond, microsecond, ArrowType, utf8, binary, int16, uuid, float32,
  timestamp, duration, fixed_size_list, Metadata,
}

-- `sqlwrapper.ColumnType`
pub record ColumnType : Type 0 where
  pub name : Bytes
  pub database_type_name : Bytes
  pub nullable : Bool
  pub length : Option ℤ
  pub precision : Option ℤ
  pub scale : Option ℤ

pub record Converted : Type 0 where
  pub type : ArrowType
  pub nullable : Bool
  pub metadata : Metadata

-- What the driver takes from its libraries: the metadata keys that sqlwrapper names, the default
-- conversion, and `extensions.NewJSONType` at string storage.
pub record Library : Type 0 where
  pub key_database_type_name : String
  pub key_column_name : String
  pub key_precision : String
  pub key_scale : String
  pub key_length : String
  pub key_fractional_seconds_precision : String
  pub default_convert : ColumnType → Result Bytes Converted
  pub new_json_type : Result Bytes ArrowType

-- `normalizeUnsignedTypeName`: "UNSIGNED X" to "X UNSIGNED".
unfoldable pub normalize_unsigned : Bytes → Bytes
unfolding cut_prefix
normalize_unsigned type_name = elim (cut_prefix type_name (codes "UNSIGNED ")) [
  | none ↦ type_name
  | some after ↦ after ++ codes " UNSIGNED"
]

-- The cases of the switch on the type name.
pub data Kind : Type 0 where
  uuid_kind inet_kind decimal_kind vector_kind json_kind year_kind time_kind bit_kind : Kind
  spatial_kind enum_kind timestamp_kind default_kind : Kind

abbrev pub is : String → Bytes → Bool
is name s = equal s (codes name)

unfoldable pub kind_of : Bytes → Kind
kind_of s =
    if is "UUID" s
    then uuid_kind
    else if is "INET4" s || is "INET6" s
    then inet_kind
    else if is "DECIMAL" s || is "NUMERIC" s
    then decimal_kind
    else if is "VECTOR" s
    then vector_kind
    else if is "JSON" s
    then json_kind
    else if is "YEAR" s
    then year_kind
    else if is "TIME" s
    then time_kind
    else if is "BIT" s
    then bit_kind
    else if is "GEOMETRY" s
        || is "POINT" s
        || is "LINESTRING" s
        || is "POLYGON" s
        || is "MULTIPOINT" s
        || is "MULTILINESTRING" s
        || is "MULTIPOLYGON" s
    then spatial_kind
    else if is "ENUM" s || is "SET" s
    then enum_kind
    else if is "TIMESTAMP" s
    then timestamp_kind
    else default_kind

-- `metadataMap[key] = fmt.Sprintf("%d", *value)` where the value is there.
abbrev pub entry_if : String → Option ℤ → Metadata
entry_if key none = []
entry_if key (some n) = (key, print_int n) ∷ []

-- The time unit for a fractional precision.
unfoldable pub unit_of : Option ℤ → TimeUnit
unit_of none = microsecond
unit_of (some p) =
    if leb_ℤ p (pos 0) then second else if leb_ℤ p (pos 3) then millisecond else microsecond

-- The description after "UNSIGNED X" was turned round, with the casing kept otherwise.
unfoldable pub normalized : ColumnType → ColumnType
unfolding normalize_unsigned to_upper equal
normalized ct =
    let upper_name = to_upper ct.database_type_name in
    let type_name = normalize_unsigned upper_name in
    if equal type_name upper_name then ct else record ct { database_type_name = type_name }

module _ (lib : Library) where
  abbrev pub base_metadata : ColumnType → Metadata → Metadata
  base_metadata ct more =
      (lib.key_database_type_name, ct.database_type_name) ∷ (lib.key_column_name, ct.name) ∷ more

  abbrev pub converted : ColumnType → ArrowType → Metadata → Result Bytes Converted
  converted ct t m = ok (record { type = t; nullable = ct.nullable; metadata = m })

  -- "DECIMAL" and "NUMERIC": wider than 38 digits is text.
  unfoldable pub convert_decimal : ColumnType → Option ℤ → Option ℤ → Result Bytes Converted
  convert_decimal ct (some p) (some s) =
      if ltb_ℤ (pos 38) p
      then converted ct utf8 (
          base_metadata ct (
            (lib.key_precision, print_int p)
            ∷ (lib.key_scale, print_int s)
            ∷ (
              "mariadb.logical_arrow_type",
              codes "decimal256(" ++ (print_int p ++ (codes "," ++ (print_int s ++ codes ")"))),
            )
            ∷ ("mariadb.arrow_fallback", codes "string")
            ∷ []))
      else lib.default_convert ct
  convert_decimal ct _ _ = lib.default_convert ct

  abbrev vector_metadata : ColumnType → Metadata → Metadata
  vector_metadata ct more = base_metadata ct (("mariadb.native_type", codes "vector") ∷ more)

  -- "VECTOR": the packed byte width gives the dimension.
  unfoldable pub convert_vector : ColumnType → Option ℤ → Result Bytes Converted
  convert_vector ct none =
      converted ct binary
        (vector_metadata ct (("mariadb.vector_encoding", codes "float32_le") ∷ []))
  convert_vector ct (some l) =
      let dimension = quot l 4 in
      if ltb_ℤ (pos 0) l && pos_part (rem l 4) == 0
      then converted ct (fixed_size_list (wrap32 dimension) float32) (
          vector_metadata ct (
            (lib.key_length, print_int l) ∷ ("mariadb.vector_dimension", print_int dimension) ∷ []))
      else converted ct binary
          (vector_metadata ct (("mariadb.vector_encoding", codes "float32_le") ∷ []))

  abbrev with_json : ColumnType → Result Bytes ArrowType → Result Bytes Converted
  with_json ct (ok t) =
      converted ct t (base_metadata ct (("mariadb.native_type", codes "json") ∷ []))
  with_json ct (err e) = err e

  unfoldable pub convert_kind : Kind → ColumnType → Bytes → Result Bytes Converted
  unfolding convert_decimal convert_vector unit_of to_lower
  convert_kind uuid_kind ct type_name = converted ct uuid (base_metadata ct [])
  convert_kind inet_kind ct type_name = converted ct utf8 (
      base_metadata ct (
        ("mariadb.native_type", to_lower type_name)
        ∷ ("mariadb.logical_arrow_type", codes "mariadb." ++ to_lower type_name)
        ∷ []))
  convert_kind decimal_kind ct type_name = convert_decimal ct ct.precision ct.scale
  convert_kind vector_kind ct type_name = convert_vector ct ct.length
  convert_kind json_kind ct type_name = with_json ct lib.new_json_type
  convert_kind year_kind ct type_name =
      converted ct int16 (base_metadata ct (("mariadb.native_type", codes "year") ∷ []))
  convert_kind time_kind ct type_name = converted ct (duration (unit_of ct.precision)) (
      base_metadata ct (
        ("mariadb.native_type", codes "time_duration")
        ∷ entry_if lib.key_fractional_seconds_precision ct.precision))
  convert_kind bit_kind ct type_name = converted ct binary (
      ("sql.database_type_name", ct.database_type_name)
      ∷ ("sql.column_name", ct.name)
      ∷ entry_if "sql.length" ct.length)
  convert_kind spatial_kind ct type_name = converted ct binary (
      ("sql.database_type_name", ct.database_type_name)
      ∷ ("sql.column_name", ct.name)
      ∷ ("mariadb.is_spatial", codes "true")
      ∷ ("mariadb.geometry_encoding", codes "internal_srid_wkb")
      ∷ ("mariadb.logical_arrow_type", codes "geoarrow.wkb")
      ∷ [])
  convert_kind enum_kind ct type_name = converted ct utf8 (
      ("sql.database_type_name", ct.database_type_name)
      ∷ ("sql.column_name", ct.name)
      ∷ ("mariadb.is_enum_set", codes "true")
      ∷ entry_if "sql.length" ct.length)
  convert_kind timestamp_kind ct type_name =
      converted ct (timestamp (unit_of ct.precision) (codes "UTC"))
        (base_metadata ct (entry_if lib.key_fractional_seconds_precision ct.precision))
  convert_kind default_kind ct type_name = lib.default_convert ct

  unfoldable pub convert_raw_column_type : ColumnType → Result Bytes Converted
  convert_raw_column_type ct =
      let type_name = normalize_unsigned (to_upper ct.database_type_name) in
      convert_kind (kind_of type_name) (normalized ct) type_name
