-- ===== src/Ingest/Table.antt =====
-- `arrowToMariaDBType`, `createTable` and `dropTable` of go/connection.go.
use adbc_driver_mariadb.Base.{
  Bool, true, false, List, [], ◌∷◌, ◌++◌, Option, none, some, if◌then◌else◌,
}
use adbc_driver_mariadb.Base.Text.{Bytes, codes, equal}
use adbc_driver_mariadb.Base.Decimal.{print_int}
use adbc_driver_mariadb.Sql.Quote.{quote_identifier}
use adbc_driver_mariadb.Arrow.{
  TimeUnit, second, millisecond, microsecond, nanosecond, ArrowType, boolean, int8, int16, int32,
  int64, uint8, uint16, uint32, uint64, float32, float64, utf8, binary, fixed_size_binary,
  binary_view, large_binary, date32, timestamp, time32, time64, duration, decimal, Field,
}

abbrev pub timestamp_precision : TimeUnit → Bytes
timestamp_precision second = []
timestamp_precision millisecond = codes "(3)"
timestamp_precision microsecond = codes "(6)"
timestamp_precision nanosecond = codes "(6)"

-- The type without its nullability; `none` where the function panics.
unfoldable pub base_type : ArrowType → Option Bytes
unfolding equal
base_type boolean = some (codes "BOOLEAN")
base_type int8 = some (codes "TINYINT")
base_type int16 = some (codes "SMALLINT")
base_type int32 = some (codes "INT")
base_type int64 = some (codes "BIGINT")
base_type uint8 = some (codes "TINYINT UNSIGNED")
base_type uint16 = some (codes "SMALLINT UNSIGNED")
base_type uint32 = some (codes "INT UNSIGNED")
base_type uint64 = some (codes "BIGINT UNSIGNED")
base_type float32 = some (codes "FLOAT")
base_type float64 = some (codes "DOUBLE")
base_type utf8 = some (codes "TEXT")
base_type binary = some (codes "BLOB")
base_type fixed_size_binary = some (codes "BLOB")
base_type binary_view = some (codes "BLOB")
base_type large_binary = some (codes "LONGBLOB")
base_type date32 = some (codes "DATE")
base_type (timestamp unit zone) =
    if equal zone []
    then some (codes "DATETIME" ++ timestamp_precision unit)
    else some (codes "TIMESTAMP" ++ timestamp_precision unit)
base_type (time32 second) = some (codes "TIME")
base_type (time32 millisecond) = some (codes "TIME(3)")
base_type (time32 microsecond) = none
base_type (time32 nanosecond) = none
base_type (time64 microsecond) = some (codes "TIME(6)")
base_type (time64 nanosecond) = some (codes "TIME(6)")
base_type (time64 second) = none
base_type (time64 millisecond) = none
base_type (duration second) = some (codes "TIME")
base_type (duration millisecond) = some (codes "TIME(3)")
base_type (duration microsecond) = some (codes "TIME(6)")
base_type (duration nanosecond) = some (codes "TIME(6)")
base_type (decimal precision scale) =
    some
      (codes "DECIMAL(" ++ (print_int precision ++ (codes "," ++ (print_int scale ++ codes ")"))))
base_type _ = some (codes "TEXT")

abbrev pub null_suffix : Bool → Bytes
null_suffix true = codes " NULL"
null_suffix false = codes " NOT NULL"

abbrev pub with_suffix : Option Bytes → Bool → Option Bytes
with_suffix none nullable = none
with_suffix (some t) nullable = some (t ++ null_suffix nullable)

unfoldable pub arrow_to_mariadb_type : ArrowType → Bool → Option Bytes
unfolding base_type
arrow_to_mariadb_type t nullable = with_suffix (base_type t) nullable

abbrev pub column_text : Bytes → Option Bytes → Option Bytes → Option Bytes
column_text name none rest = none
column_text name (some t) none = none
column_text name (some t) (some rest) = some (quote_identifier name ++ (codes " " ++ (t ++ rest)))

-- The loop over the fields: each column behind a separator, but for the first.
unfoldable pub more_columns : List Field → Option Bytes
unfolding arrow_to_mariadb_type
more_columns [] = some []
more_columns (f ∷ fs) =
    elim (column_text f.name (arrow_to_mariadb_type f.type f.nullable) (more_columns fs)) [
      | none ↦ none
      | some t ↦ some (codes ", " ++ t)
    ]

unfoldable pub columns_text : List Field → Option Bytes
unfolding more_columns
columns_text [] = some []
columns_text (f ∷ fs) =
    column_text f.name (arrow_to_mariadb_type f.type f.nullable) (more_columns fs)

abbrev pub create_head : Bool → Bool → Bytes
create_head temporary if_not_exists =
    (if temporary then codes "CREATE TEMPORARY TABLE " else codes "CREATE TABLE ")
    ++ (if if_not_exists then codes "IF NOT EXISTS " else [])

abbrev pub create_text : Bool → Bool → Bytes → Option Bytes → Option Bytes
create_text temporary if_not_exists table none = none
create_text temporary if_not_exists table (some columns) = some (
    create_head temporary if_not_exists
    ++ (quote_identifier table ++ (codes " (" ++ (columns ++ codes ")"))))

-- The statement of `createTable`.
unfoldable pub create_statement : Bool → Bool → Bytes → List Field → Option Bytes
unfolding columns_text
create_statement temporary if_not_exists table fields =
    create_text temporary if_not_exists table (columns_text fields)

-- The statement of `dropTable`.
unfoldable pub drop_statement : Bool → Bytes → Bytes
drop_statement temporary table =
    codes "DROP "
    ++ ((if temporary then codes "TEMPORARY TABLE" else codes "TABLE")
        ++ (codes " IF EXISTS " ++ quote_identifier table))
