-- ===== src/Objects/Query.antt =====
-- The two queries that go/connection_getobjects.go builds, each with its arguments: the metadata
-- query of `GetObjects`, and the query of `addTableConstraints`.
use adbc_driver_mariadb.Base.{Bool, true, false, List, [], ◌∷◌, ◌++◌, length, Option, none, some}
use adbc_driver_mariadb.Base.Text.{Bytes, codes}
use adbc_driver_mariadb.Sql.Builder.{Query, write, bind, bind_all, placeholders}

-- `adbc.ObjectDepth`; `ObjectDepthAll` and `ObjectDepthColumns` are one value.
pub data ObjectDepth : Type 0 where
  columns catalogs db_schemas tables : ObjectDepth

-- `depth != adbc.ObjectDepthCatalogs`
abbrev pub include_schemas : ObjectDepth → Bool
include_schemas catalogs = false
include_schemas _ = true

abbrev pub include_tables : ObjectDepth → Bool
include_tables tables = true
include_tables columns = true
include_tables _ = false

abbrev pub include_columns : ObjectDepth → Bool
include_columns columns = true
include_columns _ = false

abbrev pub select_text : Bytes
select_text =
    codes
      "\n\t\tSELECT\n\t\t\ts.SCHEMA_NAME AS CATALOG_NAME,\n\t\t\tsch.DB_SCHEMA_NAME,\n\t\t\tt.TABLE_NAME,\n\t\t\tt.TABLE_TYPE,\n\t\t\tc.ORDINAL_POSITION,\n\t\t\tc.COLUMN_NAME,\n\t\t\tc.COLUMN_COMMENT,\n\t\t\tc.DATA_TYPE,\n\t\t\tc.COLUMN_TYPE,\n\t\t\tc.IS_NULLABLE,\n\t\t\tc.COLUMN_DEFAULT,\n\t\t\tc.CHARACTER_MAXIMUM_LENGTH,\n\t\t\tc.CHARACTER_OCTET_LENGTH,\n\t\t\tc.NUMERIC_PRECISION,\n\t\t\tc.NUMERIC_SCALE,\n\t\t\tc.DATETIME_PRECISION,\n\t\t\tc.EXTRA,\n\t\t\tc.GENERATION_EXPRESSION\n\t\tFROM INFORMATION_SCHEMA.SCHEMATA s"

abbrev pub schema_join_text : Bytes
schema_join_text = codes "\n\t\tLEFT JOIN (SELECT '' AS DB_SCHEMA_NAME) sch\n\t\t\tON 1=1"

abbrev pub table_join_text : Bytes
table_join_text =
    codes
      "\n\t\tLEFT JOIN INFORMATION_SCHEMA.TABLES t\n\t\t\tON s.SCHEMA_NAME = t.TABLE_SCHEMA\n\t\t\tAND sch.DB_SCHEMA_NAME IS NOT NULL"

abbrev pub column_join_text : Bytes
column_join_text =
    codes
      "\n\t\tLEFT JOIN INFORMATION_SCHEMA.COLUMNS c\n\t\t\tON t.TABLE_SCHEMA = c.TABLE_SCHEMA\n\t\t\tAND t.TABLE_NAME = c.TABLE_NAME"

-- `if x != nil { WriteString(text); args = append(args, *x) }`
abbrev pub bind_if : Query → Bytes → Option Bytes → Query
bind_if b text none = b
bind_if b text (some v) = bind (write b text) v

abbrev pub types_text : Bytes
types_text = codes " AND t.TABLE_TYPE IN ("

-- The filter on the table types, `text` followed by one placeholder for each type.
abbrev pub bind_types : Query → Bytes → List Bytes → Query
bind_types b text [] = b
bind_types b text (t ∷ ts) =
    bind_all (write b (text ++ (placeholders (length (t ∷ ts)) ++ codes ")"))) (t ∷ ts)

abbrev pub never : Bytes
never = codes " AND 1=0"

unfoldable pub schema_filter : Bool → Option Bytes → Query → Query
schema_filter false db_schema b = write b never
schema_filter true db_schema b = bind_if b (codes " AND sch.DB_SCHEMA_NAME LIKE ?") db_schema

unfoldable pub table_filter : Bool → Option Bytes → List Bytes → Query → Query
table_filter false table_name table_type b = write b never
table_filter true table_name table_type b =
    bind_types (bind_if b (codes " AND t.TABLE_NAME LIKE ?") table_name) types_text table_type

unfoldable pub column_filter : Bool → Option Bytes → Query → Query
column_filter false column_name b = write b never
column_filter true column_name b = bind_if b (codes " AND c.COLUMN_NAME LIKE ?") column_name

abbrev pub empty_query : Query
empty_query = record { sql = []; args = [] }

-- The arguments of `GetObjects` that shape its query.
pub record ObjectsFilter : Type 0 where
  pub depth : ObjectDepth
  pub catalog : Option Bytes
  pub db_schema : Option Bytes
  pub table_name : Option Bytes
  pub column_name : Option Bytes
  pub table_type : List Bytes

unfoldable pub objects_query : ObjectsFilter → Query
unfolding schema_filter table_filter column_filter
objects_query f =
    let selected = write empty_query select_text in
    let schemas =
      schema_filter (include_schemas f.depth) f.db_schema (write selected schema_join_text) in
    let with_tables =
      table_filter (include_tables f.depth) f.table_name f.table_type
        (write schemas table_join_text) in
    let with_columns =
      column_filter (include_columns f.depth) f.column_name (write with_tables column_join_text) in
    let filtered = bind_if with_columns (codes " WHERE s.SCHEMA_NAME LIKE ?") f.catalog in
    write filtered (codes " ORDER BY s.SCHEMA_NAME, t.TABLE_NAME, c.ORDINAL_POSITION")

abbrev pub constraints_order : Bytes
constraints_order =
    codes " ORDER BY tc.CONSTRAINT_SCHEMA, tc.TABLE_NAME, tc.CONSTRAINT_NAME, kcu.ORDINAL_POSITION"

abbrev pub constraints_text : Bytes
constraints_text =
    codes
      "SELECT\n\t\ttc.CONSTRAINT_SCHEMA,\n\t\ttc.TABLE_NAME,\n\t\ttc.CONSTRAINT_NAME,\n\t\ttc.CONSTRAINT_TYPE,\n\t\tkcu.ORDINAL_POSITION,\n\t\tkcu.COLUMN_NAME,\n\t\tkcu.REFERENCED_TABLE_SCHEMA,\n\t\tkcu.REFERENCED_TABLE_NAME,\n\t\tkcu.REFERENCED_COLUMN_NAME\n\tFROM INFORMATION_SCHEMA.TABLE_CONSTRAINTS tc\n\tJOIN INFORMATION_SCHEMA.TABLES t\n\t  ON t.TABLE_SCHEMA = tc.TABLE_SCHEMA AND t.TABLE_NAME = tc.TABLE_NAME\n\tLEFT JOIN INFORMATION_SCHEMA.KEY_COLUMN_USAGE kcu\n\t  ON kcu.CONSTRAINT_SCHEMA = tc.CONSTRAINT_SCHEMA\n\t AND kcu.TABLE_NAME = tc.TABLE_NAME\n\t AND kcu.CONSTRAINT_NAME = tc.CONSTRAINT_NAME\n\tWHERE 1=1"

-- `addTableConstraints`, from its catalog, table and table type filters.
unfoldable pub constraints_query : Option Bytes → Option Bytes → List Bytes → Query
constraints_query catalog table_name table_type =
    let selected = write empty_query constraints_text in
    let by_catalog = bind_if selected (codes " AND tc.CONSTRAINT_SCHEMA LIKE ?") catalog in
    let by_table = bind_if by_catalog (codes " AND tc.TABLE_NAME LIKE ?") table_name in
    let by_type = bind_types by_table types_text table_type in write by_type constraints_order
