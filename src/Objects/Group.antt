-- ===== src/Objects/Group.antt =====
-- The loop of `GetObjects` in go/connection_getobjects.go that groups the rows into catalogs, schemas,
-- tables and columns. What the source appends to and then points into, `infos` and the tables of the
-- current catalog, is kept newest first: the current catalog is the first of `infos`, and the current
-- table the first of its tables. The slices are the reverses. Whether an empty slice is nil, which
-- depends on the depth alone, is not kept, nor are the constraints, which are added later.
use adbc_driver_mariadb.Base.{Bool, true, false, List, [], ◌∷◌, Option, none, some, if◌then◌else◌}
use adbc_driver_mariadb.Base.Text.{Bytes, equal}
use adbc_driver_mariadb.Objects.Column.{ColumnInfo}

-- One row: the catalog, and the schema, table and column where they are not NULL. A table has its
-- name and type, a column what `buildColumnInfo` makes of the row.
pub record Row : Type 0 where
  pub catalog : Bytes
  pub db_schema : Option Bytes
  pub table : Option (Bytes × Bytes)
  pub column : Option ColumnInfo

-- `driverbase.TableInfo`, its columns newest first.
pub record TableInfo : Type 0 where
  pub table_name : Bytes
  pub table_type : Bytes
  pub table_columns : List ColumnInfo

-- `driverbase.GetObjectsInfo`. It has at most one schema, since only a new catalog makes one.
pub record CatalogInfo : Type 0 where
  pub catalog_name : Bytes
  pub db_schema : Option (Bytes × List TableInfo)

-- `has_table` says that `currentTable` is not nil.
pub record Groups : Type 0 where
  pub infos : List CatalogInfo
  pub has_table : Bool

abbrev pub no_groups : Groups
no_groups = record { infos = []; has_table = false }

abbrev pub fresh : Row → CatalogInfo
fresh row = record {
  catalog_name = row.catalog;
  db_schema = elim row.db_schema [ none ↦ none | some name ↦ some (name, []) ];
}

abbrev pub enter_info : Row → Bool → List CatalogInfo → Groups
enter_info row has_table [] = record { infos = fresh row ∷ []; has_table = false }
enter_info row has_table (i ∷ is) =
    if equal i.catalog_name row.catalog
    then record { infos = i ∷ is; has_table = has_table }
    else record { infos = fresh row ∷ i ∷ is; has_table = false }

-- "New catalog?"
unfoldable pub enter_catalog : Row → Groups → Groups
enter_catalog row g = enter_info row g.has_table g.infos

abbrev new_table : Bytes × Bytes → TableInfo
new_table (name, type) = record { table_name = name; table_type = type; table_columns = [] }

-- "New table?", over the tables of the current catalog.
unfoldable pub enter_table : Bytes × Bytes → Bool → List TableInfo → List TableInfo
enter_table t has_table [] = new_table t ∷ []
enter_table t false (c ∷ cs) = new_table t ∷ c ∷ cs
enter_table t true (c ∷ cs) = if equal c.table_name t.0 then c ∷ cs else new_table t ∷ c ∷ cs

-- The column goes to the current table.
unfoldable pub add_column : Option ColumnInfo → List TableInfo → List TableInfo
add_column none ts = ts
add_column (some c) [] = []
add_column (some c) (t ∷ ts) = record t { table_columns = c ∷ t.table_columns } ∷ ts

abbrev pub in_schema :
    Row
    → Bytes × Bytes
    → Bool
    → Option (Bytes × List TableInfo)
    → Option (Option (Bytes × List TableInfo))
in_schema row t has_table none = none
in_schema row t has_table (some (name, tables)) =
    some (some (name, add_column row.column (enter_table t has_table tables)))

abbrev pub with_schema :
    CatalogInfo → List CatalogInfo → Option (Option (Bytes × List TableInfo)) → Option Groups
with_schema i is none = none
with_schema i is (some s) =
    some (record { infos = record i { db_schema = s } ∷ is; has_table = true })

abbrev pub enter_current : Row → Bytes × Bytes → Bool → List CatalogInfo → Option Groups
enter_current row t has_table [] = none
enter_current row t has_table (i ∷ is) = with_schema i is (in_schema row t has_table i.db_schema)

-- The rest of a round, from `!tblName.Valid` on; `none` is the panic of `CatalogDbSchemas[0]` on a
-- catalog without a schema.
unfoldable pub enter_row : Row → Option (Bytes × Bytes) → Groups → Option Groups
unfolding enter_table add_column
enter_row row none g = some g
enter_row row (some t) g = enter_current row t g.has_table g.infos

unfoldable pub group_row : Row → Groups → Option Groups
unfolding enter_catalog enter_row
group_row row g = enter_row row row.table (enter_catalog row g)

abbrev pub after : (Groups → Option Groups) → Option Groups → Option Groups
after next none = none
after next (some g) = next g

unfoldable pub group_rows : List Row → Groups → Option Groups
unfolding group_row
group_rows [] g = some g
group_rows (row ∷ rows) g = after (group_rows rows) (group_row row g)
