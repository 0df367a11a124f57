-- ===== src/Objects/Slices.antt =====
-- The slices that `GetObjects` in go/connection_getobjects.go hands to the record builder, with the
-- constraints that `addTableConstraints` put behind its pointers.
use mathlib.Core.List.{reverse}
use adbc_driver_mariadb.Base.{ℕ, suc, ◌+◌, List, [], ◌∷◌, ◌++◌, map, length, Option, none, some}
use adbc_driver_mariadb.Base.Text.{Bytes}
use adbc_driver_mariadb.Objects.Column.{ColumnInfo}
use adbc_driver_mariadb.Objects.Group.{TableInfo, CatalogInfo}
use adbc_driver_mariadb.Objects.Constraints.{ConstraintInfo, Heap}

pub record TableObject : Type 0 where
  pub table_name : Bytes
  pub table_type : Bytes
  pub table_columns : List ColumnInfo
  pub table_constraints : List ConstraintInfo

pub record CatalogObject : Type 0 where
  pub catalog_name : Bytes
  pub db_schema : Option (Bytes × List TableObject)

abbrev pub table_object : TableInfo → TableObject
table_object t = record {
  table_name = t.table_name;
  table_type = t.table_type;
  table_columns = reverse t.table_columns;
  table_constraints = [];
}

abbrev pub schema_object : Option (Bytes × List TableInfo) → Option (Bytes × List TableObject)
schema_object none = none
schema_object (some (name, tables)) = some (name, reverse (map table_object tables))

abbrev pub catalog_object : CatalogInfo → CatalogObject
catalog_object i = record { catalog_name = i.catalog_name; db_schema = schema_object i.db_schema }

unfoldable pub slices : List CatalogInfo → List CatalogObject
slices infos = reverse (map catalog_object infos)

abbrev pub tables_of : Option (Bytes × List TableObject) → List TableObject
tables_of none = []
tables_of (some (name, tables)) = tables

abbrev pub names_in : Bytes → List TableObject → List (Bytes × Bytes)
names_in catalog [] = []
names_in catalog (t ∷ ts) = (catalog, t.table_name) ∷ names_in catalog ts

-- The loops that fill the map of the tables, in their order.
unfoldable pub table_names : List CatalogObject → List (Bytes × Bytes)
table_names [] = []
table_names (o ∷ os) = names_in o.catalog_name (tables_of o.db_schema) ++ table_names os

-- The tables from number `next` on, with what is behind their pointers.
abbrev pub attach_tables : Heap → ℕ → List TableObject → List TableObject
attach_tables heap next [] = []
attach_tables heap next (t ∷ ts) =
    record t { table_constraints = reverse (heap next) } ∷ attach_tables heap (suc next) ts

abbrev pub attach_schema :
    Heap → ℕ → Option (Bytes × List TableObject) → Option (Bytes × List TableObject)
attach_schema heap next none = none
attach_schema heap next (some (name, tables)) = some (name, attach_tables heap next tables)

unfoldable pub attach : Heap → ℕ → List CatalogObject → List CatalogObject
attach heap next [] = []
attach heap next (o ∷ os) =
    record o { db_schema = attach_schema heap next o.db_schema }
    ∷ attach heap (next + length (tables_of o.db_schema)) os
