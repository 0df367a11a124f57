-- ===== src/Objects/Built.antt =====
-- The columns in what `GetObjects` of go/connection_getobjects.go builds its result from.
use mathlib.Core.List.{reverse, reverse-cons, reverse-append}
use adbc_driver_mariadb.Base.{
  ℕ, suc, ◌+◌, ◌≡◌, refl, sym, List, [], ◌∷◌, ◌++◌, append_assoc, append-nil, map, length, Option,
  none, some,
}
use adbc_driver_mariadb.Base.Text.{Bytes}
use adbc_driver_mariadb.Objects.Column.{ColumnInfo}
use adbc_driver_mariadb.Objects.Constraints.{Heap}
use adbc_driver_mariadb.Objects.Group.{Row, TableInfo, CatalogInfo}
use adbc_driver_mariadb.Objects.GroupKeeps.{
  Placed, in_table, in_tables, in_schema_of, in_infos, in_row, in_rows,
}
use adbc_driver_mariadb.Objects.Slices.{
  TableObject, CatalogObject, table_object, schema_object, catalog_object, slices, tables_of,
  attach_tables, attach_schema, attach,
}

-- The columns of the objects, in their order.
pub tables_columns : Bytes → List TableObject → List Placed
tables_columns c [] = []
tables_columns c (t ∷ ts) = in_table c t.table_name t.table_columns ++ tables_columns c ts

pub objects_columns : List CatalogObject → List Placed
objects_columns [] = []
objects_columns (o ∷ os) =
    tables_columns o.catalog_name (tables_of o.db_schema) ++ objects_columns os

-- The columns of the rows, in their order.
pub columns_in : List Row → List Placed
columns_in [] = []
columns_in (row ∷ rows) = in_row row.catalog row.table row.column ++ columns_in rows

in_row-reverse :
    (c : Bytes) (t : Option (Bytes × Bytes)) (x : Option ColumnInfo)
    → reverse (in_row c t x) ≡ in_row c t x
in_row-reverse c none x = refl
in_row-reverse c (some t) none = refl
in_row-reverse c (some t) (some x) = refl

pub reverse-in_rows : (rows : List Row) → reverse (in_rows rows) ≡ columns_in rows
unfolding in_rows columns_in
reverse-in_rows [] = refl
reverse-in_rows (row ∷ rows) = rw (
  reverse-append (in_rows rows) (in_row row.catalog row.table row.column),
  in_row-reverse row.catalog row.table row.column,
  reverse-in_rows rows,
)

in_table-append :
    (c t : Bytes) (xs ys : List ColumnInfo)
    → in_table c t (xs ++ ys) ≡ in_table c t xs ++ in_table c t ys
unfolding in_table
in_table-append c t [] ys = refl
in_table-append c t (x ∷ xs) ys = rw (in_table-append c t xs ys)

in_table-reverse :
    (c t : Bytes) (xs : List ColumnInfo) → in_table c t (reverse xs) ≡ reverse (in_table c t xs)
unfolding in_table
in_table-reverse c t [] = refl
in_table-reverse c t (x ∷ xs) =
    rw (reverse-cons x xs, in_table-append c t (reverse xs) (x ∷ []), in_table-reverse c t xs)
      (sym (reverse-cons (record { catalog = c; table = t; column = x }) (in_table c t xs)))

tables_columns-append :
    (c : Bytes) (xs ys : List TableObject)
    → tables_columns c (xs ++ ys) ≡ tables_columns c xs ++ tables_columns c ys
unfolding tables_columns
tables_columns-append c [] ys = refl
tables_columns-append c (x ∷ xs) ys = rw (tables_columns-append c xs ys) (
    sym (
      append_assoc (in_table c x.table_name x.table_columns) (tables_columns c xs)
        (tables_columns c ys)))

objects_columns-append :
    (xs ys : List CatalogObject)
    → objects_columns (xs ++ ys) ≡ objects_columns xs ++ objects_columns ys
unfolding objects_columns
objects_columns-append [] ys = refl
objects_columns-append (x ∷ xs) ys = rw (objects_columns-append xs ys) (
    sym (
      append_assoc (tables_columns x.catalog_name (tables_of x.db_schema)) (objects_columns xs)
        (objects_columns ys)))

tables_columns-reverse :
    (c : Bytes) (ts : List TableInfo)
    → tables_columns c (reverse (map table_object ts)) ≡ reverse (in_tables c ts)
unfolding tables_columns in_tables
tables_columns-reverse c [] = refl
tables_columns-reverse c (t ∷ ts) =
    rw
      (
        reverse-cons (table_object t) (map table_object ts),
        tables_columns-append c (reverse (map table_object ts)) (table_object t ∷ []),
        tables_columns-reverse c ts,
        append-nil (in_table c t.table_name (reverse t.table_columns)),
        in_table-reverse c t.table_name t.table_columns,
      )
      (sym (reverse-append (in_table c t.table_name t.table_columns) (in_tables c ts)))

schema-reverse :
    (c : Bytes) (s : Option (Bytes × List TableInfo))
    → tables_columns c (tables_of (schema_object s)) ≡ reverse (in_schema_of c s)
unfolding tables_columns
schema-reverse c none = refl
schema-reverse c (some (name, ts)) = tables_columns-reverse c ts

pub objects_columns-slices :
    (infos : List CatalogInfo) → objects_columns (slices infos) ≡ reverse (in_infos infos)
unfolding objects_columns slices in_infos
objects_columns-slices [] = refl
objects_columns-slices (i ∷ is) =
    rw
      (
        reverse-cons (catalog_object i) (map catalog_object is),
        objects_columns-append (reverse (map catalog_object is)) (catalog_object i ∷ []),
        objects_columns-slices is,
        append-nil (tables_columns i.catalog_name (tables_of (schema_object i.db_schema))),
        schema-reverse i.catalog_name i.db_schema,
      )
      (sym (reverse-append (in_schema_of i.catalog_name i.db_schema) (in_infos is)))

attach_tables-columns :
    (heap : Heap) (next : ℕ) (c : Bytes) (ts : List TableObject)
    → tables_columns c (attach_tables heap next ts) ≡ tables_columns c ts
unfolding tables_columns
attach_tables-columns heap next c [] = refl
attach_tables-columns heap next c (t ∷ ts) = rw (attach_tables-columns heap (suc next) c ts)

attach_schema-columns :
    (heap : Heap) (next : ℕ) (c : Bytes) (s : Option (Bytes × List TableObject))
    → tables_columns c (tables_of (attach_schema heap next s)) ≡ tables_columns c (tables_of s)
attach_schema-columns heap next c none = refl
attach_schema-columns heap next c (some (name, ts)) = attach_tables-columns heap next c ts

pub objects_columns-attach :
    (heap : Heap) (next : ℕ) (os : List CatalogObject)
    → objects_columns (attach heap next os) ≡ objects_columns os
unfolding objects_columns attach
objects_columns-attach heap next [] = refl
objects_columns-attach heap next (o ∷ os) = rw (
  attach_schema-columns heap next o.catalog_name o.db_schema,
  objects_columns-attach heap (next + length (tables_of o.db_schema)) os,
)
