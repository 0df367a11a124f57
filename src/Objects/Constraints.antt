-- ===== src/Objects/Constraints.antt =====
-- The loops of `addTableConstraints` in go/connection_getobjects.go. The tables are numbered in the order
-- of the slices; the number is the pointer to a table, and `heap` has the constraints behind it, the
-- newest first.
use adbc_driver_mariadb.Base.{
  ℕ, suc, Bool, true, false, not, ◌||◌, List, [], ◌∷◌, Option, none, some, ◌==◌, if◌then◌else◌,
}
use adbc_driver_mariadb.Base.Text.{Bytes, equal}
use adbc_driver_mariadb.Base.Dict.{Dict, lookup, store}
use adbc_driver_mariadb.Objects.Key.{table_key}

-- One row: the constraint's table, its name and type, a column of it and the column that this refers
-- to. The position is not read.
pub record ConstraintRow : Type 0 where
  pub catalog : Bytes
  pub table : Bytes
  pub constraint_name : Bytes
  pub constraint_type : Bytes
  pub column_name : Option Bytes
  pub foreign_catalog : Option Bytes
  pub foreign_table : Option Bytes
  pub foreign_column : Option Bytes

-- `driverbase.ConstraintColumnUsage`; the schema is the empty text.
pub record Usage : Type 0 where
  pub fk_catalog : Option Bytes
  pub fk_table : Bytes
  pub fk_column : Bytes

-- `driverbase.ConstraintInfo`, its columns and usages newest first.
pub record ConstraintInfo : Type 0 where
  pub constraint_name : Bytes
  pub constraint_type : Bytes
  pub column_names : List Bytes
  pub column_usage : List Usage

abbrev pub Heap : Type 0
Heap = ℕ → List ConstraintInfo

abbrev pub update : Heap → ℕ → List ConstraintInfo → Heap
update heap p cs q = if p == q then cs else heap q

-- The map `tables`, from the keys of the tables in order: a key that is there twice has the pointer to
-- the later table.
unfoldable pub table_map : List (Bytes × Bytes) → ℕ → Dict ℕ → Dict ℕ
table_map [] next m = m
table_map ((catalog, table) ∷ ts) next m =
    table_map ts (suc next) (store (table_key catalog table) next m)

-- `has_constraint` says that `currentConstraint` is not nil; it is then the newest of `currentTable`.
pub record Cursor : Type 0 where
  pub current_table : Option ℕ
  pub has_constraint : Bool
  pub key : Bytes
  pub name : Bytes

abbrev pub start : Cursor
start = record { current_table = none; has_constraint = false; key = []; name = [] }

unfoldable pub enter_key : Dict ℕ → Bytes → Cursor → Cursor
enter_key tables key c =
    if equal key c.key
    then c
    else record { current_table = lookup key tables; has_constraint = false; key = key; name = [] }

abbrev pub new_constraint : ConstraintRow → ConstraintInfo
new_constraint row = record {
  constraint_name = row.constraint_name;
  constraint_type = row.constraint_type;
  column_names = [];
  column_usage = [];
}

-- `currentConstraint == nil || currentName != constraintName`
unfoldable pub enter_constraint : ConstraintRow → Cursor → List ConstraintInfo → List ConstraintInfo
enter_constraint row c cs =
    if not c.has_constraint || not (equal c.name row.constraint_name)
    then new_constraint row ∷ cs
    else cs

abbrev pub with_column : Option Bytes → ConstraintInfo → ConstraintInfo
with_column none i = i
with_column (some name) i = record i { column_names = name ∷ i.column_names }

abbrev pub with_usage : Option Bytes → Option Bytes → Option Bytes → ConstraintInfo → ConstraintInfo
with_usage catalog (some table) (some column) i = record i {
  column_usage =
      record { fk_catalog = catalog; fk_table = table; fk_column = column } ∷ i.column_usage;
}
with_usage catalog _ _ i = i

-- What a row adds to the current constraint.
unfoldable pub fill_constraint : ConstraintRow → List ConstraintInfo → List ConstraintInfo
fill_constraint row [] = []
fill_constraint row (i ∷ is) =
    with_usage row.foreign_catalog row.foreign_table row.foreign_column
      (with_column row.column_name i)
    ∷ is

abbrev pub add_to : ConstraintRow → Cursor → Option ℕ → Heap → Cursor × Heap
add_to row c none heap = (c, heap)
add_to row c (some p) heap = (
  record c { has_constraint = true; name = row.constraint_name },
  update heap p (fill_constraint row (enter_constraint row c (heap p))),
)

unfoldable pub constraint_row : Dict ℕ → ConstraintRow → Cursor × Heap → Cursor × Heap
unfolding enter_key enter_constraint fill_constraint
constraint_row tables row (c, heap) =
    let c' = enter_key tables (table_key row.catalog row.table) c in
    add_to row c' c'.current_table heap

unfoldable pub constraint_rows : Dict ℕ → List ConstraintRow → Cursor × Heap → Cursor × Heap
unfolding constraint_row
constraint_rows tables [] s = s
constraint_rows tables (row ∷ rows) s = constraint_rows tables rows (constraint_row tables row s)
