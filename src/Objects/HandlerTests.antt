-- ===== src/Objects/HandlerTests.antt =====
-- Runs of `GetObjects` and `addTableConstraints` of go/connection_getobjects.go with a small server.
use adbc_driver_mariadb.Base.{
  map, Option, ℕ, suc, ◌≡◌, refl, List, [], ◌∷◌, ◌++◌, some, none, length,
}
use adbc_driver_mariadb.Base.Text.{Bytes, codes}
use adbc_driver_mariadb.Base.Int.{pos}
use adbc_driver_mariadb.Base.Dict.{Dict}
use adbc_driver_mariadb.Base.Result.{Result, ok, err}
use adbc_driver_mariadb.Session.Server.{Server}
use adbc_driver_mariadb.Session.Rows.{Rows, split_scan, complete}
use adbc_driver_mariadb.Objects.Query.{ObjectsFilter, ObjectDepth}
use adbc_driver_mariadb.Objects.Constraints.{ConstraintRow, start, constraint_rows}
use adbc_driver_mariadb.Objects.ConstraintsKeep.{columns_of, rows_at, constraint_rows-rows_at}
use adbc_driver_mariadb.Objects.Slices.{CatalogObject, table_names, attach}
use adbc_driver_mariadb.Objects.Group.{group_rows}
use adbc_driver_mariadb.Objects.Handler.{ObjectRow, get_objects, row_of}
use adbc_driver_mariadb.Objects.GroupTotal.{Joined}
use adbc_driver_mariadb.Objects.Answers.{get_objects-ok}
use adbc_driver_mariadb.Objects.HandlerColumns.{Answered, get_objects-columns}

abbrev key_row : Bytes → Bytes → ConstraintRow
key_row table column = record {
  catalog = codes "shop";
  table = table;
  constraint_name = codes "PRIMARY";
  constraint_type = codes "PRIMARY KEY";
  column_name = some column;
  foreign_catalog = none;
  foreign_table = none;
  foreign_column = none;
}

-- A key of two columns, and one of a table that is not listed.
abbrev key_rows : List ConstraintRow
key_rows =
    key_row (codes "t") (codes "a")
    ∷ key_row (codes "t") (codes "b")
    ∷ key_row (codes "u") (codes "a")
    ∷ []

abbrev one_table : Dict ℕ
one_table = (codes "shop" ++ (0 ∷ codes "t"), 0) ∷ []

constraint_rows-rows_at_example :
    columns_of ((constraint_rows one_table key_rows (start, λ q. [])).1 0)
    ≡ rows_at one_table 0 key_rows
constraint_rows-rows_at_example = constraint_rows-rows_at one_table key_rows 0

abbrev counting : Server
counting = record {
  State = ℕ;
  get_option = λ key s. (err [], s);
  set_option = λ key value s. (err [], s);
  clear_pending = λ s. (ok tt, s);
  execute = λ statement s. (ok tt, suc s);
  query_text = λ query s. (err [], s);
}

abbrev catalog_row : ObjectRow
catalog_row = record {
  catalog_name = codes "shop";
  schema_name = some [];
  table_name = some (codes "t");
  table_type = some (codes "BASE TABLE");
  ordinal_position = some (pos 1);
  column_name = some (codes "a");
  column_comment = none;
  data_type = some (codes "int");
  column_type = some (codes "int(11)");
  is_nullable = some (codes "NO");
  column_default = none;
  char_max_length = none;
  char_octet_length = none;
  numeric_precision = some (pos 10);
  numeric_scale = some (pos 0);
  datetime_precision = none;
  extra = none;
  generation_expression = none;
}

abbrev answer :
    {R : Type 0} → List (Result Bytes R) → Bytes → List Bytes → ℕ → Result Bytes (Rows R) × ℕ
answer rows sql args s = (ok (record { scanned = rows; error = none; close = none }), suc s)

abbrev all_objects : ObjectsFilter
all_objects = record {
  depth = ObjectDepth.columns;
  catalog = none;
  db_schema = none;
  table_name = none;
  table_type = [];
  column_name = none;
}

-- The reader is the number of catalogs.
abbrev build : List CatalogObject → Result Bytes ℕ
build objects = ok (length objects)

get_all :
    get_objects counting
      (pos 0)
      (pos 1)
      (answer (ok catalog_row ∷ []))
      (answer (ok (key_row (codes "t") (codes "a")) ∷ []))
      ℕ
      build
      all_objects
      0
    ≡ (ok 1, 2)
unfolding get_objects group_rows split_scan row_of table_names attach
get_all = refl

get_objects-columns_example :
    Answered counting
      (pos 0)
      (pos 1)
      (answer (ok catalog_row ∷ []))
      (answer (ok (key_row (codes "t") (codes "a")) ∷ []))
      ℕ
      build
      all_objects
      0
      1
get_objects-columns_example =
    get_objects-columns counting (pos 0) (pos 1) (answer (ok catalog_row ∷ []))
      (answer (ok (key_row (codes "t") (codes "a")) ∷ [])) ℕ build all_objects 0 2 1 get_all

abbrev empty_schema : Option Bytes
empty_schema = some []

catalog_row-Joined : Joined empty_schema (map (row_of (pos 0) (pos 1)) (catalog_row ∷ []))
unfolding Joined row_of
catalog_row-Joined = (refl, λ e. cc, tt)

get_objects-ok_example :
    (reader s' : ℕ) × (get_objects counting
        (pos 0)
        (pos 1)
        (answer (ok catalog_row ∷ []))
        (answer (ok (key_row (codes "t") (codes "a")) ∷ []))
        ℕ
        build
        all_objects
        0
      ≡ (ok reader, s'))
unfolding complete
get_objects-ok_example =
    get_objects-ok counting (pos 0) (pos 1) (answer (ok catalog_row ∷ []))
      (answer (ok (key_row (codes "t") (codes "a")) ∷ [])) ℕ build all_objects 0 0 1 empty_schema
      (catalog_row ∷ []) refl refl catalog_row-Joined
      (λ s. (key_row (codes "t") (codes "a") ∷ [], suc s, refl)) (λ objects. (length objects, refl))
