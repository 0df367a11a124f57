-- ===== src/Objects/Handler.antt =====
-- `GetObjects` and `addTableConstraints` of go/connection_getobjects.go as a whole. The server's answers
-- and the builder of `buildResult` are parameters.
use adbc_driver_mariadb.Base.{Bool, true, false, List, [], ◌∷◌, map, Option, none, some}
use adbc_driver_mariadb.Base.Text.{Bytes}
use adbc_driver_mariadb.Base.Int.{ℤ, pos}
use adbc_driver_mariadb.Base.Result.{Result, ok, err}
use adbc_driver_mariadb.Session.Server.{
  Failure, panicked, Exec, pure, of_result, pass, wrap, ◌>>=◌, ◌>>◌, Server,
}
use adbc_driver_mariadb.Session.Rows.{Rows, split_scan, unless_error, close_rows}
use adbc_driver_mariadb.Objects.Query.{
  ObjectsFilter, include_tables, objects_query, constraints_query,
}
use adbc_driver_mariadb.Objects.Column.{ColumnRow, build_column_info}
use adbc_driver_mariadb.Objects.Group.{Row, Groups, no_groups, group_rows}
use adbc_driver_mariadb.Objects.Constraints.{ConstraintRow, table_map, start, constraint_rows}
use adbc_driver_mariadb.Objects.Slices.{CatalogObject, slices, table_names, attach}

-- The variables that `rows.Scan` fills; NULL is `none`.
pub record ObjectRow : Type 0 where
  pub catalog_name : Bytes
  pub schema_name : Option Bytes
  pub table_name : Option Bytes
  pub table_type : Option Bytes
  pub ordinal_position : Option ℤ
  pub column_name : Option Bytes
  pub column_comment : Option Bytes
  pub data_type : Option Bytes
  pub column_type : Option Bytes
  pub is_nullable : Option Bytes
  pub column_default : Option Bytes
  pub char_max_length : Option ℤ
  pub char_octet_length : Option ℤ
  pub numeric_precision : Option ℤ
  pub numeric_scale : Option ℤ
  pub datetime_precision : Option ℤ
  pub extra : Option Bytes
  pub generation_expression : Option Bytes

-- `.String` of a `sql.NullString`, and `.Int32` of a `sql.NullInt32`.
abbrev pub text_of : Option Bytes → Bytes
text_of none = []
text_of (some s) = s

abbrev pub number_of : Option ℤ → ℤ
number_of none = pos 0
number_of (some n) = n

abbrev column_row : ObjectRow → Bytes → ColumnRow
column_row r name = record {
  data_type = text_of r.data_type;
  column_type = text_of r.column_type;
  column_name = name;
  is_nullable = text_of r.is_nullable;
  ordinal_position = number_of r.ordinal_position;
  column_comment = r.column_comment;
  column_default = r.column_default;
  char_max_length = r.char_max_length;
  char_octet_length = r.char_octet_length;
  numeric_precision = r.numeric_precision;
  numeric_scale = r.numeric_scale;
  datetime_precision = r.datetime_precision;
  extra = r.extra;
  generation_expression = r.generation_expression;
}

module _ (no_nulls nullable : ℤ) where
  unfoldable pub row_of : ObjectRow → Row
  unfolding build_column_info
  row_of r = record {
    catalog = r.catalog_name;
    db_schema = r.schema_name;
    table = elim r.table_name [ none ↦ none | some name ↦ some (name, text_of r.table_type) ];
    column = elim r.column_name [
      | none ↦ none
      | some name ↦ some (build_column_info no_nulls nullable (column_row r name))
    ];
  }

-- The loop over the constraint rows, and the errors that end it.
abbrev pub constraints_result :
    Rows ConstraintRow → List CatalogObject → Result Failure (List CatalogObject)
constraints_result rows objects =
    let (scanned, scan) = split_scan rows.scanned in
    let heap =
      (constraint_rows (table_map (table_names objects) 0 []) scanned (start, λ p. [])).1 in
    unless_error "failed to scan table constraint" scan
      (unless_error "error during table constraint iteration" rows.error
        (ok (attach heap 0 objects)) err)
      err

module _ (srv : Server) (no_nulls nullable : ℤ)
    (query_objects : Bytes → List Bytes → srv.State → Result Bytes (Rows ObjectRow) × srv.State)
    (query_constraints : Bytes
      → List Bytes
      → srv.State
      → Result Bytes (Rows ConstraintRow) × srv.State)
    (Reader : Type 0) (build : List CatalogObject → Result Bytes Reader) where
  abbrev pub constrained :
      ObjectsFilter
      → List CatalogObject
      → List (Bytes × Bytes)
      → Exec srv.State (List CatalogObject)
  constrained f objects [] = pure objects
  constrained f objects (t ∷ ts) =
      let q = constraints_query f.catalog f.table_name f.table_type in
      do
        rows ← wrap "failed to query table constraints" (query_constraints q.sql q.args)
        of_result (close_rows rows.close (constraints_result rows objects))

  -- From the filters that `GetObjects` passes on.
  unfoldable pub add_table_constraints :
      ObjectsFilter → List CatalogObject → Exec srv.State (List CatalogObject)
  add_table_constraints f objects = constrained f objects (table_names objects)

  -- The end of the loop over the rows: a panic ended it, or a row that cannot be scanned, or it went
  -- through. The rows are closed by name; the result of the deferred `Close` reaches no caller.
  abbrev pub grouped :
      Rows ObjectRow → Option Bytes → Option Groups → Result Failure (List CatalogObject)
  grouped rows scan none = err panicked
  grouped rows scan (some g) =
      unless_error "failed to scan objects row" scan
        (unless_error "error during objects iteration" rows.error
          (unless_error "failed to close objects rows" rows.close (ok (slices g.infos)) err) err)
        err

  unfoldable pub objects_result : Rows ObjectRow → Result Failure (List CatalogObject)
  unfolding slices
  objects_result rows =
      let (scanned, scan) = split_scan rows.scanned in
      grouped rows scan (group_rows (map (row_of no_nulls nullable) scanned) no_groups)

  abbrev pub with_constraints :
      ObjectsFilter → List CatalogObject → Bool → Exec srv.State (List CatalogObject)
  with_constraints f objects false = pure objects
  with_constraints f objects true = add_table_constraints f objects

  abbrev pub finish : List CatalogObject → Exec srv.State Reader
  finish objects = pass (λ s. (build objects, s))

  unfoldable pub get_objects : ObjectsFilter → Exec srv.State Reader
  unfolding objects_result add_table_constraints
  get_objects f = do
    pass srv.clear_pending
    rows ←
        wrap "failed to query objects" (query_objects (objects_query f).sql (objects_query f).args)
    objects ← of_result (objects_result rows)
    objects' ← with_constraints f objects (include_tables f.depth)
    finish objects'
