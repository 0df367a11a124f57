-- ===== src/Schema/Handler.antt =====
-- `GetTableSchema` of go/connection.go as a whole, from the server's answers to its two queries.
use adbc_driver_mariadb.Base.{Bool, List, [], ◌∷◌, map, Option, none, some}
use adbc_driver_mariadb.Base.Text.{Bytes, codes}
use adbc_driver_mariadb.Base.Dict.{Dict}
use adbc_driver_mariadb.Base.Result.{Result, ok, err, ◌>>=◌ as bind}
use adbc_driver_mariadb.Arrow.{Field}
use adbc_driver_mariadb.Convert.Column.{Library}
use adbc_driver_mariadb.Session.Server.{
  Failure, not_found_for, Exec, pure, of_result, pass, wrap, ◌>>=◌, ◌>>◌, Server,
}
use adbc_driver_mariadb.Session.Rows.{Rows, split_scan, unless_error, close_rows}
use adbc_driver_mariadb.Session.Transaction.{get_current_catalog}
use adbc_driver_mariadb.Schema.TypeValues.{ValuesError}
use adbc_driver_mariadb.Schema.Json.{mark_clauses, is_marked}
use adbc_driver_mariadb.Schema.Column.{TableColumn, build_field}

abbrev pub columns_query : Bytes
columns_query =
    codes
      "SELECT\n\t\tORDINAL_POSITION,\n\t\tCOLUMN_NAME,\n\t\tDATA_TYPE,\n\t\tCOLUMN_TYPE,\n\t\tIS_NULLABLE,\n\t\tCHARACTER_MAXIMUM_LENGTH,\n\t\tNUMERIC_PRECISION,\n\t\tNUMERIC_SCALE,\n\t\tDATETIME_PRECISION,\n\t\tCHARACTER_SET_NAME,\n\t\tCOLLATION_NAME\n\tFROM INFORMATION_SCHEMA.COLUMNS\n\tWHERE TABLE_SCHEMA = ? AND TABLE_NAME = ?\n\tORDER BY ORDINAL_POSITION"

abbrev pub checks_query : Bytes
checks_query =
    codes
      "SELECT cc.CHECK_CLAUSE\n\t\tFROM INFORMATION_SCHEMA.TABLE_CONSTRAINTS tc\n\t\tJOIN INFORMATION_SCHEMA.CHECK_CONSTRAINTS cc\n\t\t  ON tc.CONSTRAINT_SCHEMA = cc.CONSTRAINT_SCHEMA\n\t\t AND tc.CONSTRAINT_NAME = cc.CONSTRAINT_NAME\n\t\tWHERE tc.TABLE_SCHEMA = ? AND tc.TABLE_NAME = ?\n\t\t  AND tc.CONSTRAINT_TYPE = 'CHECK'"

abbrev pub found : Bytes → List TableColumn → Result Failure (List TableColumn)
found table_name [] = err (not_found_for "table not found: %s" table_name)
found table_name (col ∷ columns) = ok (col ∷ columns)

-- The loop over the columns' rows, and the errors that end it. Where an error comes before the rows
-- are closed, the deferred `Close` joins its own.
unfoldable pub columns_result : Bytes → Rows TableColumn → Result Failure (List TableColumn)
unfolding split_scan
columns_result table_name rows =
    let (columns, scan) = split_scan rows.scanned in
    let fail = λ (f : Failure). close_rows rows.close (err f) in
    unless_error "failed to scan column information" scan
      (unless_error "rows error" rows.error
        (unless_error "failed to close table schema rows" rows.close (found table_name columns) err)
        fail)
      fail

abbrev pub names : List TableColumn → List Bytes
names = map (λ col. col.column_name)

-- The loop over the check constraints. They are passed over where their query fails, and the error of
-- closing their rows is dropped.
unfoldable pub json_result :
    List TableColumn → Result Bytes (Rows Bytes) → Result Failure (Dict Bool)
unfolding split_scan mark_clauses
json_result columns (err e) = ok []
json_result columns (ok rows) =
    let (clauses, scan) = split_scan rows.scanned in
    unless_error "failed to scan check constraint" scan
      (unless_error "failed to read check constraints" rows.error
        (ok (mark_clauses clauses (names columns) [])) err)
      err

abbrev pub cons_field : Result Failure (List Field) → Field → Result Failure (List Field)
cons_field (ok fields) f = ok (f ∷ fields)
cons_field (err e) f = err e

-- `catalog` if it is given and not empty.
abbrev pub selected_catalog : (srv : Server) → Option Bytes → Exec srv.State Bytes
selected_catalog srv none = get_current_catalog srv
selected_catalog srv (some []) = get_current_catalog srv
selected_catalog srv (some (c ∷ cs)) = pure (c ∷ cs)

module _ (lib : Library) (marshal : List Bytes → Result Bytes Bytes)
    (values_error : Bytes → ValuesError → Bytes) where
  -- The loop over the columns, up to the first that fails.
  unfoldable pub build_fields : Dict Bool → List TableColumn → Result Failure (List Field)
  unfolding build_field is_marked
  build_fields json_columns [] = ok []
  build_fields json_columns (col ∷ columns) =
      let rest = build_fields json_columns columns in
      bind (build_field lib marshal values_error (is_marked json_columns col.column_name) col)
        (cons_field rest)

  module _ (srv : Server)
      (query_columns : Bytes → List Bytes → srv.State → Result Bytes (Rows TableColumn) × srv.State)
      (query_checks : Bytes → List Bytes → srv.State → Result Bytes (Rows Bytes) × srv.State) where
    -- The check query's result is a value here, as its error ends nothing.
    abbrev pub checks : Bytes → Bytes → Exec srv.State (Result Bytes (Rows Bytes))
    checks catalog table_name s =
        let (r, s') = query_checks checks_query (catalog ∷ table_name ∷ []) s in (ok r, s')

    -- From the check query on.
    unfoldable pub schema_of : Bytes → Bytes → List TableColumn → Exec srv.State (List Field)
    unfolding json_result build_fields
    schema_of selected table_name columns = do
      clauses ← checks selected table_name
      json_columns ← of_result (json_result columns clauses)
      of_result (build_fields json_columns columns)

    unfoldable pub get_table_schema : Option Bytes → Bytes → Exec srv.State (List Field)
    unfolding get_current_catalog columns_result schema_of
    get_table_schema catalog table_name = do
      pass srv.clear_pending
      selected ← selected_catalog srv catalog
      rows ←
          wrap "failed to query table schema"
            (query_columns columns_query (selected ∷ table_name ∷ []))
      columns ← of_result (columns_result table_name rows)
      schema_of selected table_name columns
