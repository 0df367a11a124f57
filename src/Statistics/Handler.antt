-- ===== src/Statistics/Handler.antt =====
-- `GetStatistics` of go/connection_statistics.go as a whole. The server's answers and the builders of
-- the readers are parameters.
use adbc_driver_mariadb.Base.{String, true, false, Bool, List, [], ◌∷◌, ◌++◌, Option, none, some}
use adbc_driver_mariadb.Base.Text.{Bytes}
use adbc_driver_mariadb.Base.Int.{ℤ}
use adbc_driver_mariadb.Base.Dict.{Dict}
use adbc_driver_mariadb.Base.Result.{Result, ok, err}
use adbc_driver_mariadb.Session.Server.{
  Failure, panicked, Exec, of_result, pass, wrap, ◌>>=◌, ◌>>◌, Server,
}
use adbc_driver_mariadb.Session.Rows.{Rows, split_scan, unless_error}
use adbc_driver_mariadb.Statistics.Query.{table_query, index_query}
use adbc_driver_mariadb.Statistics.Rows.{
  Statistic, TableRow, IndexRow, Collected, nothing, table_rows, index_rows,
}

-- `errors.Join`: the texts of the errors, a line for each.
abbrev pub join_errors : Option Bytes → Option Bytes → Option Bytes
join_errors none e = e
join_errors (some e) none = some e
join_errors (some e) (some e') = some (e ++ (b'\n' ∷ e'))

-- How a loop over rows ended: by a panic, by a row that cannot be scanned, or by the end of the rows.
abbrev pub ended :
    {R : Type 0} → String → String → Rows R → Option Collected → Result Failure Collected
ended scan_message read_message rows none = err panicked
ended scan_message read_message rows (some m) =
    unless_error scan_message (split_scan rows.scanned).1
      (unless_error read_message (join_errors rows.error rows.close) (ok m) err) err

-- `dbSchema != nil && *dbSchema != ""`
abbrev pub has_schema : Option Bytes → Bool
has_schema none = false
has_schema (some []) = false
has_schema (some (c ∷ cs)) = true

module _ (row_count_key distinct_count_key : ℤ) (Reader : Type 0)
    (empty_reader : Result Bytes Reader)
    (build_reader : List Bytes
      → Dict (List Bytes)
      → Dict (Dict (List Statistic))
      → Result Bytes Reader) where
  unfoldable pub tables_result : Rows TableRow → Result Failure Collected
  unfolding table_rows split_scan
  tables_result rows =
      ended "failed to scan table statistics" "failed to read table statistics" rows
        (table_rows row_count_key distinct_count_key (split_scan rows.scanned).0 nothing)

  unfoldable pub indexes_result : Rows IndexRow → Collected → Result Failure Collected
  unfolding index_rows split_scan
  indexes_result rows m =
      ended "failed to scan index statistics" "failed to read index statistics" rows
        (index_rows row_count_key distinct_count_key (split_scan rows.scanned).0 m)

  abbrev pub reader_at : Collected → List Bytes → Result Bytes Reader
  reader_at m [] = empty_reader
  reader_at m (c ∷ cs) = build_reader m.catalog_order m.schema_order m.stats_by_catalog

  abbrev pub reader_of : Collected → Result Bytes Reader
  reader_of m = reader_at m m.catalog_order

  module _ (srv : Server)
      (query_tables : Bytes → List Bytes → srv.State → Result Bytes (Rows TableRow) × srv.State)
      (query_indexes : Bytes
        → List Bytes
        → srv.State
        → Result Bytes (Rows IndexRow) × srv.State) where
    -- From the second query on.
    unfoldable pub indexed_reader : Option Bytes → Option Bytes → Collected → Exec srv.State Reader
    unfolding index_query indexes_result
    indexed_reader catalog table_name m =
        let indexes = index_query catalog table_name in
        do
          rows ← wrap "failed to query index statistics" (query_indexes indexes.sql indexes.args)
          m' ← of_result (indexes_result rows m)
          pass (λ s. (reader_of m', s))

    -- From the first query on.
    unfoldable pub collected_reader : Option Bytes → Option Bytes → Exec srv.State Reader
    unfolding table_query tables_result indexed_reader
    collected_reader catalog table_name =
        let tables = table_query catalog table_name in
        do
          rows ← wrap "failed to query table statistics" (query_tables tables.sql tables.args)
          m ← of_result (tables_result rows)
          indexed_reader catalog table_name m

    abbrev pub reader_if : Bool → Option Bytes → Option Bytes → Exec srv.State Reader
    reader_if true catalog table_name = pass (λ s. (empty_reader, s))
    reader_if false catalog table_name = collected_reader catalog table_name

    unfoldable pub get_statistics :
        Option Bytes → Option Bytes → Option Bytes → Exec srv.State Reader
    unfolding collected_reader
    get_statistics catalog db_schema table_name = do
      pass srv.clear_pending
      reader_if (has_schema db_schema) catalog table_name
