-- ===== src/Statistics/Answers.antt =====
-- `GetStatistics` of go/connection_statistics.go where the server answers.
use adbc_driver_mariadb.Base.{String, false, ◌≡◌, refl, ap, ◌∙◌, List, [], ◌∷◌, Option, some}
use adbc_driver_mariadb.Base.Text.{Bytes}
use adbc_driver_mariadb.Base.Int.{ℤ}
use adbc_driver_mariadb.Base.Dict.{Dict}
use adbc_driver_mariadb.Base.Result.{Result, ok, err}
use adbc_driver_mariadb.Session.Server.{Failure, Server}
use adbc_driver_mariadb.Session.Rows.{Rows, split_scan, unless_error, complete, split_scan-complete}
use adbc_driver_mariadb.Statistics.Query.{table_query, index_query}
use adbc_driver_mariadb.Statistics.Rows.{
  Statistic, TableRow, IndexRow, Collected, nothing, table_rows, index_rows,
}
use adbc_driver_mariadb.Statistics.RowsKeep.{TableNames, IndexNames, collected-stats}
use adbc_driver_mariadb.Statistics.Handler.{
  ended, has_schema, tables_result, indexes_result, reader_at, indexed_reader, collected_reader,
  get_statistics,
}

ended-complete :
    {R : Type 0} (scan_message read_message : String) (rs : List R)
    (loop : List R → Option Collected) (m : Collected)
    → loop rs ≡ some m
    → ended scan_message read_message (complete rs) (loop (split_scan (complete rs).scanned).0)
      ≡ ok m
unfolding complete
ended-complete scan_message read_message rs loop m e =
    let scanned = split_scan-complete rs in
    let done : Result Failure Collected = ok m in
    ap (λ p. ended scan_message read_message (complete rs) (loop p.0)) scanned
    ∙ (ap (ended scan_message read_message (complete rs)) e
        ∙ ap (λ p. unless_error scan_message p.1 done err) scanned)

module _ (row_count_key distinct_count_key : ℤ) (Reader : Type 0)
    (empty_reader : Result Bytes Reader)
    (build_reader : List Bytes
      → Dict (List Bytes)
      → Dict (Dict (List Statistic))
      → Result Bytes Reader)
    (empty : (reader : Reader) × (empty_reader ≡ ok reader))
    (built : (order : List Bytes) (schemas : Dict (List Bytes))
        (stats : Dict (Dict (List Statistic)))
      → (reader : Reader) × (build_reader order schemas stats ≡ ok reader)) where
  reader_at-ok :
      (m : Collected) (order : List Bytes)
      → (reader : Reader) × (reader_at row_count_key distinct_count_key Reader empty_reader
            build_reader m order
          ≡ ok reader)
  reader_at-ok m [] = empty
  reader_at-ok m (c ∷ cs) = built m.catalog_order m.schema_order m.stats_by_catalog

  module _ (srv : Server)
      (query_tables : Bytes → List Bytes → srv.State → Result Bytes (Rows TableRow) × srv.State)
      (query_indexes : Bytes
        → List Bytes
        → srv.State
        → Result Bytes (Rows IndexRow) × srv.State) where
    -- Where the pending results can be cleared, the server answers both queries with complete rows that
    -- name no catalog with the byte zero in it, and the readers can be built, `GetStatistics` returns a
    -- reader, whatever it is asked for but a schema.
    pub get_statistics-ok :
        (catalog db_schema table_name : Option Bytes) (s s1 s2 s3 : srv.State)
        (rows : List TableRow) (indexes : List IndexRow)
        → has_schema db_schema ≡ false
        → srv.clear_pending s ≡ (ok tt, s1)
        → query_tables (table_query catalog table_name).sql (table_query catalog table_name).args s1
          ≡ (ok (complete rows), s2)
        → query_indexes
            (index_query catalog table_name).sql
            (index_query catalog table_name).args
            s2
          ≡ (ok (complete indexes), s3)
        → TableNames rows
        → IndexNames indexes
        → (reader : Reader) × (get_statistics row_count_key distinct_count_key Reader empty_reader
              build_reader srv query_tables query_indexes catalog db_schema table_name s
            ≡ (ok reader, s3))
    unfolding get_statistics collected_reader indexed_reader tables_result indexes_result
    get_statistics-ok catalog db_schema table_name s s1 s2 s3 rows indexes no_schema cleared tables
          found g g' =
        let (m, m', e, e', _) =
          collected-stats row_count_key distinct_count_key rows indexes g g' in
        let (reader, r) = reader_at-ok m' m'.catalog_order in
        let t =
          ended-complete "failed to scan table statistics" "failed to read table statistics" rows
            (λ rs. table_rows row_count_key distinct_count_key rs nothing) m e in
        let i =
          ended-complete "failed to scan index statistics" "failed to read index statistics" indexes
            (λ rs. index_rows row_count_key distinct_count_key rs m) m' e' in
        (reader, rw (cleared, no_schema, tables, t, found, i, r) refl)
