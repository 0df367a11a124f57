-- ===== src/Statistics/HandlerStats.antt =====
-- What the reader that `GetStatistics` of go/connection_statistics.go returns is built from.
use adbc_driver_mariadb.Base.{
  String, Bool, false, ◌≡◌, ap, sym, ◌∙◌, List, ◌++◌, Option, none, some, some-injective,
}
use adbc_driver_mariadb.Base.Text.{Bytes}
use adbc_driver_mariadb.Base.Int.{ℤ}
use adbc_driver_mariadb.Base.Dict.{Dict}
use adbc_driver_mariadb.Base.Result.{Result, ok, err, ok-injective}
use adbc_driver_mariadb.Session.Server.{Failure, Server, pass}
use adbc_driver_mariadb.Session.Rows.{Rows, split_scan, unless_error}
use adbc_driver_mariadb.Session.Inversion.{
  bind_result-ok, bind_pass-ok, bind_wrap-ok, pass-ok, unless_error-ok,
}
use adbc_driver_mariadb.Statistics.Query.{table_query, index_query}
use adbc_driver_mariadb.Statistics.Rows.{
  Statistic, TableRow, IndexRow, Collected, nothing, table_rows, index_rows,
}
use adbc_driver_mariadb.Statistics.Left.{stats_at}
use adbc_driver_mariadb.Statistics.RowsKeep.{
  TableNames, IndexNames, tables_in, columns_in, collected-stats,
}
use adbc_driver_mariadb.Statistics.CatalogOrder.{Ordered, collected-Ordered}
use adbc_driver_mariadb.Statistics.Handler.{
  join_errors, ended, has_schema, tables_result, indexes_result, reader_of, indexed_reader,
  reader_if, collected_reader, get_statistics,
}

ended-ok :
    {R : Type 0} (scan_message read_message : String) (rows : Rows R) (o : Option Collected)
    {m : Collected}
    → ended scan_message read_message rows o ≡ ok m
    → (o ≡ some m) × ((split_scan rows.scanned).1 ≡ none)
ended-ok scan_message read_message rows none h = cc
ended-ok scan_message read_message rows (some m) h =
    let read : Result Failure Collected =
      unless_error read_message (join_errors rows.error rows.close) (ok m) err in
    let (h1, all) = unless_error-ok scan_message (split_scan rows.scanned).1 read h in
    let (h2, _) = unless_error-ok read_message (join_errors rows.error rows.close) (ok m) h1 in
    (ap some (ok-injective h2), all)

module _ (row_count_key distinct_count_key : ℤ) (Reader : Type 0)
    (empty_reader : Result Bytes Reader)
    (build_reader : List Bytes
      → Dict (List Bytes)
      → Dict (Dict (List Statistic))
      → Result Bytes Reader) where
  -- What a collection from these rows has.
  pub record Collects (rows : List TableRow) (indexes : List IndexRow) (m : Collected)
      : Type 0 where
    pub ordered : Ordered m
    pub stats :
        (d : Bytes)
        → stats_at d m
          ≡ tables_in row_count_key distinct_count_key d rows
            ++ columns_in row_count_key distinct_count_key d rows indexes

  collected_stats :
      (rows : List TableRow) (indexes : List IndexRow) (m m' : Collected)
      → table_rows row_count_key distinct_count_key rows nothing ≡ some m
      → index_rows row_count_key distinct_count_key indexes m ≡ some m'
      → TableNames rows
      → IndexNames indexes
      → (d : Bytes)
      → stats_at d m'
        ≡ tables_in row_count_key distinct_count_key d rows
          ++ columns_in row_count_key distinct_count_key d rows indexes
  collected_stats rows indexes m m' e e' g g' d =
      let (m1, m2, e1, e2, stats) =
        collected-stats row_count_key distinct_count_key rows indexes g g' in
      let first : m ≡ m1 = some-injective m m1 (sym e ∙ e1) in
      let second : m' ≡ m2 =
        some-injective m' m2
          (sym e' ∙ ap (index_rows row_count_key distinct_count_key indexes) first ∙ e2) in
      ap (stats_at d) second ∙ stats d

  results-Collects :
      (rows : Rows TableRow) (indexes : Rows IndexRow) (m m' : Collected)
      → tables_result row_count_key distinct_count_key Reader empty_reader build_reader rows ≡ ok m
      → indexes_result row_count_key distinct_count_key Reader empty_reader build_reader indexes m
        ≡ ok m'
      → TableNames (split_scan rows.scanned).0
      → IndexNames (split_scan indexes.scanned).0
      → ((split_scan rows.scanned).1 ≡ none)
        × ((split_scan indexes.scanned).1 ≡ none)
        × Collects (split_scan rows.scanned).0 (split_scan indexes.scanned).0 m'
  unfolding tables_result indexes_result
  results-Collects rows indexes m m' h k g g' =
      let rs = (split_scan rows.scanned).0 in
      let is = (split_scan indexes.scanned).0 in
      let (e, all) =
        ended-ok "failed to scan table statistics" "failed to read table statistics" rows
          (table_rows row_count_key distinct_count_key rs nothing) h in
      let (e', all') =
        ended-ok "failed to scan index statistics" "failed to read index statistics" indexes
          (index_rows row_count_key distinct_count_key is m) k in
      (
        all,
        all',
        record {
          ordered = collected-Ordered row_count_key distinct_count_key rs is m m' e e';
          stats = λ d. collected_stats rs is m m' e e' g g' d;
        },
      )

  module _ (srv : Server)
      (query_tables : Bytes → List Bytes → srv.State → Result Bytes (Rows TableRow) × srv.State)
      (query_indexes : Bytes
        → List Bytes
        → srv.State
        → Result Bytes (Rows IndexRow) × srv.State) where
    indexed_reader-ok :
        (catalog table_name : Option Bytes) (m : Collected) (s s' : srv.State) (reader : Reader)
        → indexed_reader row_count_key distinct_count_key Reader empty_reader build_reader srv
            query_tables query_indexes catalog table_name m s
          ≡ (ok reader, s')
        → (s1 : srv.State) × (indexes : Rows IndexRow) × (m' : Collected) × (query_indexes
              (index_query catalog table_name).sql
              (index_query catalog table_name).args
              s
            ≡ (ok indexes, s1))
          × (indexes_result row_count_key distinct_count_key Reader empty_reader build_reader
                indexes m
              ≡ ok m')
          × (reader_of row_count_key distinct_count_key Reader empty_reader build_reader m'
              ≡ ok reader)
    unfolding indexed_reader
    indexed_reader-ok catalog table_name m s s' reader h =
        let query = index_query catalog table_name in
        let (indexes, s1, e, k) =
          bind_wrap-ok _ s "failed to query index statistics" (query_indexes query.sql query.args)
            h in
        let (m', e', l) =
          bind_result-ok
            (λ m'. pass (λ s.
              (reader_of row_count_key distinct_count_key Reader empty_reader build_reader m', s)))
            s1
            (indexes_result row_count_key distinct_count_key Reader empty_reader build_reader
              indexes m)
            k in
        (
          s1,
          indexes,
          m',
          e,
          e',
          ap (λ p. p.0)
              (pass-ok
                (λ s. (
                  reader_of row_count_key distinct_count_key Reader empty_reader build_reader m',
                  s,
                ))
                s1 l),
        )

    -- What the method found, where it asked the server for rows.
    abbrev pub Found : Option Bytes → Option Bytes → srv.State → Reader → Type 0
    Found catalog table_name s1 reader =
        (s2 s3 : srv.State) × (rows : Rows TableRow) × (indexes : Rows IndexRow) × (m : Collected)
        × (query_tables (table_query catalog table_name).sql (table_query catalog table_name).args
              s1
            ≡ (ok rows, s2))
        × (query_indexes (index_query catalog table_name).sql (index_query catalog table_name).args
              s2
            ≡ (ok indexes, s3))
        × ((split_scan rows.scanned).1 ≡ none)
        × ((split_scan indexes.scanned).1 ≡ none)
        × Collects (split_scan rows.scanned).0 (split_scan indexes.scanned).0 m
        × (reader_of row_count_key distinct_count_key Reader empty_reader build_reader m
            ≡ ok reader)

    collected_reader-Found :
        (catalog table_name : Option Bytes) (s s' : srv.State) (reader : Reader)
        → collected_reader row_count_key distinct_count_key Reader empty_reader build_reader srv
            query_tables query_indexes catalog table_name s
          ≡ (ok reader, s')
        → ((s s' : srv.State) (rows : Rows TableRow)
            → query_tables
                (table_query catalog table_name).sql
                (table_query catalog table_name).args
                s
              ≡ (ok rows, s')
            → TableNames (split_scan rows.scanned).0)
        → ((s s' : srv.State) (indexes : Rows IndexRow)
            → query_indexes
                (index_query catalog table_name).sql
                (index_query catalog table_name).args
                s
              ≡ (ok indexes, s')
            → IndexNames (split_scan indexes.scanned).0)
        → Found catalog table_name s reader
    unfolding collected_reader
    collected_reader-Found catalog table_name s s' reader h tables_named indexes_named =
        let query = table_query catalog table_name in
        let (rows, s1, e, k) =
          bind_wrap-ok _ s "failed to query table statistics" (query_tables query.sql query.args)
            h in
        let (m, e', l) =
          bind_result-ok
            (indexed_reader row_count_key distinct_count_key Reader empty_reader build_reader srv
              query_tables query_indexes catalog table_name)
            s1
            (tables_result row_count_key distinct_count_key Reader empty_reader build_reader rows)
            k in
        let (s2, indexes, m', f, f', built) =
          indexed_reader-ok catalog table_name m s1 s' reader l in
        let (all, all', collects) =
          results-Collects rows indexes m m' e' f' (tables_named s s1 rows e)
            (indexes_named s1 s2 indexes f) in
        (s1, s2, rows, indexes, m', e, f, all, all', collects, built)

    -- Where `GetStatistics` succeeds with no schema asked for, and the server names no catalog with the
    -- byte zero in it: the server answered both queries with rows that could all be scanned, and the
    -- reader is the empty one, for no catalogs, or was built from maps that list each catalog with
    -- statistics once, with its one schema, and that have for each catalog the statistics of its tables
    -- and then of the columns of the listed tables, in the order of the rows.
    pub get_statistics-Found :
        (catalog db_schema table_name : Option Bytes) (s s' : srv.State) (reader : Reader)
        → has_schema db_schema ≡ false
        → get_statistics row_count_key distinct_count_key Reader empty_reader build_reader srv
            query_tables query_indexes catalog db_schema table_name s
          ≡ (ok reader, s')
        → ((s s' : srv.State) (rows : Rows TableRow)
            → query_tables
                (table_query catalog table_name).sql
                (table_query catalog table_name).args
                s
              ≡ (ok rows, s')
            → TableNames (split_scan rows.scanned).0)
        → ((s s' : srv.State) (indexes : Rows IndexRow)
            → query_indexes
                (index_query catalog table_name).sql
                (index_query catalog table_name).args
                s
              ≡ (ok indexes, s')
            → IndexNames (split_scan indexes.scanned).0)
        → (s1 : srv.State) × (srv.clear_pending s ≡ (ok tt, s1))
          × Found catalog table_name s1 reader
    unfolding get_statistics
    get_statistics-Found catalog db_schema table_name s s' reader no_schema h tables_named
          indexes_named =
        let rest = λ (b : Bool).
          reader_if row_count_key distinct_count_key Reader empty_reader build_reader srv
            query_tables query_indexes b catalog table_name in
        let (_, s1, cleared, k) =
          bind_pass-ok (λ _. rest (has_schema db_schema)) s srv.clear_pending h in
        (
          s1,
          cleared,
          collected_reader-Found catalog table_name s1 s' reader
              (ap (λ b. rest b s1) (sym no_schema) ∙ k) tables_named indexes_named,
        )
