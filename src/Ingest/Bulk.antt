-- ===== src/Ingest/Bulk.antt =====
-- `createTableIfNeeded` and `ExecuteBulkIngest` of go/connection.go.
use adbc_driver_mariadb.Base.{
  ℕ, ◌/◌, Bool, true, false, List, Option, none, some, length, ltb, ◌==◌, min, if◌then◌else◌,
}
use adbc_driver_mariadb.Base.Text.{Bytes}
use adbc_driver_mariadb.Base.Int.{ℤ, pos, negsuc, ltb_ℤ}
use adbc_driver_mariadb.Base.Result.{Result, ok, err}
use adbc_driver_mariadb.Arrow.{Field}
use adbc_driver_mariadb.Ingest.Table.{create_statement, drop_statement}
use adbc_driver_mariadb.Session.Server.{
  Failure, invalid_argument, panicked, wrapped, Exec, Done, pure, raise, pass, ◌>>◌, Server,
}

abbrev pub max_placeholders : ℕ
max_placeholders = 65_535

abbrev pub default_batch_size : ℕ
default_batch_size = 1_000

-- `options.Mode`; `unknown_mode` is any other text.
pub data IngestMode : Type 0 where
  create_mode append_mode replace_mode create_append_mode unknown_mode : IngestMode

-- `driverbase.BulkIngestOptions`, the fields that are read.
pub record IngestOptions : Type 0 where
  pub table_name : Bytes
  pub mode : IngestMode
  pub temporary : Bool
  pub max_query_size_bytes : ℤ
  pub ingest_batch_size : ℤ

-- The batch size for `num_cols` columns: the default where none is given, capped by the number of
-- placeholders that a statement may have.
unfoldable pub batch_size : ℕ → ℤ → ℤ
batch_size num_cols (pos n) =
    let cap = max_placeholders / num_cols in
    if n == 0 then pos (min default_batch_size cap) else if ltb cap n then pos cap else pos n
batch_size num_cols (negsuc n) = negsuc n

module _ (srv : Server) where
  abbrev execute_text : Option Bytes → Exec srv.State Done
  execute_text none = raise panicked
  execute_text (some statement) = pass (srv.execute statement)

  unfoldable pub create_table : Bool → Bytes → List Field → Bool → Exec srv.State Done
  create_table if_not_exists table fields temporary =
      execute_text (create_statement temporary if_not_exists table fields)

  unfoldable pub drop_table : Bytes → Bool → Exec srv.State Done
  drop_table table temporary = pass (srv.execute (drop_statement temporary table))

  abbrev pub create_in_mode : IngestMode → IngestOptions → List Field → Exec srv.State Done
  create_in_mode create_mode o fields = create_table false o.table_name fields o.temporary
  create_in_mode create_append_mode o fields = create_table true o.table_name fields o.temporary
  create_in_mode replace_mode o fields = do
    drop_table o.table_name o.temporary
    create_table false o.table_name fields o.temporary
  create_in_mode append_mode o fields = pure tt
  create_in_mode unknown_mode o fields = raise (invalid_argument "unsupported ingest mode")

  unfoldable pub create_table_if_needed : IngestOptions → List Field → Exec srv.State Done
  unfolding create_table drop_table
  create_table_if_needed o fields = create_in_mode o.mode o fields

  -- `WrapIO` around an error of `createTableIfNeeded`; a panic goes by it.
  abbrev table_failure : Result Failure Done × srv.State → Result Failure Done × srv.State
  table_failure (ok d, s) = (ok d, s)
  table_failure (err panicked, s) = (err panicked, s)
  table_failure (err e, s) = (err (wrapped "failed to create table" e), s)

  abbrev pub table_or_failure : IngestOptions → List Field → Exec srv.State Done
  table_or_failure o fields s = table_failure (create_table_if_needed o fields s)

  -- `sqlwrapper.ExecuteBatchedBulkIngest`, given the options with their batch size.
  module _ (ingest : IngestOptions → List Field → srv.State → Result Bytes ℕ × srv.State) where
    abbrev ingest_rows : IngestOptions → List Field → Exec srv.State ℕ
    ingest_rows o fields = do
      table_or_failure o fields
      pass (
          ingest (record o { ingest_batch_size = batch_size (length fields) o.ingest_batch_size })
            fields)

    unfoldable pub execute_bulk_ingest : IngestOptions → List Field → Exec srv.State ℕ
    unfolding create_table_if_needed
    execute_bulk_ingest o fields =
        let rows = ingest_rows o fields in
        if ltb_ℤ (pos 0) o.max_query_size_bytes
        then raise (invalid_argument "MariaDB driver does not support the maximal query size")
        else if length fields == 0
        then raise (invalid_argument "bulk ingest schema must have at least one column")
        else if ltb max_placeholders (length fields)
        then raise (invalid_argument "bulk ingest schema exceeds the MariaDB placeholder limit")
        else rows
