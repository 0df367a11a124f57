-- ===== src/Ingest/Tests.antt =====
-- Runs of the bulk ingest of go/connection.go.
use adbc_driver_mariadb.Base.{
  ℕ, suc, ◌*◌, ◌≤◌, ◌<◌, true, false, ◌≡◌, refl, List, [], ◌∷◌, some, arith, ◌==◌, if◌then◌else◌,
}
use adbc_driver_mariadb.Base.Text.{Bytes, codes}
use adbc_driver_mariadb.Base.Int.{pos}
use adbc_driver_mariadb.Base.Result.{Result, ok, err}
use adbc_driver_mariadb.Sql.Quote.{quote_identifier, double_backticks}
use adbc_driver_mariadb.Sql.Scan.{count_placeholders}
use adbc_driver_mariadb.Arrow.{second, timestamp, Field}
use adbc_driver_mariadb.Session.Server.{Server}
use adbc_driver_mariadb.Ingest.Table.{create_statement}
use adbc_driver_mariadb.Ingest.Bulk.{
  replace_mode, IngestOptions, batch_size, default_batch_size, max_placeholders,
}
use adbc_driver_mariadb.Ingest.NoMarks.{count_placeholders-create_statement}
use adbc_driver_mariadb.Ingest.Bounds.{batch_size_bounds}

abbrev odd_field : Field
odd_field = record {
  name = codes "a?`";
  type = timestamp second [];
  nullable = false;
  metadata = [];
}

create_odd :
    create_statement true false (codes "t") (odd_field ∷ [])
    ≡ some (codes "CREATE TEMPORARY TABLE `t` (`a?``` DATETIME NOT NULL)")
unfolding create_statement quote_identifier double_backticks
create_odd = refl

count_placeholders-create_statement_example :
    count_placeholders (codes "CREATE TEMPORARY TABLE `t` (`a?``` DATETIME NOT NULL)") ≡ 0
count_placeholders-create_statement_example =
    count_placeholders-create_statement true false (codes "t") (odd_field ∷ [])
      (codes "CREATE TEMPORARY TABLE `t` (`a?``` DATETIME NOT NULL)") create_odd

batch_size_bounds_example :
    (rows : ℕ) × (batch_size 100 (pos 0) ≡ pos rows)
    × (0 < rows)
    × (rows * 100 ≤ max_placeholders)
    × (rows ≤ (if 0 == 0 then default_batch_size else 0))
batch_size_bounds_example = batch_size_bounds 100 0 (omega arith) (omega arith)

-- A server that counts the statements it executes.
abbrev counting : Server
counting = record {
  State = ℕ;
  get_option = λ key s. (err [], s);
  set_option = λ key value s. (err [], s);
  clear_pending = λ s. (ok tt, s);
  execute = λ statement s. (ok tt, suc s);
  query_text = λ query s. (err [], s);
}

abbrev ingest_nothing : IngestOptions → List Field → ℕ → Result Bytes ℕ × ℕ
ingest_nothing o fields s = (ok 0, suc s)

abbrev replace_t : IngestOptions
replace_t = record {
  table_name = codes "t";
  mode = replace_mode;
  temporary = false;
  max_query_size_bytes = pos 0;
  ingest_batch_size = pos 0;
}
