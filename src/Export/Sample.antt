-- ===== src/Export/Sample.antt =====
-- A small driver, whose connections fail to commit and panic when they are closed, to run the exported
-- functions of go/pkg/driver.go with.
use adbc_driver_mariadb.Base.{ℕ, suc, true, false, [], ◌∷◌, none, some}
use adbc_driver_mariadb.Base.Text.{codes}
use adbc_driver_mariadb.Base.Int.{pos}
use adbc_driver_mariadb.Base.Result.{ok}
use adbc_driver_mariadb.ErrorInspector.{Status, zero_state}
use adbc_driver_mariadb.Export.Error.{adbc_error, DriverError, zero_error}
use adbc_driver_mariadb.Export.Driver.{returned, fails, panics, Options, Driver}
use adbc_driver_mariadb.Export.World.{Out, World}
use adbc_driver_mariadb.Export.Calls.{initial}

abbrev pub lost : DriverError
lost = record {
  code = Status.io;
  msg = codes "connection lost";
  vendor_code = pos 2013;
  sql_state = zero_state;
  details = record { key = codes "server"; serialized = ok (codes "db1") } ∷ [];
}

-- Options that are set and hold nothing; the state counts the calls.
abbrev pub options : Options ℕ ℕ
options = record {
  supported = λ o. true;
  get_option = λ o key st. (returned [], suc st);
  get_option_bytes = λ o key st. (returned [], suc st);
  get_option_int = λ o key st. (returned (pos 0, none), suc st);
  get_option_double = λ o key st. (returned (0, none), suc st);
  set_option = λ o key value st. (returned tt, suc st);
}

abbrev pub driver : Driver
driver = record {
  State = ℕ;
  Database = ℕ;
  Connection = ℕ;
  Statement = ℕ;
  Reader = ℕ;
  Batch = ℕ;
  Schema = ℕ;
  CArray = ℕ;
  CSchema = ℕ;
  CStream = ℕ;
  zero_context = λ c st. st;
  new_context = λ c st. st;
  finish_context = λ c st. st;
  cancel_context = λ c st. (false, st);
  database_options = options;
  connection_options = options;
  statement_options = options;
  new_database = λ opts st. (returned 0, suc st);
  log_level_env = [];
  log_sink_env = [];
  create_temp = λ st. (false, st);
  set_logger = λ db level sink st. (returned tt, st);
  open_connection = λ db st. (returned 0, suc st);
  close_database = λ db st. (returned tt, suc st);
  has_statistics = λ c. true;
  read = λ c reading st. (returned 0, suc st);
  get_table_schema = λ c catalog db_schema table_name st. (returned 0, suc st);
  commit = λ c st. (fails (adbc_error lost), suc st);
  rollback = λ c st. (returned tt, suc st);
  close_connection = λ c st. (panics (codes "closed twice"), suc st);
  new_statement = λ c st. (returned 0, suc st);
  command = λ s c st. (returned tt, suc st);
  execute_update = λ s st. (returned (pos 1), suc st);
  execute_query = λ s st. (returned (0, pos 1), suc st);
  has_execute_schema = λ s. true;
  has_cancel = λ s. false;
  execute_schema = λ s st. (returned 0, suc st);
  parameter_schema = λ s st. (returned 0, suc st);
  execute_partitions =
      λ s st. (returned (none, record { num_partitions = 0; partition_ids = [] }, pos 0), suc st);
  cancel = λ s st. (returned tt, suc st);
  close_statement = λ s st. (returned tt, suc st);
  import_batch = λ a s st. (returned 0, suc st);
  release_batch = λ b st. st;
  release_array = λ a st. st;
  import_reader = λ s st. (returned 0, suc st);
  runtime_error = codes "index out of range";
  next = λ r st. (false, suc st);
  record_batch = λ r st. 0;
  reader_error = λ r st. some (adbc_error lost);
  reader_schema = λ r st. some 0;
  retain = λ r st. st;
  release = λ r st. st;
}

abbrev pub out : Out driver
out = record {
  buffer = record { memory = []; room = 0 };
  int_out = pos 0;
  double_out = 0;
  affected = none;
  schema = none;
  stream = none;
  partitions = none;
}

abbrev pub start_world : World driver
start_world = initial driver 0 (some zero_error) out
