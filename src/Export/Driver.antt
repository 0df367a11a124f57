-- ===== src/Export/Driver.antt =====
-- What the exported functions of go/pkg/driver.go call: the driver that go/mariadb.go makes, whose
-- methods may return, fail or panic, the contexts of driverbase, and the C data interface of Arrow.
use adbc_driver_mariadb.Base.{ℕ, suc, Bool, List, Option}
use adbc_driver_mariadb.Base.Text.{Bytes}
use adbc_driver_mariadb.Base.Int.{ℤ}
use adbc_driver_mariadb.Base.Dict.{Dict}
use adbc_driver_mariadb.Export.Error.{GoFailure}

-- What a call in Go does: a panic carries what `%#v` prints of its value.
pub data Outcome (A : Type 0) : Type 0 where
  returned : A → Outcome A
  fails : GoFailure → Outcome A
  panics : Bytes → Outcome A

-- `unappliedOpt`; a double is its bit pattern.
pub data Unapplied : Type 0 where
  string_value : Bytes → Unapplied
  bytes_value : Bytes → Unapplied
  int_value : ℤ → Unapplied
  double_value : ℕ → Unapplied

-- The embedded `CancellableContext` of each object, and `executionContext`.
pub data ContextOf : Type 0 where
  of_database of_connection of_statement of_execution : ContextOf

-- The methods of a connection that give a reader.
pub data Reading : Type 0 where
  get_info : List ℕ → Reading
  get_objects :
      (depth : ℤ) (catalog db_schema table_name column_name : Option Bytes)
      (table_type : Option (List Bytes))
      → Reading
  get_statistics : (catalog db_schema table_name : Option Bytes) (approximate : Bool) → Reading
  get_statistic_names get_table_types : Reading
  read_partition : Bytes → Reading

-- The methods of a statement that give nothing but an error.
pub data Command (Batch Reader : Type 0) : Type 0 where
  prepare : Command Batch Reader
  set_sql_query set_substrait_plan : Bytes → Command Batch Reader
  bind : Batch → Command Batch Reader
  bind_stream : Reader → Command Batch Reader

-- The options of an object of Go. `supported` is the assertion to `GetSetOptionsWithContext`. The
-- methods for numbers give a value also where they give an error.
pub record Options (State Object : Type 0) : Type 0 where
  pub supported : Object → Bool
  pub get_option : Object → Bytes → State → Outcome Bytes × State
  pub get_option_bytes : Object → Bytes → State → Outcome Bytes × State
  pub get_option_int : Object → Bytes → State → Outcome (ℤ × Option GoFailure) × State
  pub get_option_double : Object → Bytes → State → Outcome (ℕ × Option GoFailure) × State
  pub set_option : Object → Bytes → Unapplied → State → Outcome (Unit {0}) × State

-- `adbc.Partitions`
pub record Partitions : Type 0 where
  pub num_partitions : ℕ
  pub partition_ids : List Bytes

-- `slog.Level`, and the writer of the log.
pub data LogLevel : Type 0 where
  level_debug level_info level_warn level_error : LogLevel

pub data LogSink : Type 0 where
  to_stderr to_tempfile : LogSink

-- `drv`, what it makes, the contexts of driverbase, the two environment variables, and what `%#v`
-- prints of an error of the Go runtime. `State` is the state of all of these.
pub record Driver : Type 1 where
  pub State : Type 0
  pub Database : Type 0
  pub Connection : Type 0
  pub Statement : Type 0
  pub Reader : Type 0
  pub Batch : Type 0
  pub Schema : Type 0
  pub CArray : Type 0
  pub CSchema : Type 0
  pub CStream : Type 0
  pub zero_context : ContextOf → State → State
  pub new_context : ContextOf → State → State
  pub finish_context : ContextOf → State → State
  pub cancel_context : ContextOf → State → Bool × State
  pub database_options : Options State Database
  pub connection_options : Options State Connection
  pub statement_options : Options State Statement
  pub new_database : Dict Bytes → State → Outcome Database × State
  pub log_level_env : Bytes
  pub log_sink_env : Bytes
  pub create_temp : State → Bool × State
  pub set_logger : Database → LogLevel → LogSink → State → Outcome (Unit {0}) × State
  pub open_connection : Database → State → Outcome Connection × State
  pub close_database : Database → State → Outcome (Unit {0}) × State
  pub has_statistics : Connection → Bool
  pub read : Connection → Reading → State → Outcome Reader × State
  pub get_table_schema :
      Connection → Option Bytes → Option Bytes → Bytes → State → Outcome Schema × State
  pub commit : Connection → State → Outcome (Unit {0}) × State
  pub rollback : Connection → State → Outcome (Unit {0}) × State
  pub close_connection : Connection → State → Outcome (Unit {0}) × State
  pub new_statement : Connection → State → Outcome Statement × State
  pub command : Statement → Command Batch Reader → State → Outcome (Unit {0}) × State
  pub execute_update : Statement → State → Outcome ℤ × State
  pub execute_query : Statement → State → Outcome (Reader × ℤ) × State
  pub has_execute_schema : Statement → Bool
  pub has_cancel : Statement → Bool
  pub execute_schema : Statement → State → Outcome Schema × State
  pub parameter_schema : Statement → State → Outcome Schema × State
  pub execute_partitions : Statement → State → Outcome (Option Schema × Partitions × ℤ) × State
  pub cancel : Statement → State → Outcome (Unit {0}) × State
  pub close_statement : Statement → State → Outcome (Unit {0}) × State
  pub import_batch : CArray → CSchema → State → Outcome Batch × State
  pub release_batch : Batch → State → State
  pub release_array : CArray → State → State
  pub import_reader : CStream → State → Outcome Reader × State
  pub runtime_error : Bytes
  pub next : Reader → State → Bool × State
  pub record_batch : Reader → State → Batch
  pub reader_error : Reader → State → Option GoFailure
  pub reader_schema : Reader → State → Option Schema
  pub retain : Reader → State → State
  pub release : Reader → State → State

-- How many objects of a kind the driver made, and how many calls of `Close` there were. These numbers
-- are not in the source.
pub record Tally : Type 0 where
  pub made : ℕ
  pub closed : ℕ

abbrev pub one_made : Tally → Tally
one_made t = record t { made = suc t.made }

abbrev pub one_closed : Tally → Tally
one_closed t = record t { closed = suc t.closed }

-- `struct AdbcPartitions`: the number of partitions, the block behind `private_data`, the entries of
-- the two arrays that are written, by where a partition starts in the block and its length, and whether
-- `release` is set.
pub record CPartitions : Type 0 where
  pub num : ℕ
  pub block : Bytes
  pub slices : List (ℕ × ℕ)
  pub releasable : Bool
