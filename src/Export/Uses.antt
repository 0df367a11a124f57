-- ===== src/Export/Uses.antt =====
-- The calls of go/pkg/driver.go that need a handle after its `Init`, as data.
use adbc_driver_mariadb.Base.{ℕ, Bool, List, Option}
use adbc_driver_mariadb.Base.Text.{Bytes}
use adbc_driver_mariadb.Base.Int.{ℤ}
use adbc_driver_mariadb.Export.Driver.{Driver}
use adbc_driver_mariadb.Export.World.{Op}
use adbc_driver_mariadb.Export.Database.Uses.{
  database_get_option, database_get_option_bytes, database_get_option_double,
  database_get_option_int,
}
use adbc_driver_mariadb.Export.Connection.Uses.{
  connection_get_option, connection_get_option_bytes, connection_get_option_double,
  connection_get_option_int, connection_set_option_bytes, connection_set_option_double,
  connection_set_option_int, connection_cancel, connection_get_info, connection_get_objects,
  connection_get_statistics, connection_get_statistic_names, connection_get_table_schema,
  connection_get_table_types, connection_read_partition, connection_commit, connection_rollback,
}
use adbc_driver_mariadb.Export.Statement.{statement_cancel}
use adbc_driver_mariadb.Export.Statement.Uses.{
  statement_get_option, statement_get_option_bytes, statement_get_option_double,
  statement_get_option_int, statement_prepare, statement_set_sql_query,
  statement_set_substrait_plan, statement_bind, statement_bind_stream,
  statement_get_parameter_schema, statement_set_option, statement_set_option_bytes,
  statement_set_option_double, statement_set_option_int,
}
use adbc_driver_mariadb.Export.Statement.Execute.{
  statement_execute_query, statement_execute_schema, statement_execute_partitions,
}

pub data DatabaseUse : Type 0 where
  get_option get_option_bytes get_option_double get_option_int : (key : Bytes) → DatabaseUse

pub data ConnectionUse : Type 0 where
  get_option get_option_bytes get_option_double get_option_int : (key : Bytes) → ConnectionUse
  set_option_bytes : (key value : Bytes) (len : ℕ) → ConnectionUse
  set_option_double : (key : Bytes) (value : ℕ) → ConnectionUse
  set_option_int : (key : Bytes) (value : ℤ) → ConnectionUse
  cancel get_statistic_names get_table_types commit rollback : ConnectionUse
  get_info : (info_codes : List ℕ) (len : ℕ) → ConnectionUse
  get_objects :
      (depth : ℤ) (catalog db_schema table_name : Option Bytes)
      (table_type : Option (List (Option Bytes))) (column_name : Option Bytes)
      → ConnectionUse
  get_statistics : (catalog db_schema table_name : Option Bytes) (approximate : ℕ) → ConnectionUse
  get_table_schema : (catalog db_schema table_name : Option Bytes) → ConnectionUse
  read_partition : (serialized : Bytes) (len : ℕ) → ConnectionUse

pub data StatementUse (drv : Driver) : Type 0 where
  get_option get_option_bytes get_option_double get_option_int : (key : Bytes) → StatementUse drv
  set_option : (key value : Bytes) → StatementUse drv
  set_option_bytes : (key value : Bytes) (len : ℕ) → StatementUse drv
  set_option_double : (key : Bytes) (value : ℕ) → StatementUse drv
  set_option_int : (key : Bytes) (value : ℤ) → StatementUse drv
  prepare cancel get_parameter_schema execute_schema : StatementUse drv
  set_sql_query : (query : Bytes) → StatementUse drv
  set_substrait_plan : (plan : Bytes) (len : ℕ) → StatementUse drv
  bind : drv.CArray → drv.CSchema → StatementUse drv
  bind_stream : drv.CStream → StatementUse drv
  execute_query : (out_given : Bool) → StatementUse drv
  execute_partitions : (schema_given partitions_given : Bool) → StatementUse drv

module _ (drv : Driver) where
  abbrev pub use_database : DatabaseUse → Op drv
  use_database (DatabaseUse.get_option key) = database_get_option drv key
  use_database (DatabaseUse.get_option_bytes key) = database_get_option_bytes drv key
  use_database (DatabaseUse.get_option_double key) = database_get_option_double drv key
  use_database (DatabaseUse.get_option_int key) = database_get_option_int drv key

  abbrev pub use_connection : ConnectionUse → Op drv
  use_connection (ConnectionUse.get_option key) = connection_get_option drv key
  use_connection (ConnectionUse.get_option_bytes key) = connection_get_option_bytes drv key
  use_connection (ConnectionUse.get_option_double key) = connection_get_option_double drv key
  use_connection (ConnectionUse.get_option_int key) = connection_get_option_int drv key
  use_connection (ConnectionUse.set_option_bytes key value len) =
      connection_set_option_bytes drv key value len
  use_connection (ConnectionUse.set_option_double key value) =
      connection_set_option_double drv key value
  use_connection (ConnectionUse.set_option_int key value) = connection_set_option_int drv key value
  use_connection ConnectionUse.cancel = connection_cancel drv
  use_connection ConnectionUse.get_statistic_names = connection_get_statistic_names drv
  use_connection ConnectionUse.get_table_types = connection_get_table_types drv
  use_connection ConnectionUse.commit = connection_commit drv
  use_connection ConnectionUse.rollback = connection_rollback drv
  use_connection (get_info info_codes len) = connection_get_info drv info_codes len
  use_connection (get_objects depth catalog db_schema table_name table_type column_name) =
      connection_get_objects drv depth catalog db_schema table_name table_type column_name
  use_connection (get_statistics catalog db_schema table_name approximate) =
      connection_get_statistics drv catalog db_schema table_name approximate
  use_connection (get_table_schema catalog db_schema table_name) =
      connection_get_table_schema drv catalog db_schema table_name
  use_connection (read_partition serialized len) = connection_read_partition drv serialized len

  abbrev pub use_statement : StatementUse drv → Op drv
  use_statement (StatementUse.get_option key) = statement_get_option drv key
  use_statement (StatementUse.get_option_bytes key) = statement_get_option_bytes drv key
  use_statement (StatementUse.get_option_double key) = statement_get_option_double drv key
  use_statement (StatementUse.get_option_int key) = statement_get_option_int drv key
  use_statement (StatementUse.set_option key value) = statement_set_option drv key value
  use_statement (StatementUse.set_option_bytes key value len) =
      statement_set_option_bytes drv key value len
  use_statement (StatementUse.set_option_double key value) =
      statement_set_option_double drv key value
  use_statement (StatementUse.set_option_int key value) = statement_set_option_int drv key value
  use_statement StatementUse.prepare = statement_prepare drv
  use_statement StatementUse.cancel = statement_cancel drv
  use_statement StatementUse.get_parameter_schema = statement_get_parameter_schema drv
  use_statement StatementUse.execute_schema = statement_execute_schema drv
  use_statement (set_sql_query query) = statement_set_sql_query drv query
  use_statement (set_substrait_plan plan len) = statement_set_substrait_plan drv plan len
  use_statement (bind values schema) = statement_bind drv values schema
  use_statement (bind_stream stream) = statement_bind_stream drv stream
  use_statement (execute_query out_given) = statement_execute_query drv out_given
  use_statement (execute_partitions schema_given partitions_given) =
      statement_execute_partitions drv schema_given partitions_given
