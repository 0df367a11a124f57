-- ===== src/Export/Refused/Uses.antt =====
-- The calls of go/pkg/driver.go that need a handle after its `Init`, and find none.
use adbc_driver_mariadb.Base.{◌≡◌, ◌⊎◌, true}
use adbc_driver_mariadb.Export.Driver.{Driver}
use adbc_driver_mariadb.Export.World.{World}
use adbc_driver_mariadb.Export.Calls.{held_database, held_connection, held_statement}
use adbc_driver_mariadb.Export.Uses.{
  DatabaseUse, ConnectionUse, StatementUse, get_info, get_objects, get_statistics, get_table_schema,
  read_partition, set_sql_query, set_substrait_plan, bind, bind_stream, execute_query,
  execute_partitions, use_database, use_connection, use_statement,
}
use adbc_driver_mariadb.Export.Database.Uses.{
  database_get_option, database_get_option_bytes, database_get_option_double,
  database_get_option_int,
}
use adbc_driver_mariadb.Export.Connection.Uses.{
  connection_get_option, connection_get_option_bytes, connection_get_option_double,
  connection_get_option_int, connection_set_option_bytes, connection_set_option_double,
  connection_set_option_int, connection_cancel, connection_get_info, connection_get_objects,
  connection_get_statistics, connection_get_statistic_names, connection_get_table_schema,
  connection_get_table_types, connection_read_partition, connection_commit, connection_rollback,
}
use adbc_driver_mariadb.Export.Statement.{statement_cancel}
use adbc_driver_mariadb.Export.Statement.Uses.{
  statement_get_option, statement_get_option_bytes, statement_get_option_double,
  statement_get_option_int, statement_prepare, statement_set_sql_query,
  statement_set_substrait_plan, statement_bind, statement_bind_stream,
  statement_get_parameter_schema, statement_set_option, statement_set_option_bytes,
  statement_set_option_double, statement_set_option_int,
}
use adbc_driver_mariadb.Export.Statement.Execute.{
  statement_execute_query, statement_execute_schema, statement_execute_partitions,
}
use adbc_driver_mariadb.Export.Refused.{
  IsInvalidState, check_db_init-IsInvalidState, check_conn_init-IsInvalidState,
  check_stmt_init-IsInvalidState,
}

module _ (drv : Driver) where
  -- A call that needs a database after its making, in a poisoned driver or without one.
  pub use_database-IsInvalidState :
      (u : DatabaseUse) (w : World drv)
      → (w.poisoned ≡ true) ⊎ (held_database drv w.database ≡ 0)
      → IsInvalidState drv w (use_database drv u w)
  unfolding database_get_option database_get_option_bytes database_get_option_double
      database_get_option_int
  use_database-IsInvalidState (DatabaseUse.get_option key) w h =
      check_db_init-IsInvalidState drv w h _ _
  use_database-IsInvalidState (DatabaseUse.get_option_bytes key) w h =
      check_db_init-IsInvalidState drv w h _ _
  use_database-IsInvalidState (DatabaseUse.get_option_double key) w h =
      check_db_init-IsInvalidState drv w h _ _
  use_database-IsInvalidState (DatabaseUse.get_option_int key) w h =
      check_db_init-IsInvalidState drv w h _ _

  -- A call that needs a connection after its making, in a poisoned driver or without one.
  pub use_connection-IsInvalidState :
      (u : ConnectionUse) (w : World drv)
      → (w.poisoned ≡ true) ⊎ (held_connection drv w.connection ≡ 0)
      → IsInvalidState drv w (use_connection drv u w)
  unfolding connection_get_option connection_get_option_bytes connection_get_option_double
      connection_get_option_int connection_set_option_bytes connection_set_option_double
      connection_set_option_int connection_cancel connection_get_statistic_names
      connection_get_table_types connection_commit connection_rollback connection_get_info
      connection_get_objects connection_get_statistics connection_get_table_schema
      connection_read_partition
  use_connection-IsInvalidState (ConnectionUse.get_option key) w h =
      check_conn_init-IsInvalidState drv w h _ _
  use_connection-IsInvalidState (ConnectionUse.get_option_bytes key) w h =
      check_conn_init-IsInvalidState drv w h _ _
  use_connection-IsInvalidState (ConnectionUse.get_option_double key) w h =
      check_conn_init-IsInvalidState drv w h _ _
  use_connection-IsInvalidState (ConnectionUse.get_option_int key) w h =
      check_conn_init-IsInvalidState drv w h _ _
  use_connection-IsInvalidState (ConnectionUse.set_option_bytes key value len) w h =
      check_conn_init-IsInvalidState drv w h _ _
  use_connection-IsInvalidState (ConnectionUse.set_option_double key value) w h =
      check_conn_init-IsInvalidState drv w h _ _
  use_connection-IsInvalidState (ConnectionUse.set_option_int key value) w h =
      check_conn_init-IsInvalidState drv w h _ _
  use_connection-IsInvalidState ConnectionUse.cancel w h =
      check_conn_init-IsInvalidState drv w h _ _
  use_connection-IsInvalidState ConnectionUse.get_statistic_names w h =
      check_conn_init-IsInvalidState drv w h _ _
  use_connection-IsInvalidState ConnectionUse.get_table_types w h =
      check_conn_init-IsInvalidState drv w h _ _
  use_connection-IsInvalidState ConnectionUse.commit w h =
      check_conn_init-IsInvalidState drv w h _ _
  use_connection-IsInvalidState ConnectionUse.rollback w h =
      check_conn_init-IsInvalidState drv w h _ _
  use_connection-IsInvalidState (get_info info_codes len) w h =
      check_conn_init-IsInvalidState drv w h _ _
  use_connection-IsInvalidState
        (get_objects depth catalog db_schema table_name table_type column_name) w h =
      check_conn_init-IsInvalidState drv w h _ _
  use_connection-IsInvalidState (get_statistics catalog db_schema table_name approximate) w h =
      check_conn_init-IsInvalidState drv w h _ _
  use_connection-IsInvalidState (get_table_schema catalog db_schema table_name) w h =
      check_conn_init-IsInvalidState drv w h _ _
  use_connection-IsInvalidState (read_partition serialized len) w h =
      check_conn_init-IsInvalidState drv w h _ _

  -- A call that needs a statement after its making, in a poisoned driver or without one.
  pub use_statement-IsInvalidState :
      (u : StatementUse drv) (w : World drv)
      → (w.poisoned ≡ true) ⊎ (held_statement drv w.statement ≡ 0)
      → IsInvalidState drv w (use_statement drv u w)
  unfolding statement_get_option statement_get_option_bytes statement_get_option_double
      statement_get_option_int statement_set_option statement_set_option_bytes
      statement_set_option_double statement_set_option_int statement_prepare statement_cancel
      statement_get_parameter_schema statement_execute_schema statement_set_sql_query
      statement_set_substrait_plan statement_bind statement_bind_stream statement_execute_query
      statement_execute_partitions
  use_statement-IsInvalidState (StatementUse.get_option key) w h =
      check_stmt_init-IsInvalidState drv w h _ _
  use_statement-IsInvalidState (StatementUse.get_option_bytes key) w h =
      check_stmt_init-IsInvalidState drv w h _ _
  use_statement-IsInvalidState (StatementUse.get_option_double key) w h =
      check_stmt_init-IsInvalidState drv w h _ _
  use_statement-IsInvalidState (StatementUse.get_option_int key) w h =
      check_stmt_init-IsInvalidState drv w h _ _
  use_statement-IsInvalidState (StatementUse.set_option key value) w h =
      check_stmt_init-IsInvalidState drv w h _ _
  use_statement-IsInvalidState (StatementUse.set_option_bytes key value len) w h =
      check_stmt_init-IsInvalidState drv w h _ _
  use_statement-IsInvalidState (StatementUse.set_option_double key value) w h =
      check_stmt_init-IsInvalidState drv w h _ _
  use_statement-IsInvalidState (StatementUse.set_option_int key value) w h =
      check_stmt_init-IsInvalidState drv w h _ _
  use_statement-IsInvalidState StatementUse.prepare w h = check_stmt_init-IsInvalidState drv w h _ _
  use_statement-IsInvalidState StatementUse.cancel w h = check_stmt_init-IsInvalidState drv w h _ _
  use_statement-IsInvalidState StatementUse.get_parameter_schema w h =
      check_stmt_init-IsInvalidState drv w h _ _
  use_statement-IsInvalidState StatementUse.execute_schema w h =
      check_stmt_init-IsInvalidState drv w h _ _
  use_statement-IsInvalidState (set_sql_query query) w h =
      check_stmt_init-IsInvalidState drv w h _ _
  use_statement-IsInvalidState (set_substrait_plan plan len) w h =
      check_stmt_init-IsInvalidState drv w h _ _
  use_statement-IsInvalidState (bind values schema) w h = check_stmt_init-IsInvalidState drv w h _ _
  use_statement-IsInvalidState (bind_stream stream) w h = check_stmt_init-IsInvalidState drv w h _ _
  use_statement-IsInvalidState (execute_query out_given) w h =
      check_stmt_init-IsInvalidState drv w h _ _
  use_statement-IsInvalidState (execute_partitions schema_given partitions_given) w h =
      check_stmt_init-IsInvalidState drv w h _ _
