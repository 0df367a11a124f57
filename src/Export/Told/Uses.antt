-- ===== src/Export/Told/Uses.antt =====
-- That the calls which need a handle after its `Init` leave the handles alone and say what went wrong.
use adbc_driver_mariadb.Base.{String, Bool, true, false, ◌&&◌, refl}
use adbc_driver_mariadb.ErrorInspector.{Status}
use adbc_driver_mariadb.Export.Driver.{Outcome, returned, fails, panics, of_execution, Driver}
use adbc_driver_mariadb.Export.World.{just_done}
use adbc_driver_mariadb.Export.Database.Uses.{
  database_get_option, database_get_option_bytes, database_get_option_double,
  database_get_option_int,
}
use adbc_driver_mariadb.Export.Connection.Uses.{
  connection_get_option, connection_get_option_bytes, connection_get_option_double,
  connection_get_option_int, connection_set_option_bytes, connection_set_option_double,
  connection_set_option_int, connection_cancel, cancel_connection, connection_get_info,
  connection_get_objects, connection_get_statistics, connection_get_statistic_names,
  connection_get_table_schema, connection_get_table_types, connection_read_partition,
  connection_commit, connection_rollback,
}
use adbc_driver_mariadb.Export.Statement.{
  statement_cancel, cancel_statement, cancel_active, cancel_replied, not_cancelled,
  is_invalid_state,
}
use adbc_driver_mariadb.Export.Statement.Uses.{
  statement_get_option, statement_get_option_bytes, statement_get_option_double,
  statement_get_option_int, statement_prepare, statement_set_sql_query,
  statement_set_substrait_plan, statement_bind, bind_imported, imported, statement_bind_stream,
  statement_get_parameter_schema, statement_set_option, statement_set_option_bytes,
  statement_set_option_double, statement_set_option_int,
}
use adbc_driver_mariadb.Export.Statement.Execute.{
  statement_execute_query, statement_execute_schema, statement_execute_partitions,
}
use adbc_driver_mariadb.Export.Uses.{
  DatabaseUse, ConnectionUse, StatementUse, get_info, get_objects, get_statistics, get_table_schema,
  read_partition, set_sql_query, set_substrait_plan, bind, bind_stream, execute_query,
  execute_partitions, use_database, use_connection, use_statement,
}
use adbc_driver_mariadb.Export.Told.{
  IsUse, done-IsUse, just_done-IsUse, refuse-IsUse, fail-IsUse, poison-IsUse, call-IsUse,
  check_db_init-IsUse, check_conn_init-IsUse, check_stmt_init-IsUse, if_keeps, if-Tells, ok-Tells,
}
use adbc_driver_mariadb.Export.Told.Parts.{
  if_supported-IsUse, write_string-IsUse, write_bytes-IsUse, export_record_reader-IsUse,
  export_schema-IsUse, write_int-IsUse, write_double-IsUse, check_length_to_int-IsUse,
  with_bytes_in-IsUse, executing-IsUse, updated-IsUse, queried-IsUse, partitioned-IsUse,
}

ruleset parts = (
  done-IsUse, just_done-IsUse, refuse-IsUse, fail-IsUse, call-IsUse, check_db_init-IsUse,
  check_conn_init-IsUse, check_stmt_init-IsUse, if_supported-IsUse, write_string-IsUse,
  write_bytes-IsUse, export_record_reader-IsUse, export_schema-IsUse, write_int-IsUse,
  write_double-IsUse, check_length_to_int-IsUse, with_bytes_in-IsUse, executing-IsUse,
  updated-IsUse, queried-IsUse, partitioned-IsUse,
)

module _ (drv : Driver) where
  cancel_connection-IsUse : (c : drv.Connection) → IsUse drv (cancel_connection drv c)
  unfolding cancel_connection
  cancel_connection-IsUse c = record { keeps = λ w. refl; tells = λ w. ok-Tells drv w.error _ refl }

  cancel_replied-IsUse :
      (active : Bool) (answer : Outcome (Unit {0}) × drv.State)
      → IsUse drv (cancel_replied drv active answer)
  cancel_replied-IsUse active (returned u, s) = record {
    keeps = λ w. refl;
    tells = λ w. ok-Tells drv w.error _ refl;
  }
  cancel_replied-IsUse active (fails e, s) =
      let h = fail-IsUse drv e in
      record {
        keeps = λ w. if_keeps drv (active && is_invalid_state drv e) _ _ _ refl (h.keeps _);
        tells = λ w.
            if-Tells drv (active && is_invalid_state drv e) _ _ _ (ok-Tells drv _ _ refl)
              (h.tells _);
      }
  cancel_replied-IsUse active (panics v, s) =
      let h = poison-IsUse drv "AdbcStatementCancel" v in
      record { keeps = λ w. h.keeps _; tells = λ w. h.tells _ }

  not_cancelled-IsUse : (active : Bool) (s : drv.State) → IsUse drv (not_cancelled drv active s)
  not_cancelled-IsUse true s = record {
    keeps = λ w. refl;
    tells = λ w. ok-Tells drv w.error _ refl;
  }
  not_cancelled-IsUse false s =
      let h =
        refuse-IsUse drv Status.invalid_state "AdbcStatementCancel" "no active query to cancel" in
      record { keeps = λ w. h.keeps _; tells = λ w. h.tells _ }

  cancel_active-IsUse :
      (st : drv.Statement) (answer : Bool × drv.State) → IsUse drv (cancel_active drv st answer)
  cancel_active-IsUse st (active, s) =
      let h = cancel_replied-IsUse active (drv.cancel st s) in
      let k = not_cancelled-IsUse active s in
      record {
        keeps = λ w. if_keeps drv (drv.has_cancel st) _ _ _ (h.keeps _) (k.keeps _);
        tells = λ w. if-Tells drv (drv.has_cancel st) _ _ _ (h.tells _) (k.tells _);
      }

  cancel_statement-IsUse : (st : drv.Statement) → IsUse drv (cancel_statement drv st)
  unfolding cancel_statement
  cancel_statement-IsUse st = record {
    keeps = λ w. (cancel_active-IsUse st (drv.cancel_context of_execution w.state)).keeps w;
    tells = λ w. (cancel_active-IsUse st (drv.cancel_context of_execution w.state)).tells w;
  }

  imported-IsUse :
      (name : String) (st : drv.Statement) (values : drv.CArray)
      (answer : Outcome drv.Batch × drv.State)
      → IsUse drv (imported drv name st values answer)
  imported-IsUse name st values (returned rec, s) =
      let h = call-IsUse drv name (just_done drv) (just_done-IsUse drv) _ in
      record { keeps = λ w. h.keeps _; tells = λ w. h.tells _ }
  imported-IsUse name st values (fails e, s) =
      let h = fail-IsUse drv e in record { keeps = λ w. h.keeps _; tells = λ w. h.tells _ }
  imported-IsUse name st values (panics v, s) =
      let h = poison-IsUse drv name v in record { keeps = λ w. h.keeps _; tells = λ w. h.tells _ }

  bind_imported-IsUse :
      (name : String) (values : drv.CArray) (schema : drv.CSchema) (st : drv.Statement)
      → IsUse drv (bind_imported drv name values schema st)
  unfolding bind_imported
  bind_imported-IsUse name values schema st = record {
    keeps = λ w. (imported-IsUse name st values (drv.import_batch values schema w.state)).keeps w;
    tells = λ w. (imported-IsUse name st values (drv.import_batch values schema w.state)).tells w;
  }

  pub use_database-IsUse : (u : DatabaseUse) → IsUse drv (use_database drv u)
  unfolding database_get_option database_get_option_bytes database_get_option_double
      database_get_option_int
  use_database-IsUse (DatabaseUse.get_option key) = search (parts)
  use_database-IsUse (DatabaseUse.get_option_bytes key) = search (parts)
  use_database-IsUse (DatabaseUse.get_option_double key) = search (parts)
  use_database-IsUse (DatabaseUse.get_option_int key) = search (parts)

  pub use_connection-IsUse : (u : ConnectionUse) → IsUse drv (use_connection drv u)
  unfolding connection_get_option connection_get_option_bytes connection_get_option_double
      connection_get_option_int connection_set_option_bytes connection_set_option_double
      connection_set_option_int connection_cancel connection_get_statistic_names
      connection_get_table_types connection_commit connection_rollback connection_get_info
      connection_get_objects connection_get_statistics connection_get_table_schema
      connection_read_partition
  use_connection-IsUse (ConnectionUse.get_option key) = search (parts)
  use_connection-IsUse (ConnectionUse.get_option_bytes key) = search (parts)
  use_connection-IsUse (ConnectionUse.get_option_double key) = search (parts)
  use_connection-IsUse (ConnectionUse.get_option_int key) = search (parts)
  use_connection-IsUse (ConnectionUse.set_option_bytes key value len) = search (parts)
  use_connection-IsUse (ConnectionUse.set_option_double key value) = search (parts)
  use_connection-IsUse (ConnectionUse.set_option_int key value) = search (parts)
  use_connection-IsUse ConnectionUse.cancel = search (parts, cancel_connection-IsUse)
  use_connection-IsUse ConnectionUse.get_statistic_names = search (parts)
  use_connection-IsUse ConnectionUse.get_table_types = search (parts)
  use_connection-IsUse ConnectionUse.commit = search (parts)
  use_connection-IsUse ConnectionUse.rollback = search (parts)
  use_connection-IsUse (get_info info_codes len) = search (parts)
  use_connection-IsUse (get_objects depth catalog db_schema table_name table_type column_name) =
      search (parts)
  use_connection-IsUse (get_statistics catalog db_schema table_name approximate) = search (parts)
  use_connection-IsUse (get_table_schema catalog db_schema table_name) = search (parts)
  use_connection-IsUse (read_partition serialized len) = search (parts)

  pub use_statement-IsUse : (u : StatementUse drv) → IsUse drv (use_statement drv u)
  unfolding statement_get_option statement_get_option_bytes statement_get_option_double
      statement_get_option_int statement_set_option statement_set_option_bytes
      statement_set_option_double statement_set_option_int statement_prepare statement_cancel
      statement_get_parameter_schema statement_execute_schema statement_set_sql_query
      statement_set_substrait_plan statement_bind statement_bind_stream statement_execute_query
      statement_execute_partitions
  use_statement-IsUse (StatementUse.get_option key) = search (parts)
  use_statement-IsUse (StatementUse.get_option_bytes key) = search (parts)
  use_statement-IsUse (StatementUse.get_option_double key) = search (parts)
  use_statement-IsUse (StatementUse.get_option_int key) = search (parts)
  use_statement-IsUse (StatementUse.set_option key value) = search (parts)
  use_statement-IsUse (StatementUse.set_option_bytes key value len) = search (parts)
  use_statement-IsUse (StatementUse.set_option_double key value) = search (parts)
  use_statement-IsUse (StatementUse.set_option_int key value) = search (parts)
  use_statement-IsUse StatementUse.prepare = search (parts)
  use_statement-IsUse StatementUse.cancel = search (parts, cancel_statement-IsUse)
  use_statement-IsUse StatementUse.get_parameter_schema = search (parts)
  use_statement-IsUse StatementUse.execute_schema = search (parts)
  use_statement-IsUse (set_sql_query query) = search (parts)
  use_statement-IsUse (set_substrait_plan plan len) = search (parts)
  use_statement-IsUse (bind values schema) = search (parts, bind_imported-IsUse)
  use_statement-IsUse (bind_stream stream) = search (parts)
  use_statement-IsUse (execute_query true) = search (parts)
  use_statement-IsUse (execute_query false) = search (parts)
  use_statement-IsUse (execute_partitions schema_given partitions_given) = search (parts)
