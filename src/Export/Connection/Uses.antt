-- ===== src/Export/Connection/Uses.antt =====
-- The functions of go/pkg/driver.go that need a connection after `Init`.
use adbc_driver_mariadb.Base.{String, ℕ, not, List, Option, ◌==◌, take}
use adbc_driver_mariadb.Base.Text.{Bytes}
use adbc_driver_mariadb.Base.Int.{ℤ}
use adbc_driver_mariadb.ErrorInspector.{Status}
use adbc_driver_mariadb.Export.Driver.{
  bytes_value, int_value, double_value, of_connection, Reading, get_info, get_objects,
  get_statistics, get_statistic_names, get_table_types, read_partition, Options, Driver,
}
use adbc_driver_mariadb.Export.World.{
  Op, Method, call, in_context, just_done, check_length_to_int, with_bytes_in, check_conn_init,
}
use adbc_driver_mariadb.Export.Results.{
  go_string, to_str_slice, write_string, write_bytes, write_int, write_double, if_supported,
  export_record_reader, export_schema,
}

module _ (drv : Driver) where
  abbrev options : Options drv.State drv.Connection
  options = drv.connection_options

  -- A method of the connection with a new context, and the rest.
  abbrev on_connection : {A : Type 0} → String → Method drv A → (A → Op drv) → Op drv
  on_connection name m next = call drv name (in_context drv of_connection m) next

  unfoldable pub connection_get_option : Bytes → Op drv
  connection_get_option key =
      let name : String = "AdbcConnectionGetOption" in
      check_conn_init drv name λ c. on_connection name (options.get_option c key) (write_string drv)

  unfoldable pub connection_get_option_bytes : Bytes → Op drv
  connection_get_option_bytes key =
      let name : String = "AdbcConnectionGetOptionBytes" in
      check_conn_init drv name
        λ c. on_connection name (options.get_option_bytes c key) (write_bytes drv)

  unfoldable pub connection_get_option_double : Bytes → Op drv
  connection_get_option_double key =
      let name : String = "AdbcConnectionGetOptionDouble" in
      check_conn_init drv name
        λ c. on_connection name (options.get_option_double c key) (write_double drv)

  unfoldable pub connection_get_option_int : Bytes → Op drv
  connection_get_option_int key =
      let name : String = "AdbcConnectionGetOptionInt" in
      check_conn_init drv name
        λ c. on_connection name (options.get_option_int c key) (write_int drv)

  unfoldable pub connection_set_option_bytes : Bytes → Bytes → ℕ → Op drv
  connection_set_option_bytes key value len =
      let name : String = "AdbcConnectionSetOptionBytes" in
      check_conn_init drv name λ c.
        with_bytes_in drv of_connection name value len
          λ v. call drv name (options.set_option c key (bytes_value v)) (just_done drv)

  unfoldable pub connection_set_option_double : Bytes → ℕ → Op drv
  connection_set_option_double key value =
      let name : String = "AdbcConnectionSetOptionDouble" in
      check_conn_init drv name
        λ c. on_connection name (options.set_option c key (double_value value)) (just_done drv)

  unfoldable pub connection_set_option_int : Bytes → ℤ → Op drv
  connection_set_option_int key value =
      let name : String = "AdbcConnectionSetOptionInt" in
      check_conn_init drv name
        λ c. on_connection name (options.set_option c key (int_value value)) (just_done drv)

  unfoldable pub cancel_connection : drv.Connection → Op drv
  cancel_connection c w =
      (Status.ok, record w { state = (drv.cancel_context of_connection w.state).1 })

  unfoldable pub connection_cancel : Op drv
  connection_cancel = check_conn_init drv "AdbcConnectionCancel" cancel_connection

  abbrev exported : String → drv.Connection → Reading → Op drv
  exported name c reading = on_connection name (drv.read c reading) (export_record_reader drv)

  -- `codes` with their number; they are copied as they are.
  unfoldable pub connection_get_info : List ℕ → ℕ → Op drv
  connection_get_info info_codes len =
      let name : String = "AdbcConnectionGetInfo" in
      check_conn_init drv name
        λ c. check_length_to_int drv len (exported name c (get_info (take len info_codes)))

  unfoldable pub connection_get_objects :
      (depth : ℤ) (catalog db_schema table_name : Option Bytes)
      (table_type : Option (List (Option Bytes))) (column_name : Option Bytes)
      → Op drv
  connection_get_objects depth catalog db_schema table_name table_type column_name =
      let name : String = "AdbcConnectionGetObjects" in
      check_conn_init drv name λ c.
        exported name c
          (get_objects depth catalog db_schema table_name column_name (to_str_slice table_type))

  -- `approximate` is a char.
  unfoldable pub connection_get_statistics :
      (catalog db_schema table_name : Option Bytes) (approximate : ℕ) → Op drv
  connection_get_statistics catalog db_schema table_name approximate =
      let name : String = "AdbcConnectionGetStatistics" in
      check_conn_init drv name λ c.
        if_supported drv (drv.has_statistics c) name "not supported"
          (exported name c (get_statistics catalog db_schema table_name (not (approximate == 0))))

  -- Under the name of `GetStatistics`, as in the source.
  unfoldable pub connection_get_statistic_names : Op drv
  connection_get_statistic_names =
      let name : String = "AdbcConnectionGetStatistics" in
      check_conn_init drv name λ c.
        if_supported drv (drv.has_statistics c) name "not supported"
          (exported name c get_statistic_names)

  unfoldable pub connection_get_table_schema :
      (catalog db_schema table_name : Option Bytes) → Op drv
  connection_get_table_schema catalog db_schema table_name =
      let name : String = "AdbcConnectionGetTableSchema" in
      check_conn_init drv name λ c.
        on_connection name (drv.get_table_schema c catalog db_schema (go_string table_name))
          (export_schema drv)

  unfoldable pub connection_get_table_types : Op drv
  connection_get_table_types =
      let name : String = "AdbcConnectionGetTableTypes" in
      check_conn_init drv name λ c. exported name c get_table_types

  unfoldable pub connection_read_partition : Bytes → ℕ → Op drv
  connection_read_partition serialized len =
      let name : String = "AdbcConnectionReadPartition" in
      check_conn_init drv name λ c.
        with_bytes_in drv of_connection name serialized len
          λ v. call drv name (drv.read c (read_partition v)) (export_record_reader drv)

  unfoldable pub connection_commit : Op drv
  connection_commit =
      let name : String = "AdbcConnectionCommit" in
      check_conn_init drv name λ c. on_connection name (drv.commit c) (just_done drv)

  unfoldable pub connection_rollback : Op drv
  connection_rollback =
      let name : String = "AdbcConnectionRollback" in
      check_conn_init drv name λ c. on_connection name (drv.rollback c) (just_done drv)
