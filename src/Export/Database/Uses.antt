-- ===== src/Export/Database/Uses.antt =====
-- The functions of go/pkg/driver.go that need a database after `Init`.
use adbc_driver_mariadb.Base.{String}
use adbc_driver_mariadb.Base.Text.{Bytes}
use adbc_driver_mariadb.Export.Driver.{of_database, Options, Driver}
use adbc_driver_mariadb.Export.World.{Op, Method, call, in_context, check_db_init}
use adbc_driver_mariadb.Export.Results.{
  write_string, write_bytes, write_int, write_double, if_supported,
}

module _ (drv : Driver) where
  abbrev options : Options drv.State drv.Database
  options = drv.database_options

  abbrev on_database : {A : Type 0} → String → Method drv A → (A → Op drv) → Op drv
  on_database name m next = call drv name (in_context drv of_database m) next

  unfoldable pub database_get_option : Bytes → Op drv
  database_get_option key =
      let name : String = "AdbcDatabaseGetOption" in
      check_db_init drv name λ db.
        if_supported drv (options.supported db) name "options are not supported"
          (on_database name (options.get_option db key) (write_string drv))

  unfoldable pub database_get_option_bytes : Bytes → Op drv
  database_get_option_bytes key =
      let name : String = "AdbcDatabaseGetOptionBytes" in
      check_db_init drv name λ db.
        if_supported drv (options.supported db) name "options are not supported"
          (on_database name (options.get_option_bytes db key) (write_bytes drv))

  unfoldable pub database_get_option_double : Bytes → Op drv
  database_get_option_double key =
      let name : String = "AdbcDatabaseGetOptionDouble" in
      check_db_init drv name
        λ db. on_database name (options.get_option_double db key) (write_double drv)

  unfoldable pub database_get_option_int : Bytes → Op drv
  database_get_option_int key =
      let name : String = "AdbcDatabaseGetOptionInt" in
      check_db_init drv name λ db. on_database name (options.get_option_int db key) (write_int drv)
