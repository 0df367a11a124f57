-- ===== src/Export/Database.antt =====
-- The functions of go/pkg/driver.go at a `struct AdbcDatabase`.
pub mod Uses
use adbc_driver_mariadb.Base.{
  String, ℕ, Bool, true, false, [], ◌∷◌, Option, none, some, if◌then◌else◌,
}
use adbc_driver_mariadb.Base.Text.{Bytes}
use adbc_driver_mariadb.Base.Int.{ℤ}
use adbc_driver_mariadb.Base.Dict.{Dict, store}
use adbc_driver_mariadb.ErrorInspector.{Status}
use adbc_driver_mariadb.Export.Error.{GoFailure}
use adbc_driver_mariadb.Export.Option.{export_string_option, export_bytes_option}
use adbc_driver_mariadb.Export.Driver.{
  Outcome, returned, fails, panics, Unapplied, string_value, bytes_value, int_value, double_value,
  of_database, LogLevel, Options, Driver, one_made, one_closed,
}
use adbc_driver_mariadb.Export.Logging.{init_logging_from_env}
use adbc_driver_mariadb.Export.World.{
  CDatabase, World, Op, Method, done, refuse, poison, fail, call, in_context, just_done, with_bytes,
  check_db_alloc, check_db_init,
}

module _ (drv : Driver) where
  abbrev options : Options drv.State drv.Database
  options = drv.database_options

  abbrev pub alloc_new : Option (CDatabase drv) → Op drv
  alloc_new none w = (
    Status.ok,
    record w {
      database = some (record { opts = []; db = none });
      state = drv.zero_context of_database w.state;
    },
  )
  alloc_new (some cdb) w =
      refuse drv Status.invalid_state "AdbcDatabaseNew" "database already allocated" w

  unfoldable pub database_new : Op drv
  database_new w =
      if w.poisoned
      then refuse drv Status.internal "AdbcDatabaseNew" "Go panicked, driver is in unknown state" w
      else alloc_new w.database w

  abbrev pub option_set : String → Bytes → Unapplied → Option drv.Database → CDatabase drv → Op drv
  option_set name key value none cdb w =
      (Status.ok, record w { database = some (record cdb { opts = store key value cdb.opts }) })
  option_set name key value (some db) cdb w =
      call drv name (in_context drv of_database (options.set_option db key value)) (just_done drv) w

  abbrev pub set_database : String → Bytes → Unapplied → CDatabase drv → Op drv
  set_database name key value cdb = option_set name key value cdb.db cdb

  unfoldable pub database_set_option : Bytes → Bytes → Op drv
  database_set_option key value =
      let name : String = "AdbcDatabaseSetOption" in
      check_db_alloc drv name (set_database name key (string_value value))

  unfoldable pub database_set_option_bytes : Bytes → Bytes → ℕ → Op drv
  database_set_option_bytes key value len =
      let name : String = "AdbcDatabaseSetOptionBytes" in
      check_db_alloc drv name
        λ cdb. with_bytes drv name value len λ v. set_database name key (bytes_value v) cdb

  unfoldable pub database_set_option_double : Bytes → ℕ → Op drv
  database_set_option_double key value =
      let name : String = "AdbcDatabaseSetOptionDouble" in
      check_db_alloc drv name (set_database name key (double_value value))

  unfoldable pub database_set_option_int : Bytes → ℤ → Op drv
  database_set_option_int key value =
      let name : String = "AdbcDatabaseSetOptionInt" in
      check_db_alloc drv name (set_database name key (int_value value))

  -- The options that are texts, for `NewDatabaseWithContext`.
  unfoldable pub string_options : Dict Unapplied → Dict Bytes
  string_options [] = []
  string_options ((k, string_value v) ∷ opts) = (k, v) ∷ string_options opts
  string_options ((k, bytes_value v) ∷ opts) = string_options opts
  string_options ((k, int_value v) ∷ opts) = string_options opts
  string_options ((k, double_value v) ∷ opts) = string_options opts

  abbrev pub one_option : drv.Database → Bytes → Unapplied → Op drv → Op drv
  one_option db k v rest = call drv "AdbcDatabaseInit" (options.set_option db k v) λ u. rest

  -- The loop over the other options, in the order of a list, up to the first that does not return.
  unfoldable pub apply_options : drv.Database → Dict Unapplied → Op drv
  apply_options db [] = init_logging_from_env drv db
  apply_options db ((k, string_value v) ∷ opts) = apply_options db opts
  apply_options db ((k, bytes_value v) ∷ opts) =
      one_option db k (bytes_value v) (apply_options db opts)
  apply_options db ((k, int_value v) ∷ opts) = one_option db k (int_value v) (apply_options db opts)
  apply_options db ((k, double_value v) ∷ opts) =
      one_option db k (double_value v) (apply_options db opts)

  abbrev pub opened : CDatabase drv → drv.Database → Op drv
  opened cdb db w =
      apply_options db cdb.opts (record w {
        database = some (record cdb { db = some db });
        databases = one_made w.databases;
      })

  abbrev pub init_object : Option drv.Database → CDatabase drv → Op drv
  init_object (some db) cdb w =
      refuse drv Status.invalid_state "AdbcDatabaseInit" "database already initialized" w
  init_object none cdb w =
      call drv "AdbcDatabaseInit"
        (in_context drv of_database (drv.new_database (string_options cdb.opts))) (opened cdb) w

  unfoldable pub database_init : Op drv
  database_init = check_db_alloc drv "AdbcDatabaseInit" λ cdb. init_object cdb.db cdb

  -- The error of `Close` is dropped; a panic in it is reported under the name of `Init`.
  abbrev pub close_replied : Outcome (Unit {0}) × drv.State → Op drv
  close_replied (panics v, st) w = poison drv "AdbcDatabaseInit" v (record w { state = st })
  close_replied (returned u, st) w = (Status.ok, record w { state = st })
  close_replied (fails e, st) w = (Status.ok, record w { state = st })

  abbrev pub release_object : Option drv.Database → Op drv
  release_object none w = (Status.ok, record w { database = none })
  release_object (some db) w =
      close_replied (in_context drv of_database (drv.close_database db) w.state)
        (record w { database = none; databases = one_closed w.databases })

  -- `private_data` is cleared first.
  unfoldable pub database_release : Op drv
  database_release = check_db_alloc drv "AdbcDatabaseRelease" λ cdb. release_object cdb.db
