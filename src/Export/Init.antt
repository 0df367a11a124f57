-- ===== src/Export/Init.antt =====
-- AdbcDriverMariadbInit of go/pkg/driver.go: the table of functions that a driver manager gets.
use adbc_driver_mariadb.Base.{ℕ, Bool, true, false, ◌++◌, Option, none, some, ◌==◌, if◌then◌else◌}
use adbc_driver_mariadb.Base.Text.{codes}
use adbc_driver_mariadb.Base.Decimal.{decimal}
use adbc_driver_mariadb.ErrorInspector.{Status}
use adbc_driver_mariadb.Export.Error.{CError, fmt_err}

-- The functions of version 1.0.0, by the names of their slots in `struct AdbcDriver`.
pub data OldSlot : Type 0 where
  database_init database_new database_release database_set_option connection_new : OldSlot
  connection_init connection_release connection_set_option connection_get_info : OldSlot
  connection_get_objects connection_get_table_schema connection_get_table_types : OldSlot
  connection_read_partition connection_commit connection_rollback statement_new : OldSlot
  statement_release statement_set_option statement_set_sql_query : OldSlot
  statement_set_substrait_plan statement_bind statement_bind_stream : OldSlot
  statement_execute_query statement_execute_partitions statement_get_parameter_schema : OldSlot
  statement_prepare : OldSlot

-- Those that version 1.1.0 adds.
pub data NewSlot : Type 0 where
  error_get_detail_count error_get_detail error_from_array_stream database_get_option : NewSlot
  database_get_option_bytes database_get_option_double database_get_option_int : NewSlot
  database_set_option_bytes database_set_option_double database_set_option_int : NewSlot
  connection_cancel connection_get_option connection_get_option_bytes : NewSlot
  connection_get_option_double connection_get_option_int connection_get_statistics : NewSlot
  connection_get_statistic_names connection_set_option_bytes connection_set_option_double : NewSlot
  connection_set_option_int statement_cancel statement_execute_schema : NewSlot
  statement_get_option statement_get_option_bytes statement_get_option_double : NewSlot
  statement_get_option_int statement_set_option_bytes statement_set_option_double : NewSlot
  statement_set_option_int : NewSlot

-- `struct AdbcDriver`. A slot is NULL or points to the function whose name is `MariaDB` and that of a
-- slot; the first part is `ADBC_DRIVER_1_0_0_SIZE` bytes.
pub record AdbcDriver : Type 0 where
  pub old : OldSlot → Option OldSlot
  pub new : NewSlot → Option NewSlot

-- The versions `ADBC_VERSION_1_0_0` and `ADBC_VERSION_1_1_0`.
abbrev pub version_1_0_0 : ℕ
version_1_0_0 = 1_000_000

abbrev pub version_1_1_0 : ℕ
version_1_1_0 = 1_001_000

-- The zeroing of as much of the struct as the version has.
unfoldable pub zeroed : Bool → AdbcDriver → AdbcDriver
zeroed true driver = record { old = λ slot. none; new = λ slot. none }
zeroed false driver = record driver { old = λ slot. none }

-- The assignments; each slot gets the function of its own name.
unfoldable pub assigned : Bool → AdbcDriver → AdbcDriver
assigned true driver = record { old = λ slot. some slot; new = λ slot. some slot }
assigned false driver = record driver { old = λ slot. some slot }

abbrev filled : Bool → AdbcDriver → Option CError → Status × AdbcDriver × Option CError
filled full driver error = (Status.ok, assigned full (zeroed full driver), error)

-- A C caller hands over a version that is not negative.
unfoldable pub adbc_driver_mariadb_init :
    ℕ → AdbcDriver → Option CError → Status × AdbcDriver × Option CError
unfolding zeroed assigned
adbc_driver_mariadb_init version driver error =
    let unsupported : Status × AdbcDriver × Option CError = (
      Status.not_implemented,
      driver,
      fmt_err error (codes "Only version 1.0.0/1.1.0 supported, got %d")
          (codes "Only version 1.0.0/1.1.0 supported, got " ++ decimal version),
    ) in
    if version == version_1_0_0
    then filled false driver error
    else if version == version_1_1_0
    then filled true driver error
    else unsupported
