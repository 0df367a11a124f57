-- ===== src/Export/Statement/Uses.antt =====
-- The functions of go/pkg/driver.go that need a statement and do not execute it.
use adbc_driver_mariadb.Base.{String, ℕ}
use adbc_driver_mariadb.Base.Text.{Bytes}
use adbc_driver_mariadb.Base.Int.{ℤ}
use adbc_driver_mariadb.Export.Driver.{
  Outcome, returned, fails, panics, Unapplied, string_value, bytes_value, int_value, double_value,
  of_statement, Command, prepare, set_sql_query, set_substrait_plan, bind, bind_stream, Options,
  Driver,
}
use adbc_driver_mariadb.Export.World.{
  Op, Method, call, fail, poison, in_context, just_done, with_bytes_in, check_stmt_init,
}
use adbc_driver_mariadb.Export.Results.{
  write_string, write_bytes, write_int, write_double, if_supported, export_schema,
}

module _ (drv : Driver) where
  abbrev options : Options drv.State drv.Statement
  options = drv.statement_options

  abbrev on_statement : {A : Type 0} → String → Method drv A → (A → Op drv) → Op drv
  on_statement name m next = call drv name (in_context drv of_statement m) next

  abbrev commanded : String → drv.Statement → Command drv.Batch drv.Reader → Op drv
  commanded name st c = on_statement name (drv.command st c) (just_done drv)

  abbrev option_given : String → drv.Statement → Bytes → Unapplied → Op drv
  option_given name st key value =
      on_statement name (options.set_option st key value) (just_done drv)

  -- The assertion to `GetSetOptionsWithContext`.
  abbrev with_options : String → drv.Statement → Op drv → Op drv
  with_options name st = if_supported drv (options.supported st) name "options are not supported"

  unfoldable pub statement_get_option : Bytes → Op drv
  statement_get_option key =
      let name : String = "AdbcStatementGetOption" in
      check_stmt_init drv name λ st.
        with_options name st (on_statement name (options.get_option st key) (write_string drv))

  unfoldable pub statement_get_option_bytes : Bytes → Op drv
  statement_get_option_bytes key =
      let name : String = "AdbcStatementGetOptionBytes" in
      check_stmt_init drv name λ st.
        with_options name st (on_statement name (options.get_option_bytes st key) (write_bytes drv))

  unfoldable pub statement_get_option_double : Bytes → Op drv
  statement_get_option_double key =
      let name : String = "AdbcStatementGetOptionDouble" in
      check_stmt_init drv name λ st.
        with_options name st
          (on_statement name (options.get_option_double st key) (write_double drv))

  unfoldable pub statement_get_option_int : Bytes → Op drv
  statement_get_option_int key =
      let name : String = "AdbcStatementGetOptionInt" in
      check_stmt_init drv name λ st.
        with_options name st (on_statement name (options.get_option_int st key) (write_int drv))

  unfoldable pub statement_prepare : Op drv
  statement_prepare =
      let name : String = "AdbcStatementPrepare" in
      check_stmt_init drv name λ st. commanded name st prepare

  unfoldable pub statement_set_sql_query : Bytes → Op drv
  statement_set_sql_query query =
      let name : String = "AdbcStatementSetSqlQuery" in
      check_stmt_init drv name λ st. commanded name st (set_sql_query query)

  unfoldable pub statement_set_substrait_plan : Bytes → ℕ → Op drv
  statement_set_substrait_plan plan len =
      let name : String = "AdbcStatementSetSubstraitPlan" in
      check_stmt_init drv name λ st.
        with_bytes_in drv of_statement name plan len
          λ v. call drv name (drv.command st (set_substrait_plan v)) (just_done drv)

  -- The deferred call: the batch is released however `Bind` ends.
  abbrev pub released : drv.Batch → Outcome (Unit {0}) × drv.State → Outcome (Unit {0}) × drv.State
  released rec (o, s) = (o, drv.release_batch rec s)

  -- An array whose import fails is released.
  abbrev pub imported : String → drv.Statement → drv.CArray → Outcome drv.Batch × drv.State → Op drv
  imported name st values (returned rec, s) w =
      call drv name
        (λ s'. released rec (in_context drv of_statement (drv.command st (bind rec)) s'))
        (just_done drv) (record w { state = s })
  imported name st values (fails e, s) w =
      fail drv e (record w { state = drv.release_array values s })
  imported name st values (panics v, s) w = poison drv name v (record w { state = s })

  unfoldable pub bind_imported : String → drv.CArray → drv.CSchema → drv.Statement → Op drv
  bind_imported name values schema st w =
      imported name st values (drv.import_batch values schema w.state) w

  unfoldable pub statement_bind : drv.CArray → drv.CSchema → Op drv
  statement_bind values schema =
      let name : String = "AdbcStatementBind" in
      check_stmt_init drv name (bind_imported name values schema)

  unfoldable pub statement_bind_stream : drv.CStream → Op drv
  statement_bind_stream stream =
      let name : String = "AdbcStatementBindStream" in
      check_stmt_init drv name
        λ st. call drv name (drv.import_reader stream) λ rdr. commanded name st (bind_stream rdr)

  unfoldable pub statement_get_parameter_schema : Op drv
  statement_get_parameter_schema =
      let name : String = "AdbcStatementGetParameterSchema" in
      check_stmt_init drv name λ st. on_statement name (drv.parameter_schema st) (export_schema drv)

  unfoldable pub statement_set_option : Bytes → Bytes → Op drv
  statement_set_option key value =
      let name : String = "AdbcStatementSetOption" in
      check_stmt_init drv name λ st. option_given name st key (string_value value)

  unfoldable pub statement_set_option_bytes : Bytes → Bytes → ℕ → Op drv
  statement_set_option_bytes key value len =
      let name : String = "AdbcStatementSetOptionBytes" in
      check_stmt_init drv name λ st. with_options name st (
        with_bytes_in drv of_statement name value len
          λ v. call drv name (options.set_option st key (bytes_value v)) (just_done drv))

  unfoldable pub statement_set_option_double : Bytes → ℕ → Op drv
  statement_set_option_double key value =
      let name : String = "AdbcStatementSetOptionDouble" in
      check_stmt_init drv name
        λ st. with_options name st (option_given name st key (double_value value))

  unfoldable pub statement_set_option_int : Bytes → ℤ → Op drv
  statement_set_option_int key value =
      let name : String = "AdbcStatementSetOptionInt" in
      check_stmt_init drv name
        λ st. with_options name st (option_given name st key (int_value value))
