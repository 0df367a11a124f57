-- ===== src/Export/Told/Makes.antt =====
-- That the loops which the functions of `Init` run, in go/pkg/driver.go, say what went wrong; the one of
-- the database leaves the handles alone.
use adbc_driver_mariadb.Base.{Bool, true, false, ◌==◌, [], ◌∷◌, Option, none, some, refl, ◌∙◌, ◌≡◌}
use adbc_driver_mariadb.Base.Text.{Bytes, codes, equal, to_lower}
use adbc_driver_mariadb.Base.Dict.{Dict}
use adbc_driver_mariadb.ErrorInspector.{Status, status_code}
use adbc_driver_mariadb.Export.Error.{CError, err_to_adbc_err}
use adbc_driver_mariadb.Export.Driver.{
  Outcome, returned, fails, panics, Unapplied, string_value, bytes_value, int_value, double_value,
  LogLevel, LogSink, Driver,
}
use adbc_driver_mariadb.Export.World.{World, Op, just_done}
use adbc_driver_mariadb.Export.Logging.{
  init_logging_from_env, with_level, with_temp, log_to, log_level,
}
use adbc_driver_mariadb.Export.Database.{apply_options}
use adbc_driver_mariadb.Export.Connection.{apply_args, after_option, with_args}
use adbc_driver_mariadb.Export.Error.Filled.{given, err_to_adbc_err-IsFilled}
use adbc_driver_mariadb.Export.Told.{
  Tells, IsUse, call-IsUse, just_done-IsUse, done-IsUse, if_keeps, if-Tells, ok-Tells, filled-Tells,
  poison-IsUse,
}

module _ (drv : Driver) where
  log_to-IsUse :
      (db : drv.Database) (level : LogLevel) (sink : LogSink) → IsUse drv (log_to drv db level sink)
  log_to-IsUse db level sink =
      call-IsUse drv "AdbcDatabaseInit" (just_done drv) (just_done-IsUse drv) _

  with_temp-IsUse :
      (db : drv.Database) (level : LogLevel) (answer : Bool × drv.State)
      → IsUse drv (with_temp drv db level answer)
  with_temp-IsUse db level (true, st) =
      let h = log_to-IsUse db level LogSink.to_tempfile in
      record { keeps = λ w. h.keeps _; tells = λ w. h.tells _ }
  with_temp-IsUse db level (false, st) =
      let h = log_to-IsUse db level LogSink.to_stderr in
      record { keeps = λ w. h.keeps _; tells = λ w. h.tells _ }

  with_level-IsUse : (db : drv.Database) (o : Option LogLevel) → IsUse drv (with_level drv db o)
  with_level-IsUse db none = let h = done-IsUse drv in record { keeps = h.keeps; tells = h.tells }
  with_level-IsUse db (some level) =
      let temp = equal (to_lower drv.log_sink_env) (codes "tempfile") in
      let h = log_to-IsUse db level LogSink.to_stderr in
      record {
        keeps = λ w.
            if_keeps drv temp _ _ _ ((with_temp-IsUse db level (drv.create_temp w.state)).keeps w)
              (h.keeps w);
        tells = λ w.
            if-Tells drv temp _ _ _ ((with_temp-IsUse db level (drv.create_temp w.state)).tells w)
              (h.tells w);
      }

  pub init_logging-IsUse : (db : drv.Database) → IsUse drv (init_logging_from_env drv db)
  unfolding init_logging_from_env
  init_logging-IsUse db = with_level-IsUse db (log_level drv.log_level_env)

  pub apply_options-IsUse :
      (db : drv.Database) (opts : Dict Unapplied) → IsUse drv (apply_options drv db opts)
  unfolding apply_options
  apply_options-IsUse db [] = init_logging-IsUse db
  apply_options-IsUse db ((k, string_value v) ∷ opts) = apply_options-IsUse db opts
  apply_options-IsUse db ((k, bytes_value v) ∷ opts) =
      call-IsUse drv "AdbcDatabaseInit" _ (λ u. apply_options-IsUse db opts) _
  apply_options-IsUse db ((k, int_value v) ∷ opts) =
      call-IsUse drv "AdbcDatabaseInit" _ (λ u. apply_options-IsUse db opts) _
  apply_options-IsUse db ((k, double_value v) ∷ opts) =
      call-IsUse drv "AdbcDatabaseInit" _ (λ u. apply_options-IsUse db opts) _

  weakened :
      (e e' : Option CError) (r : Status × World drv)
      → given e' ≡ given e
      → Tells drv e' r
      → Tells drv e r
  weakened e e' r h t = record { kept = t.kept ∙ h; told = t.told }

  after_option-Tells :
      (rest : Op drv)
      → ((w : World drv) → Tells drv w.error (rest w))
      → (answer : Outcome (Unit {0}) × drv.State) (w : World drv)
      → Tells drv w.error (after_option drv rest answer w)
  after_option-Tells rest h (returned u, st) w = h (record w { state = st })
  after_option-Tells rest h (fails e, st) w =
      let answer = err_to_adbc_err w.error e in
      let filled = err_to_adbc_err-IsFilled w.error e in
      if-Tells drv (status_code answer.0 == 0) w.error _ _
        (weakened w.error answer.1 _ filled.kept (h _)) (filled-Tells drv w.error answer.0 _ filled)
  after_option-Tells rest h (panics v, st) w = (poison-IsUse drv "AdbcConnectionInit" v).tells _

  pub apply_args-Tells :
      (c : drv.Connection) (args : Dict Bytes) (w : World drv)
      → Tells drv w.error (apply_args drv c args w)
  unfolding apply_args
  apply_args-Tells c [] w = ok-Tells drv w.error _ refl
  apply_args-Tells c ((k, v) ∷ args) w =
      after_option-Tells (apply_args drv c args) (apply_args-Tells c args) _ w

  pub with_args-Tells :
      (c : drv.Connection) (args : Dict Bytes) (w : World drv)
      → Tells drv w.error (with_args drv c args w)
  with_args-Tells c [] w = (done-IsUse drv).tells w
  with_args-Tells c (arg ∷ args) w = apply_args-Tells c (arg ∷ args) _
