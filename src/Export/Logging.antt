-- ===== src/Export/Logging.antt =====
-- initLoggingFromEnv of go/pkg/driver.go. What it prints to stderr itself is left out.
use adbc_driver_mariadb.Base.{Bool, true, false, ◌||◌, Option, none, some, if◌then◌else◌}
use adbc_driver_mariadb.Base.Text.{Bytes, codes, equal, to_lower}
use adbc_driver_mariadb.Export.Driver.{
  LogLevel, level_debug, level_info, level_warn, level_error, LogSink, to_stderr, to_tempfile,
  Driver,
}
use adbc_driver_mariadb.Export.World.{Op, done, call, just_done}

-- The switch on the level; without one there is no logger.
unfoldable pub log_level : Bytes → Option LogLevel
unfolding to_lower equal
log_level value =
    let v = to_lower value in
    if equal v (codes "debug")
    then some level_debug
    else if equal v (codes "info")
    then some level_info
    else if equal v (codes "warn") || equal v (codes "warning")
    then some level_warn
    else if equal v (codes "error")
    then some level_error
    else none

module _ (drv : Driver) where
  abbrev pub log_to : drv.Database → LogLevel → LogSink → Op drv
  log_to db level sink = call drv "AdbcDatabaseInit" (drv.set_logger db level sink) (just_done drv)

  -- A temporary file that cannot be opened leaves the log at stderr.
  abbrev pub with_temp : drv.Database → LogLevel → Bool × drv.State → Op drv
  with_temp db level (true, st) w = log_to db level to_tempfile (record w { state = st })
  with_temp db level (false, st) w = log_to db level to_stderr (record w { state = st })

  abbrev pub with_level : drv.Database → Option LogLevel → Op drv
  with_level db none w = done drv w
  with_level db (some level) w =
      if equal (to_lower drv.log_sink_env) (codes "tempfile")
      then with_temp db level (drv.create_temp w.state) w
      else log_to db level to_stderr w

  unfoldable pub init_logging_from_env : drv.Database → Op drv
  init_logging_from_env db = with_level db (log_level drv.log_level_env)
