-- ===== src/Export/Connection.antt =====
-- The functions of go/pkg/driver.go at a `struct AdbcConnection` that make it and release it.
pub mod Uses
pub mod Init
use adbc_driver_mariadb.Base.{
  String, ℕ, Bool, true, false, List, [], ◌∷◌, Option, none, some, if◌then◌else◌, ◌==◌,
}
use adbc_driver_mariadb.Base.Text.{Bytes}
use adbc_driver_mariadb.Base.Int.{ℤ}
use adbc_driver_mariadb.Base.Dict.{Dict, store}
use adbc_driver_mariadb.ErrorInspector.{Status, status_code}
use adbc_driver_mariadb.Export.Error.{GoFailure, CError, err_to_adbc_err}
use adbc_driver_mariadb.Export.Driver.{
  Outcome, returned, fails, panics, Unapplied, string_value, of_connection, Options, Driver,
  one_made, one_closed,
}
use adbc_driver_mariadb.Export.World.{
  CConn, World, Op, Method, done, refuse, poison, fail, call, in_context, just_done, check_db_init,
  check_conn_alloc,
}

module _ (drv : Driver) where
  abbrev options : Options drv.State drv.Connection
  options = drv.connection_options

  abbrev pub alloc_connection : Option (CConn drv) → Op drv
  alloc_connection none w = (
    Status.ok,
    record w {
      connection = some (record { cnxn = none; init_args = [] });
      state = drv.zero_context of_connection w.state;
    },
  )
  alloc_connection (some conn) w =
      refuse drv Status.invalid_state "AdbcConnectionNew" "connection already allocated" w

  unfoldable pub connection_new : Op drv
  connection_new w =
      if w.poisoned
      then refuse drv Status.internal "AdbcConnectionNew" "Go panicked, driver is in unknown state"
          w
      else alloc_connection w.connection w

  abbrev pub set_connection : Bytes → Bytes → Option drv.Connection → CConn drv → Op drv
  set_connection key value none conn w = (
    Status.ok,
    record w { connection = some (record conn { init_args = store key value conn.init_args }) },
  )
  set_connection key value (some c) conn w =
      call drv "AdbcConnectionSetOption"
        (in_context drv of_connection (options.set_option c key (string_value value)))
        (just_done drv) w

  unfoldable pub connection_set_option : Bytes → Bytes → Op drv
  connection_set_option key value =
      check_conn_alloc drv "AdbcConnectionSetOption" λ conn. set_connection key value conn.cnxn conn

  -- The return of a status that is not OK; an `adbc.Error` can have the code OK, and the loop goes on.
  abbrev pub continues : Status → Op drv → Op drv
  continues code rest w = if status_code code == 0 then rest w else (code, w)

  abbrev pub after_option : Op drv → Outcome (Unit {0}) × drv.State → Op drv
  after_option rest (returned u, st) w = rest (record w { state = st })
  after_option rest (fails e, st) w =
      let answer = err_to_adbc_err w.error e in
      continues answer.0 rest (record w { state = st; error = answer.1 })
  after_option rest (panics v, st) w = poison drv "AdbcConnectionInit" v (record w { state = st })

  abbrev pub one_arg : drv.Connection → Bytes → Bytes → Op drv → Op drv
  one_arg c k v rest w = after_option rest (options.set_option c k (string_value v) w.state) w

  -- The loop over `initArgs`, in the order of a list. Once it is through, they are cleared.
  unfoldable pub apply_args : drv.Connection → Dict Bytes → Op drv
  apply_args c [] w =
      (Status.ok, record w { connection = some (record { cnxn = some c; init_args = [] }) })
  apply_args c ((k, v) ∷ args) w = one_arg c k v (apply_args c args) w

  -- With options to set there is a new context for all of them.
  abbrev pub with_args : drv.Connection → Dict Bytes → Op drv
  with_args c [] w = done drv w
  with_args c (arg ∷ args) w =
      apply_args c (arg ∷ args) (record w { state = drv.new_context of_connection w.state })

  abbrev pub connected : CConn drv → drv.Connection → Op drv
  connected conn c w = with_args c conn.init_args (record w {
    connection = some (record conn { cnxn = some c });
    connections = one_made w.connections;
  })

  abbrev pub connect : Option drv.Connection → CConn drv → Op drv
  connect (some c) conn w =
      refuse drv Status.invalid_state "AdbcConnectionInit" "connection already initialized" w
  connect none conn w =
      check_db_init drv "AdbcConnectionInit"
        (λ db. call drv "AdbcConnectionInit" (drv.open_connection db) (connected conn)) w

  unfoldable pub connection_init : Op drv
  connection_init = check_conn_alloc drv "AdbcConnectionInit" λ conn. connect conn.cnxn conn

  -- The deferred call: the context is cancelled however `Close` ends.
  abbrev pub cancelled : Outcome (Unit {0}) × drv.State → Outcome (Unit {0}) × drv.State
  cancelled (o, st) = (o, (drv.cancel_context of_connection st).1)

  abbrev pub release_connection : Option drv.Connection → Op drv
  release_connection none w = (
    Status.ok,
    record w { connection = none; state = (drv.cancel_context of_connection w.state).1 },
  )
  release_connection (some c) w =
      call drv "AdbcConnectionRelease"
        (λ st. cancelled (in_context drv of_connection (drv.close_connection c) st)) (just_done drv)
        (record w { connection = none; connections = one_closed w.connections })

  -- `private_data` is cleared first.
  unfoldable pub connection_release : Op drv
  connection_release =
      check_conn_alloc drv "AdbcConnectionRelease" λ conn. release_connection conn.cnxn
