-- ===== src/Export/Statement.antt =====
-- The functions of go/pkg/driver.go at a `struct AdbcStatement` that make it and release it, and
-- `MariaDBStatementCancel`.
pub mod Uses
pub mod Execute
pub mod Slices
use adbc_driver_mariadb.Base.{Bool, true, false, ◌&&◌, Option, none, some, if◌then◌else◌, ◌==◌}
use adbc_driver_mariadb.ErrorInspector.{Status, status_code}
use adbc_driver_mariadb.Export.Error.{GoFailure, adbc_error, other_error}
use adbc_driver_mariadb.Export.Driver.{
  Outcome, returned, fails, panics, of_connection, of_statement, of_execution, Driver, one_made,
  one_closed,
}
use adbc_driver_mariadb.Export.World.{
  CStmt, World, Op, done, refuse, poison, fail, call, in_context, just_done, check_conn_init,
  check_stmt_alloc, check_stmt_init,
}

module _ (drv : Driver) where
  -- The new object, with its two contexts.
  abbrev pub made_statement : drv.Statement → Op drv
  made_statement st w = (
    Status.ok,
    record w {
      statement = some (record { stmt = some st });
      statements = one_made w.statements;
      state = drv.zero_context of_execution (drv.zero_context of_statement w.state);
    },
  )

  abbrev pub alloc_statement : Option (CStmt drv) → Op drv
  alloc_statement (some st) w =
      refuse drv Status.invalid_state "AdbcStatementNew" "statement already allocated" w
  alloc_statement none w =
      check_conn_init drv "AdbcStatementNew"
        (λ c.
          call drv "AdbcStatementNew" (in_context drv of_connection (drv.new_statement c))
            made_statement)
        w

  unfoldable pub statement_new : Op drv
  statement_new w =
      if w.poisoned
      then refuse drv Status.internal "AdbcStatementNew" "Go panicked, driver is in unknown state" w
      else alloc_statement w.statement w

  -- The deferred call: both contexts are cancelled however `Close` ends.
  abbrev pub both_cancelled : drv.State → drv.State
  both_cancelled st = (drv.cancel_context of_execution (drv.cancel_context of_statement st).1).1

  abbrev pub then_cancelled : Outcome (Unit {0}) × drv.State → Outcome (Unit {0}) × drv.State
  then_cancelled (o, st) = (o, both_cancelled st)

  abbrev pub release_statement : Option drv.Statement → Op drv
  release_statement none w =
      (Status.ok, record w { statement = none; state = both_cancelled w.state })
  release_statement (some st) w =
      call drv "AdbcStatementRelease"
        (λ s. then_cancelled (in_context drv of_statement (drv.close_statement st) s))
        (just_done drv) (record w { statement = none; statements = one_closed w.statements })

  abbrev pub release_behind : CStmt drv → Op drv
  release_behind st = release_statement st.stmt

  -- A poisoned driver answers INTERNAL here. `private_data` is cleared first.
  unfoldable pub statement_release : Op drv
  statement_release w =
      if w.poisoned
      then refuse drv Status.internal "AdbcStatementRelease"
          "Go panicked, driver is in unknown state" w
      else check_stmt_alloc drv "AdbcStatementRelease" release_behind w

  -- Whether `errors.As` finds an `adbc.Error` with the code INVALID_STATE.
  abbrev pub is_invalid_state : GoFailure → Bool
  is_invalid_state (adbc_error e) = status_code e.code == status_code Status.invalid_state
  is_invalid_state (other_error text) = false

  abbrev pub cancel_replied : Bool → Outcome (Unit {0}) × drv.State → Op drv
  cancel_replied active (returned u, s) w = (Status.ok, record w { state = s })
  cancel_replied active (fails e, s) w =
      if active && is_invalid_state e
      then (Status.ok, record w { state = s })
      else fail drv e (record w { state = s })
  cancel_replied active (panics v, s) w =
      poison drv "AdbcStatementCancel" v (record w { state = s })

  abbrev pub not_cancelled : Bool → drv.State → Op drv
  not_cancelled true s w = (Status.ok, record w { state = s })
  not_cancelled false s w =
      refuse drv Status.invalid_state "AdbcStatementCancel" "no active query to cancel"
        (record w { state = s })

  abbrev pub cancel_active : drv.Statement → Bool × drv.State → Op drv
  cancel_active st (active, s) w =
      if drv.has_cancel st
      then cancel_replied active (drv.cancel st s) (record w { state = s })
      else not_cancelled active s w

  unfoldable pub cancel_statement : drv.Statement → Op drv
  cancel_statement st w = cancel_active st (drv.cancel_context of_execution w.state) w

  unfoldable pub statement_cancel : Op drv
  statement_cancel = check_stmt_init drv "AdbcStatementCancel" cancel_statement
