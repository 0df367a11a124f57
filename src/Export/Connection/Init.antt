-- ===== src/Export/Connection/Init.antt =====
-- `MariaDBConnectionInit` of go/pkg/driver.go with the options that were set before it, and a second time.
use adbc_driver_mariadb.Base.{
  ◌≡◌, refl, ap, ◌∙◌, false, [], ◌∷◌, Option, none, some, arith, inr, ◌==◌,
}
use adbc_driver_mariadb.Base.Text.{Bytes}
use adbc_driver_mariadb.Base.Dict.{Dict, store}
use adbc_driver_mariadb.ErrorInspector.{Status, status_code}
use adbc_driver_mariadb.Export.Error.{err_to_adbc_err}
use adbc_driver_mariadb.Export.Driver.{
  Outcome, returned, fails, panics, Unapplied, string_value, of_connection, Driver,
}
use adbc_driver_mariadb.Export.World.{
  CConn, World, Op, done, call, poison, refuse, behind, just_done, check_db_alloc, check_db_init,
  check_conn_alloc,
}
use adbc_driver_mariadb.Export.Connection.{
  connect, connection_init, connection_set_option, apply_args, after_option, with_args,
}
use adbc_driver_mariadb.Export.Calls.{held, held_connection}
use adbc_driver_mariadb.Export.Told.Rules.{if_rule}
use adbc_driver_mariadb.Export.Refused.{IsInvalidState, tested, refuse_at-IsInvalidState}

module _ (drv : Driver) where
  -- A world that is not poisoned, with a database after its `Init` and a connection before it.
  abbrev pub prepared : World drv → Dict Unapplied → drv.Database → Dict Bytes → World drv
  prepared w opts db args = record w {
    poisoned = false;
    database = some (record { opts = opts; db = some db });
    connection = some (record { cnxn = none; init_args = args });
  }

  -- In a driver that is not poisoned, at a connection before its `Init` with no option set, and a database
  -- after its `Init`: setting an option before the connection's `Init` comes to the same as setting it
  -- after, where `Open` and then `SetOption` succeed, with the same status and the same world, the
  -- driver's state included.
  pub connection_init-set_option :
      (w : World drv) (opts : Dict Unapplied) (db : drv.Database) (key value : Bytes)
      (c : drv.Connection) (st st' : drv.State)
      → drv.open_connection db w.state ≡ (returned c, st)
      → drv.connection_options.set_option c key
          (string_value value)
          (drv.new_context of_connection st)
        ≡ (returned tt, st')
      → connection_init drv (connection_set_option drv key value (prepared w opts db [])).1
        ≡ connection_set_option drv key value (connection_init drv (prepared w opts db [])).1
  unfolding connection_init connection_set_option check_conn_alloc check_db_init check_db_alloc call
      apply_args store just_done done
  connection_init-set_option w opts db key value c st st' h k = rw h (rw k)

  module _ (P : Status × World drv → Type 0) where
    after_option_rule :
        (rest : Op drv) (answer : Outcome (Unit {0}) × drv.State) (w : World drv)
        → ((w' : World drv) → w'.connection ≡ w.connection → P (rest w'))
        → ((s : Status) (w' : World drv) → w'.connection ≡ w.connection → P (s, w'))
        → P (after_option drv rest answer w)
    unfolding poison
    after_option_rule rest (returned u, st) w h k = h (record w { state = st }) refl
    after_option_rule rest (fails e, st) w h k =
        let answer = err_to_adbc_err w.error e in
        if_rule P (status_code answer.0 == 0) _ _ (h _ refl) (k answer.0 _ refl)
    after_option_rule rest (panics v, st) w h k = k _ _ refl

  -- That the handle holds a connection.
  abbrev Holds : Status × World drv → Type 0
  Holds r = held_connection drv r.1.connection ≡ 1

  apply_args-Holds :
      (c : drv.Connection) (args : Dict Bytes) (w : World drv)
      → held_connection drv w.connection ≡ 1
      → Holds (apply_args drv c args w)
  unfolding apply_args
  apply_args-Holds c [] w h = refl
  apply_args-Holds c ((k, v) ∷ args) w h =
      after_option_rule Holds (apply_args drv c args)
        (drv.connection_options.set_option c k (string_value v) w.state) w
        (λ w' e. apply_args-Holds c args w' (ap (held_connection drv) e ∙ h))
        (λ s w' e. ap (held_connection drv) e ∙ h)

  with_args-Holds :
      (c : drv.Connection) (args : Dict Bytes) (w : World drv)
      → held_connection drv w.connection ≡ 1
      → Holds (with_args drv c args w)
  unfolding done
  with_args-Holds c [] w h = h
  with_args-Holds c (arg ∷ args) w h = apply_args-Holds c (arg ∷ args) _ h

  already :
      (w : World drv) (o : Option (CConn drv))
      → held_connection drv o ≡ 1
      → IsInvalidState drv w (
          behind drv "AdbcConnectionInit" "connection not allocated" o
            (λ conn. connect drv conn.cnxn conn)
            w)
  unfolding refuse
  already w none h = refuse_at-IsInvalidState drv w _ _
  already w (some conn) h = made conn.cnxn h
    where
      made :
          (c : Option drv.Connection) → held drv c ≡ 1 → IsInvalidState drv w (connect drv c conn w)
      made none h = absurd (omega (arith, h))
      made (some c) h = record { status = refl; unchanged = refl }

  connection_init-held :
      (w : World drv)
      → held_connection drv w.connection ≡ 1
      → IsInvalidState drv w (connection_init drv w)
  unfolding connection_init check_conn_alloc
  connection_init-held w h =
      tested drv w w.poisoned "AdbcConnectionInit" _ _ (inr (already w w.connection h))

  connection_init-Holds :
      (w : World drv) (opts : Dict Unapplied) (db : drv.Database) (args : Dict Bytes)
      (c : drv.Connection) (st : drv.State)
      → drv.open_connection db w.state ≡ (returned c, st)
      → Holds (connection_init drv (prepared w opts db args))
  unfolding connection_init check_conn_alloc check_db_init check_db_alloc call
  connection_init-Holds w opts db args c st h = rw h (with_args-Holds c args _ refl)

  -- In a driver that is not poisoned, at a connection before its `Init` with any options set, and a
  -- database after its `Init`: once `Open` has succeeded, whatever becomes of the options, and so also
  -- where `Init` fails at one of them, another `Init` is refused with INVALID_STATE and changes nothing
  -- but the struct for the error.
  pub connection_init-again :
      (w : World drv) (opts : Dict Unapplied) (db : drv.Database) (args : Dict Bytes)
      (c : drv.Connection) (st : drv.State)
      → drv.open_connection db w.state ≡ (returned c, st)
      → let w' = (connection_init drv (prepared w opts db args)).1 in
        let again = connection_init drv w' in
        (again.0 ≡ Status.invalid_state) × (again.1 ≡ record w' { error = again.1.error })
  connection_init-again w opts db args c st h =
      let r = connection_init-held _ (connection_init-Holds w opts db args c st h) in
      (r.status, r.unchanged)
