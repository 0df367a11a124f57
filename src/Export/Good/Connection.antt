-- ===== src/Export/Good/Connection.antt =====
-- The functions of go/pkg/driver.go that make and release connections and statements, each as
-- Export.Good says.
use adbc_driver_mariadb.Base.{ℕ, ◌+◌, ◌==◌, ◌≡◌, refl, ap, ◌∙◌, [], ◌∷◌, Option, none, some, arith}
use adbc_driver_mariadb.Base.Text.{Bytes}
use adbc_driver_mariadb.Base.Dict.{Dict}
use adbc_driver_mariadb.ErrorInspector.{Status, status_code}
use adbc_driver_mariadb.Export.Error.{err_to_adbc_err}
use adbc_driver_mariadb.Export.Driver.{
  Outcome, returned, fails, panics, string_value, Driver, one_made, one_closed,
}
use adbc_driver_mariadb.Export.World.{CConn, CStmt, World, Op, done, just_done}
use adbc_driver_mariadb.Export.Connection.{
  alloc_connection, connection_new, set_connection, connection_set_option, after_option, apply_args,
  with_args, connected, connect, connection_init, release_connection, connection_release,
}
use adbc_driver_mariadb.Export.Statement.{
  alloc_statement, made_statement, statement_new, release_statement, statement_release,
}
use adbc_driver_mariadb.Export.Calls.{held, held_connection, held_statement, IsCounted}
use adbc_driver_mariadb.Export.Told.{
  handles, just_done-IsUse, refuse-IsUse, poison-IsUse, call-IsUse,
}
use adbc_driver_mariadb.Export.Told.Makes.{with_args-Tells}
use adbc_driver_mariadb.Export.Told.Rules.{if_rule}
use adbc_driver_mariadb.Export.Good.{
  IsGood, use-IsGood, moved-IsGood, ok-IsGood, connections_moved, statements_moved,
  check_conn_alloc-IsGood, check_stmt_alloc-IsGood, check_db_init-IsGood, check_conn_init-IsGood,
  call-IsGood,
}

module _ (drv : Driver) where
  alloc_connection-IsGood :
      (o : Option (CConn drv)) (w : World drv)
      → w.connection ≡ o
      → IsGood drv w (alloc_connection drv o w)
  alloc_connection-IsGood none w e = ok-IsGood drv w _ refl (
      connections_moved drv (handles drv w) _ w.connections
        λ c. c ∙ ap (λ o. w.connections.closed + held_connection drv o) e)
  alloc_connection-IsGood (some conn) w e = use-IsGood drv _ w (refuse-IsUse drv _ _ _)

  pub connection_new-IsGood : (w : World drv) → IsGood drv w (connection_new drv w)
  unfolding connection_new
  connection_new-IsGood w =
      if_rule (IsGood drv w) w.poisoned _ _ (use-IsGood drv _ w (refuse-IsUse drv _ _ _))
        (alloc_connection-IsGood w.connection w refl)

  after_option-IsCounted :
      (rest : Op drv)
      → ((w : World drv)
          → held_connection drv w.connection ≡ 1
          → IsCounted drv (handles drv w)
          → IsCounted drv (handles drv (rest w).1))
      → (answer : Outcome (Unit {0}) × drv.State) (w : World drv)
      → held_connection drv w.connection ≡ 1
      → IsCounted drv (handles drv w)
      → IsCounted drv (handles drv (after_option drv rest answer w).1)
  after_option-IsCounted rest k (returned u, st) w h n = k (record w { state = st }) h n
  after_option-IsCounted rest k (fails e, st) w h n =
      let answer = err_to_adbc_err w.error e in
      if_rule (λ (r : Status × World drv). IsCounted drv (handles drv r.1))
        (status_code answer.0 == 0) _ _ (k _ h n) n
  after_option-IsCounted rest k (panics v, st) w h n =
      (use-IsGood drv _ (record w { state = st }) (poison-IsUse drv "AdbcConnectionInit" v)).counted
        n

  -- The loop over `initArgs` leaves the counts, where the handle holds a connection.
  apply_args-IsCounted :
      (c : drv.Connection) (args : Dict Bytes) (w : World drv)
      → held_connection drv w.connection ≡ 1
      → IsCounted drv (handles drv w)
      → IsCounted drv (handles drv (apply_args drv c args w).1)
  unfolding apply_args
  apply_args-IsCounted c [] w h =
      connections_moved drv (handles drv w) _ w.connections λ e. omega (arith, h, e)
  apply_args-IsCounted c ((k, v) ∷ args) w h =
      after_option-IsCounted (apply_args drv c args) (apply_args-IsCounted c args)
        (drv.connection_options.set_option c k (string_value v) w.state) w h

  module _ (w : World drv) (conn : CConn drv) (e : w.connection ≡ some conn) where
    holds : (k : ℕ) → held drv conn.cnxn ≡ k → held_connection drv w.connection ≡ k
    holds k h = ap (held_connection drv) e ∙ h

    set_connection-IsGood :
        (key value : Bytes) (c : Option drv.Connection)
        → conn.cnxn ≡ c
        → IsGood drv w (set_connection drv key value c conn w)
    set_connection-IsGood key value none f = ok-IsGood drv w _ refl (
        connections_moved drv (handles drv w) _ w.connections
          λ c. c ∙ ap (λ o. w.connections.closed + held_connection drv o) e)
    set_connection-IsGood key value (some c) f =
        use-IsGood drv _ w (call-IsUse drv _ (just_done drv) (just_done-IsUse drv) _)

    with_args-IsCounted :
        (c : drv.Connection) (args : Dict Bytes) (w' : World drv)
        → held_connection drv w'.connection ≡ 1
        → IsCounted drv (handles drv w')
        → IsCounted drv (handles drv (with_args drv c args w').1)
    unfolding done
    with_args-IsCounted c [] w' h = λ n. n
    with_args-IsCounted c (arg ∷ args) w' h = apply_args-IsCounted c (arg ∷ args) _ h

    connected-IsGood :
        conn.cnxn ≡ none
        → (c : drv.Connection) (st : drv.State)
        → IsGood drv w (connected drv conn c (record w { state = st }))
    connected-IsGood f c st =
        let h = holds 0 (ap (held drv) f) in
        let o : Option (CConn drv) = some (record conn { cnxn = some c }) in
        let w' : World drv = record w {
          state = st;
          connection = o;
          connections = one_made w.connections;
        } in
        moved-IsGood drv w w' _ refl
          (connections_moved drv (handles drv w) o (one_made w.connections)
            λ c. omega (arith, h, c))
          (record {
            tells = with_args-Tells drv c conn.init_args w';
            counted = with_args-IsCounted c conn.init_args w' refl;
          })

    connect-IsGood :
        (c : Option drv.Connection) → conn.cnxn ≡ c → IsGood drv w (connect drv c conn w)
    connect-IsGood none f =
        check_db_init-IsGood drv w _ _
          λ db. call-IsGood drv w _ (connected drv conn) (connected-IsGood f) _
    connect-IsGood (some c) f = use-IsGood drv _ w (refuse-IsUse drv _ _ _)

    release_connection-IsGood :
        (c : Option drv.Connection) → conn.cnxn ≡ c → IsGood drv w (release_connection drv c w)
    release_connection-IsGood none f =
        let h = holds 0 (ap (held drv) f) in
        ok-IsGood drv w _ refl
          (connections_moved drv (handles drv w) none w.connections λ c. omega (arith, h, c))
    release_connection-IsGood (some c) f =
        let h = holds 1 (ap (held drv) f) in
        moved-IsGood drv w _ _ refl
          (connections_moved drv (handles drv w) none (one_closed w.connections)
            λ c. omega (arith, h, c))
          (use-IsGood drv _ _ (call-IsUse drv _ (just_done drv) (just_done-IsUse drv) _))

  pub connection_set_option-IsGood :
      (key value : Bytes) (w : World drv) → IsGood drv w (connection_set_option drv key value w)
  unfolding connection_set_option
  connection_set_option-IsGood key value w =
      check_conn_alloc-IsGood drv w _ _
        λ conn e. set_connection-IsGood w conn e key value conn.cnxn refl

  pub connection_init-IsGood : (w : World drv) → IsGood drv w (connection_init drv w)
  unfolding connection_init
  connection_init-IsGood w =
      check_conn_alloc-IsGood drv w _ _ λ conn e. connect-IsGood w conn e conn.cnxn refl

  pub connection_release-IsGood : (w : World drv) → IsGood drv w (connection_release drv w)
  unfolding connection_release
  connection_release-IsGood w =
      check_conn_alloc-IsGood drv w _ _ λ conn e. release_connection-IsGood w conn e conn.cnxn refl

  alloc_statement-IsGood :
      (o : Option (CStmt drv)) (w : World drv)
      → w.statement ≡ o
      → IsGood drv w (alloc_statement drv o w)
  alloc_statement-IsGood (some st) w e = use-IsGood drv _ w (refuse-IsUse drv _ _ _)
  alloc_statement-IsGood none w e =
      let h = ap (held_statement drv) e in
      check_conn_init-IsGood drv w _ _ λ c.
        call-IsGood drv w _ (made_statement drv)
          (λ st s. ok-IsGood drv w _ refl (
            statements_moved drv (handles drv w) _ (one_made w.statements)
              λ c. omega (arith, h, c)))
          _

  pub statement_new-IsGood : (w : World drv) → IsGood drv w (statement_new drv w)
  unfolding statement_new
  statement_new-IsGood w =
      if_rule (IsGood drv w) w.poisoned _ _ (use-IsGood drv _ w (refuse-IsUse drv _ _ _))
        (alloc_statement-IsGood w.statement w refl)

  release_statement-IsGood :
      (w : World drv) (st : CStmt drv)
      → w.statement ≡ some st
      → (s : Option drv.Statement) → st.stmt ≡ s
      → IsGood drv w (release_statement drv s w)
  release_statement-IsGood w st e none f =
      let h = ap (held_statement drv) e ∙ ap (held drv) f in
      ok-IsGood drv w _ refl
        (statements_moved drv (handles drv w) none w.statements λ c. omega (arith, h, c))
  release_statement-IsGood w st e (some s) f =
      let h = ap (held_statement drv) e ∙ ap (held drv) f in
      moved-IsGood drv w _ _ refl
        (statements_moved drv (handles drv w) none (one_closed w.statements)
          λ c. omega (arith, h, c))
        (use-IsGood drv _ _ (call-IsUse drv _ (just_done drv) (just_done-IsUse drv) _))

  pub statement_release-IsGood : (w : World drv) → IsGood drv w (statement_release drv w)
  unfolding statement_release
  statement_release-IsGood w =
      if_rule (IsGood drv w) w.poisoned _ _ (use-IsGood drv _ w (refuse-IsUse drv _ _ _))
        (check_stmt_alloc-IsGood drv w _ _ λ st e. release_statement-IsGood w st e st.stmt refl)
