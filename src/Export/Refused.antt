-- ===== src/Export/Refused.antt =====
-- The calls of go/pkg/driver.go that are refused before the driver is called: those in a poisoned
-- driver, and those that need a handle after its `Init` and find none.
pub mod Uses
pub mod Poisoned
use adbc_driver_mariadb.Base.{
  String, ℕ, ◌≡◌, ◌≢◌, refl, ◌⊎◌, inl, inr, arith, if◌then◌else◌, Bool, true, false, Option, none,
  some,
}
use adbc_driver_mariadb.Base.Text.{Bytes}
use adbc_driver_mariadb.ErrorInspector.{Status}
use adbc_driver_mariadb.Export.Driver.{Driver}
use adbc_driver_mariadb.Export.World.{
  CDatabase, CConn, CStmt, World, Op, refuse, refuse_at, behind, check_db_alloc, check_db_init,
  check_conn_alloc, check_conn_init, check_stmt_alloc, check_stmt_init, db_of, cnxn_of, stmt_of,
}
use adbc_driver_mariadb.Export.Calls.{held, held_database, held_connection, held_statement}

module _ (drv : Driver) where
  -- An error, and a world in which nothing but the struct for the error has changed.
  pub record IsRefused (w : World drv) (r : Status × World drv) : Type 0 where
    pub error : r.0 ≢ Status.ok
    pub unchanged : r.1 ≡ record w { error = r.1.error }

  pub record IsInvalidState (w : World drv) (r : Status × World drv) : Type 0 where
    pub status : r.0 ≡ Status.invalid_state
    pub unchanged : r.1 ≡ record w { error = r.1.error }

  pub refuse_at-IsInvalidState :
      (w : World drv) (name text : String)
      → IsInvalidState w (refuse_at drv Status.invalid_state name text w)
  unfolding refuse_at
  refuse_at-IsInvalidState w name text = record { status = refl; unchanged = refl }

  -- The two tests of a handle.
  pub tested :
      (w : World drv) (b : Bool) (name text : String) (p : Status × World drv)
      → (b ≡ true) ⊎ IsInvalidState w p
      → IsInvalidState w (if b then refuse_at drv Status.invalid_state name text w else p)
  tested w true name text p h = refuse_at-IsInvalidState w name text
  tested w false name text p (inl e) = cc
  tested w false name text p (inr h) = h

  module _ (w : World drv) (name : String) where
    no_database :
        (f : drv.Database → Op drv) (o : Option (CDatabase drv))
        → held_database drv o ≡ 0
        → IsInvalidState w (behind drv name "database not allocated" o (db_of drv name f) w)
    no_database f none h = refuse_at-IsInvalidState w name _
    no_database f (some cdb) h = made cdb.db h
      where
        made :
            (d : Option drv.Database)
            → held drv d ≡ 0
            → IsInvalidState w (behind drv name "database not initialized" d f w)
        made none h = refuse_at-IsInvalidState w name _
        made (some d) h = absurd (omega (arith, h))

    no_connection :
        (f : drv.Connection → Op drv) (o : Option (CConn drv))
        → held_connection drv o ≡ 0
        → IsInvalidState w (behind drv name "connection not allocated" o (cnxn_of drv name f) w)
    no_connection f none h = refuse_at-IsInvalidState w name _
    no_connection f (some conn) h = made conn.cnxn h
      where
        made :
            (d : Option drv.Connection)
            → held drv d ≡ 0
            → IsInvalidState w (behind drv name "connection not initialized" d f w)
        made none h = refuse_at-IsInvalidState w name _
        made (some d) h = absurd (omega (arith, h))

    no_statement :
        (f : drv.Statement → Op drv) (o : Option (CStmt drv))
        → held_statement drv o ≡ 0
        → IsInvalidState w (behind drv name "statement not allocated" o (stmt_of drv name f) w)
    no_statement f none h = refuse_at-IsInvalidState w name _
    no_statement f (some st) h = made st.stmt h
      where
        made :
            (d : Option drv.Statement)
            → held drv d ≡ 0
            → IsInvalidState w (behind drv name "statement not allocated" d f w)
        made none h = refuse_at-IsInvalidState w name _
        made (some d) h = absurd (omega (arith, h))

  either : {A B C : Type 0} → (B → C) → A ⊎ B → A ⊎ C
  either f (inl a) = inl a
  either f (inr b) = inr (f b)

  pub check_db_init-IsInvalidState :
      (w : World drv)
      → (w.poisoned ≡ true) ⊎ (held_database drv w.database ≡ 0)
      → (name : String) (f : drv.Database → Op drv) → IsInvalidState w (check_db_init drv name f w)
  unfolding check_db_init check_db_alloc
  check_db_init-IsInvalidState w h name f =
      tested w w.poisoned name _ _ (either (no_database w name f w.database) h)

  pub check_conn_init-IsInvalidState :
      (w : World drv)
      → (w.poisoned ≡ true) ⊎ (held_connection drv w.connection ≡ 0)
      → (name : String) (f : drv.Connection → Op drv)
      → IsInvalidState w (check_conn_init drv name f w)
  unfolding check_conn_init check_conn_alloc
  check_conn_init-IsInvalidState w h name f =
      tested w w.poisoned name _ _ (either (no_connection w name f w.connection) h)

  pub check_stmt_init-IsInvalidState :
      (w : World drv)
      → (w.poisoned ≡ true) ⊎ (held_statement drv w.statement ≡ 0)
      → (name : String) (f : drv.Statement → Op drv)
      → IsInvalidState w (check_stmt_init drv name f w)
  unfolding check_stmt_init check_stmt_alloc
  check_stmt_init-IsInvalidState w h name f =
      tested w w.poisoned name _ _ (either (no_statement w name f w.statement) h)

  -- In a poisoned driver.
  module _ (w : World drv) (h : w.poisoned ≡ true) (name : String) where
    pub check_db_alloc-IsInvalidState :
        (f : CDatabase drv → Op drv) → IsInvalidState w (check_db_alloc drv name f w)
    unfolding check_db_alloc
    check_db_alloc-IsInvalidState f = tested w w.poisoned name _ _ (inl h)

    pub check_conn_alloc-IsInvalidState :
        (f : CConn drv → Op drv) → IsInvalidState w (check_conn_alloc drv name f w)
    unfolding check_conn_alloc
    check_conn_alloc-IsInvalidState f = tested w w.poisoned name _ _ (inl h)

    pub stopped :
        (s : Status) (text : String) (p : Status × World drv)
        → s ≢ Status.ok
        → IsRefused w (if w.poisoned then refuse drv s name text w else p)
    unfolding refuse
    stopped s text p n = rw h (record { error = n; unchanged = refl })

  pub invalid-IsRefused :
      {w : World drv} {r : Status × World drv} → IsInvalidState w r → IsRefused w r
  invalid-IsRefused h = record { error = λ e. status_lem (h.status) e; unchanged = h.unchanged }
    where
      status_lem : {s : Status} → s ≡ Status.invalid_state → s ≡ Status.ok → ⊥
      status_lem a b = cc
