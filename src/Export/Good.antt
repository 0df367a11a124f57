-- ===== src/Export/Good.antt =====
-- What holds of each call of go/pkg/driver.go: it says what went wrong, and the objects of the driver
-- stay counted.
pub mod Database
pub mod Connection
pub mod Calls
use mathlib.Core.Path.{subst}
use adbc_driver_mariadb.Base.{String, ℕ, ◌+◌, ◌≡◌, refl, sym, ap, ◌∙◌, Option, none, some, arith}
use adbc_driver_mariadb.Base.Text.{Bytes}
use adbc_driver_mariadb.ErrorInspector.{Status}
use adbc_driver_mariadb.Export.Error.{GoFailure}
use adbc_driver_mariadb.Export.Driver.{Driver, Tally}
use adbc_driver_mariadb.Export.World.{
  CDatabase, CConn, CStmt, World, Op, Method, refuse_at, refuse, poison, fail, call, with_bytes,
  check_db_alloc, check_db_init, check_conn_alloc, check_conn_init, check_stmt_alloc, too_long,
}
use adbc_driver_mariadb.Export.Calls.{IsCounted, held_database, held_connection, held_statement}
use adbc_driver_mariadb.Export.Error.Filled.{given}
use adbc_driver_mariadb.Export.Told.{
  Handles, handles, Tells, IsUse, refuse-IsUse, refuse_at-IsUse, fail-IsUse, poison-IsUse, ok-Tells,
}
use adbc_driver_mariadb.Export.Told.Parts.{too_long-IsUse}
use adbc_driver_mariadb.Export.Told.Rules.{
  check_db_alloc_rule, check_conn_alloc_rule, check_stmt_alloc_rule, check_db_init_rule,
  check_conn_init_rule, call_rule, with_bytes_rule,
}

module _ (drv : Driver) where
  pub record IsGood (w : World drv) (r : Status × World drv) : Type 0 where
    pub tells : Tells drv w.error r
    pub counted : IsCounted drv (handles drv w) → IsCounted drv (handles drv r.1)

  pub use-IsGood : (op : Op drv) (w : World drv) → IsUse drv op → IsGood w (op w)
  use-IsGood op w h = record {
    tells = h.tells w;
    counted = λ c. subst (IsCounted drv) (sym (h.keeps w)) c;
  }

  -- A call that goes on in a world with the same struct for the error.
  pub moved-IsGood :
      (w w' : World drv) (r : Status × World drv)
      → w'.error ≡ w.error
      → (IsCounted drv (handles drv w) → IsCounted drv (handles drv w'))
      → IsGood w' r
      → IsGood w r
  moved-IsGood w w' r e m g = record {
    tells = subst (λ x. Tells drv x r) e g.tells;
    counted = λ c. g.counted (m c);
  }

  pub ok-IsGood :
      (w w' : World drv)
      → w'.error ≡ w.error
      → (IsCounted drv (handles drv w) → IsCounted drv (handles drv w'))
      → IsGood w (Status.ok, w')
  ok-IsGood w w' e m = record { tells = ok-Tells drv w.error w' (ap given e); counted = m }

  -- The counts after a change of one handle.
  pub databases_moved :
      (h : Handles drv) (o : Option (CDatabase drv)) (t : Tally)
      → (h.databases.made ≡ h.databases.closed + held_database drv h.database
          → t.made ≡ t.closed + held_database drv o)
      → IsCounted drv h
      → IsCounted drv (record h { database = o; databases = t })
  databases_moved h o t e c = record {
    databases = e c.databases;
    connections = c.connections;
    statements = c.statements;
  }

  pub connections_moved :
      (h : Handles drv) (o : Option (CConn drv)) (t : Tally)
      → (h.connections.made ≡ h.connections.closed + held_connection drv h.connection
          → t.made ≡ t.closed + held_connection drv o)
      → IsCounted drv h
      → IsCounted drv (record h { connection = o; connections = t })
  connections_moved h o t e c = record {
    databases = c.databases;
    connections = e c.connections;
    statements = c.statements;
  }

  pub statements_moved :
      (h : Handles drv) (o : Option (CStmt drv)) (t : Tally)
      → (h.statements.made ≡ h.statements.closed + held_statement drv h.statement
          → t.made ≡ t.closed + held_statement drv o)
      → IsCounted drv h
      → IsCounted drv (record h { statement = o; statements = t })
  statements_moved h o t e c = record {
    databases = c.databases;
    connections = c.connections;
    statements = e c.statements;
  }

  module _ (w : World drv) (name : String) where
    refused : (text : String) → IsGood w (refuse_at drv Status.invalid_state name text w)
    refused text = use-IsGood _ w (refuse_at-IsUse drv Status.invalid_state name text)

    pub check_db_alloc-IsGood :
        (f : CDatabase drv → Op drv)
        → ((cdb : CDatabase drv) → w.database ≡ some cdb → IsGood w (f cdb w))
        → IsGood w (check_db_alloc drv name f w)
    check_db_alloc-IsGood f h = check_db_alloc_rule drv (IsGood w) w name refused f h

    pub check_conn_alloc-IsGood :
        (f : CConn drv → Op drv)
        → ((conn : CConn drv) → w.connection ≡ some conn → IsGood w (f conn w))
        → IsGood w (check_conn_alloc drv name f w)
    check_conn_alloc-IsGood f h = check_conn_alloc_rule drv (IsGood w) w name refused f h

    pub check_stmt_alloc-IsGood :
        (f : CStmt drv → Op drv)
        → ((st : CStmt drv) → w.statement ≡ some st → IsGood w (f st w))
        → IsGood w (check_stmt_alloc drv name f w)
    check_stmt_alloc-IsGood f h = check_stmt_alloc_rule drv (IsGood w) w name refused f h

    pub check_db_init-IsGood :
        (f : drv.Database → Op drv)
        → ((db : drv.Database) → IsGood w (f db w))
        → IsGood w (check_db_init drv name f w)
    check_db_init-IsGood f h = check_db_init_rule drv (IsGood w) w name refused f h

    pub check_conn_init-IsGood :
        (f : drv.Connection → Op drv)
        → ((c : drv.Connection) → IsGood w (f c w))
        → IsGood w (check_conn_init drv name f w)
    check_conn_init-IsGood f h = check_conn_init_rule drv (IsGood w) w name refused f h

    pub call-IsGood :
        {A : Type 0} (next : A → Op drv)
        → ((a : A) (st : drv.State) → IsGood w (next a (record w { state = st })))
        → (m : Method drv A) → IsGood w (call drv name m next w)
    call-IsGood next h m =
        call_rule drv (IsGood w) w name next h
          (λ e st.
            let g = use-IsGood _ (record w { state = st }) (fail-IsUse drv e) in
            record { tells = g.tells; counted = g.counted })
          (λ v st.
            let g = use-IsGood _ (record w { state = st }) (poison-IsUse drv name v) in
            record { tells = g.tells; counted = g.counted })
          m

    pub with_bytes-IsGood :
        (next : Bytes → Op drv)
        → ((v : Bytes) → IsGood w (next v w))
        → (value : Bytes) (len : ℕ) → IsGood w (with_bytes drv name value len next w)
    with_bytes-IsGood next h =
        with_bytes_rule drv (IsGood w) w name next h
          (λ len. use-IsGood _ w (too_long-IsUse drv len))
          (λ v. use-IsGood _ w (poison-IsUse drv name v))
