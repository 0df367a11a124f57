-- ===== src/Export/Told.antt =====
-- What the functions of go/pkg/driver.go tell their caller, and what a call leaves as it was.
pub mod Parts
pub mod Uses
pub mod Makes
pub mod Rules
use adbc_driver_mariadb.Base.{
  String, ℕ, ◌≡◌, ◌≢◌, refl, ◌∙◌, Bool, true, false, Option, none, some, arith, if◌then◌else◌,
}
use adbc_driver_mariadb.Base.Text.{Bytes}
use adbc_driver_mariadb.ErrorInspector.{Status}
use adbc_driver_mariadb.Export.Error.{
  GoFailure, adbc_error, other_error, DriverError, CError, set_err, fmt_err, set_err_with_details,
  filled_in, err_to_adbc_err,
}
use adbc_driver_mariadb.Export.Error.Filled.{
  given, Explained, IsFilled, set_err-IsFilled, fmt_err-IsFilled, err_to_adbc_err-IsFilled,
}
use adbc_driver_mariadb.Export.Driver.{Outcome, returned, fails, panics, Driver, Tally}
use adbc_driver_mariadb.Export.World.{
  CDatabase, CConn, CStmt, World, Op, Method, done, refuse, refuse_at, poison, fail, finish, call,
  just_done, check_length_to_int, copied, with_bytes, behind, check_db_alloc, check_db_init,
  check_conn_alloc, check_conn_init, check_stmt_alloc, check_stmt_init,
}

module _ (drv : Driver) where
  -- The objects behind the handles, and the counts.
  pub record Handles : Type 0 where
    pub database : Option (CDatabase drv)
    pub connection : Option (CConn drv)
    pub statement : Option (CStmt drv)
    pub databases : Tally
    pub connections : Tally
    pub statements : Tally

  abbrev pub handles : World drv → Handles
  handles w = record {
    database = w.database;
    connection = w.connection;
    statement = w.statement;
    databases = w.databases;
    connections = w.connections;
    statements = w.statements;
  }

  -- What a function says of its error.
  pub record Tells (e : Option CError) (r : Status × World drv) : Type 0 where
    pub kept : given r.1.error ≡ given e
    pub told : r.0 ≢ Status.ok → Explained r.1.error

  pub filled-Tells :
      (e : Option CError) (s : Status) (w : World drv) → IsFilled e w.error → Tells e (s, w)
  filled-Tells e s w h = record { kept = h.kept; told = λ n. h.explained }

  pub ok-Tells :
      (e : Option CError) (w : World drv) → given w.error ≡ given e → Tells e (Status.ok, w)
  ok-Tells e w h = record { kept = h; told = λ n. absurd (n refl) }

  -- A function that leaves the handles alone.
  pub record IsUse (op : Op drv) : Type 0 where
    pub keeps : (w : World drv) → handles (op w).1 ≡ handles w
    pub tells : (w : World drv) → Tells w.error (op w)

  pub done-IsUse : IsUse (done drv)
  unfolding done
  done-IsUse = record { keeps = λ w. refl; tells = λ w. ok-Tells w.error w refl }

  pub just_done-IsUse : (u : Unit {0}) → IsUse (just_done drv u)
  unfolding just_done
  just_done-IsUse u = done-IsUse

  pub refuse-IsUse : (s : Status) (name text : String) → IsUse (refuse drv s name text)
  unfolding refuse
  refuse-IsUse s name text = record {
    keeps = λ w. refl;
    tells = λ w. filled-Tells w.error s _ (set_err-IsFilled w.error _);
  }

  pub refuse_at-IsUse : (s : Status) (name text : String) → IsUse (refuse_at drv s name text)
  unfolding refuse_at
  refuse_at-IsUse s name text = record {
    keeps = λ w. refl;
    tells = λ w. filled-Tells w.error s _ (fmt_err-IsFilled w.error _ _);
  }

  pub poison-IsUse : (name : String) (v : Bytes) → IsUse (poison drv name v)
  unfolding poison
  poison-IsUse name v = record {
    keeps = λ w. refl;
    tells = λ w. filled-Tells w.error _ _ (fmt_err-IsFilled w.error _ _);
  }

  pub fail-IsUse : (e : GoFailure) → IsUse (fail drv e)
  unfolding fail
  fail-IsUse e = record {
    keeps = λ w. refl;
    tells = λ w. filled-Tells w.error _ _ (err_to_adbc_err-IsFilled w.error e);
  }

  module _ {A : Type 0} (name : String) (next : A → Op drv) (h : (a : A) → IsUse (next a)) where
    finish_keeps :
        (o : Outcome A × drv.State) (w : World drv)
        → handles (finish drv name next o w).1 ≡ handles w
    finish_keeps (returned a, st) w = (h a).keeps (record w { state = st })
    finish_keeps (fails e, st) w = (fail-IsUse e).keeps (record w { state = st })
    finish_keeps (panics v, st) w = (poison-IsUse name v).keeps (record w { state = st })

    finish-Tells :
        (o : Outcome A × drv.State) (w : World drv) → Tells w.error (finish drv name next o w)
    finish-Tells (returned a, st) w = (h a).tells (record w { state = st })
    finish-Tells (fails e, st) w = (fail-IsUse e).tells (record w { state = st })
    finish-Tells (panics v, st) w = (poison-IsUse name v).tells (record w { state = st })

    pub call-IsUse : (m : Method drv A) → IsUse (call drv name m next)
    unfolding call
    call-IsUse m = record {
      keeps = λ w. finish_keeps (m w.state) w;
      tells = λ w. finish-Tells (m w.state) w;
    }

  -- The checks of a handle.
  module _ {O : Type 0} (name missing : String) (f : O → Op drv) (h : (o : O) → IsUse (f o)) where
    behind_keeps :
        (o : Option O) (w : World drv) → handles (behind drv name missing o f w).1 ≡ handles w
    behind_keeps none w = (refuse_at-IsUse Status.invalid_state name missing).keeps w
    behind_keeps (some x) w = (h x).keeps w

    behind-Tells : (o : Option O) (w : World drv) → Tells w.error (behind drv name missing o f w)
    behind-Tells none w = (refuse_at-IsUse Status.invalid_state name missing).tells w
    behind-Tells (some x) w = (h x).tells w

    pub behind-IsUse : (o : Option O) → IsUse (behind drv name missing o f)
    behind-IsUse o = record { keeps = behind_keeps o; tells = behind-Tells o }

  pub if_keeps :
      (b : Bool) (p q : Status × World drv) (x : Handles)
      → handles p.1 ≡ x
      → handles q.1 ≡ x
      → handles (if b then p else q).1 ≡ x
  if_keeps true p q x h k = h
  if_keeps false p q x h k = k

  pub if-Tells :
      (b : Bool) (e : Option CError) (p q : Status × World drv)
      → Tells e p
      → Tells e q
      → Tells e (if b then p else q)
  if-Tells true e p q h k = h
  if-Tells false e p q h k = k

  module _ (name : String) where
    abbrev panicked : Op drv
    panicked = refuse_at drv Status.invalid_state name "Go panicked, driver is in unknown state"

    panicked-IsUse : IsUse panicked
    panicked-IsUse = refuse_at-IsUse Status.invalid_state name _

    pub check_db_init-IsUse :
        (f : drv.Database → Op drv)
        → ((o : drv.Database) → IsUse (f o))
        → IsUse (check_db_init drv name f)
    unfolding check_db_init check_db_alloc
    check_db_init-IsUse f h =
        let found = λ (o : Option (CDatabase drv)).
          behind-IsUse name "database not allocated" _
            (λ cdb. behind-IsUse name "database not initialized" f h cdb.db) o in
        record {
          keeps = λ w.
              if_keeps w.poisoned (panicked w) _ _ (panicked-IsUse.keeps w)
                ((found w.database).keeps w);
          tells = λ w.
              if-Tells w.poisoned _ (panicked w) _ (panicked-IsUse.tells w)
                ((found w.database).tells w);
        }

    pub check_conn_init-IsUse :
        (f : drv.Connection → Op drv)
        → ((o : drv.Connection) → IsUse (f o))
        → IsUse (check_conn_init drv name f)
    unfolding check_conn_init check_conn_alloc
    check_conn_init-IsUse f h =
        let found = λ (o : Option (CConn drv)).
          behind-IsUse name "connection not allocated" _
            (λ conn. behind-IsUse name "connection not initialized" f h conn.cnxn) o in
        record {
          keeps = λ w.
              if_keeps w.poisoned (panicked w) _ _ (panicked-IsUse.keeps w)
                ((found w.connection).keeps w);
          tells = λ w.
              if-Tells w.poisoned _ (panicked w) _ (panicked-IsUse.tells w)
                ((found w.connection).tells w);
        }

    pub check_stmt_init-IsUse :
        (f : drv.Statement → Op drv)
        → ((o : drv.Statement) → IsUse (f o))
        → IsUse (check_stmt_init drv name f)
    unfolding check_stmt_init check_stmt_alloc
    check_stmt_init-IsUse f h =
        let found = λ (o : Option (CStmt drv)).
          behind-IsUse name "statement not allocated" _
            (λ st. behind-IsUse name "statement not allocated" f h st.stmt) o in
        record {
          keeps = λ w.
              if_keeps w.poisoned (panicked w) _ _ (panicked-IsUse.keeps w)
                ((found w.statement).keeps w);
          tells = λ w.
              if-Tells w.poisoned _ (panicked w) _ (panicked-IsUse.tells w)
                ((found w.statement).tells w);
        }
