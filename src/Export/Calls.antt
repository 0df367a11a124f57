-- ===== src/Export/Calls.antt =====
-- Sequences of calls of the exported functions of go/pkg/driver.go, at one handle of each kind.
use adbc_driver_mariadb.Base.{ℕ, ◌+◌, ◌≡◌, false, Option, none, some}
use adbc_driver_mariadb.Base.Text.{Bytes}
use adbc_driver_mariadb.Base.Int.{ℤ}
use adbc_driver_mariadb.ErrorInspector.{Status}
use adbc_driver_mariadb.Export.Error.{CError}
use adbc_driver_mariadb.Export.Driver.{Driver, Tally}
use adbc_driver_mariadb.Export.World.{CDatabase, CConn, CStmt, Out, World, Op}
use adbc_driver_mariadb.Export.Database.{
  database_new, database_set_option, database_set_option_bytes, database_set_option_double,
  database_set_option_int, database_init, database_release,
}
use adbc_driver_mariadb.Export.Connection.{
  connection_new, connection_set_option, connection_init, connection_release,
}
use adbc_driver_mariadb.Export.Statement.{statement_new, statement_release}
use adbc_driver_mariadb.Export.Uses.{
  DatabaseUse, ConnectionUse, StatementUse, use_database, use_connection, use_statement,
}
use adbc_driver_mariadb.Export.Told.{Handles}

pub data Call (drv : Driver) : Type 0 where
  new_database init_database release_database : Call drv
  set_database_option : (key value : Bytes) → Call drv
  set_database_option_bytes : (key value : Bytes) (len : ℕ) → Call drv
  set_database_option_double : (key : Bytes) (value : ℕ) → Call drv
  set_database_option_int : (key : Bytes) (value : ℤ) → Call drv
  at_database : DatabaseUse → Call drv
  new_connection init_connection release_connection : Call drv
  set_connection_option : (key value : Bytes) → Call drv
  at_connection : ConnectionUse → Call drv
  new_statement release_statement : Call drv
  at_statement : StatementUse drv → Call drv

module _ (drv : Driver) where
  abbrev pub perform : Call drv → Op drv
  perform new_database = database_new drv
  perform init_database = database_init drv
  perform release_database = database_release drv
  perform (set_database_option key value) = database_set_option drv key value
  perform (set_database_option_bytes key value len) = database_set_option_bytes drv key value len
  perform (set_database_option_double key value) = database_set_option_double drv key value
  perform (set_database_option_int key value) = database_set_option_int drv key value
  perform (at_database u) = use_database drv u
  perform new_connection = connection_new drv
  perform init_connection = connection_init drv
  perform release_connection = connection_release drv
  perform (set_connection_option key value) = connection_set_option drv key value
  perform (at_connection u) = use_connection drv u
  perform new_statement = statement_new drv
  perform release_statement = statement_release drv
  perform (at_statement u) = use_statement drv u

  -- A world with no handles and nothing counted.
  abbrev none_counted : Tally
  none_counted = record { made = 0; closed = 0 }

  abbrev pub initial : drv.State → Option CError → Out drv → World drv
  initial state error out = record {
    poisoned = false;
    state = state;
    error = error;
    database = none;
    connection = none;
    statement = none;
    out = out;
    databases = none_counted;
    connections = none_counted;
    statements = none_counted;
  }

  -- One call, with the status that it returns. The C caller may have changed the out-parameters and its
  -- struct for the error before it.
  pub data Step : World drv → Status → World drv → Type 0 where
    performs :
        (c : Call drv) (w : World drv) (error : Option CError) (out : Out drv)
        → Step w
            (perform c (record w { error = error; out = out })).0
            (perform c (record w { error = error; out = out })).1

  -- The worlds after any number of calls.
  pub data Reachable : World drv → Type 0 where
    at_start :
        (state : drv.State) (error : Option CError) (out : Out drv)
        → Reachable (initial state error out)
    after : {w : World drv} {s : Status} {w' : World drv} → Reachable w → Step w s w' → Reachable w'

  -- How many objects of the driver a handle holds.
  abbrev pub held : {A : Type 0} → Option A → ℕ
  held none = 0
  held (some a) = 1

  abbrev pub held_database : Option (CDatabase drv) → ℕ
  held_database none = 0
  held_database (some cdb) = held cdb.db

  abbrev pub held_connection : Option (CConn drv) → ℕ
  held_connection none = 0
  held_connection (some conn) = held conn.cnxn

  abbrev pub held_statement : Option (CStmt drv) → ℕ
  held_statement none = 0
  held_statement (some st) = held st.stmt

  -- The driver made as many objects as `Close` was called, and those that the handles hold.
  pub record IsCounted (h : Handles drv) : Type 0 where
    pub databases : h.databases.made ≡ h.databases.closed + held_database h.database
    pub connections : h.connections.made ≡ h.connections.closed + held_connection h.connection
    pub statements : h.statements.made ≡ h.statements.closed + held_statement h.statement
