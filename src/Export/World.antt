-- ===== src/Export/World.antt =====
-- What the exported functions of go/pkg/driver.go work on: the objects behind the handles and the
-- memory of the C caller, with the steps that the functions are made of. There is one struct of each
-- kind; a struct that is NULL is treated as one whose `private_data` is NULL. The logging is left out.
use adbc_driver_mariadb.Base.{String, ℕ, Bool, true, ◌++◌, Option, none, some, if◌then◌else◌, ltb}
use adbc_driver_mariadb.Base.Text.{Bytes, codes}
use adbc_driver_mariadb.Base.Int.{ℤ}
use adbc_driver_mariadb.Base.Decimal.{decimal}
use adbc_driver_mariadb.Base.Dict.{Dict}
use adbc_driver_mariadb.ErrorInspector.{Status}
use adbc_driver_mariadb.Export.Error.{GoFailure, CError, set_err, fmt_err, err_to_adbc_err}
use adbc_driver_mariadb.Export.Option.{Buffer, go_bytes, max_int}
use adbc_driver_mariadb.Export.Driver.{
  Outcome, returned, fails, panics, Unapplied, ContextOf, Driver, Tally, CPartitions,
}

-- "name: text"
unfoldable pub says : String → String → Bytes
says name text = codes name ++ codes ": " ++ codes text

abbrev length_text : ℕ → Bytes
length_text len = codes "Length " ++ decimal len ++ codes " exceeds max Go int " ++ decimal max_int

module _ (drv : Driver) where
  -- `cDatabase`
  pub record CDatabase : Type 0 where
    pub opts : Dict Unapplied
    pub db : Option drv.Database

  -- `cConn`; a map that is nil is empty.
  pub record CConn : Type 0 where
    pub cnxn : Option drv.Connection
    pub init_args : Dict Bytes

  -- `cStmt`
  pub record CStmt : Type 0 where
    pub stmt : Option drv.Statement

  -- `cArrayStream`
  pub record CArrayStream : Type 0 where
    pub rdr : drv.Reader
    pub adbc_err : Option CError
    pub status : Status

  -- The out-parameters: the buffer and the numbers for options, the number of affected rows, and the
  -- structs for a schema, a stream and partitions. `none` is NULL at `affected`, and a struct that was
  -- not filled in elsewhere.
  pub record Out : Type 0 where
    pub buffer : Buffer
    pub int_out : ℤ
    pub double_out : ℕ
    pub affected : Option ℤ
    pub schema : Option drv.Schema
    pub stream : Option CArrayStream
    pub partitions : Option CPartitions

  -- `globalPoison`, the driver's state, what `err` points to, and what stands behind `private_data` of
  -- the three handles.
  pub record World : Type 0 where
    pub poisoned : Bool
    pub state : drv.State
    pub error : Option CError
    pub database : Option CDatabase
    pub connection : Option CConn
    pub statement : Option CStmt
    pub out : Out
    pub databases : Tally
    pub connections : Tally
    pub statements : Tally

  -- An exported function: the status that it returns, and the world after it.
  abbrev pub Op : Type 0
  Op = World → Status × World

  -- A call of the driver.
  abbrev pub Method : Type 0 → Type 0
  Method A = drv.State → Outcome A × drv.State

  unfoldable pub done : Op
  done w = (Status.ok, w)

  -- `setErr` with a constant text, and the return after it.
  unfoldable pub refuse : Status → String → String → Op
  refuse status name text w = (status, record w { error = set_err w.error (says name text) })

  -- `fmtErr` with the format "%s: text".
  unfoldable pub refuse_at : Status → String → String → Op
  refuse_at status name text w =
      (status, record w { error = fmt_err w.error (says "%s" text) (says name text) })

  unfoldable pub poison : String → Bytes → Op
  poison name value w =
      let text : String = "Go panic in mariadb driver (see stderr): " in
      (
        Status.internal,
        record w {
          poisoned = true;
          error =
              fmt_err w.error (says "%s" "Go panic in mariadb driver (see stderr): %#v")
                (says name text ++ value);
        },
      )

  -- The return of `errToAdbcErr`.
  unfoldable pub fail : GoFailure → Op
  fail e w = let answer = err_to_adbc_err w.error e in (answer.0, record w { error = answer.1 })

  -- What follows a call of the driver: the rest, the return of the error, or the `recover`.
  abbrev pub finish : {A : Type 0} → String → (A → Op) → Outcome A × drv.State → Op
  finish name next (returned a, st) w = next a (record w { state = st })
  finish name next (fails e, st) w = fail e (record w { state = st })
  finish name next (panics v, st) w = poison name v (record w { state = st })

  unfoldable pub call : {A : Type 0} → String → Method A → (A → Op) → Op
  call name m next w = finish name next (m w.state) w

  -- A method that is given a `NewContext()`.
  abbrev pub in_context : {A : Type 0} → ContextOf → Method A → Method A
  in_context c m st = m (drv.new_context c st)

  unfoldable pub just_done : Unit {0} → Op
  just_done u = done

  unfoldable pub too_long : ℕ → Op
  too_long len w = (
    Status.invalid_argument,
    record w {
      error = fmt_err w.error (codes "Length %d exceeds max Go int %d") (length_text len);
    },
  )

  unfoldable pub check_length_to_int : ℕ → Op → Op
  check_length_to_int len rest w = if ltb max_int len then too_long len w else rest w

  unfoldable pub copied : String → Option Bytes → (Bytes → Op) → Op
  copied name (some v) next w = next v w
  copied name none next w = poison name drv.runtime_error w

  -- Bytes that C hands over with their length.
  unfoldable pub with_bytes : String → Bytes → ℕ → (Bytes → Op) → Op
  with_bytes name value len next = check_length_to_int len (copied name (go_bytes value len) next)

  -- With a new context, for what follows.
  unfoldable pub in_new_context : ContextOf → Op → Op
  in_new_context c op w = op (record w { state = drv.new_context c w.state })

  -- The same where the call makes a context before it copies the bytes.
  unfoldable pub with_bytes_in : ContextOf → String → Bytes → ℕ → (Bytes → Op) → Op
  with_bytes_in c name value len next =
      check_length_to_int len (in_new_context c (copied name (go_bytes value len) next))

  -- The object behind a handle, and the part of it that `Init` makes.
  abbrev pub behind : {O : Type 0} → String → String → Option O → (O → Op) → Op
  behind name missing none f w = refuse_at Status.invalid_state name missing w
  behind name missing (some o) f w = f o w

  abbrev pub unless_poisoned : String → Op → Op
  unless_poisoned name rest w =
      if w.poisoned
      then refuse_at Status.invalid_state name "Go panicked, driver is in unknown state" w
      else rest w

  -- The checks of a handle, and what the function does with the object.
  unfoldable pub check_db_alloc : String → (CDatabase → Op) → Op
  check_db_alloc name f w =
      unless_poisoned name (behind name "database not allocated" w.database f) w

  abbrev pub db_of : String → (drv.Database → Op) → CDatabase → Op
  db_of name f cdb = behind name "database not initialized" cdb.db f

  unfoldable pub check_db_init : String → (drv.Database → Op) → Op
  check_db_init name f = check_db_alloc name (db_of name f)

  unfoldable pub check_conn_alloc : String → (CConn → Op) → Op
  check_conn_alloc name f w =
      unless_poisoned name (behind name "connection not allocated" w.connection f) w

  abbrev pub cnxn_of : String → (drv.Connection → Op) → CConn → Op
  cnxn_of name f conn = behind name "connection not initialized" conn.cnxn f

  unfoldable pub check_conn_init : String → (drv.Connection → Op) → Op
  check_conn_init name f = check_conn_alloc name (cnxn_of name f)

  unfoldable pub check_stmt_alloc : String → (CStmt → Op) → Op
  check_stmt_alloc name f w =
      unless_poisoned name (behind name "statement not allocated" w.statement f) w

  abbrev pub stmt_of : String → (drv.Statement → Op) → CStmt → Op
  stmt_of name f st = behind name "statement not allocated" st.stmt f

  unfoldable pub check_stmt_init : String → (drv.Statement → Op) → Op
  check_stmt_init name f = check_stmt_alloc name (stmt_of name f)
