-- ===== src/Export/Told/Rules.antt =====
-- The checks and the calls of go/pkg/driver.go case by case, for any statement about their result.
use adbc_driver_mariadb.Export.Option.{max_int, go_bytes}
use adbc_driver_mariadb.Base.{
  ℕ, ltb, String, ◌≡◌, refl, Bool, true, false, Option, none, some, if◌then◌else◌,
}
use adbc_driver_mariadb.Base.Text.{Bytes}
use adbc_driver_mariadb.ErrorInspector.{Status}
use adbc_driver_mariadb.Export.Error.{GoFailure}
use adbc_driver_mariadb.Export.Driver.{Outcome, returned, fails, panics, Driver}
use adbc_driver_mariadb.Export.World.{
  CDatabase, CConn, CStmt, World, Op, Method, refuse_at, poison, fail, finish, call, behind,
  too_long, copied, check_length_to_int, with_bytes, check_db_alloc, check_db_init,
  check_conn_alloc, check_conn_init, check_stmt_alloc,
}

pub if_rule :
    {A : Type 0} (P : A → Type 0) (b : Bool) (p q : A) → P p → P q → P (if b then p else q)
if_rule P true p q h k = h
if_rule P false p q h k = k

module _ (drv : Driver) (P : Status × World drv → Type 0) (w : World drv) (name : String) where
  abbrev pub Refused : Type 0
  Refused = (text : String) → P (refuse_at drv Status.invalid_state name text w)

  behind_rule :
      {O : Type 0} (missing : String) (f : O → Op drv) (o : Option O)
      → Refused
      → ((x : O) → o ≡ some x → P (f x w))
      → P (behind drv name missing o f w)
  behind_rule missing f none r h = r missing
  behind_rule missing f (some x) r h = h x refl

  module _ (r : Refused) where
    pub check_db_alloc_rule :
        (f : CDatabase drv → Op drv)
        → ((cdb : CDatabase drv) → w.database ≡ some cdb → P (f cdb w))
        → P (check_db_alloc drv name f w)
    unfolding check_db_alloc
    check_db_alloc_rule f h = if_rule P w.poisoned _ _ (r _) (behind_rule _ f w.database r h)

    pub check_conn_alloc_rule :
        (f : CConn drv → Op drv)
        → ((conn : CConn drv) → w.connection ≡ some conn → P (f conn w))
        → P (check_conn_alloc drv name f w)
    unfolding check_conn_alloc
    check_conn_alloc_rule f h = if_rule P w.poisoned _ _ (r _) (behind_rule _ f w.connection r h)

    pub check_stmt_alloc_rule :
        (f : CStmt drv → Op drv)
        → ((st : CStmt drv) → w.statement ≡ some st → P (f st w))
        → P (check_stmt_alloc drv name f w)
    unfolding check_stmt_alloc
    check_stmt_alloc_rule f h = if_rule P w.poisoned _ _ (r _) (behind_rule _ f w.statement r h)

    pub check_db_init_rule :
        (f : drv.Database → Op drv)
        → ((db : drv.Database) → P (f db w))
        → P (check_db_init drv name f w)
    unfolding check_db_init
    check_db_init_rule f h = check_db_alloc_rule _ λ cdb e. behind_rule _ f cdb.db r λ db e'. h db

    pub check_conn_init_rule :
        (f : drv.Connection → Op drv)
        → ((c : drv.Connection) → P (f c w))
        → P (check_conn_init drv name f w)
    unfolding check_conn_init
    check_conn_init_rule f h =
        check_conn_alloc_rule _ λ conn e. behind_rule _ f conn.cnxn r λ c e'. h c

  module _ {A : Type 0} (next : A → Op drv)
      (h : (a : A) (st : drv.State) → P (next a (record w { state = st })))
      (k : (e : GoFailure) (st : drv.State) → P (fail drv e (record w { state = st })))
      (l : (v : Bytes) (st : drv.State) → P (poison drv name v (record w { state = st }))) where
    finish_rule : (o : Outcome A × drv.State) → P (finish drv name next o w)
    finish_rule (returned a, st) = h a st
    finish_rule (fails e, st) = k e st
    finish_rule (panics v, st) = l v st

    pub call_rule : (m : Method drv A) → P (call drv name m next w)
    unfolding call
    call_rule m = finish_rule (m w.state)

  module _ (next : Bytes → Op drv) (h : (v : Bytes) → P (next v w))
      (k : (len : ℕ) → P (too_long drv len w)) (l : (v : Bytes) → P (poison drv name v w)) where
    copied_rule : (o : Option Bytes) → P (copied drv name o next w)
    unfolding copied
    copied_rule (some v) = h v
    copied_rule none = l _

    pub with_bytes_rule : (value : Bytes) (len : ℕ) → P (with_bytes drv name value len next w)
    unfolding with_bytes check_length_to_int
    with_bytes_rule value len =
        if_rule P (ltb max_int len) _ _ (k len) (copied_rule (go_bytes value len))
