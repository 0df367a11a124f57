-- ===== src/Session/Statement.antt =====
-- `mariadbStatement` of go/mariadb.go: the query, whether it is prepared, and its parameters.
use adbc_driver_mariadb.Base.{Bool, true, false, List, [], replicate}
use adbc_driver_mariadb.Base.Text.{Bytes}
use adbc_driver_mariadb.Base.Result.{Result, ok, err}
use adbc_driver_mariadb.Sql.Scan.{count_placeholders}
use adbc_driver_mariadb.Arrow.{other, Field}
use adbc_driver_mariadb.Session.Server.{Failure, passed, invalid_state, Exec, Done}

-- The embedded `StatementImplBase`.
pub record StatementBase : Type 1 where
  pub State : Type 0
  pub set_sql_query : Bytes → State → Result Bytes Done × State
  pub prepare : State → Result Bytes Done × State

-- The field of a parameter: `arrow.Field{Type: arrow.Null, Nullable: true}`.
abbrev pub null_field : Field
null_field = record { name = []; type = other "null"; nullable = true; metadata = [] }

module _ (base : StatementBase) where
  pub record Statement : Type 0 where
    pub inner : base.State
    pub query : Bytes
    pub prepared : Bool

  abbrev after_set :
      Bytes → Statement → Result Bytes Done × base.State → Result Failure Done × Statement
  after_set query s (ok _, inner') =
      (ok tt, record { inner = inner'; query = query; prepared = false })
  after_set query s (err e, inner') = (err (passed e), record s { inner = inner' })

  unfoldable pub set_sql_query : Bytes → Exec Statement Done
  set_sql_query query s = after_set query s (base.set_sql_query query s.inner)

  abbrev after_prepare :
      Statement → Result Bytes Done × base.State → Result Failure Done × Statement
  after_prepare s (ok _, inner') = (ok tt, record s { inner = inner'; prepared = true })
  after_prepare s (err e, inner') = (err (passed e), record s { inner = inner'; prepared = false })

  unfoldable pub prepare : Exec Statement Done
  prepare s = after_prepare s (base.prepare s.inner)

  abbrev parameters : Bool → Bytes → Result Failure (List Field)
  parameters false query =
      err (invalid_state "statement must be prepared before getting parameter schema")
  parameters true query = ok (replicate (count_placeholders query) null_field)

  unfoldable pub get_parameter_schema : Exec Statement (List Field)
  get_parameter_schema s = (parameters s.prepared s.query, s)
