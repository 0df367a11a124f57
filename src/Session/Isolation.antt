-- ===== src/Session/Isolation.antt =====
-- The connection's options in go/mariadb.go: `GetOption`, `SetOption` and `setIsolationLevel`.
use text.Mathlib.Text.{◌==◌}
use adbc_driver_mariadb.Base.{String, ◌≡◌, map, Option, none, some, if◌then◌else◌}
use adbc_driver_mariadb.Base.{◌==◌ as nat_eq}
use adbc_driver_mariadb.Base.Text.{Bytes, codes, equal, to_upper}
use adbc_driver_mariadb.Base.Result.{Result, ok, err}
use adbc_driver_mariadb.Session.Server.{
  Failure, invalid_argument, not_implemented, internal, Exec, Done, pure, raise, pass, wrap, ◌>>=◌,
  ◌>>◌, Server,
}
use adbc_driver_mariadb.Session.ZeroBehavior.{option_key}
use adbc_driver_mariadb.Session.Options.{Embedded, Object, get_option, set_option}

-- `adbc.OptionIsolationLevel`
pub data Level : Type 0 where
  default_level read_uncommitted read_committed repeatable_read serializable : Level
  snapshot linearizable : Level

-- The option's key and values, which ADBC names. The values are distinct, so each names its level.
pub record LevelNames : Type 0 where
  pub key : String
  pub text : Level → String
  pub read : String → Option Level
  pub read-text : (l : Level) → read (text l) ≡ some l

-- `strings.ReplaceAll(level, "-", " ")`
unfoldable pub spaced : Bytes → Bytes
spaced = map (λ c. if nat_eq c b'-' then b' ' else c)

-- The switch of `GetOption` on what the server reports.
unfoldable pub level_of_report : Bytes → Option Level
unfolding spaced to_upper equal
level_of_report report =
    let name = to_upper (spaced report) in
    if equal name (codes "READ UNCOMMITTED")
    then some read_uncommitted
    else if equal name (codes "READ COMMITTED")
    then some read_committed
    else if equal name (codes "REPEATABLE READ")
    then some repeatable_read
    else if equal name (codes "SERIALIZABLE")
    then some serializable
    else none

-- The switch of `setIsolationLevel`: the statement to execute, or the refusal.
unfoldable pub level_statement : Option Level → Result Failure Bytes
level_statement (some default_level) = ok (codes "SET SESSION transaction_isolation = DEFAULT")
level_statement (some read_uncommitted) =
    ok (codes "SET SESSION TRANSACTION ISOLATION LEVEL READ UNCOMMITTED")
level_statement (some read_committed) =
    ok (codes "SET SESSION TRANSACTION ISOLATION LEVEL READ COMMITTED")
level_statement (some repeatable_read) =
    ok (codes "SET SESSION TRANSACTION ISOLATION LEVEL REPEATABLE READ")
level_statement (some serializable) =
    ok (codes "SET SESSION TRANSACTION ISOLATION LEVEL SERIALIZABLE")
level_statement (some snapshot) = err (not_implemented "transaction isolation level")
level_statement (some linearizable) = err (not_implemented "transaction isolation level")
level_statement none = err (invalid_argument "invalid transaction isolation level")

abbrev pub level_query : Bytes
level_query = codes "SELECT @@SESSION.transaction_isolation"

-- The embedded base connection, for the options that it handles.
abbrev pub embedded : Server → Embedded
embedded srv = record {
  State = srv.State;
  get_option = srv.get_option;
  set_option = srv.set_option;
}

module _ (srv : Server) (names : LevelNames) where
  abbrev execute_level : Result Failure Bytes → Exec srv.State Done
  execute_level (ok statement) =
      wrap "failed to set transaction isolation level" (srv.execute statement)
  execute_level (err e) = raise e

  unfoldable pub set_isolation_level : String → Exec srv.State Done
  unfolding level_statement
  set_isolation_level value = do
    pass srv.clear_pending
    execute_level (level_statement (names.read value))

  abbrev reported : Option Level → Exec srv.State String
  reported none = raise (internal "unknown MariaDB transaction isolation level")
  reported (some l) = pure (names.text l)

  unfoldable pub get_isolation_level : Exec srv.State String
  unfolding level_of_report
  get_isolation_level = do
    pass srv.clear_pending
    level ← wrap "failed to get transaction isolation level" (srv.query_text level_query)
    reported (level_of_report level)

  -- `mariadbConnectionImpl`: its session is the embedded object.
  abbrev pub Connection : Type 0
  Connection = Object (embedded srv)

  -- A method of the session alone.
  abbrev pub in_session : {A : Type 0} → Exec srv.State A → Exec Connection A
  in_session m c = let (r, session) = m c.inner in (r, record c { inner = session })

  unfoldable pub connection_get_option : String → Exec Connection String
  unfolding get_option get_isolation_level
  connection_get_option key =
      if key == option_key
      then get_option (embedded srv) key
      else if key == names.key
      then in_session get_isolation_level
      else get_option (embedded srv) key

  unfoldable pub connection_set_option : String → String → Exec Connection Done
  unfolding set_option set_isolation_level
  connection_set_option key value =
      if key == option_key
      then set_option (embedded srv) key value
      else if key == names.key
      then in_session (set_isolation_level value)
      else set_option (embedded srv) key value
