-- ===== src/Session/Tests.antt =====
-- Small servers and libraries for the objects of go/mariadb.go and go/connection.go.
use text.Mathlib.Text.{◌==◌}
use adbc_driver_mariadb.Base.{
  String, true, false, ◌≡◌, refl, ap, sym, ◌∙◌, List, [], ◌∷◌, Option, none, some, some-injective,
  replicate, if◌then◌else◌,
}
use adbc_driver_mariadb.Base.Text.{Bytes, codes, equal}
use adbc_driver_mariadb.Base.Result.{Result, ok, err}
use adbc_driver_mariadb.Sql.Scan.{count_placeholders}
use adbc_driver_mariadb.Convert.Inserter.{error_behavior}
use adbc_driver_mariadb.Session.Server.{Done, Server, invalid_state, passed}
use adbc_driver_mariadb.Session.ZeroBehavior.{option_key}
use adbc_driver_mariadb.Session.Options.{Embedded, Object, set_option}
use adbc_driver_mariadb.Session.NewStatement.{one, new_statement, new_statement-behavior}
use adbc_driver_mariadb.Session.Statement.{
  StatementBase, Statement, null_field, get_parameter_schema,
}
use adbc_driver_mariadb.Session.Prepared.{
  Call, set_query, prepare_query, accepted, view, run, get_parameter_schema-accepted,
}
use adbc_driver_mariadb.Session.Isolation.{
  Level, default_level, read_uncommitted, read_committed, repeatable_read, serializable, snapshot,
  linearizable, LevelNames, set_isolation_level, get_isolation_level,
}
use adbc_driver_mariadb.Session.IsolationRound.{
  KeepsLevel, manual_statement, report, get-set_isolation_level,
}
use adbc_driver_mariadb.Session.Info.{prepare_driver_info}

-- The level that a session has after a statement, which is its state.
abbrev reported_after : Bytes → Bytes
reported_after statement =
    if equal statement (codes "SET SESSION TRANSACTION ISOLATION LEVEL READ UNCOMMITTED")
    then codes "READ-UNCOMMITTED"
    else if equal statement (codes "SET SESSION TRANSACTION ISOLATION LEVEL READ COMMITTED")
    then codes "READ-COMMITTED"
    else if equal statement (codes "SET SESSION TRANSACTION ISOLATION LEVEL SERIALIZABLE")
    then codes "SERIALIZABLE"
    else codes "REPEATABLE-READ"

abbrev small_server : Server
small_server = record {
  State = Bytes;
  get_option = λ key s. (err [], s);
  set_option = λ key value s. (err [], s);
  clear_pending = λ s. (ok tt, s);
  execute = λ statement s. (ok tt, statement);
  query_text = λ query s. (ok (reported_after s), s);
}

abbrev level_text : Level → String
level_text default_level = "default"
level_text read_uncommitted = "read_uncommitted"
level_text read_committed = "read_committed"
level_text repeatable_read = "repeatable_read"
level_text serializable = "serializable"
level_text snapshot = "snapshot"
level_text linearizable = "linearizable"

abbrev level_of : String → Option Level
level_of v =
    if v == "default"
    then some default_level
    else if v == "read_uncommitted"
    then some read_uncommitted
    else if v == "read_committed"
    then some read_committed
    else if v == "repeatable_read"
    then some repeatable_read
    else if v == "serializable"
    then some serializable
    else if v == "snapshot"
    then some snapshot
    else if v == "linearizable"
    then some linearizable
    else none

level_read : (l : Level) → level_of (level_text l) ≡ some l
level_read default_level = refl
level_read read_uncommitted = refl
level_read read_committed = refl
level_read repeatable_read = refl
level_read serializable = refl
level_read snapshot = refl
level_read linearizable = refl

abbrev small_names : LevelNames
small_names = record {
  key = "isolation";
  text = level_text;
  read = level_of;
  read-text = level_read;
}

reports :
    (l : Level) (statement name : Bytes)
    → manual_statement l ≡ some statement
    → report l ≡ some name
    → reported_after statement ≡ name
unfolding equal
reports read_uncommitted statement name h g =
    ap reported_after (sym (some-injective _ statement h)) ∙ some-injective _ name g
reports read_committed statement name h g =
    ap reported_after (sym (some-injective _ statement h)) ∙ some-injective _ name g
reports repeatable_read statement name h g =
    ap reported_after (sym (some-injective _ statement h)) ∙ some-injective _ name g
reports serializable statement name h g =
    ap reported_after (sym (some-injective _ statement h)) ∙ some-injective _ name g
reports _ statement name h g = cc

small_server-KeepsLevel : KeepsLevel small_server
small_server-KeepsLevel = record {
  clears = λ s. refl;
  keeps = λ l statement name s h g.
      (statement, refl, ap (λ n. (ok n, statement)) (reports l statement name h g));
}

get-set_isolation_level_example :
    (s' : Bytes) × (set_isolation_level small_server small_names "serializable" (codes "")
      ≡ (ok tt, s'))
    × (get_isolation_level small_server small_names s' ≡ (ok "serializable", s'))
get-set_isolation_level_example =
    get-set_isolation_level small_server small_names serializable (codes "SERIALIZABLE") (codes "")
      small_server-KeepsLevel refl

-- A library that keeps the option that was set last.
abbrev last_option : Embedded
last_option = record {
  State = String;
  get_option = λ key s. (ok s, s);
  set_option = λ key value s. (ok tt, value);
}

abbrev fresh : Object last_option
fresh = record { inner = "none"; zero_behavior = error_behavior }

abbrev option_value : String
option_value = "convert_to_null"

abbrev set_to : String → Object last_option
set_to value = (set_option last_option option_key value fresh).1

abbrev new_option : String → Result Bytes String × String
new_option s = (ok "new", s)

abbrev close_option : String → Result Bytes Done
close_option s = ok tt

new_statement-behavior_example :
    ((b p : String)
      → new_option "none" ≡ (ok b, p)
      → (new_statement last_option last_option new_option close_option fresh).0
        ≡ ok (record { inner = b; zero_behavior = error_behavior }))
    × ((e : Bytes) (p : String)
        → new_option "none" ≡ (err e, p)
        → (new_statement last_option last_option new_option close_option fresh).0
          ≡ err (one (passed e)))
new_statement-behavior_example =
    new_statement-behavior last_option last_option new_option close_option fresh

-- A library that accepts every query, and prepares all but the empty one.
abbrev careful : StatementBase
careful = record {
  State = Bytes;
  set_sql_query = λ query s. (ok tt, query);
  prepare = λ s. (if equal s [] then err (codes "empty query") else ok tt, s);
}

abbrev no_query : Statement careful
no_query = record { inner = []; query = []; prepared = false }

abbrev two_calls : List Call
two_calls = set_query (codes "SELECT ?, ?") ∷ prepare_query ∷ []

get_parameter_schema-accepted_example :
    ((accepted careful two_calls [] (view careful no_query)).prepared ≡ true
      → (get_parameter_schema careful (run careful two_calls no_query)).0
        ≡ ok (
            replicate
              (count_placeholders (accepted careful two_calls [] (view careful no_query)).query)
              null_field))
    × ((accepted careful two_calls [] (view careful no_query)).prepared ≡ false
        → (get_parameter_schema careful (run careful two_calls no_query)).0
          ≡ err (invalid_state "statement must be prepared before getting parameter schema"))
get_parameter_schema-accepted_example = get_parameter_schema-accepted careful two_calls no_query

abbrev answered_version : Bytes → Result Bytes (Bytes × Bytes) × Bytes
answered_version s = (ok (codes "11.4", codes "MariaDB"), s)

abbrev lost_version : Bytes → Result Bytes (Bytes × Bytes) × Bytes
lost_version s = (err (codes "lost"), s)

abbrev register_text : Bytes → Bytes → Result Bytes Done × Bytes
register_text version s = (ok tt, version)

prepare_once :
    prepare_driver_info small_server answered_version register_text ([], [])
    ≡ (ok tt, (codes "11.4 (MariaDB)", codes "11.4 (MariaDB)"))
unfolding prepare_driver_info
prepare_once = refl
