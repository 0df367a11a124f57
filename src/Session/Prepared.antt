-- ===== src/Session/Prepared.antt =====
-- When `GetParameterSchema` of go/mariadb.go has an answer, and which.
use adbc_driver_mariadb.Base.{Bool, true, false, ◌≡◌, refl, List, [], ◌∷◌, replicate, arith}
use adbc_driver_mariadb.Base.Text.{Bytes}
use adbc_driver_mariadb.Base.Result.{Result, ok, err}
use adbc_driver_mariadb.Sql.Scan.{count_placeholders}
use adbc_driver_mariadb.Session.Server.{Failure, invalid_state, Done}
use adbc_driver_mariadb.Session.Statement.{
  StatementBase, Statement, null_field, set_sql_query, prepare, get_parameter_schema,
}

-- A call on a statement.
pub data Call : Type 0 where
  set_query : Bytes → Call
  prepare_query : Call

-- What the base library has accepted: the last query, and whether it was prepared since.
pub record Accepted : Type 0 where
  pub query : Bytes
  pub prepared : Bool

module _ (base : StatementBase) where
  pub call : Call → Statement base → Result Failure Done × Statement base
  unfolding set_sql_query prepare
  call (set_query q) s = set_sql_query base q s
  call prepare_query s = prepare base s

  pub run : List Call → Statement base → Statement base
  run [] s = s
  run (c ∷ cs) s = run cs (call c s).1

  -- The specification sees only whether the base library accepted each call.
  abbrev pub accept : Call → Result Bytes Done → Accepted → Accepted
  accept (set_query q) (ok _) a = record { query = q; prepared = false }
  accept (set_query q) (err _) a = a
  accept prepare_query (ok _) a = record a { prepared = true }
  accept prepare_query (err _) a = record a { prepared = false }

  abbrev pub base_call : Call → base.State → Result Bytes Done × base.State
  base_call (set_query q) b = base.set_sql_query q b
  base_call prepare_query b = base.prepare b

  pub accepted : List Call → base.State → Accepted → Accepted
  accepted [] b a = a
  accepted (c ∷ cs) b a = let (r, b') = base_call c b in accepted cs b' (accept c r a)

  abbrev pub view : Statement base → Accepted
  view s = record { query = s.query; prepared = s.prepared }

  call-view :
      (c : Call) (s : Statement base)
      → (view (call c s).1 ≡ accept c (base_call c s.inner).0 (view s))
        × ((call c s).1.inner ≡ (base_call c s.inner).1)
  unfolding call set_sql_query prepare
  call-view (set_query q) s = ground arith
  call-view prepare_query s = ground arith

  run-view : (cs : List Call) (s : Statement base) → view (run cs s) ≡ accepted cs s.inner (view s)
  unfolding run accepted
  run-view [] s = refl
  run-view (c ∷ cs) s = cc (run-view cs (call c s).1, (call-view c s).0, (call-view c s).1)

  -- After any calls, whatever the base library answered, the parameter schema has one nullable
  -- null-typed field for each placeholder of the last query that was accepted if a later `Prepare`
  -- was the last call to change that, and succeeded; otherwise it is refused as an invalid state.
  pub get_parameter_schema-accepted :
      (cs : List Call) (s : Statement base)
      → ((accepted cs s.inner (view s)).prepared ≡ true
          → (get_parameter_schema base (run cs s)).0
            ≡ ok (replicate (count_placeholders (accepted cs s.inner (view s)).query) null_field))
        × ((accepted cs s.inner (view s)).prepared ≡ false
            → (get_parameter_schema base (run cs s)).0
              ≡ err (invalid_state "statement must be prepared before getting parameter schema"))
  unfolding get_parameter_schema
  get_parameter_schema-accepted cs s =
      (λ h. ground (arith, run-view cs s), λ h. ground (arith, run-view cs s))
