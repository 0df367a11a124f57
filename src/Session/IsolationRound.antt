-- ===== src/Session/IsolationRound.antt =====
-- The isolation level of go/mariadb.go, set and read back through a server.
use adbc_driver_mariadb.Base.{
  ◌≡◌, refl, ap, sym, ◌∙◌, Option, none, some, some-injective, ◌⊎◌, inl, inr,
}
use adbc_driver_mariadb.Base.Text.{Bytes, codes}
use adbc_driver_mariadb.Base.Result.{ok, err}
use adbc_driver_mariadb.Session.Server.{Server, not_implemented}
use adbc_driver_mariadb.Session.Isolation.{
  Level, default_level, read_uncommitted, read_committed, repeatable_read, serializable, snapshot,
  linearizable, LevelNames, level_of_report, level_statement, level_query, set_isolation_level,
  get_isolation_level,
}

-- How a server reports the levels that it has.
abbrev pub report : Level → Option Bytes
report read_uncommitted = some (codes "READ-UNCOMMITTED")
report read_committed = some (codes "READ-COMMITTED")
report repeatable_read = some (codes "REPEATABLE-READ")
report serializable = some (codes "SERIALIZABLE")
report _ = none

-- The statement of MariaDB's manual that sets such a level for a session.
abbrev pub manual_statement : Level → Option Bytes
manual_statement read_uncommitted =
    some (codes "SET SESSION TRANSACTION ISOLATION LEVEL READ UNCOMMITTED")
manual_statement read_committed =
    some (codes "SET SESSION TRANSACTION ISOLATION LEVEL READ COMMITTED")
manual_statement repeatable_read =
    some (codes "SET SESSION TRANSACTION ISOLATION LEVEL REPEATABLE READ")
manual_statement serializable = some (codes "SET SESSION TRANSACTION ISOLATION LEVEL SERIALIZABLE")
manual_statement _ = none

-- A server with no pending results, where the manual's statement for a level has the effect that the
-- session's variable reports this level.
pub record KeepsLevel (srv : Server) : Type 0 where
  pub clears : (s : srv.State) → srv.clear_pending s ≡ (ok tt, s)
  pub keeps :
      (l : Level) (statement name : Bytes) (s : srv.State)
      → manual_statement l ≡ some statement
      → report l ≡ some name
      → (s' : srv.State) × (srv.execute statement s ≡ (ok tt, s'))
        × (srv.query_text (codes "SELECT @@SESSION.transaction_isolation") s' ≡ (ok name, s'))

reads_as :
    (l : Level) (n m : Bytes)
    → some n ≡ some m
    → level_of_report n ≡ some l
    → level_of_report m ≡ some l
reads_as l n m e h = ap level_of_report (sym (some-injective n m e)) ∙ h

level_of_report-report :
    (l : Level) (name : Bytes) → report l ≡ some name → level_of_report name ≡ some l
unfolding level_of_report
level_of_report-report read_uncommitted name h = reads_as _ _ name h refl
level_of_report-report read_committed name h = reads_as _ _ name h refl
level_of_report-report repeatable_read name h = reads_as _ _ name h refl
level_of_report-report serializable name h = reads_as _ _ name h refl
level_of_report-report _ name h = cc

statement_of :
    (l : Level) (name : Bytes)
    → report l ≡ some name
    → (statement : Bytes) × (manual_statement l ≡ some statement)
      × (level_statement (some l) ≡ ok statement)
unfolding level_statement
statement_of read_uncommitted name h = (_, refl, refl)
statement_of read_committed name h = (_, refl, refl)
statement_of repeatable_read name h = (_, refl, refl)
statement_of serializable name h = (_, refl, refl)
statement_of default_level name h = cc
statement_of snapshot name h = cc
statement_of linearizable name h = cc

module _ (srv : Server) (names : LevelNames) where
  set_isolation_level-statement :
      (l : Level) (statement : Bytes) (s s' : srv.State)
      → KeepsLevel srv
      → level_statement (some l) ≡ ok statement
      → srv.execute statement s ≡ (ok tt, s')
      → set_isolation_level srv names (names.text l) s ≡ (ok tt, s')
  unfolding set_isolation_level
  set_isolation_level-statement l statement s s' k e x =
      rw (k.clears s, set_isolation_level) (rw (names.read-text l) (rw e (rw x)))

  get_isolation_level-report :
      (l : Level) (name : Bytes) (s : srv.State)
      → KeepsLevel srv
      → report l ≡ some name
      → srv.query_text level_query s ≡ (ok name, s)
      → get_isolation_level srv names s ≡ (ok (names.text l), s)
  unfolding get_isolation_level
  get_isolation_level-report l name s k e q =
      rw (k.clears s, get_isolation_level) (rw q (rw (level_of_report-report l name e)))

  -- Over a server with no pending results, where the statement that MariaDB's manual gives for a level
  -- makes the session's variable report this level: each of the four levels that MariaDB has is set
  -- with success, and the option then reads back as the value that set it.
  pub get-set_isolation_level :
      (l : Level) (name : Bytes) (s : srv.State)
      → KeepsLevel srv
      → report l ≡ some name
      → (s' : srv.State) × (set_isolation_level srv names (names.text l) s ≡ (ok tt, s'))
        × (get_isolation_level srv names s' ≡ (ok (names.text l), s'))
  get-set_isolation_level l name s k e =
      let (statement, manual, w) = statement_of l name e in
      let (s', x, q) = k.keeps l statement name s manual e in
      (
        s',
        set_isolation_level-statement l statement s s' k w x,
        get_isolation_level-report l name s' k e q,
      )

  -- Over such a server the levels that MariaDB lacks are refused as not implemented, and the session
  -- stays as it was.
  set_isolation_level-unsupported :
      (l : Level) (s : srv.State)
      → KeepsLevel srv
      → (l ≡ snapshot) ⊎ (l ≡ linearizable)
      → set_isolation_level srv names (names.text l) s
        ≡ (err (not_implemented "transaction isolation level"), s)
  unfolding set_isolation_level
  set_isolation_level-unsupported l s k (inl e) =
      rw (k.clears s, set_isolation_level) (rw (names.read-text l) (rw e))
  set_isolation_level-unsupported l s k (inr e) =
      rw (k.clears s, set_isolation_level) (rw (names.read-text l) (rw e))
