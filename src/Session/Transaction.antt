-- ===== src/Session/Transaction.antt =====
-- Transactions and the current database: `SetAutocommit`, `Commit` and `Rollback` of go/mariadb.go,
-- and the namespace methods of go/connection.go.
use adbc_driver_mariadb.Base.{Bool, [], ◌++◌, if◌then◌else◌}
use adbc_driver_mariadb.Base.Text.{Bytes, codes, equal}
use adbc_driver_mariadb.Sql.Quote.{quote_identifier}
use adbc_driver_mariadb.Session.Server.{
  invalid_argument, invalid_state, Exec, Done, pure, raise, pass, wrap, ◌>>=◌, ◌>>◌, Server,
}

abbrev pub autocommit_statement : Bool → Bytes
autocommit_statement enabled =
    codes "SET autocommit = " ++ (if enabled then codes "1" else codes "0")

-- `GetCurrentDbSchema`
abbrev pub current_db_schema : Bytes
current_db_schema = []

module _ (srv : Server) where
  unfoldable pub set_autocommit : Bool → Exec srv.State Done
  set_autocommit enabled = do
    pass srv.clear_pending
    wrap "failed to set autocommit" (srv.execute (autocommit_statement enabled))

  unfoldable pub commit : Exec srv.State Done
  commit = do
    pass srv.clear_pending
    wrap "failed to commit transaction" (srv.execute (codes "COMMIT"))

  unfoldable pub rollback : Exec srv.State Done
  rollback = do
    pass srv.clear_pending
    wrap "failed to roll back transaction" (srv.execute (codes "ROLLBACK"))

  -- `Scan` into a string fails at NULL, which is an error of the query here.
  unfoldable pub get_current_catalog : Exec srv.State Bytes
  unfolding equal
  get_current_catalog = do
    pass srv.clear_pending
    database ← wrap "failed to get current database" (srv.query_text (codes "SELECT DATABASE()"))
    if equal database [] then raise (invalid_state "no current database set") else pure database

  unfoldable pub set_current_catalog : Bytes → Exec srv.State Done
  set_current_catalog catalog = do
    pass srv.clear_pending
    pass (srv.execute (codes "USE " ++ quote_identifier catalog))

  unfoldable pub set_current_db_schema : Bytes → Exec srv.State Done
  unfolding equal
  set_current_db_schema schema =
      if equal schema []
      then pure tt
      else raise (invalid_argument "cannot set schema in MariaDB: schemas are not supported")
