-- ===== src/Export/Refused/Poisoned.antt =====
-- Calls of go/pkg/driver.go in a poisoned driver.
use adbc_driver_mariadb.Base.{String, ◌≡◌, ◌≢◌, inl, true}
use adbc_driver_mariadb.ErrorInspector.{Status}
use adbc_driver_mariadb.Export.Driver.{Driver}
use adbc_driver_mariadb.Export.World.{CDatabase, CConn, World, Op, check_db_alloc, check_conn_alloc}
use adbc_driver_mariadb.Export.Database.{
  database_new, database_set_option, database_set_option_bytes, database_set_option_double,
  database_set_option_int, database_init, database_release,
}
use adbc_driver_mariadb.Export.Connection.{
  connection_new, connection_set_option, connection_init, connection_release,
}
use adbc_driver_mariadb.Export.Statement.{statement_new, statement_release}
use adbc_driver_mariadb.Export.Calls.{
  Call, new_database, init_database, release_database, set_database_option,
  set_database_option_bytes, set_database_option_double, set_database_option_int, at_database,
  new_connection, init_connection, release_connection, set_connection_option, at_connection,
  new_statement, release_statement, at_statement, perform,
}
use adbc_driver_mariadb.Export.Refused.{
  IsRefused, invalid-IsRefused, stopped, check_db_alloc-IsInvalidState,
  check_conn_alloc-IsInvalidState,
}
use adbc_driver_mariadb.Export.Refused.Uses.{
  use_database-IsInvalidState, use_connection-IsInvalidState, use_statement-IsInvalidState,
}

module _ (drv : Driver) (w : World drv) (h : w.poisoned ≡ true) where
  -- The status with which `New` and the release of a statement answer.
  internal_error : Status.internal ≢ Status.ok
  internal_error e = cc

  database_alloc :
      (name : String) (f : CDatabase drv → Op drv) → IsRefused drv w (check_db_alloc drv name f w)
  database_alloc name f = invalid-IsRefused drv (check_db_alloc-IsInvalidState drv w h name f)

  connection_alloc :
      (name : String) (f : CConn drv → Op drv) → IsRefused drv w (check_conn_alloc drv name f w)
  connection_alloc name f = invalid-IsRefused drv (check_conn_alloc-IsInvalidState drv w h name f)

  pub perform-IsRefused : (c : Call drv) → IsRefused drv w (perform drv c w)
  unfolding database_new database_set_option database_set_option_bytes database_set_option_double
      database_set_option_int database_init database_release connection_new connection_set_option
      connection_init connection_release statement_new statement_release
  perform-IsRefused new_database = stopped drv w h _ _ _ _ internal_error
  perform-IsRefused init_database = database_alloc _ _
  perform-IsRefused release_database = database_alloc _ _
  perform-IsRefused (set_database_option key value) = database_alloc _ _
  perform-IsRefused (set_database_option_bytes key value len) = database_alloc _ _
  perform-IsRefused (set_database_option_double key value) = database_alloc _ _
  perform-IsRefused (set_database_option_int key value) = database_alloc _ _
  perform-IsRefused (at_database u) =
      invalid-IsRefused drv (use_database-IsInvalidState drv u w (inl h))
  perform-IsRefused new_connection = stopped drv w h _ _ _ _ internal_error
  perform-IsRefused init_connection = connection_alloc _ _
  perform-IsRefused release_connection = connection_alloc _ _
  perform-IsRefused (set_connection_option key value) = connection_alloc _ _
  perform-IsRefused (at_connection u) =
      invalid-IsRefused drv (use_connection-IsInvalidState drv u w (inl h))
  perform-IsRefused new_statement = stopped drv w h _ _ _ _ internal_error
  perform-IsRefused release_statement = stopped drv w h _ _ _ _ internal_error
  perform-IsRefused (at_statement u) =
      invalid-IsRefused drv (use_statement-IsInvalidState drv u w (inl h))
