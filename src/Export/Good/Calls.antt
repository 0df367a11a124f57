-- ===== src/Export/Good/Calls.antt =====
-- Every call of go/pkg/driver.go, as Export.Good says.
use adbc_driver_mariadb.Export.Driver.{Driver}
use adbc_driver_mariadb.Export.World.{World}
use adbc_driver_mariadb.Export.Calls.{
  Call, new_database, init_database, release_database, set_database_option,
  set_database_option_bytes, set_database_option_double, set_database_option_int, at_database,
  new_connection, init_connection, release_connection, set_connection_option, at_connection,
  new_statement, release_statement, at_statement, perform,
}
use adbc_driver_mariadb.Export.Told.Uses.{
  use_database-IsUse, use_connection-IsUse, use_statement-IsUse,
}
use adbc_driver_mariadb.Export.Good.{IsGood, use-IsGood}
use adbc_driver_mariadb.Export.Good.Database.{
  database_new-IsGood, database_set_option-IsGood, database_set_option_bytes-IsGood,
  database_set_option_double-IsGood, database_set_option_int-IsGood, database_init-IsGood,
  database_release-IsGood,
}
use adbc_driver_mariadb.Export.Good.Connection.{
  connection_new-IsGood, connection_set_option-IsGood, connection_init-IsGood,
  connection_release-IsGood, statement_new-IsGood, statement_release-IsGood,
}

module _ (drv : Driver) where
  pub perform-IsGood : (c : Call drv) (w : World drv) → IsGood drv w (perform drv c w)
  perform-IsGood new_database w = database_new-IsGood drv w
  perform-IsGood init_database w = database_init-IsGood drv w
  perform-IsGood release_database w = database_release-IsGood drv w
  perform-IsGood (set_database_option key value) w = database_set_option-IsGood drv key value w
  perform-IsGood (set_database_option_bytes key value len) w =
      database_set_option_bytes-IsGood drv key value len w
  perform-IsGood (set_database_option_double key value) w =
      database_set_option_double-IsGood drv key value w
  perform-IsGood (set_database_option_int key value) w =
      database_set_option_int-IsGood drv key value w
  perform-IsGood (at_database u) w = use-IsGood drv _ w (use_database-IsUse drv u)
  perform-IsGood new_connection w = connection_new-IsGood drv w
  perform-IsGood init_connection w = connection_init-IsGood drv w
  perform-IsGood release_connection w = connection_release-IsGood drv w
  perform-IsGood (set_connection_option key value) w = connection_set_option-IsGood drv key value w
  perform-IsGood (at_connection u) w = use-IsGood drv _ w (use_connection-IsUse drv u)
  perform-IsGood new_statement w = statement_new-IsGood drv w
  perform-IsGood release_statement w = statement_release-IsGood drv w
  perform-IsGood (at_statement u) w = use-IsGood drv _ w (use_statement-IsUse drv u)
