-- ===== src/Export/Tests.antt =====
-- Runs of the exported functions of go/pkg/driver.go with the driver of Export.Sample.
use adbc_driver_mariadb.Base.{
  ◌+◌, ◌≤◌, ◌≡◌, ◌≢◌, refl, true, false, [], ◌∷◌, ◌++◌, map, length, take, drop, none, some, arith,
}
use adbc_driver_mariadb.Base.Text.{Bytes, codes}
use adbc_driver_mariadb.Base.Int.{pos}
use adbc_driver_mariadb.Base.Result.{ok}
use adbc_driver_mariadb.ErrorInspector.{Status}
use adbc_driver_mariadb.Export.Error.{
  CError, zero_error, error_get_detail_count, err_to_adbc_err, error_get_detail, sent_detail,
}
use adbc_driver_mariadb.Export.Option.{Buffer, export_string_option}
use adbc_driver_mariadb.Export.Option.Bounds.{
  export_string_option_bounds, export_string_option-twice,
}
use adbc_driver_mariadb.Export.Driver.{Partitions}
use adbc_driver_mariadb.Export.World.{
  World, call, fail, poison, refuse, done, just_done, check_db_alloc, check_db_init,
  check_conn_alloc, check_conn_init,
}
use adbc_driver_mariadb.Export.Logging.{init_logging_from_env, log_level}
use adbc_driver_mariadb.Export.Database.{database_new, database_init, apply_options, string_options}
use adbc_driver_mariadb.Export.Calls.{
  Call, new_database, init_database, new_connection, init_connection, release_connection,
  at_connection, new_statement, perform, performs, Reachable, at_start, after, held_database,
  held_connection, held_statement,
}
use adbc_driver_mariadb.Export.Uses.{ConnectionUse}
use adbc_driver_mariadb.Export.Told.{handles}
use adbc_driver_mariadb.Export.Connection.{
  connection_new, connection_init, connection_set_option, connection_release, apply_args,
}
use adbc_driver_mariadb.Export.Connection.Uses.{connection_commit}
use adbc_driver_mariadb.Export.Statement.{statement_new}
use adbc_driver_mariadb.Export.Connection.Init.{
  prepared, connection_init-set_option, connection_init-again,
}
use adbc_driver_mariadb.Export.Statement.Execute.{fill_partitions, slice_of}
use adbc_driver_mariadb.Export.Statement.Slices.{fill_partitions-slices, fill_partitions-empty_last}
use adbc_driver_mariadb.Export.Stream.{
  errno_of, Consumer, array_stream_get_next, array_stream_get_last_error, error_from_array_stream,
}
use adbc_driver_mariadb.Export.Stream.Reported.{get_next-error_from_array_stream}
use adbc_driver_mariadb.Export.Reachable.{
  Reachable-Counted, Step-poisoned, perform-explained, perform-invalid_state,
}
use adbc_driver_mariadb.Export.Sample.{lost, driver, out, start_world}

-- A call with the struct for the error and the out-parameters as they are.
abbrev next_world : Call driver → World driver → World driver
next_world c w = (perform driver c w).1

goes_on :
    (c : Call driver) (w : World driver) → Reachable driver w → Reachable driver (next_world c w)
goes_on c w r = after r (performs c w w.error w.out)

abbrev with_database : World driver
with_database = next_world init_database (next_world new_database start_world)

abbrev connected_world : World driver
connected_world = next_world init_connection (next_world new_connection with_database)

abbrev gone : World driver
gone = next_world release_connection (next_world new_statement connected_world)

gone-Reachable : Reachable driver gone
gone-Reachable = goes_on release_connection _ (
    goes_on new_statement _ (
      goes_on init_connection _ (
        goes_on new_connection _
          (goes_on init_database _ (goes_on new_database _ (at_start 0 (some zero_error) out))))))

Reachable-Counted_example :
    (gone.databases.made ≡ gone.databases.closed + held_database driver gone.database)
    × (gone.connections.made ≡ gone.connections.closed + held_connection driver gone.connection)
    × (gone.statements.made ≡ gone.statements.closed + held_statement driver gone.statement)
Reachable-Counted_example = Reachable-Counted driver gone-Reachable

gone_poisoned : gone.poisoned ≡ true
unfolding database_new database_init check_db_alloc call apply_options init_logging_from_env
    log_level string_options connection_new connection_init check_conn_alloc check_db_init
    apply_args just_done done statement_new check_conn_init connection_release poison refuse
gone_poisoned = refl

Step-poisoned_example :
    ((perform driver new_connection gone).0 ≢ Status.ok)
    × ((next_world new_connection gone).poisoned ≡ true)
    × ((next_world new_connection gone).state ≡ gone.state)
    × (handles driver (next_world new_connection gone) ≡ handles driver gone)
Step-poisoned_example =
    Step-poisoned driver (performs new_connection gone gone.error gone.out) gone_poisoned

abbrev ready : World driver
ready = record start_world {
  database = some (record { opts = []; db = some 0 });
  connection = some (record { cnxn = some 0; init_args = [] });
}

commit_fails : (perform driver (at_connection ConnectionUse.commit) ready).0 ≢ Status.ok
unfolding connection_commit check_conn_init check_conn_alloc call fail err_to_adbc_err
commit_fails e = cc

perform-explained_example :
    (e : CError) × (m : Bytes) × ((perform driver
        (at_connection ConnectionUse.commit)
        ready).1.error
      ≡ some e)
    × (e.message ≡ some m)
perform-explained_example =
    perform-explained driver (at_connection ConnectionUse.commit) ready zero_error refl commit_fails

perform-invalid_state_example :
    ((perform driver (at_connection ConnectionUse.rollback) start_world).0 ≡ Status.invalid_state)
    × ((perform driver (at_connection ConnectionUse.rollback) start_world).1 ≡ record start_world {
      error = (perform driver (at_connection ConnectionUse.rollback) start_world).1.error;
    })
perform-invalid_state_example =
    perform-invalid_state driver (at_connection ConnectionUse.rollback) start_world refl

abbrev four : Buffer
four = record { memory = codes "....."; room = 4 }

export_string_option_bounds_example :
    (drop 4 (export_string_option (codes "abc") four).memory ≡ drop 4 four.memory)
    × (length (export_string_option (codes "abc") four).memory ≡ length four.memory)
    × ((export_string_option (codes "abc") four).room ≡ length (codes "abc") + 1)
export_string_option_bounds_example = export_string_option_bounds (codes "abc") four

enough : (export_string_option (codes "abc") out.buffer).room ≤ length (codes "......")
unfolding export_string_option
enough = omega arith

export_string_option-twice_example :
    take
      (length (codes "abc") + 1)
      (export_string_option (codes "abc") (record {
        memory = codes "......";
        room = (export_string_option (codes "abc") out.buffer).room;
      })).memory
    ≡ codes "abc" ++ 0 ∷ []
export_string_option-twice_example =
    export_string_option-twice (codes "abc") out.buffer (codes "......") enough

abbrev two_parts : Partitions
two_parts = record { num_partitions = 2; partition_ids = codes "ab" ∷ codes "c" ∷ [] }

fill_partitions-slices_example :
    ((fill_partitions two_parts).releasable ≡ true)
    × ((fill_partitions two_parts).num ≡ length two_parts.partition_ids)
    × (map (slice_of (fill_partitions two_parts).block) (fill_partitions two_parts).slices
        ≡ two_parts.partition_ids)
fill_partitions-slices_example =
    fill_partitions-slices two_parts refl (omega arith, (omega arith, tt))

fill_partitions-empty_last_example :
    (fill_partitions
      (record { num_partitions = 2; partition_ids = codes "a" ∷ [] ∷ [] })).releasable
    ≡ false
fill_partitions-empty_last_example = fill_partitions-empty_last 2 (codes "a" ∷ [])

connection_init-set_option_example :
    connection_init driver
      (connection_set_option driver (codes "k") (codes "v") (prepared driver start_world [] 0 [])).1
    ≡ connection_set_option driver
        (codes "k")
        (codes "v")
        (connection_init driver (prepared driver start_world [] 0 [])).1
connection_init-set_option_example =
    connection_init-set_option driver start_world [] 0 (codes "k") (codes "v") 0 1 2 refl refl

abbrev connected_once : World driver
connected_once = (connection_init driver (prepared driver start_world [] 0 [])).1

connection_init-again_example :
    ((connection_init driver connected_once).0 ≡ Status.invalid_state)
    × ((connection_init driver connected_once).1
        ≡ record connected_once { error = (connection_init driver connected_once).1.error })
connection_init-again_example = connection_init-again driver start_world [] 0 [] 0 1 refl

abbrev consumer : Consumer driver
consumer = record {
  state = 0;
  stream = some (record { rdr = 0; adbc_err = none; status = Status.ok });
  batch = none;
  schema = none;
}

get_next-error_from_array_stream_example :
    (e : CError) × ((array_stream_get_next driver consumer).0 ≡ some (errno_of Status.io))
    × ((array_stream_get_next driver consumer).1.batch ≡ none)
    × (array_stream_get_last_error driver (array_stream_get_next driver consumer).1 ≡ some lost.msg)
    × (error_from_array_stream driver (array_stream_get_next driver consumer).1
        ≡ some (Status.io, some e))
    × (error_get_detail_count e ≡ length lost.details)
    × (error_get_detail e (pos 0)
        ≡ some (sent_detail (record { key = codes "server"; serialized = ok (codes "db1") })))
get_next-error_from_array_stream_example =
    get_next-error_from_array_stream driver consumer
      (record { rdr = 0; adbc_err = none; status = Status.ok }) 1 lost []
      (record { key = codes "server"; serialized = ok (codes "db1") }) [] refl refl refl refl
