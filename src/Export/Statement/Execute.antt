-- ===== src/Export/Statement/Execute.antt =====
-- The functions of go/pkg/driver.go that execute a statement: ExecuteQuery, ExecuteSchema and
-- ExecutePartitions, and releasePartitions.
use adbc_driver_mariadb.Base.{
  String, ℕ, zero, suc, ◌+◌, ◌-◌, Bool, true, false, List, [], ◌∷◌, ◌++◌, Option, none, some,
  length, replicate, take, drop,
}
use adbc_driver_mariadb.Base.Text.{Bytes}
use adbc_driver_mariadb.Base.Int.{ℤ}
use adbc_driver_mariadb.ErrorInspector.{Status}
use adbc_driver_mariadb.Export.Driver.{of_execution, Driver, Partitions, CPartitions}
use adbc_driver_mariadb.Export.World.{World, Op, done, call, refuse, poison, check_stmt_init}
use adbc_driver_mariadb.Export.Results.{export_record_reader, export_schema, if_supported}

-- The loop over the partition IDs: what it leaves of `dst`, the entries that it writes, and whether it
-- gets through. `slots` are the entries that are left, and `left` is `len(dst)`; without one of either
-- an index is out of range.
unfoldable pub fill_slices : ℕ → ℕ → ℕ → List Bytes → Bytes × List (ℕ × ℕ) × Bool
fill_slices slots start left [] = (replicate left 0, [], true)
fill_slices zero start left (p ∷ ps) = (replicate left 0, [], false)
fill_slices (suc slots) start zero (p ∷ ps) = ([], [], false)
fill_slices (suc slots) start (suc left) (p ∷ ps) =
    let rest = fill_slices slots (start + length p) (suc left - length p) ps in
    (p ++ rest.0, (start, length p) ∷ rest.1, rest.2)

unfoldable pub total_len : List Bytes → ℕ
total_len [] = 0
total_len (p ∷ ps) = length p + total_len ps

unfoldable pub fill_partitions : Partitions → CPartitions
unfolding fill_slices total_len
fill_partitions part =
    let filled =
      fill_slices part.num_partitions 0 (total_len part.partition_ids) part.partition_ids in
    record { num = part.num_partitions; block = filled.0; slices = filled.1; releasable = filled.2 }

-- What the caller reads of a partition.
abbrev pub slice_of : Bytes → ℕ × ℕ → Bytes
slice_of block (start, len) = take len (drop start block)

module _ (drv : Driver) where
  -- With a new context for executions, and `FinishContext` at the end.
  abbrev pub finished : Status × World drv → Status × World drv
  finished (code, w) = (code, record w { state = drv.finish_context of_execution w.state })

  unfoldable pub executing : Op drv → Op drv
  executing op w = finished (op (record w { state = drv.new_context of_execution w.state }))

  abbrev number_at : ℤ → Option ℤ → Option ℤ
  number_at n none = none
  number_at n (some old) = some n

  -- `*affected`, unless the pointer is NULL.
  abbrev pub affected_written : ℤ → World drv → World drv
  affected_written n w = record w { out = record w.out { affected = number_at n w.out.affected } }

  unfoldable pub updated : ℤ → Op drv
  updated n w = done drv (affected_written n w)

  unfoldable pub queried : drv.Reader × ℤ → Op drv
  queried (rdr, n) w = export_record_reader drv rdr (affected_written n w)

  -- `out_given` says that `out` is not NULL.
  abbrev pub execute : Bool → drv.Statement → Op drv
  execute true st = call drv "AdbcStatementExecuteQuery" (drv.execute_query st) queried
  execute false st = call drv "AdbcStatementExecuteQuery" (drv.execute_update st) updated

  unfoldable pub statement_execute_query : (out_given : Bool) → Op drv
  statement_execute_query out_given =
      check_stmt_init drv "AdbcStatementExecuteQuery" λ st. executing (execute out_given st)

  -- Under the name of `ExecuteQuery`, as in the source.
  unfoldable pub statement_execute_schema : Op drv
  statement_execute_schema = check_stmt_init drv "AdbcStatementExecuteQuery" λ st.
      if_supported drv (drv.has_execute_schema st) "AdbcStatementExecuteSchema" "not supported" (
        executing
          (call drv "AdbcStatementExecuteQuery" (drv.execute_schema st) (export_schema drv)))

  abbrev schema_written : Bool → Option drv.Schema → Option drv.Schema → Option drv.Schema
  schema_written true (some sc) old = some sc
  schema_written true none old = old
  schema_written false sc old = old

  abbrev pub ended : Bool → Op drv
  ended true w = done drv w
  ended false w = poison drv "AdbcStatementExecutePartitions" drv.runtime_error w

  abbrev pub partitions_written : CPartitions → Op drv
  partitions_written filled w =
      ended filled.releasable (record w { out = record w.out { partitions = some filled } })

  -- `schema_given` and `partitions_given` say that the pointers are not NULL.
  abbrev pub partitioned : Bool → Bool → Option drv.Schema × Partitions × ℤ → Op drv
  partitioned schema_given false answer w =
      refuse drv Status.invalid_argument "AdbcStatementExecutePartitions"
        "partitions output struct is null" w
  partitioned schema_given true (sc, part, n) w =
      let w' = affected_written n w in
      partitions_written (fill_partitions part) (record w' {
        out = record w'.out { schema = schema_written schema_given sc w'.out.schema };
      })

  unfoldable pub statement_execute_partitions : (schema_given partitions_given : Bool) → Op drv
  statement_execute_partitions schema_given partitions_given =
      let name : String = "AdbcStatementExecutePartitions" in
      check_stmt_init drv name λ st.
        executing
          (call drv name (drv.execute_partitions st) (partitioned schema_given partitions_given))

  -- `releasePartitions`: the block and the arrays are freed, and the struct no longer has them.
  unfoldable pub release_partitions : World drv → World drv
  release_partitions w = record w { out = record w.out { partitions = none } }
