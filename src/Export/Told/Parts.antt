-- ===== src/Export/Told/Parts.antt =====
-- That the parts which the functions of go/pkg/driver.go share leave the handles alone and say what
-- went wrong.
use adbc_driver_mariadb.Base.{
  String, ℕ, ltb, Bool, true, false, Option, none, some, refl, if◌then◌else◌,
}
use adbc_driver_mariadb.Base.Text.{Bytes}
use adbc_driver_mariadb.Base.Int.{ℤ}
use adbc_driver_mariadb.ErrorInspector.{Status}
use adbc_driver_mariadb.Export.Error.{GoFailure}
use adbc_driver_mariadb.Export.Option.{go_bytes, max_int}
use adbc_driver_mariadb.Export.Driver.{ContextOf, Driver, Partitions}
use adbc_driver_mariadb.Export.World.{
  in_new_context, with_bytes_in, Op, done, copied, too_long, check_length_to_int,
}
use adbc_driver_mariadb.Export.Results.{
  write_string, write_bytes, number_replied, write_int, write_double, if_supported,
  export_record_reader, export_schema,
}
use adbc_driver_mariadb.Export.Statement.Execute.{
  executing, updated, queried, fill_partitions, ended, partitioned,
}
use adbc_driver_mariadb.Export.Error.Filled.{fmt_err-IsFilled}
use adbc_driver_mariadb.Export.Told.{
  IsUse, refuse-IsUse, fail-IsUse, poison-IsUse, done-IsUse, ok-Tells, filled-Tells, if-Tells,
  if_keeps,
}

module _ (drv : Driver) where
  if_IsUse :
      (b : Bool) (p q : Op drv)
      → IsUse drv p
      → IsUse drv q
      → IsUse drv (λ w. if b then p w else q w)
  if_IsUse b p q h k = record {
    keeps = λ w. if_keeps drv b (p w) (q w) _ (h.keeps w) (k.keeps w);
    tells = λ w. if-Tells drv b _ (p w) (q w) (h.tells w) (k.tells w);
  }

  pub if_supported-IsUse :
      (b : Bool) (name text : String) (rest : Op drv)
      → IsUse drv rest
      → IsUse drv (if_supported drv b name text rest)
  unfolding if_supported
  if_supported-IsUse b name text rest h =
      if_IsUse b rest _ h (refuse-IsUse drv Status.not_implemented name text)

  pub write_string-IsUse : (val : Bytes) → IsUse drv (write_string drv val)
  unfolding write_string
  write_string-IsUse val = record { keeps = λ w. refl; tells = λ w. ok-Tells drv w.error _ refl }

  pub write_bytes-IsUse : (val : Bytes) → IsUse drv (write_bytes drv val)
  unfolding write_bytes
  write_bytes-IsUse val = record { keeps = λ w. refl; tells = λ w. ok-Tells drv w.error _ refl }

  pub export_record_reader-IsUse : (rdr : drv.Reader) → IsUse drv (export_record_reader drv rdr)
  unfolding export_record_reader
  export_record_reader-IsUse rdr = record {
    keeps = λ w. refl;
    tells = λ w. ok-Tells drv w.error _ refl;
  }

  pub export_schema-IsUse : (sc : drv.Schema) → IsUse drv (export_schema drv sc)
  unfolding export_schema
  export_schema-IsUse sc = record { keeps = λ w. refl; tells = λ w. ok-Tells drv w.error _ refl }

  number_replied-IsUse : (e : Option GoFailure) → IsUse drv (number_replied drv e)
  number_replied-IsUse none = record { keeps = λ w. refl; tells = λ w. ok-Tells drv w.error _ refl }
  number_replied-IsUse (some e) =
      let h = fail-IsUse drv e in record { keeps = λ w. h.keeps w; tells = λ w. h.tells w }

  pub write_int-IsUse : (answer : ℤ × Option GoFailure) → IsUse drv (write_int drv answer)
  unfolding write_int
  write_int-IsUse (n, e) =
      let h = number_replied-IsUse e in record { keeps = λ w. h.keeps _; tells = λ w. h.tells _ }

  pub write_double-IsUse : (answer : ℕ × Option GoFailure) → IsUse drv (write_double drv answer)
  unfolding write_double
  write_double-IsUse (n, e) =
      let h = number_replied-IsUse e in record { keeps = λ w. h.keeps _; tells = λ w. h.tells _ }

  pub too_long-IsUse : (len : ℕ) → IsUse drv (too_long drv len)
  unfolding too_long
  too_long-IsUse len = record {
    keeps = λ w. refl;
    tells = λ w. filled-Tells drv w.error _ _ (fmt_err-IsFilled w.error _ _);
  }

  pub check_length_to_int-IsUse :
      (len : ℕ) (rest : Op drv) → IsUse drv rest → IsUse drv (check_length_to_int drv len rest)
  unfolding check_length_to_int
  check_length_to_int-IsUse len rest h =
      if_IsUse (ltb max_int len) (too_long drv len) rest (too_long-IsUse len) h

  module _ (name : String) (next : Bytes → Op drv) (h : (v : Bytes) → IsUse drv (next v)) where
    copied-IsUse : (o : Option Bytes) → IsUse drv (copied drv name o next)
    unfolding copied
    copied-IsUse (some v) = record { keeps = (h v).keeps; tells = (h v).tells }
    copied-IsUse none =
        let k = poison-IsUse drv name drv.runtime_error in
        record { keeps = k.keeps; tells = k.tells }

  pub in_new_context-IsUse :
      (c : ContextOf) (op : Op drv) → IsUse drv op → IsUse drv (in_new_context drv c op)
  unfolding in_new_context
  in_new_context-IsUse c op h = record {
    keeps = λ w. h.keeps (record w { state = drv.new_context c w.state });
    tells = λ w.
        let t = h.tells (record w { state = drv.new_context c w.state }) in
        record { kept = t.kept; told = t.told };
  }

  pub with_bytes_in-IsUse :
      (c : ContextOf) (name : String) (next : Bytes → Op drv)
      → ((v : Bytes) → IsUse drv (next v))
      → (value : Bytes) (len : ℕ) → IsUse drv (with_bytes_in drv c name value len next)
  unfolding with_bytes_in
  with_bytes_in-IsUse c name next h value len =
      check_length_to_int-IsUse len _
        (in_new_context-IsUse c _ (copied-IsUse name next h (go_bytes value len)))

  pub executing-IsUse : (op : Op drv) → IsUse drv op → IsUse drv (executing drv op)
  unfolding executing
  executing-IsUse op h = record {
    keeps = λ w. h.keeps (record w { state = _ });
    tells =
        λ w. let t = h.tells (record w { state = _ }) in record { kept = t.kept; told = t.told };
  }

  pub updated-IsUse : (n : ℤ) → IsUse drv (updated drv n)
  unfolding updated done
  updated-IsUse n = record { keeps = λ w. refl; tells = λ w. ok-Tells drv w.error _ refl }

  pub queried-IsUse : (answer : drv.Reader × ℤ) → IsUse drv (queried drv answer)
  unfolding queried export_record_reader
  queried-IsUse (rdr, n) = record { keeps = λ w. refl; tells = λ w. ok-Tells drv w.error _ refl }

  ended-IsUse : (through : Bool) → IsUse drv (ended drv through)
  ended-IsUse true = let h = done-IsUse drv in record { keeps = h.keeps; tells = h.tells }
  ended-IsUse false =
      let h = poison-IsUse drv "AdbcStatementExecutePartitions" drv.runtime_error in
      record { keeps = h.keeps; tells = h.tells }

  pub partitioned-IsUse :
      (schema_given partitions_given : Bool) (answer : Option drv.Schema × Partitions × ℤ)
      → IsUse drv (partitioned drv schema_given partitions_given answer)
  partitioned-IsUse schema_given false answer =
      let h =
        refuse-IsUse drv Status.invalid_argument "AdbcStatementExecutePartitions"
          "partitions output struct is null" in
      record { keeps = h.keeps; tells = h.tells }
  partitioned-IsUse schema_given true (sc, part, n) =
      let h = ended-IsUse (fill_partitions part).releasable in
      record { keeps = λ w. h.keeps _; tells = λ w. h.tells _ }
