-- ===== src/Export/Results.antt =====
-- The parts that the functions of go/pkg/driver.go share: the options of an object, and the results
-- that they export.
use adbc_driver_mariadb.Base.{String, ℕ, Bool, List, [], ◌∷◌, Option, none, some, if◌then◌else◌}
use adbc_driver_mariadb.Base.Text.{Bytes}
use adbc_driver_mariadb.Base.Int.{ℤ}
use adbc_driver_mariadb.ErrorInspector.{Status}
use adbc_driver_mariadb.Export.Error.{GoFailure}
use adbc_driver_mariadb.Export.Option.{export_string_option, export_bytes_option}
use adbc_driver_mariadb.Export.Driver.{Driver}
use adbc_driver_mariadb.Export.World.{Op, refuse, fail}

-- `C.GoString`
abbrev pub go_string : Option Bytes → Bytes
go_string none = []
go_string (some s) = s

-- The pointers at `in` up to the first that is NULL.
unfoldable pub until_null : List (Option Bytes) → List Bytes
until_null [] = []
until_null (none ∷ rest) = []
until_null (some s ∷ rest) = s ∷ until_null rest

unfoldable pub to_str_slice : Option (List (Option Bytes)) → Option (List Bytes)
unfolding until_null
to_str_slice none = none
to_str_slice (some pointers) = some (until_null pointers)

module _ (drv : Driver) where
  -- The texts and bytes go to the buffer.
  unfoldable pub write_string : Bytes → Op drv
  write_string val w = (
    Status.ok,
    record w { out = record w.out { buffer = export_string_option val w.out.buffer } },
  )

  unfoldable pub write_bytes : Bytes → Op drv
  write_bytes val w =
      (Status.ok, record w { out = record w.out { buffer = export_bytes_option val w.out.buffer } })

  -- `*value` is written before the error is looked at.
  abbrev pub number_replied : Option GoFailure → Op drv
  number_replied none w = (Status.ok, w)
  number_replied (some e) w = fail drv e w

  unfoldable pub write_int : ℤ × Option GoFailure → Op drv
  write_int (n, e) w = number_replied e (record w { out = record w.out { int_out = n } })

  unfoldable pub write_double : ℕ × Option GoFailure → Op drv
  write_double (n, e) w = number_replied e (record w { out = record w.out { double_out = n } })

  -- The return where an assertion to an interface fails.
  unfoldable pub if_supported : Bool → String → String → Op drv → Op drv
  if_supported supported name text rest w =
      if supported then rest w else refuse drv Status.not_implemented name text w

  -- `exportRecordReader`, which retains the reader, and the deferred `rdr.Release()`.
  unfoldable pub export_record_reader : drv.Reader → Op drv
  export_record_reader rdr w = (
    Status.ok,
    record w {
      out = record w.out {
        stream = some (record { rdr = rdr; adbc_err = none; status = Status.ok });
      };
      state = drv.release rdr (drv.retain rdr w.state);
    },
  )

  unfoldable pub export_schema : drv.Schema → Op drv
  export_schema sc w = (Status.ok, record w { out = record w.out { schema = some sc } })
