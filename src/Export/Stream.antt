-- ===== src/Export/Stream.antt =====
-- The `ArrowArrayStream` that go/pkg/driver.go exports a reader as. The reader is the driver's; its calls
-- return. A stream that is NULL, was released or is another's is `none`.
pub mod Reported
use adbc_driver_mariadb.Base.{Bool, true, false, Option, none, some}
use adbc_driver_mariadb.Base.Text.{Bytes}
use adbc_driver_mariadb.ErrorInspector.{Status}
use adbc_driver_mariadb.Export.Error.{
  GoFailure, CError, zero_error, private_code, err_release, err_to_adbc_err,
}
use adbc_driver_mariadb.Export.Driver.{Driver}
use adbc_driver_mariadb.Export.World.{CArrayStream}

pub data Errno : Type 0 where
  eio enotsup enoent eexist einval ecanceled etimedout eacces : Errno

-- The switch on the status.
abbrev pub errno_of : Status → Errno
errno_of Status.unknown = eio
errno_of Status.not_implemented = enotsup
errno_of Status.not_found = enoent
errno_of Status.already_exists = eexist
errno_of Status.invalid_argument = einval
errno_of Status.invalid_state = einval
errno_of Status.invalid_data = eio
errno_of Status.integrity = eio
errno_of Status.internal = eio
errno_of Status.io = eio
errno_of Status.cancelled = ecanceled
errno_of Status.timeout = etimedout
errno_of Status.unauthenticated = eacces
errno_of Status.unauthorized = eacces
errno_of Status.ok = eio

-- The struct for the error: the old one, released, or a new one of zeros.
abbrev pub fresh_error : Option CError → CError
fresh_error none = zero_error
fresh_error (some e) = err_release e

module _ (drv : Driver) where
  -- The driver's state, the stream, and the array and the schema that the consumer gets; `none` is an
  -- array that is marked released.
  pub record Consumer : Type 0 where
    pub state : drv.State
    pub stream : Option (CArrayStream drv)
    pub batch : Option drv.Batch
    pub schema : Option drv.Schema

  -- The return value is `none` for 0.
  abbrev pub with_error :
      CArrayStream drv → Status × Option CError → Option Errno × CArrayStream drv
  with_error s (status, e) = (some (errno_of status), record s { adbc_err = e; status = status })

  unfoldable pub maybe_error : Option GoFailure → CArrayStream drv → Option Errno × CArrayStream drv
  maybe_error none s = (none, s)
  maybe_error (some failure) s =
      let e = record (fresh_error s.adbc_err) { vendor_code = private_code } in
      with_error s (err_to_adbc_err (some e) failure)

  abbrev pub checked : CArrayStream drv → Consumer → Option Errno × Consumer
  checked s c =
      let answer = maybe_error (drv.reader_error s.rdr c.state) s in
      (answer.0, record c { stream = some answer.1 })

  abbrev pub next_replied : CArrayStream drv → Bool × drv.State → Consumer → Option Errno × Consumer
  next_replied s (true, st) c =
      (none, record c { state = st; batch = some (drv.record_batch s.rdr st) })
  next_replied s (false, st) c = checked s (record c { state = st; batch = none })

  abbrev next_of : Option (CArrayStream drv) → Consumer → Option Errno × Consumer
  next_of none c = (some einval, c)
  next_of (some s) c = next_replied s (drv.next s.rdr c.state) c

  unfoldable pub array_stream_get_next : Consumer → Option Errno × Consumer
  array_stream_get_next c = next_of c.stream c

  abbrev schema_replied : CArrayStream drv → Option drv.Schema → Consumer → Option Errno × Consumer
  schema_replied s none c = checked s c
  schema_replied s (some sc) c = (none, record c { schema = some sc })

  abbrev schema_of : Option (CArrayStream drv) → Consumer → Option Errno × Consumer
  schema_of none c = (some einval, c)
  schema_of (some s) c = schema_replied s (drv.reader_schema s.rdr c.state) c

  unfoldable pub array_stream_get_schema : Consumer → Option Errno × Consumer
  array_stream_get_schema c = schema_of c.stream c

  abbrev message_of : Option CError → Option Bytes
  message_of none = none
  message_of (some e) = e.message

  abbrev last_of : Option (CArrayStream drv) → Option Bytes
  last_of none = none
  last_of (some s) = message_of s.adbc_err

  unfoldable pub array_stream_get_last_error : Consumer → Option Bytes
  array_stream_get_last_error c = last_of c.stream

  -- The status, where there is a stream, and the struct for the error, where there is one.
  abbrev error_of : Option (CArrayStream drv) → Option (Status × Option CError)
  error_of none = none
  error_of (some s) = some (s.status, s.adbc_err)

  unfoldable pub error_from_array_stream : Consumer → Option (Status × Option CError)
  error_from_array_stream c = error_of c.stream

  abbrev released : Option (CArrayStream drv) → Consumer → Consumer
  released none c = c
  released (some s) c = record c { stream = none; state = drv.release s.rdr c.state }

  unfoldable pub array_stream_release : Consumer → Consumer
  array_stream_release c = released c.stream c
