-- ===== src/Export/Stream/Reported.antt =====
-- How an error of a reader reaches the consumer of the stream that go/pkg/driver.go exports.
use adbc_driver_mariadb.Base.{◌≡◌, refl, false, List, ◌∷◌, ◌++◌, length, none, some}
use adbc_driver_mariadb.Base.Int.{pos}
use adbc_driver_mariadb.Export.Error.{
  adbc_error, Detail, DriverError, CError, private_code, err_to_adbc_err, sent_detail,
  error_get_detail_count, error_get_detail,
}
use adbc_driver_mariadb.Export.Error.Details.{set_err_with_details-get_detail}
use adbc_driver_mariadb.Export.Driver.{Driver}
use adbc_driver_mariadb.Export.World.{CArrayStream}
use adbc_driver_mariadb.Export.Stream.{
  errno_of, fresh_error, Consumer, maybe_error, array_stream_get_next, array_stream_get_last_error,
  error_from_array_stream,
}

module _ (drv : Driver) where
  -- A stream whose reader ends with an error of the driver that has details, whatever errors the stream
  -- reported before: the call for the next array gives no array and the number for the error's status;
  -- after it, the last error is the error's text, and the error of the stream has the status and the
  -- details, each with its key and the bytes that it serializes to.
  pub get_next-error_from_array_stream :
      (c : Consumer drv) (s : CArrayStream drv) (st : drv.State) (from : DriverError)
      (before : List Detail) (d : Detail) (rest : List Detail)
      → c.stream ≡ some s
      → drv.next s.rdr c.state ≡ (false, st)
      → drv.reader_error s.rdr st ≡ some (adbc_error from)
      → from.details ≡ before ++ d ∷ rest
      → let answer = array_stream_get_next drv c in
        (e : CError) × (answer.0 ≡ some (errno_of from.code))
        × (answer.1.batch ≡ none)
        × (array_stream_get_last_error drv answer.1 ≡ some from.msg)
        × (error_from_array_stream drv answer.1 ≡ some (from.code, some e))
        × (error_get_detail_count e ≡ length from.details)
        × (error_get_detail e (pos (length before)) ≡ some (sent_detail d))
  unfolding array_stream_get_next array_stream_get_last_error error_from_array_stream maybe_error
      err_to_adbc_err
  get_next-error_from_array_stream c s st from before d rest h k l m =
      let e₀ = record (fresh_error s.adbc_err) { vendor_code = private_code } in
      let (e, filled, message, count, found, gone) =
        set_err_with_details-get_detail e₀ from before d rest refl m in
      (
        e,
        rw h (rw k (rw l refl)),
        rw h (rw k refl),
        rw h (rw k (rw l (rw filled message))),
        rw h (rw k (rw l (rw filled refl))),
        count,
        found,
      )
