-- ===== src/Export/Error.antt =====
-- `struct AdbcError` as go/pkg/driver.go fills it in (setErr, fmtErr, setErrWithDetails, errToAdbcErr),
-- and as go/pkg/utils.c releases it and reads its details. A pointer to such a struct is an Option, with
-- `none` for NULL; the callback in it is NULL or one of this driver's two.
pub mod Details
pub mod Filled
use adbc_driver_mariadb.Base.{
  String, ℕ, zero, suc, Bool, true, false, not, ◌&&◌, ◌||◌, List, [], ◌∷◌, ◌++◌, map, Option, none,
  some, if◌then◌else◌, length, ltb,
}
use adbc_driver_mariadb.Base.Text.{Bytes, codes, has_prefix}
use adbc_driver_mariadb.Base.Int.{ℤ, pos, negsuc, leb_ℤ}
use adbc_driver_mariadb.Base.Result.{Result, ok, err}
use adbc_driver_mariadb.ErrorInspector.{Status, SqlState, zero_state}

-- An entry of `adbc.Error.Details`: `Key()`, and what `Serialize()` answers.
pub record Detail : Type 0 where
  pub key : Bytes
  pub serialized : Result Bytes Bytes

-- `adbc.Error`
pub record DriverError : Type 0 where
  pub code : Status
  pub msg : Bytes
  pub vendor_code : ℤ
  pub sql_state : SqlState
  pub details : List Detail

-- An error of Go: one in which `errors.As` finds an `adbc.Error`, or the text of another.
pub data GoFailure : Type 0 where
  adbc_error : DriverError → GoFailure
  other_error : Bytes → GoFailure

-- NULL, `MariaDB_release_error` and `MariaDBReleaseErrWithDetails`.
pub data Callback : Type 0 where
  unset release_error release_with_details : Callback

-- `struct AdbcError`; `private_data` is a `struct MariaDBError` by its keys and values.
pub record CError : Type 0 where
  pub message : Option Bytes
  pub vendor_code : ℤ
  pub sql_state : SqlState
  pub release : Callback
  pub private_data : Option (List (Bytes × Bytes))

-- A struct of zeros.
abbrev pub zero_error : CError
zero_error = record {
  message = none;
  vendor_code = pos 0;
  sql_state = zero_state;
  release = unset;
  private_data = none;
}

-- `ADBC_ERROR_VENDOR_CODE_PRIVATE_DATA`, INT32_MIN.
abbrev pub private_code : ℤ
private_code = negsuc 2_147_483_647

abbrev pub same_code : ℤ → ℤ → Bool
same_code a b = leb_ℤ a b && leb_ℤ b a

abbrev pub err_prefix : Bytes
err_prefix = codes "[mariadb] "

abbrev release_details : Option (List (Bytes × Bytes)) → CError → CError
release_details none e = e
release_details (some details) e = record e {
  message = none;
  release = Callback.unset;
  private_data = none;
}

-- The call of the callback.
abbrev call_release : Callback → CError → CError
call_release unset e = e
call_release release_error e = record e { message = none; release = Callback.unset }
call_release release_with_details e = release_details e.private_data e

-- `MariaDBerrRelease`, which does nothing where there is no callback.
unfoldable pub err_release : CError → CError
err_release e = record (call_release e.release e) { release = Callback.unset }

-- The message, which starts with the prefix.
unfoldable pub prefixed : Bytes → Bytes
unfolding has_prefix
prefixed format = if has_prefix format err_prefix then format else err_prefix ++ format

abbrev with_message : Bytes → CError → CError
with_message msg e = record e { message = some msg; release = Callback.release_error }

unfoldable pub set_err : Option CError → Bytes → Option CError
unfolding err_release prefixed
set_err none format = none
set_err (some e) format = some (with_message (prefixed format) (err_release e))

-- With the format and what `Sprintf` makes of it.
unfoldable pub fmt_err : Option CError → Bytes → Bytes → Option CError
unfolding err_release
fmt_err none format text = none
fmt_err (some e) format text = some (
    with_message (if has_prefix format err_prefix then text else err_prefix ++ text)
      (err_release e))

-- The value of a detail that is sent: the bytes, or the text of the error of `Serialize`.
abbrev value_of : Result Bytes Bytes → Bytes
value_of (ok bytes) = bytes
value_of (err msg) = msg

abbrev pub sent_detail : Detail → Bytes × Bytes
sent_detail d = (d.key, value_of d.serialized)

abbrev pub no_details : List Detail → Bool
no_details [] = true
no_details (d ∷ ds) = false

abbrev with_vendor_code : ℤ → CError → CError
with_vendor_code code e = record e { vendor_code = code }

-- A struct that was in use is not released on the way that allocates the details.
abbrev pub with_details : DriverError → CError → CError
with_details from e = record e {
  message = some from.msg;
  release = release_with_details;
  private_data = some (map sent_detail from.details);
}

-- Whether the caller does not ask for `private_data`, and whether there is nothing to put into it but
-- the vendor code.
abbrev pub is_plain : CError → Bool
is_plain e = not (same_code e.vendor_code private_code)

abbrev pub is_bare : DriverError → Bool
is_bare from =
    no_details from.details
    && (not (same_code from.vendor_code (pos 0)) && not (same_code from.vendor_code private_code))

abbrev plain_code : DriverError → CError → CError
plain_code from e =
    if same_code from.vendor_code private_code then e else with_vendor_code from.vendor_code e

abbrev pub filled_in : (plain bare : Bool) → CError → DriverError → Option CError
filled_in true bare e from = set_err (some (plain_code from e)) from.msg
filled_in false true e from = set_err (some (with_vendor_code from.vendor_code e)) from.msg
filled_in false false e from = some (with_details from e)

unfoldable pub set_err_with_details : Option CError → DriverError → Option CError
unfolding set_err
set_err_with_details none from = none
set_err_with_details (some e₀) from =
    let e = record e₀ { sql_state = from.sql_state } in filled_in (is_plain e) (is_bare from) e from

-- For an error that is not nil: the status, and the struct.
unfoldable pub err_to_adbc_err : Option CError → GoFailure → Status × Option CError
unfolding set_err_with_details set_err
err_to_adbc_err target (adbc_error from) = (from.code, set_err_with_details target from)
err_to_adbc_err target (other_error text) = (Status.unknown, set_err target text)

-- `struct AdbcErrorDetail` is `none` where its pointers are NULL.
abbrev detail_at : List (Bytes × Bytes) → ℕ → Option (Bytes × Bytes)
detail_at [] i = none
detail_at (d ∷ ds) zero = some d
detail_at (d ∷ ds) (suc i) = detail_at ds i

abbrev details_behind : Callback → Option (List (Bytes × Bytes)) → List (Bytes × Bytes)
details_behind release_with_details (some details) = details
details_behind release_with_details none = []
details_behind release_error details = []
details_behind unset details = []

-- `MariaDBErrorGetDetailCount` and `MariaDBErrorGetDetail`.
unfoldable pub error_get_detail_count : CError → ℕ
error_get_detail_count e = length (details_behind e.release e.private_data)

abbrev detail_in : List (Bytes × Bytes) → ℤ → Option (Bytes × Bytes)
detail_in details (negsuc i) = none
detail_in details (pos i) = if ltb i (length details) then detail_at details i else none

unfoldable pub error_get_detail : CError → ℤ → Option (Bytes × Bytes)
error_get_detail e index = detail_in (details_behind e.release e.private_data) index
