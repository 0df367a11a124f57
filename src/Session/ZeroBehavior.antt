-- ===== src/Session/ZeroBehavior.antt =====
-- `zeroDatetimeBehavior` of go/mariadb.go as an option value.
use text.Mathlib.Text.{◌==◌}
use adbc_driver_mariadb.Base.{String, ◌≡◌, refl, if◌then◌else◌}
use adbc_driver_mariadb.Base.Result.{Result, ok, err}
use adbc_driver_mariadb.Convert.Inserter.{ZeroBehavior, error_behavior, convert_to_null}
use adbc_driver_mariadb.Session.Server.{Failure, invalid_argument}

abbrev pub option_key : String
option_key = "mariadb.query.zero_datetime_behavior"

-- `String`
unfoldable pub to_string : ZeroBehavior → String
to_string error_behavior = "error"
to_string convert_to_null = "convert_to_null"

-- `parseZeroDatetimeBehavior`, with an error helper.
unfoldable pub parse : String → Result Failure ZeroBehavior
parse value =
    if value == "error"
    then ok error_behavior
    else if value == "convert_to_null"
    then ok convert_to_null
    else err (invalid_argument "invalid zero_datetime_behavior value")

pub parse-to_string : (z : ZeroBehavior) → parse (to_string z) ≡ ok z
unfolding parse to_string
parse-to_string error_behavior = refl
parse-to_string convert_to_null = refl
