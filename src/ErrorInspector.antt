-- ===== src/ErrorInspector.antt =====
-- go/error_inspector.go: server errors as ADBC errors.
pub mod Priority
mod Tests
use adbc_driver_mariadb.Base.{
  ℕ, String, Bool, true, false, not, ◌&&◌, ◌||◌, List, [], ◌∷◌, Option, none, some, ◌==◌,
  if◌then◌else◌,
}
use adbc_driver_mariadb.Base.Text.{Bytes, codes, equal}

-- `adbc.Status`
pub data Status : Type 0 where
  ok unknown not_implemented not_found already_exists invalid_argument invalid_state : Status
  invalid_data integrity internal io cancelled timeout unauthenticated unauthorized : Status

abbrev pub status_code : Status → ℕ
status_code ok = 0
status_code unknown = 1
status_code not_implemented = 2
status_code not_found = 3
status_code already_exists = 4
status_code invalid_argument = 5
status_code invalid_state = 6
status_code invalid_data = 7
status_code integrity = 8
status_code internal = 9
status_code io = 10
status_code cancelled = 11
status_code timeout = 12
status_code unauthenticated = 13
status_code unauthorized = 14

-- `[5]byte`
pub record SqlState : Type 0 where
  pub byte_0 : ℕ
  pub byte_1 : ℕ
  pub byte_2 : ℕ
  pub byte_3 : ℕ
  pub byte_4 : ℕ

abbrev pub zero_state : SqlState
zero_state = record { byte_0 = 0; byte_1 = 0; byte_2 = 0; byte_3 = 0; byte_4 = 0 }

-- `mariadbwire.MySQLError`, the fields that are read.
pub record WireError : Type 0 where
  pub number : ℕ
  pub sql_state : SqlState

-- A Go error: its text, and the server error that `errors.As` finds in it.
pub record GoError : Type 0 where
  pub message : Bytes
  pub wire : Option WireError

pub record AdbcError : Type 0 where
  pub code : Status
  pub msg : Bytes
  pub sql_state : SqlState

-- The switch on the error number; no case leaves `status` as it is.
unfoldable pub number_switch : Status → ℕ → Status
number_switch status n =
    if n == 1045
    then unauthenticated
    else if n == 1044 || n == 1142 || n == 1143 || n == 1227
    then unauthorized
    else if n == 1146
    then not_found
    else if n == 1049
    then not_found
    else if n == 1050
    then already_exists
    else if n == 1007
    then already_exists
    else if n == 1062
    then integrity
    else if n == 1451
    then integrity
    else if n == 1452
    then integrity
    else if n == 1048
    then integrity
    else if n == 1364
    then integrity
    else if n == 1064
    then invalid_argument
    else if n == 1054
    then invalid_argument
    else if n == 1052
    then invalid_argument
    else if n == 1366
    then invalid_data
    else if n == 1292
    then invalid_data
    else if n == 1264
    then invalid_data
    else if n == 1205
    then timeout
    else if n == 1213
    then cancelled
    else if n == 2002 || n == 2003 || n == 2006 || n == 2013
    then io
    else if n == 1105
    then internal
    else status

abbrev pub class_is : String → SqlState → Bool
class_is name s = equal (s.byte_0 ∷ s.byte_1 ∷ []) (codes name)

-- The switch on `string(mariadbErr.SQLState[:2])`.
unfoldable pub state_switch : Status → SqlState → Status
unfolding equal
state_switch status s =
    if class_is "02" s
    then not_found
    else if class_is "07" s
    then io
    else if class_is "08" s
    then io
    else if class_is "21" s || class_is "22" s
    then invalid_data
    else if class_is "23" s
    then integrity
    else if class_is "28" s
    then unauthenticated
    else if class_is "34" s
    then invalid_argument
    else if class_is "42" s
    then invalid_argument
    else if class_is "44" s
    then integrity
    else if class_is "55" s || class_is "57" s
    then invalid_state
    else if class_is "58" s
    then internal
    else status

-- The status of a server error: the number, then the SQLSTATE fallback.
unfoldable pub wire_status : Status → WireError → Status
wire_status default_status e =
    let status = number_switch default_status e.number in
    if not (e.sql_state.byte_0 == 0) && status_code status == status_code default_status
    then state_switch status e.sql_state
    else status

unfoldable pub inspect_error : GoError → Status → AdbcError
inspect_error err default_status = elim err.wire [
  | none ↦ record { code = default_status; msg = err.message; sql_state = zero_state }
  | some e ↦ record {
    code = wire_status default_status e;
    msg = err.message;
    sql_state = e.sql_state;
  }
]
