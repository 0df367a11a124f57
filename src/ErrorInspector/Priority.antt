-- ===== src/ErrorInspector/Priority.antt =====
-- Which of the error number, the SQLSTATE class and the caller's default decides the status that
-- go/error_inspector.go reports.
use adbc_driver_mariadb.Base.{
  ℕ, String, ◌⊎◌, ◌≡◌, ◌≢◌, List, [], ◌∷◌, Option, none, some, ◌==◌, arith, if◌then◌else◌,
}
use adbc_driver_mariadb.ErrorInspector.{
  Status, not_found, already_exists, invalid_argument, invalid_state, invalid_data, integrity,
  internal, io, cancelled, timeout, unauthenticated, unauthorized, status_code, WireError, GoError,
  SqlState, zero_state, class_is, number_switch, state_switch, wire_status, inspect_error,
}

-- The statuses of the error numbers that the driver knows, in the order of the numbers.
unfoldable pub number_table : List (ℕ × Status)
number_table =
    (1007, already_exists)
    ∷ (1044, unauthorized)
    ∷ (1045, unauthenticated)
    ∷ (1048, integrity)
    ∷ (1049, not_found)
    ∷ (1050, already_exists)
    ∷ (1052, invalid_argument)
    ∷ (1054, invalid_argument)
    ∷ (1062, integrity)
    ∷ (1064, invalid_argument)
    ∷ (1105, internal)
    ∷ (1142, unauthorized)
    ∷ (1143, unauthorized)
    ∷ (1146, not_found)
    ∷ (1205, timeout)
    ∷ (1213, cancelled)
    ∷ (1227, unauthorized)
    ∷ (1264, invalid_data)
    ∷ (1292, invalid_data)
    ∷ (1364, integrity)
    ∷ (1366, invalid_data)
    ∷ (1451, integrity)
    ∷ (1452, integrity)
    ∷ (2002, io)
    ∷ (2003, io)
    ∷ (2006, io)
    ∷ (2013, io)
    ∷ []

unfoldable pub status_in : List (ℕ × Status) → ℕ → Option Status
status_in [] n = none
status_in ((m, s) ∷ t) n = if n == m then some s else status_in t n

abbrev pub known_status : ℕ → Option Status
known_status n = status_in number_table n

abbrev or_default : Status → Option Status → Status
or_default d none = d
or_default d (some s) = s

number_switch-status_in : (d : Status) (n : ℕ) → number_switch d n ≡ or_default d (known_status n)
unfolding number_switch status_in number_table
number_switch-status_in d n = ground arith

status_code-injective : (s t : Status) → status_code s ≡ status_code t → s ≡ t
status_code-injective s t h = ground arith

-- The statuses of the SQLSTATE classes that the driver knows.
unfoldable pub class_table : List (String × Status)
class_table =
    ("02", not_found)
    ∷ ("07", io)
    ∷ ("08", io)
    ∷ ("21", invalid_data)
    ∷ ("22", invalid_data)
    ∷ ("23", integrity)
    ∷ ("28", unauthenticated)
    ∷ ("34", invalid_argument)
    ∷ ("42", invalid_argument)
    ∷ ("44", integrity)
    ∷ ("55", invalid_state)
    ∷ ("57", invalid_state)
    ∷ ("58", internal)
    ∷ []

unfoldable pub class_in : List (String × Status) → SqlState → Option Status
class_in [] s = none
class_in ((c, t) ∷ rest) s = if class_is c s then some t else class_in rest s

abbrev pub known_class : SqlState → Option Status
known_class s = class_in class_table s

state_switch-class_in :
    (d : Status) (s : SqlState) → state_switch d s ≡ or_default d (known_class s)
unfolding state_switch class_in class_table
state_switch-class_in d s = ground arith

-- A status that differs from the caller's default.
abbrev other_than : Status → Option Status → Option Status
other_than d none = none
other_than d (some s) = if status_code s == status_code d then none else some s

-- The status of the SQLSTATE class, where the server sent a SQLSTATE.
abbrev sent_class : SqlState → Option Status
sent_class s = if s.byte_0 == 0 then none else known_class s

abbrev or_else : Option Status → Option Status → Option Status
or_else none o = o
or_else (some s) o = some s

-- The status is that of the error number where the number is known and its status is not the caller's
-- default; else that of the SQLSTATE class where the server sent a SQLSTATE and its class is known; else
-- the default. The numbers and the classes that are known are those of the two tables.
pub wire_status-tables :
    (e : WireError) (d : Status)
    → wire_status d e
      ≡ or_default d (or_else (other_than d (known_status e.number)) (sent_class e.sql_state))
unfolding wire_status
wire_status-tables e d =
    ground (arith, number_switch-status_in d e.number, state_switch-class_in d e.sql_state)

module _ (e : WireError) (d : Status) where
  wire_status-known : (s : Status) → known_status e.number ≡ some s → s ≢ d → wire_status d e ≡ s
  wire_status-known s h ne = ground (arith, wire_status-tables e d, status_code-injective s d)

  wire_status-fallback :
      (known_status e.number ≡ none) ⊎ (known_status e.number ≡ some d)
      → e.sql_state.byte_0 ≢ 0
      → wire_status d e ≡ or_default d (known_class e.sql_state)
  wire_status-fallback h ne = ground (arith, wire_status-tables e d)

  wire_status-no_state :
      e.sql_state.byte_0 ≡ 0 → wire_status d e ≡ or_default d (known_status e.number)
  wire_status-no_state h = ground (arith, wire_status-tables e d)

-- The report keeps the error's text, and has the server's SQLSTATE and status exactly if the error
-- holds a server error; otherwise the SQLSTATE is empty and the status the caller's default.
pub inspect_error-fields :
    (err : GoError) (d : Status)
    → ((inspect_error err d).msg ≡ err.message)
      × ((e : WireError)
          → err.wire ≡ some e
          → ((inspect_error err d).code ≡ wire_status d e)
            × ((inspect_error err d).sql_state ≡ e.sql_state))
      × (err.wire ≡ none
          → ((inspect_error err d).code ≡ d) × ((inspect_error err d).sql_state ≡ zero_state))
unfolding inspect_error
inspect_error-fields err d =
    (ground arith, λ e h. (ground arith, ground arith), λ h. (ground arith, ground arith))
