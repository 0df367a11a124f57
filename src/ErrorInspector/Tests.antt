-- ===== src/ErrorInspector/Tests.antt =====
-- Server errors of go/error_inspector.go at their numbers and SQLSTATEs.
use adbc_driver_mariadb.Base.{ℕ, ◌≡◌}
use adbc_driver_mariadb.Base.Text.{equal}
use adbc_driver_mariadb.ErrorInspector.{Status, internal, SqlState, WireError, wire_status}
use adbc_driver_mariadb.ErrorInspector.Priority.{
  number_table, status_in, class_table, class_in, wire_status-tables,
}

abbrev state_of : ℕ → ℕ → SqlState
state_of a b = record { byte_0 = a; byte_1 = b; byte_2 = b'0'; byte_3 = b'0'; byte_4 = b'0' }

-- A number that the driver does not know.
abbrev unknown_column_count : WireError
unknown_column_count = record { number = 1136; sql_state = state_of b'2' b'1' }

wire_status-tables_example : wire_status internal unknown_column_count ≡ Status.invalid_data
unfolding class_in class_table equal status_in number_table
wire_status-tables_example = wire_status-tables unknown_column_count internal
