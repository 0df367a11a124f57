-- ===== src/Schema/Tests.antt =====
-- Runs of the parser of ENUM and SET declarations of go/connection.go.
use adbc_driver_mariadb.Base.{◌≡◌, refl, List, [], ◌∷◌}
use adbc_driver_mariadb.Base.{◌≢◌, arith}
use adbc_driver_mariadb.Schema.TypeValues.{values_from}
use adbc_driver_mariadb.Schema.TypeValuesRounds.{values_from-enough}
use adbc_driver_mariadb.Base.Text.{Bytes, codes, split_at_byte}
use adbc_driver_mariadb.Base.Result.{ok, err}
use adbc_driver_mariadb.Schema.TypeValues.{
  parse_type_values, invalid_declaration, unterminated_value, invalid_at,
}
use adbc_driver_mariadb.Schema.TypeValuesRound.{
  print_declaration, parse_type_values-print_declaration,
}

parse_enum : parse_type_values (codes "enum('a', 'it''s','\\')") ≡ err unterminated_value
unfolding parse_type_values
parse_enum = refl

parse_set : parse_type_values (codes "set('a', 'it''s',)") ≡ ok (codes "a" ∷ codes "it's" ∷ [])
unfolding parse_type_values
parse_set = refl

parse_no_list : parse_type_values (codes "int") ≡ err invalid_declaration
unfolding parse_type_values
parse_no_list = refl

parse_trailing : parse_type_values (codes "enum('a' b)") ≡ err (invalid_at 4)
unfolding parse_type_values
parse_trailing = refl

abbrev odd_values : List Bytes
odd_values = codes "a,')" ∷ codes "\\" ∷ []

parse_type_values-print_declaration_example :
    parse_type_values (print_declaration (codes "enum") odd_values) ≡ ok odd_values
parse_type_values-print_declaration_example =
    parse_type_values-print_declaration (codes "enum") odd_values (unfold split_at_byte in refl)

values_from-enough_example :
    (values_from 3 4 (codes "'a'") ≡ values_from 3 9 (codes "'a'"))
    × (values_from 3 4 (codes "'a'") ≢ err invalid_declaration)
values_from-enough_example = values_from-enough 3 4 9 (codes "'a'") (omega arith) (omega arith)
