-- ===== src/Schema/HandlerTests.antt =====
-- Runs of `GetTableSchema` of go/connection.go with a small server and a small library.
use adbc_driver_mariadb.Base.{ℕ, suc, ◌↔◌, ◌≡◌, refl, true, false, List, [], ◌∷◌, some, none, arith}
use adbc_driver_mariadb.Base.Text.{Bytes, codes, equal}
use adbc_driver_mariadb.Base.Int.{pos}
use adbc_driver_mariadb.Base.Result.{Result, ok, err}
use adbc_driver_mariadb.Arrow.{utf8, int32, json, float32, fixed_size_list, Field, get_value}
use adbc_driver_mariadb.Convert.Column.{
  Library, convert_kind, kind_of, normalize_unsigned, normalized,
}
use adbc_driver_mariadb.Session.Server.{Server}
use adbc_driver_mariadb.Session.Rows.{Rows}
use adbc_driver_mariadb.Schema.TypeValues.{ValuesError}
use adbc_driver_mariadb.Schema.TypeValuesRound.{print_declaration}
use adbc_driver_mariadb.Schema.Dimension.{declare, parse_type_dimension}
use adbc_driver_mariadb.Schema.Json.{mark_clauses, is_marked}
use adbc_driver_mariadb.Schema.JsonClauses.{AnyOf, IsCheck, mark_clauses-IsCheck}
use adbc_driver_mariadb.Schema.Column.{TableColumn, build_field}
use adbc_driver_mariadb.Schema.Fields.{enum_type, build_field-vector, build_field-enumerated}
use adbc_driver_mariadb.Schema.Handler.{get_table_schema}
use adbc_driver_mariadb.Schema.HandlerFields.{Described, get_table_schema-fields}

parse_spaced : parse_type_dimension (codes " BIT( 8 ) ") (codes "BIT") ≡ some (pos 8)
unfolding parse_type_dimension
parse_spaced = refl

parse_zero : parse_type_dimension (codes "BIT(0)") (codes "BIT") ≡ none
unfolding parse_type_dimension
parse_zero = refl

abbrev clauses : List Bytes
clauses = codes "JSON_VALID(`Doc`)" ∷ codes "`n` > 0" ∷ []

mark_clauses-IsCheck_example :
    (is_marked (mark_clauses clauses (codes "n" ∷ codes "Doc" ∷ []) []) (codes "Doc") ≡ true) ↔ (
      AnyOf (λ n. n ≡ codes "Doc") (codes "n" ∷ codes "Doc" ∷ [])
      × AnyOf (IsCheck (codes "Doc")) clauses)
mark_clauses-IsCheck_example =
    mark_clauses-IsCheck clauses (codes "n" ∷ codes "Doc" ∷ []) (codes "Doc")

-- Every type but those of the driver is an int32.
abbrev library : Library
library = record {
  key_database_type_name = "type";
  key_column_name = "column";
  key_precision = "precision";
  key_scale = "scale";
  key_length = "length";
  key_fractional_seconds_precision = "fraction";
  default_convert = λ ct. ok (record { type = int32; nullable = ct.nullable; metadata = [] });
  new_json_type = ok json;
}

abbrev marshal : List Bytes → Result Bytes Bytes
marshal values = ok (codes "[]")

abbrev values_error : Bytes → ValuesError → Bytes
values_error column_type e = codes "invalid"

abbrev column : Bytes → Bytes → Bytes → TableColumn
column name data_type column_type = record {
  ordinal_position = pos 1;
  column_name = name;
  data_type = data_type;
  column_type = column_type;
  is_nullable = codes "YES";
  character_maximum_length = none;
  numeric_precision = none;
  numeric_scale = none;
  datetime_precision = none;
  character_set_name = none;
  collation_name = none;
}

build_field-vector_example :
    (f : Field) × (build_field library marshal values_error false
        (column (codes "v") (codes "vector") (declare (codes "vector") 3))
      ≡ ok f)
    × (f.name ≡ codes "v")
    × (f.type ≡ fixed_size_list (pos 3) float32)
    × (f.nullable ≡ true)
unfolding equal
build_field-vector_example =
    build_field-vector library marshal values_error
      (column (codes "v") (codes "vector") (declare (codes "vector") 3)) 3 refl refl (omega arith)
      (omega arith)

abbrev sizes : List Bytes
sizes = codes "it's" ∷ codes "a,b" ∷ []

build_field-enumerated_example :
    (f : Field) × (build_field library marshal values_error false
        (column (codes "e") (codes "enum") (print_declaration (codes "enum") sizes))
      ≡ ok f)
    × (f.name ≡ codes "e")
    × (f.type ≡ utf8)
    × (f.nullable ≡ true)
    × (get_value f.metadata "mariadb.enum_values" ≡ some (codes "[]"))
unfolding equal
build_field-enumerated_example =
    build_field-enumerated library marshal values_error
      (column (codes "e") (codes "enum") (print_declaration (codes "enum") sizes)) enum_type sizes
      (codes "[]") refl refl refl

abbrev counting : Server
counting = record {
  State = ℕ;
  get_option = λ key s. (err [], s);
  set_option = λ key value s. (err [], s);
  clear_pending = λ s. (ok tt, s);
  execute = λ statement s. (ok tt, suc s);
  query_text = λ query s. (ok (codes "shop"), suc s);
}

abbrev answer :
    {R : Type 0} → List (Result Bytes R) → Bytes → List Bytes → ℕ → Result Bytes (Rows R) × ℕ
answer rows sql args s = (ok (record { scanned = rows; error = none; close = none }), suc s)

abbrev table : List (Result Bytes TableColumn)
table =
    ok (column (codes "id") (codes "int") (codes "int(11) unsigned"))
    ∷ ok (column (codes "doc") (codes "longtext") (codes "longtext"))
    ∷ []

abbrev fields : List Field
fields =
    record {
      name = codes "id";
      type = int32;
      nullable = true;
      metadata = ("mariadb.column_type", codes "int(11) unsigned") ∷ [];
    }
    ∷ record {
      name = codes "doc";
      type = json;
      nullable = true;
      metadata =
          ("type", codes "JSON")
          ∷ ("column", codes "doc")
          ∷ ("mariadb.native_type", codes "json")
          ∷ ("mariadb.column_type", codes "longtext")
          ∷ [];
    }
    ∷ []

get_described :
    get_table_schema library marshal values_error counting
      (answer table)
      (answer (ok (codes "json_valid(`doc`)") ∷ []))
      none
      (codes "t")
      0
    ≡ (ok fields, 3)
unfolding get_table_schema convert_kind kind_of normalize_unsigned normalized
get_described = refl

get_table_schema-fields_example :
    Described library marshal values_error counting
      (answer table)
      (answer (ok (codes "json_valid(`doc`)") ∷ []))
      none
      (codes "t")
      0
      fields
get_table_schema-fields_example =
    get_table_schema-fields library marshal values_error counting (answer table)
      (answer (ok (codes "json_valid(`doc`)") ∷ [])) none (codes "t") 0 3 fields get_described
