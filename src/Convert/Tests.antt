-- ===== src/Convert/Tests.antt =====
-- Runs of the type converter of go/mariadb.go.
use adbc_driver_mariadb.Base.{true, ◌≡◌, ◌≢◌, refl, [], Option, none, arith}
use adbc_driver_mariadb.Base.{ℕ, List, ◌∷◌}
use adbc_driver_mariadb.Base.Text.{Bytes, codes, equal, equal_iff}
use adbc_driver_mariadb.Base.Int.{ℤ}
use adbc_driver_mariadb.Base.Result.{ok, err}
use adbc_driver_mariadb.Arrow.{other}
use adbc_driver_mariadb.Convert.Column.{ColumnType, Library}
use adbc_driver_mariadb.Convert.Inserter.{has_zero_date_prefix}
use adbc_driver_mariadb.Convert.Inserter.{insert_vector, vector_bytes, floats_cell}
use adbc_driver_mariadb.Convert.Vector.{Words, insert_vector-vector_bytes}
use adbc_driver_mariadb.Convert.Served.{KeysApart}
use adbc_driver_mariadb.Base.{false}
use adbc_driver_mariadb.Base.Int.{negsuc}
use adbc_driver_mariadb.Arrow.{Field, nanosecond, timestamp}
use adbc_driver_mariadb.Convert.ToGo.{timestamp_array, time_value, ToGo, convert_arrow_to_go}
use adbc_driver_mariadb.Convert.ToGoTimes.{convert_arrow_to_go-nanoseconds}

-- A library whose default conversion keeps the name as the type.
abbrev small_library : Library
small_library = record {
  key_database_type_name = "sql.database_type_name";
  key_column_name = "sql.column_name";
  key_precision = "sql.precision";
  key_scale = "sql.scale";
  key_length = "sql.length";
  key_fractional_seconds_precision = "sql.fractional_seconds_precision";
  default_convert = λ ct. ok (record { type = other "any"; nullable = ct.nullable; metadata = [] });
  new_json_type = err (codes "no JSON");
}

small_library-KeysApart : KeysApart small_library
small_library-KeysApart = record { type_name = refl; column_name = refl; length = refl }

abbrev column : Bytes → Option ℤ → Option ℤ → ColumnType
column type length precision = record {
  name = codes "c";
  database_type_name = type;
  nullable = true;
  length = length;
  precision = precision;
  scale = none;
}

zero_month : has_zero_date_prefix (codes "2024-00-01 10:00:00") ≡ true
unfolding has_zero_date_prefix
zero_month = refl

turned_apart : codes "BIGINT UNSIGNED" ≢ codes "UNSIGNED BIGINT"
unfolding equal
turned_apart e = cc ((equal_iff (codes "BIGINT UNSIGNED") (codes "UNSIGNED BIGINT")).1 e)

-- Two rows of two elements: 1.0 and 0.5, and 2.0 and -1.0.
abbrev two_vectors : List ℕ
two_vectors = 0x3F80_0000 ∷ 0x3F00_0000 ∷ 0x4000_0000 ∷ 0xBF80_0000 ∷ []

insert_vector-vector_bytes_example :
    insert_vector 2 (vector_bytes 2 1 two_vectors) []
    ≡ ok (floats_cell (0x4000_0000 ∷ 0xBF80_0000 ∷ []) ∷ [])
insert_vector-vector_bytes_example =
    insert_vector-vector_bytes 2 1 two_vectors [] (unfold Words in (omega arith, (omega arith, tt)))
      refl

-- A library that reads every timestamp as the last nanosecond before 1970.
abbrev clock_library : ToGo
clock_library = record {
  time32_to_time = λ unit value. record { unix = value; nanos = 0 };
  time64_to_time = λ unit value. record { unix = value; nanos = 0 };
  timestamp_to_time = λ unit value. record { unix = negsuc 0; nanos = 999_999_999 };
  float16_to_float32 = λ bits. bits;
  default_convert = λ array index field. err (codes "none");
}

abbrev plain_field : Field
plain_field = record {
  name = codes "t";
  type = timestamp nanosecond [];
  nullable = true;
  metadata = [];
}

convert_arrow_to_go-nanoseconds_example :
    convert_arrow_to_go clock_library
      (λ i. false)
      (timestamp_array nanosecond (λ i. negsuc 0))
      0
      plain_field
    ≡ ok (time_value (record { unix = negsuc 0; nanos = 999_999_000 }))
convert_arrow_to_go-nanoseconds_example =
    convert_arrow_to_go-nanoseconds clock_library (λ i. false) (λ i. negsuc 0) 0 plain_field refl
      (omega arith, omega arith, omega arith)
