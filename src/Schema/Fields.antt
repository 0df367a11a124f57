-- ===== src/Schema/Fields.antt =====
-- The fields that `GetTableSchema` of go/connection.go makes of VECTOR, ENUM and SET columns.
use text.Mathlib.Text.{◌==◌ as str_eq}
use adbc_driver_mariadb.Base.{
  String, ℕ, ◌*◌, ◌<◌, Bool, true, false, ◌≡◌, refl, ap, ◌∙◌, List, Option, none, some, arith, ◌&&◌,
  ◌==◌, if◌then◌else◌,
}
use adbc_driver_mariadb.Base.Text.{
  Bytes, codes, equal, to_upper, cut_prefix, equal_fold, split_at_byte,
}
use adbc_driver_mariadb.Base.Int.{
  pos, scale-pos, wrap64, wrap64-eq, wrap32, wrap32-eq, ltb_ℤ, pos_part, rem, quot, rem-pos,
  quot-pos, int32_half,
}
use adbc_driver_mariadb.Base.Result.{Result, ok}
use adbc_driver_mariadb.Arrow.{utf8, fixed_size_list, float32, Metadata, Field, get_value}
use adbc_driver_mariadb.Convert.Column.{
  ColumnType, Converted, Library, convert_raw_column_type, normalized, normalize_unsigned, kind_of,
  convert_kind, convert_vector,
}
use adbc_driver_mariadb.Schema.TypeValues.{ValuesError}
use adbc_driver_mariadb.Schema.TypeValuesRound.{
  print_declaration, parse_type_values-print_declaration,
}
use adbc_driver_mariadb.Schema.Dimension.{declare, parse_type_dimension-declare}
use adbc_driver_mariadb.Schema.Column.{
  TableColumn, length_of, db_type_name, column_type_of, put, encoded_values, with_values,
  column_metadata, build_field,
}
use adbc_driver_mariadb.Schema.Metadata.{get_value-put}

length_of-vector :
    (col : TableColumn) (n : ℕ)
    → col.data_type ≡ codes "vector"
    → col.column_type ≡ declare (codes "vector") n
    → 0 < n
    → n < int32_half
    → length_of col ≡ some (pos (4 * n))
unfolding length_of equal_fold
length_of-vector col n h e low high =
    rw
      (
        h,
        e,
        parse_type_dimension-declare b'v' (codes "ector") (codes "VECTOR") n refl
            (unfold equal_fold in refl) low (omega (arith, high)),
      )
      (ap some
        (ap wrap64 (scale-pos 4 n) ∙ wrap64-eq (pos (4 * n)) (omega (arith, high)) (omega arith)))

dimension_of : (n : ℕ) → n < int32_half → wrap32 (quot (pos (4 * n)) 4) ≡ pos n
dimension_of n high =
    ap wrap32 (quot-pos (4 * n) 4 ∙ ap pos (omega arith))
    ∙ wrap32-eq (pos n) (omega (arith, high)) (omega arith)

whole_floats :
    (n : ℕ) → 0 < n → (ltb_ℤ (pos 0) (pos (4 * n)) && (pos_part (rem (pos (4 * n)) 4) == 0)) ≡ true
whole_floats n low = rw (rem-pos (4 * n) 4) (ground arith)

convert_vector-packed :
    (lib : Library) (ct : ColumnType) (n : ℕ)
    → 0 < n
    → n < int32_half
    → (c : Converted) × (convert_vector lib ct (some (pos (4 * n))) ≡ ok c)
      × (c.type ≡ fixed_size_list (pos n) float32)
      × (c.nullable ≡ ct.nullable)
unfolding convert_vector
convert_vector-packed lib ct n low high =
    rw (whole_floats n low)
      (_, refl, ap (λ d. fixed_size_list d float32) (dimension_of n high), refl)

raw-vector :
    (lib : Library) (ct : ColumnType)
    → ct.database_type_name ≡ codes "vector"
    → convert_raw_column_type lib ct ≡ convert_vector lib ct ct.length
unfolding convert_raw_column_type normalized normalize_unsigned kind_of convert_kind to_upper equal
    cut_prefix
raw-vector lib ct h = rw h refl

db_type_name-vector :
    (col : TableColumn) → col.data_type ≡ codes "vector" → db_type_name false col ≡ codes "vector"
unfolding db_type_name
db_type_name-vector col h = rw h refl

module _ (lib : Library) (marshal : List Bytes → Result Bytes Bytes)
    (values_error : Bytes → ValuesError → Bytes) where
  with_values-vector :
      (col : TableColumn) (m : Metadata)
      → col.data_type ≡ codes "vector"
      → with_values lib marshal values_error col m ≡ ok m
  unfolding with_values
  with_values-vector col m h = rw h refl

  build_field-ok :
      (json : Bool) (col : TableColumn) (c : Converted) (m : Metadata)
      → convert_raw_column_type lib (column_type_of json col) ≡ ok c
      → with_values lib marshal values_error col (column_metadata col c.metadata) ≡ ok m
      → build_field lib marshal values_error json col
        ≡ ok (record { name = col.column_name; type = c.type; nullable = c.nullable; metadata = m })
  unfolding build_field
  build_field-ok json col c m h e = rw (h, e) refl

  -- A column that no `json_valid` check marks and that the server describes as VECTOR(n), with a positive
  -- n below 2^31, becomes a field of lists of n floats, nullable where the column is, under the column's
  -- name.
  pub build_field-vector :
      (col : TableColumn) (n : ℕ)
      → col.data_type ≡ codes "vector"
      → col.column_type ≡ declare (codes "vector") n
      → 0 < n
      → n < int32_half
      → (f : Field) × (build_field lib marshal values_error false col ≡ ok f)
        × (f.name ≡ col.column_name)
        × (f.type ≡ fixed_size_list (pos n) float32)
        × (f.nullable ≡ equal col.is_nullable (codes "YES"))
  unfolding column_type_of
  build_field-vector col n h e low high =
      let ct = column_type_of false col in
      let (c, converts, type, nullable) = convert_vector-packed lib ct n low high in
      let raw =
        raw-vector lib ct (db_type_name-vector col h)
        ∙ ap (convert_vector lib ct) (length_of-vector col n h e low high)
        ∙ converts in
      (
        _,
        build_field-ok false col c (column_metadata col c.metadata) raw
            (with_values-vector col (column_metadata col c.metadata) h),
        refl,
        type,
        nullable,
      )

-- The two types whose declarations list their values.
pub data Enumerated : Type 0 where
  enum_type set_type : Enumerated

abbrev pub type_name : Enumerated → Bytes
type_name enum_type = codes "enum"
type_name set_type = codes "set"

abbrev pub values_name : Enumerated → String
values_name enum_type = "mariadb.enum_values"
values_name set_type = "mariadb.set_values"

raw-enumerated :
    (lib : Library) (ct : ColumnType) (e : Enumerated)
    → ct.database_type_name ≡ type_name e
    → (c : Converted) × (convert_raw_column_type lib ct ≡ ok c)
      × (c.type ≡ utf8)
      × (c.nullable ≡ ct.nullable)
unfolding convert_raw_column_type normalized normalize_unsigned kind_of convert_kind to_upper equal
    cut_prefix
raw-enumerated lib ct enum_type h = rw h (_, refl, refl, refl)
raw-enumerated lib ct set_type h = rw h (_, refl, refl, refl)

db_type_name-enumerated :
    (col : TableColumn) (e : Enumerated)
    → col.data_type ≡ type_name e
    → db_type_name false col ≡ type_name e
unfolding db_type_name
db_type_name-enumerated col enum_type h = rw h refl
db_type_name-enumerated col set_type h = rw h refl

same_key :
    (e : Enumerated) (text : Bytes) (o : Option Bytes)
    → (if str_eq (values_name e) (values_name e) then some text else o) ≡ some text
same_key enum_type text o = refl
same_key set_type text o = refl

no_parenthesis : (e : Enumerated) → split_at_byte b'(' (type_name e) ≡ none
unfolding split_at_byte
no_parenthesis enum_type = refl
no_parenthesis set_type = refl

module _ (lib : Library) (marshal : List Bytes → Result Bytes Bytes)
    (values_error : Bytes → ValuesError → Bytes) where
  encoded_values-print :
      (col : TableColumn) (e : Enumerated) (values : List Bytes) (text : Bytes)
      → col.column_type ≡ print_declaration (type_name e) values
      → marshal values ≡ ok text
      → encoded_values lib marshal values_error col ≡ ok text
  unfolding encoded_values
  encoded_values-print col e values text d h =
      rw (d, parse_type_values-print_declaration (type_name e) values (no_parenthesis e))
        (rw h refl)

  with_values-enumerated :
      (col : TableColumn) (e : Enumerated) (text : Bytes) (m : Metadata)
      → col.data_type ≡ type_name e
      → encoded_values lib marshal values_error col ≡ ok text
      → with_values lib marshal values_error col m ≡ ok (put (values_name e) text m)
  unfolding with_values equal_fold to_upper equal
  with_values-enumerated col enum_type text m h k = rw (k, h) refl
  with_values-enumerated col set_type text m h k = rw (k, h) refl

  -- A column that no `json_valid` check marks, of type ENUM or SET, whose declaration lists any values
  -- in quotes with each quote and each backslash in them doubled and no other escape, becomes a field of
  -- strings, with the JSON text of exactly these values, in their order, under its metadata key for the
  -- values, where the list can be encoded; the field is nullable where the column is.
  pub build_field-enumerated :
      (col : TableColumn) (e : Enumerated) (values : List Bytes) (text : Bytes)
      → col.data_type ≡ type_name e
      → col.column_type ≡ print_declaration (type_name e) values
      → marshal values ≡ ok text
      → (f : Field) × (build_field lib marshal values_error false col ≡ ok f)
        × (f.name ≡ col.column_name)
        × (f.type ≡ utf8)
        × (f.nullable ≡ equal col.is_nullable (codes "YES"))
        × (get_value f.metadata (values_name e) ≡ some text)
  unfolding column_type_of
  build_field-enumerated col e values text h d k =
      let (c, converts, type, nullable) =
        raw-enumerated lib (column_type_of false col) e (db_type_name-enumerated col e h) in
      let m = column_metadata col c.metadata in
      (
        _,
        build_field-ok lib marshal values_error false col c (put (values_name e) text m) converts
            (with_values-enumerated col e text m h (encoded_values-print col e values text d k)),
        refl,
        type,
        nullable,
        get_value-put (values_name e) (values_name e) text m
            ∙ same_key e text (get_value m (values_name e)),
      )
