-- ===== src/Convert/ToGo.antt =====
-- `ConvertArrowToGo` of go/mariadb.go: the Go value that an Arrow array has at an index.
use adbc_driver_mariadb.Base.{
  ℕ, ◌/◌, ◌%◌, Bool, true, false, List, ◌∷◌, ◌++◌, none, some, if◌then◌else◌,
}
use adbc_driver_mariadb.Base.Text.{Bytes, codes, equal}
use adbc_driver_mariadb.Base.Int.{
  ℤ, pos, negsuc, ◌+ℤ◌, scale, quot, rem, residue, ltb_ℤ, pos_part, wrap64,
}
use adbc_driver_mariadb.Base.Decimal.{padded}
use adbc_driver_mariadb.Base.Result.{Result, ok, err}
use adbc_driver_mariadb.Arrow.{TimeUnit, nanosecond, Field, get_value}
use adbc_driver_mariadb.Temporal.Duration.{duration_text}
use adbc_driver_mariadb.Convert.Inserter.{vector_bytes}

-- `time.Time` in UTC: the seconds since 1970, and the nanoseconds after them.
pub record Time : Type 0 where
  pub unix : ℤ
  pub nanos : ℕ

-- `time.Unix(sec, nsec)` with |nsec| below 10^9.
unfoldable pub time_unix : ℤ → ℤ → Time
time_unix sec nsec =
    if ltb_ℤ nsec (pos 0)
    then record { unix = sec +ℤ negsuc 0; nanos = pos_part (nsec +ℤ pos 1_000_000_000) }
    else record { unix = sec; nanos = pos_part nsec }

-- `time.UnixMicro(usec)` and `t.UnixMicro()`.
unfoldable pub from_unix_micro : ℤ → Time
unfolding time_unix quot rem scale
from_unix_micro usec = time_unix (quot usec 1_000_000) (scale 1_000 (rem usec 1_000_000))

unfoldable pub unix_micro : Time → ℤ
unfolding scale wrap64
unix_micro t = wrap64 (scale 1_000_000 t.unix +ℤ pos (t.nanos / 1_000))

-- `t.Format("15:04:05.000000")`
unfoldable pub clock : Time → Bytes
unfolding padded
clock t =
    let day = residue 86_400 t.unix in
    padded 2 (day / 3_600)
    ++ (b':'
        ∷ (padded 2 (day / 60 % 60)
            ++ (b':' ∷ (padded 2 (day % 60) ++ (b'.' ∷ padded 6 (t.nanos / 1_000))))))

-- The arrays that the switch tells apart, each with its type's parameters and its values by index.
-- A fixed-size list has the bit patterns of its float32 values, or the name of their other type.
pub data ArrowArray : Type 0 where
  json_array uuid_array : (ℕ → Bytes) → ArrowArray
  time32_array time64_array timestamp_array duration_array : TimeUnit → (ℕ → ℤ) → ArrowArray
  fixed_size_list_array : ℕ → Result Bytes (List ℕ) → ArrowArray
  float16_array : (ℕ → ℕ) → ArrowArray
  other_array : Bytes → ArrowArray

pub data GoValue : Type 0 where
  nil_value : GoValue
  variant_value text_value bytes_value library_value : Bytes → GoValue
  time_value : Time → GoValue
  float32_value : ℕ → GoValue

-- What the driver takes from Arrow and from the default converter.
pub record ToGo : Type 0 where
  pub time32_to_time : TimeUnit → ℤ → Time
  pub time64_to_time : TimeUnit → ℤ → Time
  pub timestamp_to_time : TimeUnit → ℤ → Time
  pub float16_to_float32 : ℕ → ℕ
  pub default_convert : ArrowArray → ℕ → Field → Result Bytes GoValue

-- `field.Metadata.GetValue(metaKeyMariaDBNativeType)`, compared.
unfoldable pub is_native : Field → Bytes → Bool
unfolding get_value equal
is_native field name = elim (get_value field.metadata "mariadb.native_type") [
  | none ↦ false
  | some native_type ↦ equal native_type name
]

abbrev pub is_nanosecond : TimeUnit → Bool
is_nanosecond nanosecond = true
is_nanosecond _ = false

module _ (lib : ToGo) where
  abbrev pub vector_value : ℕ → ℕ → Result Bytes (List ℕ) → Result Bytes GoValue
  vector_value dimension index (ok values) = ok (bytes_value (vector_bytes dimension index values))
  vector_value dimension index (err type) =
      err (codes "MariaDB VECTOR requires float32 values, got " ++ type)

  unfoldable pub convert_array : ArrowArray → ℕ → Field → Result Bytes GoValue
  unfolding clock unix_micro from_unix_micro is_native duration_text vector_bytes
  convert_array (json_array value) index field = ok (variant_value (value index))
  convert_array (uuid_array value) index field = ok (text_value (value index))
  convert_array (time32_array unit value) index field =
      ok (text_value (clock (lib.time32_to_time unit (value index))))
  convert_array (time64_array unit value) index field =
      ok (text_value (clock (lib.time64_to_time unit (value index))))
  convert_array (timestamp_array unit value) index field =
      if is_nanosecond unit
      then ok (time_value (from_unix_micro (unix_micro (lib.timestamp_to_time unit (value index)))))
      else lib.default_convert (timestamp_array unit value) index field
  convert_array (duration_array unit value) index field =
      if is_native field (codes "time_duration")
      then ok (text_value (duration_text unit (value index)))
      else lib.default_convert (duration_array unit value) index field
  convert_array (fixed_size_list_array dimension values) index field =
      if is_native field (codes "vector")
      then vector_value dimension index values
      else lib.default_convert (fixed_size_list_array dimension values) index field
  convert_array (float16_array value) index field =
      ok (float32_value (lib.float16_to_float32 (value index)))
  convert_array (other_array type) index field = lib.default_convert (other_array type) index field

  -- `is_null` is `arrowArray.IsNull`.
  unfoldable pub convert_arrow_to_go : (ℕ → Bool) → ArrowArray → ℕ → Field → Result Bytes GoValue
  unfolding convert_array
  convert_arrow_to_go is_null array index field =
      if is_null index then ok nil_value else convert_array array index field
