-- ===== src/Arrow.antt =====
-- The Arrow types, fields and metadata that go/mariadb.go and go/connection.go tell apart.
use Prim.Native.String.{String}
use text.Mathlib.Text.{◌==◌ as str_eq}
use adbc_driver_mariadb.Base.{ℕ, Bool, List, [], ◌∷◌, Option, none, some, if◌then◌else◌}
use adbc_driver_mariadb.Base.Text.{Bytes}
use adbc_driver_mariadb.Base.Int.{ℤ}

-- `arrow.TimeUnit`
pub data TimeUnit : Type 0 where
  second millisecond microsecond nanosecond : TimeUnit

-- `unit.Multiplier()`: the nanoseconds of a unit.
abbrev pub multiplier : TimeUnit → ℕ
multiplier second = 1_000_000_000
multiplier millisecond = 1_000_000
multiplier microsecond = 1_000
multiplier nanosecond = 1

-- `decimal` is every type of the interface `arrow.DecimalType`; `other` is a type that no case names.
pub data ArrowType : Type 0 where
  boolean int8 int16 int32 int64 uint8 uint16 uint32 uint64 float16 float32 float64 : ArrowType
  utf8 binary fixed_size_binary binary_view large_binary date32 date64 json uuid : ArrowType
  timestamp : TimeUnit → Bytes → ArrowType
  time32 time64 duration : TimeUnit → ArrowType
  decimal : ℤ → ℤ → ArrowType
  fixed_size_list : ℤ → ArrowType → ArrowType
  other : String → ArrowType

abbrev pub Metadata : Type 0
Metadata = List (String × Bytes)

-- `Metadata.GetValue`
unfoldable pub get_value : Metadata → String → Option Bytes
get_value [] key = none
get_value ((k, v) ∷ m) key = if str_eq k key then some v else get_value m key

pub record Field : Type 0 where
  pub name : Bytes
  pub type : ArrowType
  pub nullable : Bool
  pub metadata : Metadata
