-- ===== src/Export/Option.antt =====
-- exportStringOption and exportBytesOption of go/pkg/driver.go, and the lengths that C hands over
-- (C.GoBytes). The memory at a pointer holds at least as many bytes as the length that comes with it.
pub mod Bounds
use adbc_driver_mariadb.Base.{
  ℕ, zero, suc, ◌+◌, ◌-◌, ◌%◌, ◌^◌, Bool, List, [], ◌∷◌, ◌++◌, Option, none, some, if◌then◌else◌,
  length, take, leb,
}
use adbc_driver_mariadb.Base.Text.{Bytes}

-- `copy`: the bytes go over the first of those that are there.
unfoldable pub copy : Bytes → Bytes → Bytes
copy [] sink = sink
copy (b ∷ bytes) [] = []
copy (b ∷ bytes) (c ∷ sink) = b ∷ copy bytes sink

-- The memory at `out`, and `*length`.
pub record Buffer : Type 0 where
  pub memory : Bytes
  pub room : ℕ

-- The sink is the first `len(val) + 1` bytes at `out`.
unfoldable pub export_string_option : Bytes → Buffer → Buffer
unfolding copy
export_string_option val out =
    let len_with_terminator = length val + 1 in
    if leb len_with_terminator out.room
    then record { memory = copy (val ++ 0 ∷ []) out.memory; room = len_with_terminator }
    else record out { room = len_with_terminator }

unfoldable pub export_bytes_option : Bytes → Buffer → Buffer
unfolding copy
export_bytes_option val out =
    if leb (length val) out.room
    then record { memory = copy val out.memory; room = length val }
    else record out { room = length val }

-- `math.MaxInt` on 64 bits.
abbrev pub max_int : ℕ
max_int = 9_223_372_036_854_775_807

-- `C.GoBytes(value, C.int(safeLen))`: the length is cut to 32 bits, and where it is negative the
-- conversion panics.
unfoldable pub go_bytes : Bytes → ℕ → Option Bytes
go_bytes value safe_len =
    if leb (2 ^ 31) (safe_len % 2 ^ 32) then none else some (take (safe_len % 2 ^ 32) value)
