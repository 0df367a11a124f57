-- ===== src/Objects/Clamp.antt =====
-- `clampInt32` and `clampInt16` of go/connection_getobjects.go.
use adbc_driver_mariadb.Base.{ℕ, ◌≡◌, arith, ltb, ◌-◌, if◌then◌else◌}
use adbc_driver_mariadb.Base.Int.{ℤ, pos, negsuc, wrap32, wrap16}
use adbc_driver_mariadb.Objects.Column.{clamp_int32, clamp_int16}

-- The nearest number to `value` of those from `- lo` to `hi`.
abbrev pub nearest : ℕ → ℕ → ℤ → ℤ
nearest lo hi (pos n) = if ltb hi n then pos hi else pos n
nearest lo hi (negsuc n) = if ltb n lo then negsuc n else negsuc (lo - 1)

clamp_int32-nearest : (value : ℤ) → clamp_int32 value ≡ nearest 2_147_483_648 2_147_483_647 value
unfolding clamp_int32 wrap32
clamp_int32-nearest (pos n) = ground arith
clamp_int32-nearest (negsuc n) = ground arith

clamp_int16-nearest : (value : ℤ) → clamp_int16 value ≡ nearest 32_768 32_767 value
unfolding clamp_int16 wrap16
clamp_int16-nearest (pos n) = ground arith
clamp_int16-nearest (negsuc n) = ground arith

-- Every int64 is clamped to the nearest int32 by the one, and to the nearest int16 by the other.
pub clamp-nearest :
    (value : ℤ)
    → (clamp_int32 value ≡ nearest 2_147_483_648 2_147_483_647 value)
      × (clamp_int16 value ≡ nearest 32_768 32_767 value)
clamp-nearest value = (clamp_int32-nearest value, clamp_int16-nearest value)
