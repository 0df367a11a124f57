-- ===== src/Convert/ToGoTimes.antt =====
-- Timestamps with nanoseconds in `ConvertArrowToGo` of go/mariadb.go.
use adbc_driver_mariadb.Base.{
  ℕ, zero, suc, ◌+◌, ◌-◌, ◌*◌, ◌/◌, ◌%◌, ◌≤◌, ◌<◌, Bool, false, ◌≡◌, ap, ◌∙◌, arith,
}
use adbc_driver_mariadb.Base.Int.{
  ℤ, pos, negsuc, ◌+ℤ◌, scale, quot, rem, sub_ℕ, pos_part, neg_part, wrap64, wrap64-eq,
}
use adbc_driver_mariadb.Base.Result.{ok}
use adbc_driver_mariadb.Arrow.{nanosecond, Field}
use adbc_driver_mariadb.Convert.ToGo.{
  Time, time_unix, from_unix_micro, unix_micro, timestamp_array, time_value, ToGo,
  convert_arrow_to_go,
}

-- Microseconds of a time before 1970.
micros_before : ℕ → ℕ → ℤ
micros_before n k = sub_ℕ k (1_000_000 * suc n)

from_unix_micro-pos :
    (n k : ℕ)
    → k < 1_000_000
    → from_unix_micro (pos (1_000_000 * n + k)) ≡ record { unix = pos n; nanos = 1_000 * k }
unfolding from_unix_micro time_unix quot rem scale
from_unix_micro-pos n k h = ground arith

scale-below : (r : ℕ) → scale 1_000 (sub_ℕ 0 r) ≡ sub_ℕ 0 (1_000 * r)
unfolding scale
scale-below r = ground arith

time_unix-below :
    (q r : ℕ)
    → 0 < r
    → r < 1_000_000
    → time_unix (sub_ℕ 0 q) (sub_ℕ 0 (1_000 * r))
      ≡ record { unix = negsuc q; nanos = 1_000_000_000 - 1_000 * r }
unfolding time_unix ◌+ℤ◌
time_unix-below q r h g = ground arith

time_unix-whole :
    (n : ℕ) → time_unix (sub_ℕ 0 (suc n)) (sub_ℕ 0 0) ≡ record { unix = negsuc n; nanos = 0 }
unfolding time_unix
time_unix-whole n = ground arith

-- The division of a number below zero, towards zero, with what it leaves.
from_unix_micro-negsuc :
    (m q r : ℕ)
    → suc m / 1_000_000 ≡ q
    → suc m % 1_000_000 ≡ r
    → from_unix_micro (negsuc m) ≡ time_unix (sub_ℕ 0 q) (sub_ℕ 0 (1_000 * r))
unfolding from_unix_micro quot rem
from_unix_micro-negsuc m q r e f =
    ap (λ q. time_unix (sub_ℕ 0 q) (scale 1_000 (sub_ℕ 0 (suc m % 1_000_000)))) e
    ∙ ap (time_unix (sub_ℕ 0 q)) (scale-below (suc m % 1_000_000) ∙ ap (λ r. sub_ℕ 0 (1_000 * r)) f)

from_unix_micro-whole :
    (n : ℕ)
    → from_unix_micro (negsuc (1_000_000 * n + 999_999)) ≡ record { unix = negsuc n; nanos = 0 }
from_unix_micro-whole n =
    from_unix_micro-negsuc (1_000_000 * n + 999_999) (suc n) 0 (omega arith) (omega arith)
    ∙ time_unix-whole n

from_unix_micro-part :
    (n k : ℕ)
    → k < 999_999
    → from_unix_micro (negsuc (1_000_000 * n + 999_998 - k))
      ≡ record { unix = negsuc n; nanos = 1_000 * suc k }
from_unix_micro-part n k h =
    from_unix_micro-negsuc (1_000_000 * n + 999_998 - k) n (999_999 - k) (omega (arith, h))
      (omega (arith, h))
    ∙ time_unix-below n (999_999 - k) (omega (arith, h)) (omega (arith, h))
    ∙ ap (λ ns. record { unix = negsuc n; nanos = ns }) (omega (arith, h))

from_unix_micro-neg :
    (n k : ℕ)
    → k < 1_000_000
    → from_unix_micro (micros_before n k) ≡ record { unix = negsuc n; nanos = 1_000 * k }
unfolding micros_before
from_unix_micro-neg n zero h =
    ap from_unix_micro {x = sub_ℕ 0 (1_000_000 * suc n)} (ground arith) ∙ from_unix_micro-whole n
from_unix_micro-neg n (suc k) h =
    ap from_unix_micro {x = sub_ℕ (suc k) (1_000_000 * suc n)}
      {y = negsuc (1_000_000 * n + 999_998 - k)} (ground arith)
    ∙ from_unix_micro-part n k (omega (arith, h))

unix_micro-pos :
    (n k : ℕ)
    → n < 9_223_372_036_854
    → k < 1_000_000_000
    → unix_micro (record { unix = pos n; nanos = k }) ≡ pos (1_000_000 * n + k / 1_000)
unfolding unix_micro scale ◌+ℤ◌
unix_micro-pos n k h g =
    ap wrap64 {y = pos (1_000_000 * n + k / 1_000)} (ground arith)
    ∙ wrap64-eq (pos (1_000_000 * n + k / 1_000)) (omega (arith, h, g)) (omega arith)

unix_micro-neg :
    (n k : ℕ)
    → n < 9_223_372_036_854
    → k < 1_000_000_000
    → unix_micro (record { unix = negsuc n; nanos = k }) ≡ micros_before n (k / 1_000)
unfolding unix_micro scale ◌+ℤ◌ micros_before
unix_micro-neg n k h g =
    ap wrap64 {y = sub_ℕ (k / 1_000) (1_000_000 * suc n)} (ground arith)
    ∙ wrap64-eq (sub_ℕ (k / 1_000) (1_000_000 * suc n)) (ground arith) (ground arith)

-- The seconds for which the microseconds surely fit into 64 bits. Those of a number of nanoseconds in 64
-- bits are a thousandth of that.
abbrev pub InRange : Time → Type 0
InRange t =
    (t.nanos < 1_000_000_000)
    × (pos_part t.unix < 9_223_372_036_854)
    × (neg_part t.unix ≤ 9_223_372_036_854)

times :
    (s : ℤ) (k : ℕ)
    → k < 1_000_000_000
    → pos_part s < 9_223_372_036_854
    → neg_part s ≤ 9_223_372_036_854
    → from_unix_micro (unix_micro (record { unix = s; nanos = k }))
      ≡ record { unix = s; nanos = 1_000 * (k / 1_000) }
times (pos n) k h g l =
    ap from_unix_micro (unix_micro-pos n k g h)
    ∙ from_unix_micro-pos n (k / 1_000) (omega (arith, h))
times (negsuc n) k h g l =
    ap from_unix_micro (unix_micro-neg n k (omega (arith, l)) h)
    ∙ from_unix_micro-neg n (k / 1_000) (omega (arith, h))

from-to_unix_micro :
    (t : Time)
    → InRange t
    → from_unix_micro (unix_micro t) ≡ record t { nanos = 1_000 * (t.nanos / 1_000) }
from-to_unix_micro t h = times t.unix t.nanos h.0 h.1 h.2

-- A timestamp in nanoseconds that is not null, and that its library reads as a time from 9223372036854
-- seconds before 1970 to before 9223372036854 seconds after, with less than a second of nanoseconds, is
-- sent as the time of its microsecond: the same second, with the nanoseconds rounded down to a multiple
-- of a thousand.
pub convert_arrow_to_go-nanoseconds :
    (lib : ToGo) (is_null : ℕ → Bool) (value : ℕ → ℤ) (index : ℕ) (field : Field)
    → is_null index ≡ false
    → InRange (lib.timestamp_to_time nanosecond (value index))
    → convert_arrow_to_go lib is_null (timestamp_array nanosecond value) index field
      ≡ ok (
          time_value (
            let t = lib.timestamp_to_time nanosecond (value index) in
            record t { nanos = 1_000 * (t.nanos / 1_000) }))
unfolding convert_arrow_to_go
convert_arrow_to_go-nanoseconds lib is_null value index field h r = rw h (
    ap (λ t. ok (time_value t))
      (from-to_unix_micro (lib.timestamp_to_time nanosecond (value index)) r))
