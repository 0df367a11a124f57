-- ===== src/Temporal/Tests.antt =====
-- Runs of the TIME conversions of go/mariadb.go.
use adbc_driver_mariadb.Base.{◌≡◌, refl, arith}
use adbc_driver_mariadb.Base.Text.{codes, cut_prefix, split, split_at_byte}
use adbc_driver_mariadb.Base.Int.{negsuc, neg, quot, rem, scale, wrap64, ◌+ℤ◌}
use adbc_driver_mariadb.Base.Decimal.{pad_int, padded, decimal}
use adbc_driver_mariadb.Base.Result.{ok}
use adbc_driver_mariadb.Arrow.{millisecond}
use adbc_driver_mariadb.Temporal.Duration.{
  arrow_duration, parse_duration, parse_unsigned, parse_clock, six_digits, total_ns, clock_text,
  duration_text,
}
use adbc_driver_mariadb.Temporal.DurationRound.{arrow_duration-duration_text}

read_negative : arrow_duration millisecond (codes "-01:02:03.5") ≡ ok (negsuc 3_723_499)
unfolding arrow_duration parse_duration cut_prefix parse_unsigned parse_clock split split_at_byte
    six_digits quot wrap64 neg total_ns ◌+ℤ◌ scale
read_negative = refl

print_negative : duration_text millisecond (negsuc 3_723_499) ≡ codes "-01:02:03.500000"
unfolding duration_text wrap64 scale clock_text pad_int quot neg padded decimal rem
print_negative = refl

arrow_duration-duration_text_example :
    arrow_duration millisecond (duration_text millisecond (negsuc 3_723_499))
    ≡ ok (negsuc 3_723_499)
arrow_duration-duration_text_example =
    arrow_duration-duration_text millisecond (negsuc 3_723_499) (λ e. cc) (omega arith)
      (omega arith)
