-- ===== src/Temporal/Duration.antt =====
-- TIME values of go/mariadb.go: `parseMariaDBDuration`, the conversion of
-- `mariaDBDurationInserter.AppendValue`, and the text that `ConvertArrowToGo` makes of a duration.
use adbc_driver_mariadb.Base.{
  ℕ, ◌-◌, ◌||◌, List, [], ◌∷◌, ◌++◌, Option, none, some, length, take, replicate, ltb,
  if◌then◌else◌,
}
use adbc_driver_mariadb.Base.Text.{Bytes, codes, cut_prefix, split_at_byte, split}
use adbc_driver_mariadb.Base.Int.{ℤ, pos, ◌+ℤ◌, neg, scale, quot, rem, ltb_ℤ, wrap64}
use adbc_driver_mariadb.Base.Decimal.{parse_int, pad_int}
use adbc_driver_mariadb.Arrow.{TimeUnit, multiplier}
use adbc_driver_mariadb.Base.Result.{Result, ok, err}

-- `time.Hour` and its parts, in nanoseconds.
abbrev pub hour_ns : ℕ
hour_ns = 3_600_000_000_000

abbrev pub minute_ns : ℕ
minute_ns = 60_000_000_000

abbrev pub second_ns : ℕ
second_ns = 1_000_000_000

abbrev pub microsecond_ns : ℕ
microsecond_ns = 1_000

pub record Clock : Type 0 where
  pub hours : ℤ
  pub minutes : ℤ
  pub seconds : ℤ

abbrev checked_clock : Option ℤ → Option ℤ → Option ℤ → Option Clock
checked_clock none m s = none
checked_clock (some h) none s = none
checked_clock (some h) (some m) none = none
checked_clock (some h) (some m) (some s) =
    if ltb_ℤ (pos 838) h || ltb_ℤ (pos 59) m || ltb_ℤ (pos 59) s
    then none
    else some (record { hours = h; minutes = m; seconds = s })

-- The three parts of the clock; `none` for what the function refuses.
unfoldable pub parse_clock : List Bytes → Option Clock
unfolding parse_int
parse_clock (h ∷ m ∷ s ∷ []) = checked_clock (parse_int h) (parse_int m) (parse_int s)
parse_clock _ = none

-- Six digits: cut, or filled with zeros.
unfoldable pub six_digits : Bytes → Bytes
six_digits fraction =
    let cut = if ltb 6 (length fraction) then take 6 fraction else fraction in
    cut ++ replicate (6 - length cut) b'0'

abbrev pub parse_fraction : Option Bytes → Option ℤ
parse_fraction none = some (pos 0)
parse_fraction (some fraction) = parse_int (six_digits fraction)

-- `strings.SplitN(value, ".", 2)`
unfoldable pub cut_fraction : Bytes → Bytes × Option Bytes
cut_fraction value = elim (split_at_byte b'.' value) [
  | none ↦ (value, none)
  | some (clock, from) ↦ (clock, elim from [ [] ↦ none | dot ∷ fraction ↦ some fraction ])
]

unfoldable pub total_ns : Clock → ℤ → ℤ
total_ns c micros = wrap64 (
    scale hour_ns c.hours
    +ℤ scale minute_ns c.minutes
    +ℤ scale second_ns c.seconds
    +ℤ scale microsecond_ns micros)

-- The clock and the fraction of `value`, as a duration or as the refusal of `value`.
unfoldable pub parse_parts : Bytes → Bytes × Option Bytes → Result Bytes ℤ
parse_parts value (clock, fraction) = elim (parse_clock (split b':' clock)) [
  | none ↦ err value
  | some c ↦ elim (parse_fraction fraction) [
    | none ↦ err value
    | some micros ↦ ok (total_ns c micros)
  ]
]

-- A duration without its sign, or the refused text.
unfoldable pub parse_unsigned : Bytes → Result Bytes ℤ
unfolding parse_parts cut_fraction
parse_unsigned value = parse_parts value (cut_fraction value)

abbrev pub negated : Result Bytes ℤ → Result Bytes ℤ
negated (ok d) = ok (wrap64 (neg d))
negated (err value) = err value

unfoldable pub parse_duration : Bytes → Result Bytes ℤ
parse_duration value = elim (cut_prefix value (codes "-")) [
  | none ↦ parse_unsigned value
  | some rest ↦ negated (parse_unsigned rest)
]

-- What `AppendValue` gives the builder: `int64(duration) / int64(unit.Multiplier())`.
unfoldable pub arrow_duration : TimeUnit → Bytes → Result Bytes ℤ
arrow_duration unit text = elim (parse_duration text) [
  | ok d ↦ ok (quot d (multiplier unit))
  | err value ↦ err value
]

-- `"%02d:%02d:%02d.%06d"` of the hours, minutes, seconds and microseconds.
unfoldable pub clock_text : ℤ → Bytes
clock_text duration =
    let in_hour = rem duration hour_ns in
    let in_minute = rem in_hour minute_ns in
    pad_int 2 (quot duration hour_ns)
    ++ (b':'
        ∷ (pad_int 2 (quot in_hour minute_ns)
            ++ (b':'
                ∷ (pad_int 2 (quot in_minute second_ns)
                    ++ (b'.' ∷ pad_int 6 (quot (rem in_minute second_ns) microsecond_ns))))))

-- The `*array.Duration` case of `ConvertArrowToGo`, for a TIME column.
unfoldable pub duration_text : TimeUnit → ℤ → Bytes
duration_text unit value =
    let duration = wrap64 (scale (multiplier unit) value) in
    if ltb_ℤ duration (pos 0)
    then b'-' ∷ clock_text (wrap64 (neg duration))
    else clock_text duration
