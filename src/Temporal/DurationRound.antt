-- ===== src/Temporal/DurationRound.antt =====
-- A TIME value of go/mariadb.go, printed and read back.
use adbc_driver_mariadb.Base.{
  ℕ, zero, suc, ◌+◌, ◌*◌, ◌/◌, ◌%◌, ◌<◌, ◌≤◌, ◌≡◌, ◌≢◌, refl, ap, ◌∙◌, true, [], ◌∷◌, ◌++◌, none,
  some, length, take, arith, append-nil, append_assoc,
}
use adbc_driver_mariadb.Base.Text.{
  Bytes, codes, cut_prefix, split_at_byte, split, split-append, split-none, split_at_byte-append,
  split_at_byte-none,
}
use adbc_driver_mariadb.Base.Int.{
  ℤ, pos, negsuc, neg, scale, quot, ltb_ℤ, wrap64, wrap64-eq, pos_part, neg_part, scale-pos, +ℤ-pos,
  quot-pos, rem-pos,
}
use adbc_driver_mariadb.Base.Decimal.{
  pad_int, padded, padded-IsDigits, parse_int-padded, IsDigits, IsDigits-split, last, more,
  length-padded,
}
use adbc_driver_mariadb.Base.Result.{ok}
use adbc_driver_mariadb.Arrow.{TimeUnit, second, millisecond, microsecond, nanosecond, multiplier}
use adbc_driver_mariadb.Temporal.Duration.{
  hour_ns, minute_ns, second_ns, microsecond_ns, parse_clock, six_digits, parse_fraction,
  cut_fraction, total_ns, parse_unsigned, parse_parts, negated, parse_duration, arrow_duration,
  clock_text, duration_text,
}

-- 839 hours, in nanoseconds: the first duration that TIME does not hold.
abbrev pub time_limit : ℕ
time_limit = 3_020_400_000_000_000

abbrev hours_text : ℕ → ℕ → ℕ → Bytes
hours_text h m s = padded 2 h ++ (b':' ∷ (padded 2 m ++ (b':' ∷ padded 2 s)))

no_colon : (w n : ℕ) → split_at_byte b':' (padded w n) ≡ none
no_colon w n = IsDigits-split b':' refl (padded-IsDigits w n)

no_dot : (w n : ℕ) → split_at_byte b'.' (padded w n) ≡ none
no_dot w n = IsDigits-split b'.' refl (padded-IsDigits w n)

colon_no_dot : (t : Bytes) → split_at_byte b'.' t ≡ none → split_at_byte b'.' (b':' ∷ t) ≡ none
unfolding split_at_byte
colon_no_dot t h = ground arith

hours_text-no_dot : (h m s : ℕ) → split_at_byte b'.' (hours_text h m s) ≡ none
hours_text-no_dot h m s = split_at_byte-none b'.' (padded 2 h) _ (no_dot 2 h) (
    colon_no_dot _
      (split_at_byte-none b'.' (padded 2 m) _ (no_dot 2 m) (colon_no_dot _ (no_dot 2 s))))

split-hours_text :
    (h m s : ℕ) → split b':' (hours_text h m s) ≡ padded 2 h ∷ padded 2 m ∷ padded 2 s ∷ []
split-hours_text h m s =
    rw (split-append b':' (padded 2 h) (padded 2 m ++ (b':' ∷ padded 2 s)) (no_colon 2 h)) (
      rw (split-append b':' (padded 2 m) (padded 2 s) (no_colon 2 m))
        (rw (split-none b':' (padded 2 s) (no_colon 2 s))))

parse_clock-padded :
    (h m s : ℕ)
    → h ≤ 838
    → m ≤ 59
    → s ≤ 59
    → parse_clock (padded 2 h ∷ padded 2 m ∷ padded 2 s ∷ [])
      ≡ some (record { hours = pos h; minutes = pos m; seconds = pos s })
unfolding parse_clock
parse_clock-padded h m s p q r = rw (parse_int-padded 2 h (omega arith)) (
    rw (parse_int-padded 2 m (omega arith))
      (rw (parse_int-padded 2 s (omega arith)) (ground arith)))

take_all : (n : ℕ) (s : Bytes) → length s ≡ n → take n s ≡ s
take_all zero [] h = refl
take_all zero (c ∷ s) h = absurd (omega arith)
take_all (suc n) [] h = refl
take_all (suc n) (c ∷ s) h = ap (λ t. c ∷ t) (take_all n s (omega arith))

six_digits-eq : (s : Bytes) → length s ≡ 6 → six_digits s ≡ s
unfolding six_digits
six_digits-eq s h = rw h (rw h (append-nil s))

six_digits-padded : (us : ℕ) → us < 1_000_000 → six_digits (padded 6 us) ≡ padded 6 us
six_digits-padded us h = six_digits-eq (padded 6 us) (length-padded 5 us (omega arith))

parse_fraction-padded :
    (us : ℕ) → us < 1_000_000 → parse_fraction (some (padded 6 us)) ≡ some (pos us)
parse_fraction-padded us h = rw (six_digits-padded us h) (parse_int-padded 6 us (omega arith))

total_ns-pos :
    (h m s us : ℕ)
    → h ≤ 838
    → m ≤ 59
    → s ≤ 59
    → us < 1_000_000
    → total_ns (record { hours = pos h; minutes = pos m; seconds = pos s }) (pos us)
      ≡ pos (h * hour_ns + m * minute_ns + s * second_ns + us * microsecond_ns)
unfolding total_ns
total_ns-pos h m s us p q r t =
    simp (scale-pos, +ℤ-pos) (wrap64-eq _ (omega arith) (omega arith) ∙ ap pos (omega arith))

cut_fraction-dot :
    (clock fraction : Bytes)
    → split_at_byte b'.' clock ≡ none
    → cut_fraction (clock ++ (b'.' ∷ fraction)) ≡ (clock, some fraction)
unfolding cut_fraction
cut_fraction-dot clock fraction h = rw (split_at_byte-append b'.' clock fraction h, cut_fraction)

parse_parts-text :
    (value : Bytes) (h m s us : ℕ)
    → h ≤ 838
    → m ≤ 59
    → s ≤ 59
    → us < 1_000_000
    → parse_parts value (hours_text h m s, some (padded 6 us))
      ≡ ok (pos (h * hour_ns + m * minute_ns + s * second_ns + us * microsecond_ns))
unfolding parse_parts
parse_parts-text value h m s us p q r t =
    rw (split-hours_text h m s, parse_parts)
      (rw (parse_clock-padded h m s p q r)
        (rw (parse_fraction-padded us t) (ap ok (total_ns-pos h m s us p q r t))))

-- The text of a clock reads back as its nanoseconds.
parse_unsigned-text :
    (h m s us : ℕ)
    → h ≤ 838
    → m ≤ 59
    → s ≤ 59
    → us < 1_000_000
    → parse_unsigned (hours_text h m s ++ (b'.' ∷ padded 6 us))
      ≡ ok (pos (h * hour_ns + m * minute_ns + s * second_ns + us * microsecond_ns))
parse_unsigned-text h m s us p q r t =
    (unfold parse_unsigned in
      rw (cut_fraction-dot (hours_text h m s) (padded 6 us) (hours_text-no_dot h m s))
        (parse_parts-text _ h m s us p q r t))

hours_text-append :
    (h m s : ℕ) (t : Bytes)
    → padded 2 h ++ (b':' ∷ (padded 2 m ++ (b':' ∷ (padded 2 s ++ t)))) ≡ hours_text h m s ++ t
hours_text-append h m s t = simp append_assoc

-- The text of a duration below 839 hours reads back as its whole microseconds.
clock_text-parse_unsigned :
    (n : ℕ)
    → n < time_limit
    → parse_unsigned (clock_text (pos n)) ≡ ok (pos (n / microsecond_ns * microsecond_ns))
unfolding clock_text pad_int
clock_text-parse_unsigned n h =
    let m = n % hour_ns in
    let s = m % minute_ns in
    let us = s % second_ns / microsecond_ns in
    simp (rem-pos, quot-pos)
      (rw (hours_text-append (n / hour_ns) (m / minute_ns) (s / second_ns) (b'.' ∷ padded 6 us)) (
        parse_unsigned-text (n / hour_ns) (m / minute_ns) (s / second_ns) us (omega arith)
          (omega arith) (omega arith) (omega arith)
        ∙ ap (λ t. ok (pos t)) (omega arith)))

IsDigits-no_sign : {s : Bytes} (t : Bytes) → IsDigits s → cut_prefix (s ++ t) (codes "-") ≡ none
unfolding cut_prefix
IsDigits-no_sign t (last c h) = ground arith
IsDigits-no_sign t (more c h d) = ground arith

clock_text-no_sign : (n : ℕ) → cut_prefix (clock_text (pos n)) (codes "-") ≡ none
unfolding clock_text pad_int
clock_text-no_sign n = simp (quot-pos) (IsDigits-no_sign _ (padded-IsDigits 2 (n / hour_ns)))

parse_duration-pos :
    (n : ℕ)
    → n < time_limit
    → parse_duration (clock_text (pos n)) ≡ ok (pos (n / microsecond_ns * microsecond_ns))
unfolding parse_duration
parse_duration-pos n h = rw (clock_text-no_sign n, parse_duration) (clock_text-parse_unsigned n h)

parse_duration-neg :
    (n : ℕ)
    → n < time_limit
    → parse_duration (b'-' ∷ clock_text (pos n))
      ≡ ok (neg (pos (n / microsecond_ns * microsecond_ns)))
unfolding parse_duration cut_prefix neg
parse_duration-neg n h =
    ap negated (clock_text-parse_unsigned n h) ∙ ap ok (wrap64-eq _ (ground arith) (ground arith))

scale-neg : (k n : ℕ) → scale k (negsuc n) ≡ neg (pos (k * suc n))
unfolding scale neg
scale-neg k n = ground arith

duration_text-pos :
    (unit : TimeUnit) (n : ℕ)
    → multiplier unit * n < time_limit
    → duration_text unit (pos n) ≡ clock_text (pos (multiplier unit * n))
unfolding duration_text
duration_text-pos unit n h =
    rw (scale-pos, duration_text)
      (rw (wrap64-eq (pos (multiplier unit * n)) (omega arith) (omega arith)) (ground arith))

neg-wrap64 : (m : ℕ) → m < time_limit → wrap64 (neg (pos m)) ≡ neg (pos m)
unfolding neg
neg-wrap64 m h = wrap64-eq _ (ground arith) (ground arith)

neg-neg : (m : ℕ) → neg (neg (pos m)) ≡ pos m
unfolding neg
neg-neg m = ground arith

neg-negative : (m : ℕ) → 0 < m → ltb_ℤ (neg (pos m)) (pos 0) ≡ true
unfolding neg
neg-negative m h = ground arith

duration_text-neg :
    (unit : TimeUnit) (n : ℕ)
    → 0 < multiplier unit * suc n
    → multiplier unit * suc n < time_limit
    → duration_text unit (negsuc n) ≡ b'-' ∷ clock_text (pos (multiplier unit * suc n))
unfolding duration_text
duration_text-neg unit n p h =
    let m = multiplier unit * suc n in
    rw (scale-neg (multiplier unit) n, duration_text)
      (rw (neg-wrap64 m h) (
        rw (neg-negative m p)
          (rw (neg-neg m) (rw (wrap64-eq (pos m) (omega arith) (omega arith))))))

abbrev IsCoarse : TimeUnit → Type 0
IsCoarse unit = unit ≢ nanosecond

whole_microseconds :
    (unit : TimeUnit) (n : ℕ)
    → IsCoarse unit
    → multiplier unit * n / microsecond_ns * microsecond_ns ≡ multiplier unit * n
whole_microseconds second n h = omega arith
whole_microseconds millisecond n h = omega arith
whole_microseconds microsecond n h = omega arith
whole_microseconds nanosecond n h = absurd (h refl)

quot-multiplier : (unit : TimeUnit) (n : ℕ) → multiplier unit * n / multiplier unit ≡ n
quot-multiplier second n = omega arith
quot-multiplier millisecond n = omega arith
quot-multiplier microsecond n = omega arith
quot-multiplier nanosecond n = omega arith

multiplier_pos : (unit : TimeUnit) (n : ℕ) → 0 < multiplier unit * suc n
multiplier_pos second n = omega arith
multiplier_pos millisecond n = omega arith
multiplier_pos microsecond n = omega arith
multiplier_pos nanosecond n = omega arith

neg_parts : (n : ℕ) → (pos_part (neg (pos n)) ≡ 0) × (neg_part (neg (pos n)) ≡ n)
unfolding neg
neg_parts n = ground arith

zero_div : (k : ℕ) → 0 / k ≡ 0
zero_div k = omega arith

quot-neg : (n k : ℕ) → quot (neg (pos n)) k ≡ neg (pos (n / k))
unfolding quot
quot-neg n k =
    rw ((neg_parts n).0, quot) (rw ((neg_parts n).1) (rw (zero_div k) (unfold neg in refl)))

neg-suc : (n : ℕ) → neg (pos (suc n)) ≡ negsuc n
unfolding neg
neg-suc n = ground arith

-- A duration in seconds, milliseconds or microseconds, below 839 hours in size, comes back from the
-- text that it is sent to the server as.
pub arrow_duration-duration_text :
    (unit : TimeUnit) (value : ℤ)
    → IsCoarse unit
    → multiplier unit * pos_part value < time_limit
    → multiplier unit * neg_part value < time_limit
    → arrow_duration unit (duration_text unit value) ≡ ok value
unfolding arrow_duration
arrow_duration-duration_text unit (pos n) c h g =
    rw (duration_text-pos unit n h, arrow_duration)
      (rw (parse_duration-pos (multiplier unit * n) h) (
        rw (whole_microseconds unit n c)
          (rw (quot-pos (multiplier unit * n) (multiplier unit)) (rw (quot-multiplier unit n)))))
arrow_duration-duration_text unit (negsuc n) c h g =
    rw (duration_text-neg unit n (multiplier_pos unit n) g, arrow_duration)
      (rw (parse_duration-neg (multiplier unit * suc n) g) (
        rw (whole_microseconds unit (suc n) c) (
          rw (quot-neg (multiplier unit * suc n) (multiplier unit))
            (rw (quot-multiplier unit (suc n)) (rw (neg-suc n))))))
