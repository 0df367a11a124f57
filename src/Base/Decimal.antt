-- ===== src/Base/Decimal.antt =====
-- Decimal numbers as Go's `fmt` prints them and `strconv` reads them, in base 10 and 64 bits.
use adbc_driver_mariadb.Base.Int.{ℤ, pos, negsuc, int64_half, sub_ℕ}
use Prim.Native.Nat.{ℕ, zero, suc, ◌+◌, ◌-◌, ◌*◌, ◌/◌, ◌%◌, ◌≤◌, ◌<◌}
use mathlib.Core.Path.{◌≡◌, refl, ap, ◌∙◌}
use mathlib.Core.Logic.{inl, inr}
use mathlib.Core.Bool.{Bool, true, false, ◌&&◌}
use mathlib.Core.Option.{Option, none, some}
use mathlib.Core.List.{[], ◌∷◌, ◌++◌}
use native.Mathlib.Omega.{arith}
use adbc_driver_mariadb.Base.Tests.{Bool-cases, ltb→lt, ltb, leb, ◌==◌, if◌then◌else◌}
use adbc_driver_mariadb.Base.Lists.{length, replicate, length-append, length-replicate}
use adbc_driver_mariadb.Base.Text.{Bytes, split_at_byte}

abbrev pub is_digit : ℕ → Bool
is_digit c = leb b'0' c && leb c b'9'

-- The value of a run of digits; `none` at another byte.
unfoldable pub digits_value : ℕ → Bytes → Option ℕ
digits_value acc [] = some acc
digits_value acc (c ∷ cs) =
    let rest = digits_value (acc * 10 + (c - b'0')) cs in if is_digit c then rest else none

-- Below `bound`, or a range error.
abbrev pub within : ℕ → Option ℕ → Option ℕ
within bound none = none
within bound (some n) = if leb n bound then some n else none

-- At least one digit.
abbrev pub unsigned_value : Bytes → Option ℕ
unsigned_value [] = none
unsigned_value (c ∷ cs) = digits_value 0 (c ∷ cs)

abbrev to_pos : Option ℕ → Option ℤ
to_pos none = none
to_pos (some n) = some (pos n)

abbrev to_neg : Option ℕ → Option ℤ
to_neg none = none
to_neg (some n) = some (sub_ℕ 0 n)

-- `strconv.ParseInt(s, 10, 64)` and `strconv.Atoi(s)`; `none` for their errors.
unfoldable pub parse_int : Bytes → Option ℤ
unfolding digits_value
parse_int [] = none
parse_int (c ∷ cs) =
    if c == b'-'
    then to_neg (within int64_half (unsigned_value cs))
    else if c == b'+'
    then to_pos (within (int64_half - 1) (unsigned_value cs))
    else to_pos (within (int64_half - 1) (unsigned_value (c ∷ cs)))

-- The digits of `n`, in `suc n` rounds at most.
unfoldable pub decimal_from : ℕ → ℕ → Bytes
decimal_from zero n = []
decimal_from (suc fuel) n =
    let more = decimal_from fuel (n / 10) ++ ((n % 10 + b'0') ∷ []) in
    if ltb n 10 then (n + b'0') ∷ [] else more

unfoldable pub decimal : ℕ → Bytes
unfolding decimal_from
decimal n = decimal_from (suc n) n

-- `%d`
unfoldable pub print_int : ℤ → Bytes
unfolding decimal
print_int (pos n) = decimal n
print_int (negsuc n) = b'-' ∷ decimal (suc n)

-- `%0wd` of a number that is not negative.
unfoldable pub padded : ℕ → ℕ → Bytes
padded w n = replicate (w - length (decimal n)) b'0' ++ decimal n

digits_value-append :
    (acc v : ℕ) (s t : Bytes)
    → digits_value acc s ≡ some v
    → digits_value acc (s ++ t) ≡ digits_value v t
unfolding digits_value
digits_value-append acc v [] t h = ground arith
digits_value-append acc v (c ∷ s) t h =
    ground (arith, digits_value-append (acc * 10 + (c - b'0')) v s t)

digits_value-digit : (acc d : ℕ) → d < 10 → digits_value acc ((d + b'0') ∷ []) ≡ some (acc * 10 + d)
unfolding digits_value
digits_value-digit acc d h = ground arith

digits_value-decimal_from : (fuel n : ℕ) → n < fuel → digits_value 0 (decimal_from fuel n) ≡ some n
unfolding decimal_from
digits_value-decimal_from zero n h = absurd (omega arith)
digits_value-decimal_from (suc fuel) n h = elim (Bool-cases (ltb n 10)) [
  | inl small ↦ rw small (digits_value-digit 0 n (ltb→lt n 10 small) ∙ ap some (omega arith))
  | inr large ↦ rw large (
      digits_value-append 0 (n / 10) (decimal_from fuel (n / 10)) ((n % 10 + b'0') ∷ [])
        (digits_value-decimal_from fuel (n / 10) (ground arith))
      ∙ (digits_value-digit (n / 10) (n % 10) (omega arith) ∙ ap some (omega arith)))
]

-- The digits of `n` read back as `n`.
pub digits_value-decimal : (n : ℕ) → digits_value 0 (decimal n) ≡ some n
unfolding decimal
digits_value-decimal n = digits_value-decimal_from (suc n) n (omega arith)

digits_value-zeros : (k : ℕ) (s : Bytes) → digits_value 0 (replicate k b'0' ++ s) ≡ digits_value 0 s
unfolding digits_value
digits_value-zeros zero s = refl
digits_value-zeros (suc k) s = digits_value-zeros k s

-- So do the padded digits.
pub digits_value-padded : (w n : ℕ) → digits_value 0 (padded w n) ≡ some n
unfolding padded
digits_value-padded w n =
    digits_value-zeros (w - length (decimal n)) (decimal n) ∙ digits_value-decimal n

-- Text of digits alone, and at least one.
pub data IsDigits : Bytes → Type 0 where
  last : (c : ℕ) → is_digit c ≡ true → IsDigits (c ∷ [])
  more : (c : ℕ) {s : Bytes} → is_digit c ≡ true → IsDigits s → IsDigits (c ∷ s)

IsDigits-append : {s t : Bytes} → IsDigits s → IsDigits t → IsDigits (s ++ t)
IsDigits-append (last c h) g = more c h g
IsDigits-append (more c h d) g = more c h (IsDigits-append d g)

decimal_from-IsDigits : (fuel n : ℕ) → n < fuel → IsDigits (decimal_from fuel n)
unfolding decimal_from
decimal_from-IsDigits zero n h = absurd (omega arith)
decimal_from-IsDigits (suc fuel) n h = elim (Bool-cases (ltb n 10)) [
  | inl small ↦ rw small (last (n + b'0') (ground arith))
  | inr large ↦ rw large (
      IsDigits-append (decimal_from-IsDigits fuel (n / 10) (ground arith))
        (last (n % 10 + b'0') (ground arith)))
]

pub decimal-IsDigits : (n : ℕ) → IsDigits (decimal n)
unfolding decimal
decimal-IsDigits n = decimal_from-IsDigits (suc n) n (omega arith)

replicate-IsDigits : (k : ℕ) {s : Bytes} → IsDigits s → IsDigits (replicate k b'0' ++ s)
replicate-IsDigits zero d = d
replicate-IsDigits (suc k) d = more b'0' refl (replicate-IsDigits k d)

pub padded-IsDigits : (w n : ℕ) → IsDigits (padded w n)
unfolding padded
padded-IsDigits w n = replicate-IsDigits (w - length (decimal n)) (decimal-IsDigits n)

pub IsDigits-split :
    (b : ℕ) {s : Bytes} → is_digit b ≡ false → IsDigits s → split_at_byte b s ≡ none
unfolding split_at_byte
IsDigits-split b h (last c d) = ground arith
IsDigits-split b h (more c d r) = ground (arith, IsDigits-split b h r)

-- `n` without its last `k` digits.
abbrev pub leading : ℕ → ℕ → ℕ
leading zero n = n
leading (suc k) n = leading k (n / 10)

length-decimal_from :
    (k fuel n : ℕ) → n < fuel → leading k n < 10 → length (decimal_from fuel n) ≤ suc k
unfolding decimal_from
length-decimal_from k zero n h g = absurd (omega arith)
length-decimal_from zero (suc fuel) n h g = ground (arith)
length-decimal_from (suc k) (suc fuel) n h g = elim (Bool-cases (ltb n 10)) [
  | inl small ↦ rw small (omega arith)
  | inr large ↦ rw large (
      omega (
        arith,
        length-append (decimal_from fuel (n / 10)) ((n % 10 + b'0') ∷ []),
        length-decimal_from k fuel (n / 10) (ground arith) g,
      ))
]

pub length-padded : (k n : ℕ) → leading k n < 10 → length (padded (suc k) n) ≡ suc k
unfolding padded decimal
length-padded k n h = omega (
  arith,
  length-append (replicate (suc k - length (decimal n)) b'0') (decimal n),
  length-replicate {A = ℕ} (suc k - length (decimal n)) b'0',
  length-decimal_from k (suc n) n (omega arith) h,
)

-- `%0wd`, whose width counts the sign.
unfoldable pub pad_int : ℕ → ℤ → Bytes
pad_int w (pos n) = padded w n
pad_int w (negsuc n) = b'-' ∷ padded (w - 1) (suc n)

-- Digits with a value that an int64 holds are read as that value.
pub parse_int-IsDigits :
    (n : ℕ) {s : Bytes}
    → IsDigits s
    → digits_value 0 s ≡ some n
    → n < int64_half
    → parse_int s ≡ some (pos n)
unfolding parse_int
parse_int-IsDigits n (last c d) e h = ground arith
parse_int-IsDigits n (more c d r) e h = ground arith

-- `strconv.ParseInt` reads what `%d` printed.
pub parse_int-decimal : (n : ℕ) → n < int64_half → parse_int (decimal n) ≡ some (pos n)
parse_int-decimal n h = parse_int-IsDigits n (decimal-IsDigits n) (digits_value-decimal n) h

pub parse_int-padded : (w n : ℕ) → n < int64_half → parse_int (padded w n) ≡ some (pos n)
parse_int-padded w n h = parse_int-IsDigits n (padded-IsDigits w n) (digits_value-padded w n) h
