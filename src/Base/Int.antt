-- ===== src/Base/Int.antt =====
-- Go's int64 over the native numbers: the integers, and their wrap-around.
use Prim.Native.Nat.{ℕ, suc, ◌+◌, ◌-◌, ◌*◌, ◌/◌, ◌%◌, ◌≤◌, ◌<◌}
use mathlib.Core.Path.{◌≡◌}
use mathlib.Core.Bool.{Bool}
use native.Mathlib.Omega.{arith}
use adbc_driver_mariadb.Base.Tests.{ltb, leb, if◌then◌else◌}

-- `negsuc n` is -(n + 1).
pub data ℤ : Type 0 where
  pos : ℕ → ℤ
  negsuc : ℕ → ℤ

abbrev pub pos_part : ℤ → ℕ
pos_part (pos n) = n
pos_part (negsuc n) = 0

abbrev pub neg_part : ℤ → ℕ
neg_part (pos n) = 0
neg_part (negsuc n) = suc n

-- a - b, as an integer.
abbrev pub sub_ℕ : ℕ → ℕ → ℤ
sub_ℕ a b = if leb b a then pos (a - b) else negsuc (b - a - 1)

infixl 65 ◌+ℤ◌
unfoldable pub ◌+ℤ◌ : ℤ → ℤ → ℤ
a +ℤ b = sub_ℕ (pos_part a + pos_part b) (neg_part a + neg_part b)

unfoldable pub neg : ℤ → ℤ
neg a = sub_ℕ (neg_part a) (pos_part a)

-- The product with a constant of the source.
unfoldable pub scale : ℕ → ℤ → ℤ
scale k a = sub_ℕ (k * pos_part a) (k * neg_part a)

abbrev pub ltb_ℤ : ℤ → ℤ → Bool
ltb_ℤ a b = ltb (pos_part a + neg_part b) (pos_part b + neg_part a)

abbrev pub leb_ℤ : ℤ → ℤ → Bool
leb_ℤ a b = leb (pos_part a + neg_part b) (pos_part b + neg_part a)

-- Go's `/` on integers, towards zero, by a positive constant.
unfoldable pub quot : ℤ → ℕ → ℤ
quot a k = sub_ℕ (pos_part a / k) (neg_part a / k)

-- Go's `%`, with the sign of the dividend.
unfoldable pub rem : ℤ → ℕ → ℤ
rem a k = sub_ℕ (pos_part a % k) (neg_part a % k)

abbrev pub int64_mod : ℕ
int64_mod = 0x1_0000_0000_0000_0000

abbrev pub int64_half : ℕ
int64_half = 0x8000_0000_0000_0000

abbrev pub int32_mod : ℕ
int32_mod = 0x1_0000_0000

abbrev pub int32_half : ℕ
int32_half = 0x8000_0000

-- Two's complement: the residue of a bit pattern below `m`, read as a signed number.
abbrev pub signed : ℕ → ℕ → ℕ → ℤ
signed m half r = if ltb r half then pos r else negsuc (m - r - 1)

abbrev pub residue : ℕ → ℤ → ℕ
residue m (pos n) = n % m
residue m (negsuc n) = m - 1 - n % m

unfoldable pub wrap64 : ℤ → ℤ
wrap64 a = signed int64_mod int64_half (residue int64_mod a)

-- `int32(a)`
unfoldable pub wrap32 : ℤ → ℤ
wrap32 a = signed int32_mod int32_half (residue int32_mod a)

-- `int16(a)`
unfoldable pub wrap16 : ℤ → ℤ
wrap16 a = signed 65_536 32_768 (residue 65_536 a)

pub wrap16-eq : (a : ℤ) → pos_part a < 32_768 → neg_part a ≤ 32_768 → wrap16 a ≡ a
unfolding wrap16
wrap16-eq (pos n) h g = ground arith
wrap16-eq (negsuc n) h g = ground arith

-- `wrap64` changes nothing in the range of an int64.
pub wrap64-eq : (a : ℤ) → pos_part a < int64_half → neg_part a ≤ int64_half → wrap64 a ≡ a
unfolding wrap64
wrap64-eq (pos n) h g = ground arith
wrap64-eq (negsuc n) h g = ground arith

pub wrap32-eq : (a : ℤ) → pos_part a < int32_half → neg_part a ≤ int32_half → wrap32 a ≡ a
unfolding wrap32
wrap32-eq (pos n) h g = ground arith
wrap32-eq (negsuc n) h g = ground arith

pub scale-pos : (k n : ℕ) → scale k (pos n) ≡ pos (k * n)
unfolding scale
scale-pos k n = ground arith

pub +ℤ-pos : (a b : ℕ) → pos a +ℤ pos b ≡ pos (a + b)
unfolding ◌+ℤ◌
+ℤ-pos a b = ground arith

pub quot-pos : (n k : ℕ) → quot (pos n) k ≡ pos (n / k)
unfolding quot
quot-pos n k = ground arith

pub rem-pos : (n k : ℕ) → rem (pos n) k ≡ pos (n % k)
unfolding rem
rem-pos n k = ground arith
