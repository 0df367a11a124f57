-- ===== src/Base/Text.antt =====
-- Go strings as lists of bytes, with the functions of Go's strings package that the driver calls.
-- Letter case is ASCII's.
use Prim.Native.Nat.{ℕ, ◌+◌, ◌-◌}
use Prim.Native.Char.{code}
use Prim.Native.String.{String}
use mathlib.Core.Path.{◌≡◌, refl, sym, ap, ◌∙◌}
use mathlib.Core.Logic.{◌↔◌}
use mathlib.Core.Bool.{Bool, true, false, ◌&&◌, ◌||◌}
use mathlib.Core.Option.{Option, none, some}
use mathlib.Core.List.{List, [], ◌∷◌, ◌++◌, map}
use native.Mathlib.Omega.{arith}
use adbc_driver_mariadb.Base.Tests.{leb, ◌==◌, if◌then◌else◌}

abbrev pub Bytes : Type 0
Bytes = List ℕ

-- The bytes of an ASCII literal.
abbrev pub codes : String → Bytes
codes String.[] = []
codes (String.◌∷◌ c s) = code c ∷ codes s

-- `==` on strings.
unfoldable pub equal : Bytes → Bytes → Bool
equal [] [] = true
equal (x ∷ xs) (y ∷ ys) = x == y && equal xs ys
equal _ _ = false

pub equal_refl : (s : Bytes) → equal s s ≡ true
unfolding equal
equal_refl [] = refl
equal_refl (x ∷ xs) = ground (arith, equal_refl xs)

pub eq_of_equal : (s t : Bytes) → equal s t ≡ true → s ≡ t
unfolding equal
eq_of_equal [] [] h = refl
eq_of_equal [] (y ∷ ys) h = cc
eq_of_equal (x ∷ xs) [] h = cc
eq_of_equal (x ∷ xs) (y ∷ ys) h = ground (arith, eq_of_equal xs ys)

pub equal_iff : (s t : Bytes) → (equal s t ≡ true) ↔ (s ≡ t)
equal_iff s t = (eq_of_equal s t, λ e. (ap (equal s) (sym e)) ∙ equal_refl s)

-- Whether a text is one of a list.
unfoldable pub member : Bytes → List Bytes → Bool
unfolding equal
member s [] = false
member s (t ∷ ts) = equal t s || member s ts

unfoldable pub upper : ℕ → ℕ
upper c = if leb b'a' c && leb c b'z' then c - 32 else c

unfoldable pub lower : ℕ → ℕ
lower c = if leb b'A' c && leb c b'Z' then c + 32 else c

-- `strings.ToUpper` and `strings.ToLower`.
unfoldable pub to_upper : Bytes → Bytes
unfolding upper
to_upper = map upper

unfoldable pub to_lower : Bytes → Bytes
unfolding lower
to_lower = map lower

-- `strings.EqualFold`.
unfoldable pub equal_fold : Bytes → Bytes → Bool
unfolding to_lower equal
equal_fold s t = equal (to_lower s) (to_lower t)

-- `strings.CutPrefix`: what follows the prefix.
unfoldable pub cut_prefix : Bytes → Bytes → Option Bytes
cut_prefix s [] = some s
cut_prefix [] (p ∷ ps) = none
cut_prefix (c ∷ cs) (p ∷ ps) = let rest = cut_prefix cs ps in if c == p then rest else none

-- `strings.HasPrefix`.
unfoldable pub has_prefix : Bytes → Bytes → Bool
unfolding cut_prefix
has_prefix s p = elim (cut_prefix s p) [ none ↦ false | some _ ↦ true ]

-- `strings.Contains`.
unfoldable pub contains : Bytes → Bytes → Bool
unfolding has_prefix
contains [] p = has_prefix [] p
contains (c ∷ cs) p = has_prefix (c ∷ cs) p || contains cs p

-- `strings.Index` and `strings.IndexByte` by what they split off: the text before the first
-- occurrence, and the text from it on.
unfoldable pub split_at_byte : ℕ → Bytes → Option (Bytes × Bytes)
split_at_byte b [] = none
split_at_byte b (c ∷ cs) =
    let rest = split_at_byte b cs in
    if c == b
    then some ([], c ∷ cs)
    else elim rest [ none ↦ none | some (before, from) ↦ some (c ∷ before, from) ]

pub cut_prefix-append : (p s : Bytes) → cut_prefix (p ++ s) p ≡ some s
unfolding cut_prefix
cut_prefix-append [] s = refl
cut_prefix-append (c ∷ p) s = ground (arith, cut_prefix-append p s)

pub append-cut_prefix : (s p : Bytes) {t : Bytes} → cut_prefix s p ≡ some t → s ≡ p ++ t
unfolding cut_prefix
append-cut_prefix s [] h = ground arith
append-cut_prefix [] (p ∷ ps) h = cc
append-cut_prefix (c ∷ cs) (p ∷ ps) {t} h = ground (arith, append-cut_prefix cs ps {t = t})

pub split_at_byte-append :
    (b : ℕ) (s t : Bytes)
    → split_at_byte b s ≡ none
    → split_at_byte b (s ++ (b ∷ t)) ≡ some (s, b ∷ t)
unfolding split_at_byte
split_at_byte-append b [] t h = ground arith
split_at_byte-append b (c ∷ s) t h = ground (arith, split_at_byte-append b s t)

pub split_at_byte-none :
    (b : ℕ) (s t : Bytes)
    → split_at_byte b s ≡ none
    → split_at_byte b t ≡ none
    → split_at_byte b (s ++ t) ≡ none
unfolding split_at_byte
split_at_byte-none b [] t h g = g
split_at_byte-none b (c ∷ s) t h g = ground (arith, split_at_byte-none b s t)

abbrev pub cons_head : ℕ → List Bytes → List Bytes
cons_head c [] = (c ∷ []) ∷ []
cons_head c (s ∷ ss) = (c ∷ s) ∷ ss

-- `strings.Split` at a byte.
unfoldable pub split : ℕ → Bytes → List Bytes
split b [] = [] ∷ []
split b (c ∷ cs) = let rest = split b cs in if c == b then [] ∷ rest else cons_head c rest

pub split-none : (b : ℕ) (s : Bytes) → split_at_byte b s ≡ none → split b s ≡ s ∷ []
unfolding split split_at_byte
split-none b [] h = refl
split-none b (c ∷ s) h = ground (arith, split-none b s)

pub split-append :
    (b : ℕ) (s t : Bytes) → split_at_byte b s ≡ none → split b (s ++ (b ∷ t)) ≡ s ∷ split b t
unfolding split split_at_byte
split-append b [] t h = ground arith
split-append b (c ∷ s) t h = ground (arith, split-append b s t)
