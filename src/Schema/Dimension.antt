-- ===== src/Schema/Dimension.antt =====
-- `parseTypeDimension` of go/connection.go: the number in a declaration such as VECTOR(3) or BIT(8).
use adbc_driver_mariadb.Base.{
  ℕ, zero, suc, ◌+◌, ◌<◌, Bool, true, false, not, ◌&&◌, ◌||◌, ◌≡◌, refl, ap, sym, ◌∙◌, [], ◌∷◌,
  ◌++◌, append_assoc, Option, none, some, length, length-append, take, drop, ltb, leb, ◌==◌, arith,
  if◌then◌else◌,
}
use adbc_driver_mariadb.Base.Text.{Bytes, codes, to_lower, equal, equal_refl, equal_fold}
use adbc_driver_mariadb.Base.Int.{ℤ, pos, int64_half, ltb_ℤ}
use adbc_driver_mariadb.Base.Decimal.{
  is_digit, IsDigits, last, more, decimal, decimal-IsDigits, parse_int, parse_int-decimal,
}

-- White space of ASCII.
abbrev pub is_space : ℕ → Bool
is_space c = c == b' ' || leb 9 c && leb c 13

unfoldable pub trim_left : Bytes → Bytes
trim_left [] = []
trim_left (c ∷ cs) = let rest = trim_left cs in if is_space c then rest else c ∷ cs

-- A byte in front of what was trimmed: it goes too if nothing is left behind it.
abbrev pub keep : ℕ → Bytes → Bytes
keep c [] = if is_space c then [] else c ∷ []
keep c (d ∷ rest) = c ∷ d ∷ rest

unfoldable pub trim_right : Bytes → Bytes
trim_right [] = []
trim_right (c ∷ cs) = keep c (trim_right cs)

-- `strings.TrimSpace`
unfoldable pub trim_space : Bytes → Bytes
unfolding trim_left trim_right
trim_space s = trim_right (trim_left s)

-- `text[len(text)-1] == b`, and `text[:len(text)-1]`.
unfoldable pub ends_in : ℕ → Bytes → Bool
ends_in b [] = false
ends_in b (c ∷ []) = c == b
ends_in b (c ∷ d ∷ cs) = ends_in b (d ∷ cs)

unfoldable pub drop_last : Bytes → Bytes
drop_last [] = []
drop_last (c ∷ []) = []
drop_last (c ∷ d ∷ cs) = c ∷ drop_last (d ∷ cs)

abbrev pub positive : Option ℤ → Option ℤ
positive none = none
positive (some n) = if ltb_ℤ (pos 0) n then some n else none

-- What the trimmed text has behind the prefix and before its last parenthesis.
unfoldable pub dimension_in : Bytes → Bytes → Option ℤ
unfolding trim_space ends_in drop_last equal_fold parse_int
dimension_in text prefix =
    if ltb (length text) (length prefix + 1)
      || not (equal_fold (take (length prefix) text) prefix)
      || not (ends_in b')' text)
    then none
    else positive (parse_int (trim_space (drop_last (drop (length prefix) text))))

unfoldable pub parse_type_dimension : Bytes → Bytes → Option ℤ
unfolding trim_space dimension_in
parse_type_dimension column_type expected_type =
    dimension_in (trim_space column_type) (expected_type ++ codes "(")

-- Text that starts and ends with no white space.
trim_left-keeps : (c : ℕ) (s : Bytes) → is_space c ≡ false → trim_left (c ∷ s) ≡ c ∷ s
unfolding trim_left
trim_left-keeps c s h = rw h refl

trim_right-keeps :
    (s : Bytes) (c : ℕ) → is_space c ≡ false → trim_right (s ++ (c ∷ [])) ≡ s ++ (c ∷ [])
unfolding trim_right
trim_right-keeps [] c h = rw h refl
trim_right-keeps (d ∷ []) c h = rw (trim_right-keeps [] c h) refl
trim_right-keeps (d ∷ e ∷ s) c h = rw (trim_right-keeps (e ∷ s) c h) refl

ends_in-append : (b : ℕ) (s : Bytes) → ends_in b (s ++ (b ∷ [])) ≡ true
unfolding ends_in
ends_in-append b [] = ground arith
ends_in-append b (c ∷ []) = ground arith
ends_in-append b (c ∷ d ∷ s) = ends_in-append b (d ∷ s)

drop_last-append : (s : Bytes) (c : ℕ) → drop_last (s ++ (c ∷ [])) ≡ s
unfolding drop_last
drop_last-append [] c = refl
drop_last-append (d ∷ []) c = refl
drop_last-append (d ∷ e ∷ s) c = ap (λ r. d ∷ r) (drop_last-append (e ∷ s) c)

digit-no_space : (c : ℕ) → is_digit c ≡ true → is_space c ≡ false
digit-no_space c h = ground arith

keep-IsDigits : (c : ℕ) {s : Bytes} → IsDigits s → keep c s ≡ c ∷ s
keep-IsDigits c (last d h) = refl
keep-IsDigits c (more d h r) = refl

trim_left-IsDigits : {s : Bytes} → IsDigits s → trim_left s ≡ s
trim_left-IsDigits (last c h) = trim_left-keeps c [] (digit-no_space c h)
trim_left-IsDigits (more c {s} h r) = trim_left-keeps c s (digit-no_space c h)

trim_right-IsDigits : {s : Bytes} → IsDigits s → trim_right s ≡ s
unfolding trim_right
trim_right-IsDigits (last c h) = rw (digit-no_space c h) refl
trim_right-IsDigits (more c h r) = rw (trim_right-IsDigits r) (keep-IsDigits c r)

trim_space-IsDigits : {s : Bytes} → IsDigits s → trim_space s ≡ s
unfolding trim_space
trim_space-IsDigits d = ap trim_right (trim_left-IsDigits d) ∙ trim_right-IsDigits d

trim_space-keeps :
    (c : ℕ) (s : Bytes) (d : ℕ)
    → is_space c ≡ false
    → is_space d ≡ false
    → trim_space (c ∷ (s ++ (d ∷ []))) ≡ c ∷ (s ++ (d ∷ []))
unfolding trim_space
trim_space-keeps c s d h g =
    ap trim_right (trim_left-keeps c (s ++ (d ∷ [])) h) ∙ trim_right-keeps (c ∷ s) d g

take-append : (s t : Bytes) (n : ℕ) → length s ≡ n → take n (s ++ t) ≡ s
take-append [] t zero h = refl
take-append [] t (suc n) h = absurd (omega (arith, h))
take-append (c ∷ s) t zero h = absurd (omega (arith, h))
take-append (c ∷ s) t (suc n) h = ap (λ r. c ∷ r) (take-append s t n (omega (arith, h)))

drop-append : (s t : Bytes) (n : ℕ) → length s ≡ n → drop n (s ++ t) ≡ t
drop-append [] t zero h = refl
drop-append [] t (suc n) h = absurd (omega (arith, h))
drop-append (c ∷ s) t zero h = absurd (omega (arith, h))
drop-append (c ∷ s) t (suc n) h = drop-append s t n (omega (arith, h))

equal_fold-append : (s t u : Bytes) → equal_fold s t ≡ true → equal_fold (s ++ u) (t ++ u) ≡ true
unfolding equal_fold equal to_lower
equal_fold-append [] [] u h = equal_refl (to_lower u)
equal_fold-append [] (d ∷ t) u h = cc
equal_fold-append (c ∷ s) [] u h = cc
equal_fold-append (c ∷ s) (d ∷ t) u h = ground (arith, equal_fold-append s t u)

equal_fold-length : (s t : Bytes) → equal_fold s t ≡ true → length s ≡ length t
unfolding equal_fold equal to_lower
equal_fold-length [] [] h = refl
equal_fold-length [] (d ∷ t) h = cc
equal_fold-length (c ∷ s) [] h = cc
equal_fold-length (c ∷ s) (d ∷ t) h = ground (arith, equal_fold-length s t)

-- The declaration of a type with a number in parentheses.
unfoldable pub declare : Bytes → ℕ → Bytes
unfolding decimal
declare name n = (name ++ codes "(") ++ (decimal n ++ codes ")")

trim_space-declare :
    (c : ℕ) (s : Bytes) (n : ℕ)
    → is_space c ≡ false
    → trim_space (declare (c ∷ s) n) ≡ declare (c ∷ s) n
unfolding declare
trim_space-declare c s n h =
    rw (sym (append_assoc ((c ∷ s) ++ codes "(") (decimal n) (codes ")")))
      (trim_space-keeps c ((s ++ codes "(") ++ decimal n) b')' h refl)

long_enough : (t u : Bytes) (c : ℕ) → ltb (length (t ++ (u ++ (c ∷ [])))) (length t + 1) ≡ false
long_enough t u c = ground (arith, length-append t (u ++ (c ∷ [])), length-append u (c ∷ []))

dimension_in-IsDigits :
    (start prefix ds : Bytes)
    → equal_fold start prefix ≡ true
    → IsDigits ds
    → dimension_in (start ++ (ds ++ codes ")")) prefix ≡ positive (parse_int ds)
unfolding dimension_in
dimension_in-IsDigits start prefix ds e d =
    let len = equal_fold-length start prefix e in
    rw
      (
        sym len,
        long_enough start ds b')',
        take-append start (ds ++ codes ")") (length start) refl,
        drop-append start (ds ++ codes ")") (length start) refl,
        e,
        sym (append_assoc start ds (codes ")")),
        ends_in-append b')' (start ++ ds),
        drop_last-append ds b')',
        trim_space-IsDigits d,
      )
      refl

-- A declaration whose type name is the expected one in any letter case, and starts with no white
-- space, gives the number it was printed from, where that is positive and an int64.
pub parse_type_dimension-declare :
    (c : ℕ) (s expected_type : Bytes) (n : ℕ)
    → is_space c ≡ false
    → equal_fold (c ∷ s) expected_type ≡ true
    → 0 < n
    → n < int64_half
    → parse_type_dimension (declare (c ∷ s) n) expected_type ≡ some (pos n)
unfolding parse_type_dimension declare
parse_type_dimension-declare c s expected_type n h e low high =
    ap (λ t. dimension_in t (expected_type ++ codes "(")) (trim_space-declare c s n h)
    ∙ dimension_in-IsDigits ((c ∷ s) ++ codes "(") (expected_type ++ codes "(") (decimal n)
        (equal_fold-append (c ∷ s) expected_type (codes "(") e) (decimal-IsDigits n)
    ∙ ap positive (parse_int-decimal n high)
    ∙ ground arith
