-- ===== src/Schema/TypeValuesRounds.antt =====
-- The rounds of the outer loop of `parseMariaDBTypeValues` in go/connection.go.
use adbc_driver_mariadb.Base.{
  ℕ, zero, suc, ◌<◌, ◌≤◌, ◌-◌, ◌≡◌, ◌≢◌, refl, Bool, true, false, [], ◌∷◌, Option, none, some,
  length, arith, ◌==◌, if◌then◌else◌,
}
use adbc_driver_mariadb.Base.Text.{Bytes}
use adbc_driver_mariadb.Base.Result.{ok, err}
use adbc_driver_mariadb.Schema.TypeValues.{
  Values, cons_value, at_comma, prepend, read_value, skip_separators, skip_spaces, after_value,
  values_at, values_from, invalid_at, invalid_declaration,
}

skip_separators-length : (s : Bytes) → length (skip_separators s) ≤ length s
unfolding skip_separators
skip_separators-length [] = omega arith
skip_separators-length (c ∷ s) = ground (arith, skip_separators-length s)

skip_spaces-length : (s : Bytes) → length (skip_spaces s) ≤ length s
unfolding skip_spaces
skip_spaces-length [] = omega arith
skip_spaces-length (c ∷ s) = ground (arith, skip_spaces-length s)

-- What a reader leaves is no longer than `n`.
abbrev Leaves : ℕ → Option (Bytes × Bytes) → Type 0
Leaves n none = Unit
Leaves n (some (value, rest)) = length rest ≤ n

prepend-Leaves :
    (c n m : ℕ) (r : Option (Bytes × Bytes)) → n ≤ m → Leaves n r → Leaves m (prepend c r)
prepend-Leaves c n m none h l = tt
prepend-Leaves c n m (some (value, rest)) h l = omega (arith, h, l)

if-Leaves :
    (n : ℕ) (b : Bool) (r s : Option (Bytes × Bytes))
    → Leaves n r
    → Leaves n s
    → Leaves n (if b then r else s)
if-Leaves n true r s h g = h
if-Leaves n false r s h g = g

read_value-Leaves : (s : Bytes) → Leaves (length s) (read_value s)
unfolding read_value
read_value-Leaves [] = tt
read_value-Leaves (c ∷ []) = if-Leaves 1 (c == b'\'') (some ([], [])) none (omega arith) tt
read_value-Leaves (c ∷ d ∷ s) =
    let n = length (c ∷ d ∷ s) in
    let pair = read_value-Leaves s in
    let single = read_value-Leaves (d ∷ s) in
    if-Leaves n (c == b'\\') _ _ (prepend-Leaves d (length s) n (read_value s) (omega arith) pair) (
      if-Leaves n (c == b'\'') _ _
        (if-Leaves n (d == b'\'') _ _
          (prepend-Leaves c (length s) n (read_value s) (omega arith) pair) (omega arith))
        (prepend-Leaves c (length (d ∷ s)) n (read_value (d ∷ s)) (omega arith) single))

module _ (total : ℕ) (next next' : Bytes → Values) where
  -- The two loops agree on what is shorter than `n`.
  abbrev Agree : ℕ → Type 0
  Agree n = (left : Bytes) → length left < n → next left ≡ next' left

  after_value-Agree :
      (m n : ℕ) (r : Option (Bytes × Bytes))
      → m < n
      → Agree n
      → Leaves m r
      → after_value total next r ≡ after_value total next' r
  unfolding after_value
  after_value-Agree m n none h a l = refl
  after_value-Agree m n (some (value, rest)) h a l =
      let same : next (skip_spaces rest) ≡ next' (skip_spaces rest) =
        a (skip_spaces rest) (omega (arith, h, l, skip_spaces-length rest)) in
      rw same

  values_at-Agree :
      (n : ℕ) (s : Bytes)
      → length s ≤ n
      → Agree n
      → values_at total next s ≡ values_at total next' s
  unfolding values_at
  values_at-Agree n [] h a = refl
  values_at-Agree n (c ∷ s) h a =
      let m = length s in
      let same : after_value total next (read_value s) ≡ after_value total next' (read_value s) =
        after_value-Agree m n (read_value s) (omega (arith, h)) a (read_value-Leaves s) in
      rw same

-- The loop ran out of rounds.
abbrev OutOfRounds : Values → Type 0
OutOfRounds r = r ≡ err invalid_declaration

cons_value-rounds : (v : Bytes) (r : Values) → OutOfRounds (cons_value v r) → OutOfRounds r
cons_value-rounds v (ok vs) h = cc
cons_value-rounds v (err e) h = h

if-rounds :
    (b : Bool) (r : Values) (at_byte : ℕ)
    → OutOfRounds (if b then r else err (invalid_at at_byte))
    → OutOfRounds r
if-rounds true r at_byte h = h
if-rounds false r at_byte h = cc

after_value-rounds :
    (total m n : ℕ) (next : Bytes → Values) (r : Option (Bytes × Bytes))
    → m < n
    → Leaves m r
    → OutOfRounds (after_value total next r)
    → (left : Bytes) × (length left < n) × OutOfRounds (next left)
unfolding after_value
after_value-rounds total m n next none k l h = cc
after_value-rounds total m n next (some (value, rest)) k l h =
    let left = skip_spaces rest in
    (
      left,
      omega (arith, k, l, skip_spaces-length rest),
      cons_value-rounds value (next left)
          (if-rounds (at_comma left) (cons_value value (next left)) (total - length left) h),
    )

values_at-rounds :
    (total n : ℕ) (next : Bytes → Values) (s : Bytes)
    → length s ≤ n
    → OutOfRounds (values_at total next s)
    → (left : Bytes) × (length left < n) × OutOfRounds (next left)
unfolding values_at
values_at-rounds total n next [] k h = cc
values_at-rounds total n next (c ∷ s) k h =
    after_value-rounds total (length s) n next (read_value s) (omega (arith, k))
      (read_value-Leaves s)
      (if-rounds (c == b'\'') (after_value total next (read_value s)) (total - length (c ∷ s)) h)

values_from-ends :
    (total f : ℕ) (input : Bytes)
    → length input < f
    → values_from total f input ≢ err invalid_declaration
unfolding values_from
values_from-ends total zero input k h = absurd (omega (arith, k))
values_from-ends total (suc f) input k h =
    let (left, l, e) =
      values_at-rounds total (length input) (values_from total f) (skip_separators input)
        (skip_separators-length input) h in
    values_from-ends total f left (omega (arith, k, l)) e

values_from-rounds :
    (total f g : ℕ) (input : Bytes)
    → length input < f
    → length input < g
    → values_from total f input ≡ values_from total g input
unfolding values_from
values_from-rounds total zero g input h k = absurd (omega (arith, h))
values_from-rounds total (suc f) zero input h k = absurd (omega (arith, k))
values_from-rounds total (suc f) (suc g) input h k =
    values_at-Agree total (values_from total f) (values_from total g) (length input)
      (skip_separators input) (skip_separators-length input)
      (λ left l. values_from-rounds total f g left (omega (arith, h, l)) (omega (arith, k, l)))

-- More rounds than the input has bytes are enough, whatever the input is: the outer loop does not
-- run out of them, which is the result `invalid_declaration`, and any such number of rounds gives
-- the same result.
pub values_from-enough :
    (total f g : ℕ) (input : Bytes)
    → length input < f
    → length input < g
    → (values_from total f input ≡ values_from total g input)
      × (values_from total f input ≢ err invalid_declaration)
values_from-enough total f g input h k =
    (values_from-rounds total f g input h k, values_from-ends total f input h)
