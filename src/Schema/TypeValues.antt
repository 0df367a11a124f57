-- ===== src/Schema/TypeValues.antt =====
-- `parseMariaDBTypeValues` of go/connection.go: the values of ENUM('a','b') and SET('a','b').
-- The index into the declaration is the list of the bytes that are left.
use adbc_driver_mariadb.Base.{
  ℕ, zero, suc, ◌-◌, Bool, true, ◌||◌, List, [], ◌∷◌, Option, none, some, length, ◌==◌,
  if◌then◌else◌,
}
use adbc_driver_mariadb.Base.Text.{Bytes, split_at_byte}
use adbc_driver_mariadb.Base.Result.{Result, ok, err}

pub data ValuesError : Type 0 where
  invalid_declaration unterminated_value : ValuesError
  invalid_at : ℕ → ValuesError

-- What stands before the last `b`: `s[:strings.LastIndexByte(s, b)]`.
unfoldable pub before_last : ℕ → Bytes → Option Bytes
before_last b [] = none
before_last b (c ∷ cs) = elim (before_last b cs) [
  | some r ↦ some (c ∷ r)
  | none ↦ if c == b then some [] else none
]

abbrev pub prepend : ℕ → Option (Bytes × Bytes) → Option (Bytes × Bytes)
prepend c none = none
prepend c (some (value, rest)) = some (c ∷ value, rest)

-- The loop over one value, after its opening quote: the value and what follows its closing quote,
-- or `none` where the input ends first.
unfoldable pub read_value : Bytes → Option (Bytes × Bytes)
read_value [] = none
read_value (ch ∷ []) = if ch == b'\'' then some ([], []) else none
read_value (ch ∷ d ∷ rest) =
    let pair = read_value rest in
    let single = read_value (d ∷ rest) in
    if ch == b'\\'
    then prepend d pair
    else if ch == b'\''
    then (if d == b'\'' then prepend ch pair else some ([], d ∷ rest))
    else prepend ch single

unfoldable pub skip_separators : Bytes → Bytes
skip_separators [] = []
skip_separators (c ∷ cs) =
    let rest = skip_separators cs in if c == b' ' || c == b',' then rest else c ∷ cs

unfoldable pub skip_spaces : Bytes → Bytes
skip_spaces [] = []
skip_spaces (c ∷ cs) = let rest = skip_spaces cs in if c == b' ' then rest else c ∷ cs

abbrev pub cons_value : Bytes → Result ValuesError (List Bytes) → Result ValuesError (List Bytes)
cons_value v (ok vs) = ok (v ∷ vs)
cons_value v (err e) = err e

-- `pos < len(input) && input[pos] != ','`
abbrev pub at_comma : Bytes → Bool
at_comma [] = true
at_comma (c ∷ cs) = c == b','

abbrev pub Values : Type 0
Values = Result ValuesError (List Bytes)

-- What follows a value's closing quote; `total` is `len(input)` and `next` the next round.
unfoldable pub after_value : ℕ → (Bytes → Values) → Option (Bytes × Bytes) → Values
unfolding skip_spaces
after_value total next none = err unterminated_value
after_value total next (some (value, rest)) =
    let left = skip_spaces rest in
    if at_comma left then cons_value value (next left) else err (invalid_at (total - length left))

unfoldable pub values_at : ℕ → (Bytes → Values) → Bytes → Values
unfolding after_value read_value
values_at total next [] = ok []
values_at total next (c ∷ cs) =
    if c == b'\''
    then after_value total next (read_value cs)
    else err (invalid_at (total - length (c ∷ cs)))

-- The loop over the values. Each round reads at least the two quotes of a value, so
-- `suc (length input)` rounds are enough.
unfoldable pub values_from : ℕ → ℕ → Bytes → Values
unfolding skip_separators values_at
values_from total zero input = err invalid_declaration
values_from total (suc fuel) input =
    values_at total (values_from total fuel) (skip_separators input)

-- The text between the first opening and the last closing parenthesis: the last one of the whole
-- declaration stands behind the first opening one exactly if what follows that one has any.
unfoldable pub declared_list : Bytes → Option Bytes
unfolding split_at_byte before_last
declared_list column_type = elim (split_at_byte b'(' column_type) [
  | none ↦ none
  | some (before, from) ↦ elim from [ [] ↦ none | c ∷ text ↦ before_last b')' text ]
]

abbrev pub values_of : Option Bytes → Values
values_of none = err invalid_declaration
values_of (some input) = values_from (length input) (suc (length input)) input

unfoldable pub parse_type_values : Bytes → Values
unfolding declared_list values_from
parse_type_values column_type = values_of (declared_list column_type)
