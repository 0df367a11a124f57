-- ===== src/Schema/TypeValuesRound.antt =====
-- `parseMariaDBTypeValues` of go/connection.go on declarations that were printed.
use adbc_driver_mariadb.Base.{
  ℕ, zero, suc, ◌<◌, ◌≤◌, true, false, ◌||◌, ◌≡◌, refl, ap, ◌∙◌, List, [], ◌∷◌, ◌++◌, none, some,
  length, length-append, ◌==◌, arith, if◌then◌else◌, append_assoc,
}
use adbc_driver_mariadb.Base.Text.{Bytes, split_at_byte, split_at_byte-append}
use adbc_driver_mariadb.Base.Result.{ok}
use adbc_driver_mariadb.Sql.Scan.{next_is}
use adbc_driver_mariadb.Schema.TypeValues.{
  read_value, before_last, skip_spaces, skip_separators, values_from, values_at, after_value,
  declared_list, parse_type_values, values_of, at_comma,
}

-- A value between quotes: quotes are doubled, and so are backslashes.
pub escape_value : Bytes → Bytes
escape_value [] = []
escape_value (c ∷ cs) =
    let rest = escape_value cs in if c == b'\'' || c == b'\\' then c ∷ c ∷ rest else c ∷ rest

abbrev quote_value : Bytes → Bytes
quote_value v = b'\'' ∷ (escape_value v ++ b'\'' ∷ [])

-- The values, quoted and separated by commas.
pub print_values : List Bytes → Bytes
print_values [] = []
print_values (v ∷ []) = quote_value v
print_values (v ∷ w ∷ vs) = quote_value v ++ (b',' ∷ print_values (w ∷ vs))

-- A declaration: the type's name, then the values in parentheses.
pub print_declaration : Bytes → List Bytes → Bytes
print_declaration name values = name ++ (b'(' ∷ (print_values values ++ b')' ∷ []))

read_value-escape_value :
    (v rest : Bytes)
    → next_is b'\'' rest ≡ false
    → read_value (escape_value v ++ (b'\'' ∷ rest)) ≡ some (v, rest)
unfolding read_value escape_value
read_value-escape_value [] [] h = refl
read_value-escape_value [] (d ∷ rest) h = ground arith
read_value-escape_value (c ∷ []) [] h = ground arith
read_value-escape_value (c ∷ []) (d ∷ rest) h = ground arith
read_value-escape_value (c ∷ d ∷ v) rest h = ground (arith, read_value-escape_value (d ∷ v) rest)

-- What is printed behind a value.
list_tail : List Bytes → Bytes
list_tail [] = []
list_tail (v ∷ vs) = b',' ∷ print_values (v ∷ vs)

list_tail-cons : (v : Bytes) (vs : List Bytes) → list_tail (v ∷ vs) ≡ b',' ∷ print_values (v ∷ vs)
unfolding list_tail
list_tail-cons v vs = refl

print_values-cons :
    (v : Bytes) (vs : List Bytes)
    → print_values (v ∷ vs) ≡ b'\'' ∷ (escape_value v ++ (b'\'' ∷ list_tail vs))
unfolding print_values list_tail
print_values-cons v [] = refl
print_values-cons v (w ∷ vs) = ap (λ t. b'\'' ∷ t) (rw append_assoc)

list_tail-no_quote : (vs : List Bytes) → next_is b'\'' (list_tail vs) ≡ false
unfolding list_tail
list_tail-no_quote [] = refl
list_tail-no_quote (v ∷ vs) = refl

skip_spaces-list_tail : (vs : List Bytes) → skip_spaces (list_tail vs) ≡ list_tail vs
unfolding list_tail skip_spaces
skip_spaces-list_tail [] = refl
skip_spaces-list_tail (v ∷ vs) = refl

at_comma-list_tail : (vs : List Bytes) → at_comma (list_tail vs) ≡ true
unfolding list_tail
at_comma-list_tail [] = refl
at_comma-list_tail (v ∷ vs) = refl

-- A round of the loop that begins at a value.
values_from-value :
    (total fuel : ℕ) (v rest : Bytes)
    → next_is b'\'' rest ≡ false
    → values_from total (suc fuel) (b'\'' ∷ (escape_value v ++ (b'\'' ∷ rest)))
      ≡ after_value total (values_from total fuel) (some (v, rest))
unfolding values_from values_at skip_separators
values_from-value total fuel v rest h = rw (read_value-escape_value v rest h)

-- A round skips the comma in front of a value.
values_from-comma :
    (total fuel : ℕ) (s : Bytes)
    → values_from total (suc fuel) (b',' ∷ s) ≡ values_from total (suc fuel) s
unfolding values_from skip_separators
values_from-comma total fuel s = refl

after_value-list_tail :
    (total fuel : ℕ) (v : Bytes) (vs : List Bytes)
    → values_from total fuel (list_tail vs) ≡ ok vs
    → after_value total (values_from total fuel) (some (v, list_tail vs)) ≡ ok (v ∷ vs)
unfolding after_value
after_value-list_tail total fuel v vs h =
    rw (skip_spaces-list_tail vs) (rw (at_comma-list_tail vs) (rw h))

values_from-first :
    (v : Bytes) (vs : List Bytes) (total fuel : ℕ)
    → values_from total fuel (list_tail vs) ≡ ok vs
    → values_from total (suc fuel) (print_values (v ∷ vs)) ≡ ok (v ∷ vs)
values_from-first v vs total fuel h = rw (print_values-cons v vs) (
    values_from-value total fuel v (list_tail vs) (list_tail-no_quote vs)
    ∙ after_value-list_tail total fuel v vs h)

-- `list_tail` parses to the values that it prints.
values_from-list_tail :
    (vs : List Bytes) (total fuel : ℕ)
    → length vs < fuel
    → values_from total fuel (list_tail vs) ≡ ok vs
values_from-list_tail vs total zero h = absurd (omega arith)
values_from-list_tail [] total (suc fuel) h =
    unfold values_from values_at skip_separators list_tail in refl
values_from-list_tail (v ∷ vs) total (suc fuel) h = rw (list_tail-cons v vs) (
    rw (values_from-comma total fuel (print_values (v ∷ vs)))
      (values_from-first v vs total fuel (values_from-list_tail vs total fuel (omega arith))))

values_from-print_values :
    (vs : List Bytes) (total fuel : ℕ)
    → length vs ≤ fuel
    → values_from total (suc fuel) (print_values vs) ≡ ok vs
values_from-print_values [] total fuel h =
    unfold values_from values_at skip_separators print_values in refl
values_from-print_values (v ∷ vs) total fuel h =
    values_from-first v vs total fuel (values_from-list_tail vs total fuel h)

length-le-print_values : (vs : List Bytes) → length vs ≤ length (print_values vs)
unfolding print_values
length-le-print_values [] = omega arith
length-le-print_values (v ∷ []) = omega arith
length-le-print_values (v ∷ w ∷ vs) =
    let rest = print_values (w ∷ vs) in
    omega (
      arith,
      length-append (escape_value v ++ b'\'' ∷ []) (b',' ∷ rest),
      length-le-print_values (w ∷ vs),
    )

before_last-append : (b : ℕ) (s : Bytes) → before_last b (s ++ b ∷ []) ≡ some s
unfolding before_last
before_last-append b [] = ground arith
before_last-append b (c ∷ s) = rw (before_last-append b s)

declared_list-print_declaration :
    (name : Bytes) (values : List Bytes)
    → split_at_byte b'(' name ≡ none
    → declared_list (print_declaration name values) ≡ some (print_values values)
unfolding declared_list print_declaration
declared_list-print_declaration name values h =
    rw (split_at_byte-append b'(' name (print_values values ++ b')' ∷ []) h, declared_list)
      (before_last-append b')' (print_values values))

-- A declaration whose type name has no opening parenthesis parses to the values it was printed
-- from, in order, whatever bytes the values have.
pub parse_type_values-print_declaration :
    (name : Bytes) (values : List Bytes)
    → split_at_byte b'(' name ≡ none
    → parse_type_values (print_declaration name values) ≡ ok values
unfolding parse_type_values
parse_type_values-print_declaration name values h =
    ap values_of (declared_list-print_declaration name values h)
    ∙ values_from-print_values values _ (length (print_values values))
        (length-le-print_values values)
