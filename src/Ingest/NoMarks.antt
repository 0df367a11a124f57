-- ===== src/Ingest/NoMarks.antt =====
-- The placeholders in the statements that go/connection.go makes for an ingest.
use mathlib.Core.Path.{subst}
use adbc_driver_mariadb.Base.{
  ℕ, suc, Bool, true, false, ◌≡◌, refl, ap, sym, ◌∙◌, List, [], ◌∷◌, ◌++◌, Option, none, some,
  append_assoc, append-nil, arith, if◌then◌else◌,
}
use adbc_driver_mariadb.Base.Text.{Bytes, codes, equal}
use adbc_driver_mariadb.Base.Int.{ℤ, pos, negsuc}
use adbc_driver_mariadb.Base.Decimal.{
  print_int, decimal, IsDigits, last, more, decimal-IsDigits, is_digit,
}
use adbc_driver_mariadb.Sql.Quote.{quote_identifier}
use adbc_driver_mariadb.Sql.Scan.{plain, at, scan, count_placeholders, opens_dash_comment}
use adbc_driver_mariadb.Sql.Identifier.{scan-quote_identifier}
use adbc_driver_mariadb.Sql.Builder.{NoMarks, NoMarks-append, count_placeholders-NoMarks}
use adbc_driver_mariadb.Arrow.{
  TimeUnit, second, millisecond, microsecond, nanosecond, ArrowType, decimal as decimal_type,
  timestamp, time32, time64, duration, Field,
}
use adbc_driver_mariadb.Ingest.Table.{
  timestamp_precision, base_type, with_suffix, arrow_to_mariadb_type, column_text, more_columns,
  columns_text, create_head, create_text, create_statement, drop_statement,
}

-- A text that a function may give, without placeholders if it does.
abbrev Clean : Option Bytes → Type 0
Clean none = Unit
Clean (some t) = NoMarks t

digits-NoMarks : {s : Bytes} → IsDigits s → NoMarks s
unfolding scan
digits-NoMarks (last c h) k rest = ground arith
digits-NoMarks (more c h d) k rest = ground (arith, digits-NoMarks d k rest)

digit-no_dash : (c : ℕ) (rest : Bytes) → is_digit c ≡ true → opens_dash_comment (c ∷ rest) ≡ false
digit-no_dash c [] h = refl
digit-no_dash c (d ∷ rest) h = ground arith

minus-NoMarks : (s : Bytes) → IsDigits s → NoMarks (b'-' ∷ s)
unfolding scan
minus-NoMarks _ (last c h) k rest = ground (arith, digit-no_dash c rest)
minus-NoMarks _ (more c {s = s} h d) k rest =
    ground (arith, digit-no_dash c (s ++ rest), digits-NoMarks d k rest)

print_int-NoMarks : (n : ℤ) → NoMarks (print_int n)
unfolding print_int
print_int-NoMarks (pos n) = digits-NoMarks (decimal-IsDigits n)
print_int-NoMarks (negsuc n) = minus-NoMarks (decimal (suc n)) (decimal-IsDigits (suc n))

precision-NoMarks : (unit : TimeUnit) → NoMarks (timestamp_precision unit)
unfolding scan
precision-NoMarks second k rest = refl
precision-NoMarks _ k rest = refl

if-NoMarks : (b : Bool) (s t : Bytes) → NoMarks s → NoMarks t → Clean (if b then some s else some t)
if-NoMarks true s t h g = h
if-NoMarks false s t h g = g

base_type-Clean : (t : ArrowType) → Clean (base_type t)
unfolding base_type scan
base_type-Clean (timestamp unit zone) =
    if-NoMarks (equal zone []) _ _
      (NoMarks-append (codes "DATETIME") (timestamp_precision unit) (λ k rest. refl)
        (precision-NoMarks unit))
      (NoMarks-append (codes "TIMESTAMP") (timestamp_precision unit) (λ k rest. refl)
        (precision-NoMarks unit))
base_type-Clean (decimal_type p s) =
    NoMarks-append (codes "DECIMAL(") (print_int p ++ (codes "," ++ (print_int s ++ codes ")")))
      (λ k rest. refl)
      (NoMarks-append (print_int p) (codes "," ++ (print_int s ++ codes ")")) (print_int-NoMarks p)
        (NoMarks-append (codes ",") (print_int s ++ codes ")") (λ k rest. refl)
          (NoMarks-append (print_int s) (codes ")") (print_int-NoMarks s) (λ k rest. refl))))
base_type-Clean (time32 second) = λ k rest. refl
base_type-Clean (time32 millisecond) = λ k rest. refl
base_type-Clean (time32 microsecond) = tt
base_type-Clean (time32 nanosecond) = tt
base_type-Clean (time64 microsecond) = λ k rest. refl
base_type-Clean (time64 nanosecond) = λ k rest. refl
base_type-Clean (time64 second) = tt
base_type-Clean (time64 millisecond) = tt
base_type-Clean (duration second) = λ k rest. refl
base_type-Clean (duration _) = λ k rest. refl
base_type-Clean _ = λ k rest. refl

suffix-Clean : (t : Option Bytes) (nullable : Bool) → Clean t → Clean (with_suffix t nullable)
unfolding scan
suffix-Clean none nullable h = tt
suffix-Clean (some t) true h = NoMarks-append t (codes " NULL") h (λ k rest. refl)
suffix-Clean (some t) false h = NoMarks-append t (codes " NOT NULL") h (λ k rest. refl)

type-Clean : (f : Field) → Clean (arrow_to_mariadb_type f.type f.nullable)
unfolding arrow_to_mariadb_type
type-Clean f = suffix-Clean (base_type f.type) f.nullable (base_type-Clean f.type)

-- A quoted identifier and the text behind it, which begins with a space.
identifier-NoMarks :
    (name t : Bytes) → NoMarks (b' ' ∷ t) → NoMarks (quote_identifier name ++ (b' ' ∷ t))
identifier-NoMarks name t h k rest =
    rw append_assoc (scan-quote_identifier k name (b' ' ∷ (t ++ rest)) refl ∙ h k rest)

column-Clean :
    (name : Bytes) (t rest : Option Bytes) → Clean t → Clean rest → Clean (column_text name t rest)
unfolding scan
column-Clean name none rest h g = tt
column-Clean name (some t) none h g = tt
column-Clean name (some t) (some rest) h g =
    identifier-NoMarks name (t ++ rest)
      (NoMarks-append (codes " ") (t ++ rest) (λ k r. refl) (NoMarks-append t rest h g))

separated-Clean :
    (o : Option Bytes) → Clean o → Clean (elim o [ none ↦ none | some t ↦ some (codes ", " ++ t) ])
unfolding scan
separated-Clean none h = tt
separated-Clean (some t) h = NoMarks-append (codes ", ") t (λ k rest. refl) h

more_columns-Clean : (fs : List Field) → Clean (more_columns fs)
unfolding more_columns
more_columns-Clean [] = λ k rest. refl
more_columns-Clean (f ∷ fs) =
    separated-Clean (column_text f.name (arrow_to_mariadb_type f.type f.nullable) (more_columns fs))
      (column-Clean f.name (arrow_to_mariadb_type f.type f.nullable) (more_columns fs)
        (type-Clean f) (more_columns-Clean fs))

columns-Clean : (fs : List Field) → Clean (columns_text fs)
unfolding columns_text
columns-Clean [] = λ k rest. refl
columns-Clean (f ∷ fs) =
    column-Clean f.name (arrow_to_mariadb_type f.type f.nullable) (more_columns fs) (type-Clean f)
      (more_columns-Clean fs)

head-NoMarks : (temporary if_not_exists : Bool) → NoMarks (create_head temporary if_not_exists)
unfolding scan
head-NoMarks true true k rest = refl
head-NoMarks true false k rest = refl
head-NoMarks false true k rest = refl
head-NoMarks false false k rest = refl

create-Clean :
    (temporary if_not_exists : Bool) (table : Bytes) (columns : Option Bytes)
    → Clean columns
    → Clean (create_text temporary if_not_exists table columns)
unfolding scan
create-Clean temporary if_not_exists table none h = tt
create-Clean temporary if_not_exists table (some columns) h =
    NoMarks-append (create_head temporary if_not_exists) _ (head-NoMarks temporary if_not_exists) (
      identifier-NoMarks table (codes "(" ++ (columns ++ codes ")")) (
        NoMarks-append (codes " (") (columns ++ codes ")") (λ k rest. refl)
          (NoMarks-append columns (codes ")") h (λ k rest. refl))))

-- Whatever the names of the table and of its columns are, the statement that creates it has no
-- placeholder outside of quotes and comments.
pub count_placeholders-create_statement :
    (temporary if_not_exists : Bool) (table : Bytes) (fields : List Field) (statement : Bytes)
    → create_statement temporary if_not_exists table fields ≡ some statement
    → count_placeholders statement ≡ 0
unfolding create_statement
count_placeholders-create_statement temporary if_not_exists table fields statement h =
    let clean =
      create-Clean temporary if_not_exists table (columns_text fields) (columns-Clean fields) in
    count_placeholders-NoMarks statement (subst Clean h clean)

-- The statement that drops a table has no placeholder outside of quotes and comments, whatever the
-- table's name is.
count_placeholders-drop_statement :
    (temporary : Bool) (table : Bytes) → count_placeholders (drop_statement temporary table) ≡ 0
unfolding drop_statement scan count_placeholders
count_placeholders-drop_statement true table =
    ap (λ t. scan (at plain 0) t) (sym (append-nil (quote_identifier table)))
    ∙ scan-quote_identifier 0 table [] refl
count_placeholders-drop_statement false table =
    ap (λ t. scan (at plain 0) t) (sym (append-nil (quote_identifier table)))
    ∙ scan-quote_identifier 0 table [] refl
