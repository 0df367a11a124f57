-- ===== src/Schema/Json.antt =====
-- The columns that `GetTableSchema` of go/connection.go takes for JSON: those that a check constraint
-- of the table tests by `json_valid`.
use adbc_driver_mariadb.Base.{
  Bool, true, false, ◌&&◌, ◌||◌, ◌≡◌, refl, ap, ◌∙◌, List, [], ◌∷◌, ◌++◌, Option, none, some, arith,
  if◌then◌else◌,
}
use adbc_driver_mariadb.Base.Text.{Bytes, codes, equal, equal_iff, to_lower, contains, member}
use adbc_driver_mariadb.Base.Dict.{Dict, lookup, store, lookup-store}
use adbc_driver_mariadb.Sql.Quote.{backtick, double_backticks}

-- The condition on a clause in lower case and a column's name.
unfoldable pub tests_json : Bytes → Bytes → Bool
unfolding contains to_lower double_backticks
tests_json lower_clause name =
    let quoted_name = backtick ∷ (to_lower (double_backticks name) ++ (backtick ∷ [])) in
    contains lower_clause (codes "json_valid(" ++ (quoted_name ++ codes ")"))
    || contains lower_clause (codes "json_valid(" ++ (to_lower name ++ codes ")"))

-- The loop over the columns for one clause, the columns by their names.
unfoldable pub mark_columns : Bytes → List Bytes → Dict Bool → Dict Bool
unfolding tests_json store
mark_columns lower_clause [] json_columns = json_columns
mark_columns lower_clause (name ∷ names) json_columns =
    mark_columns lower_clause names
      (if tests_json lower_clause name then store name true json_columns else json_columns)

-- The loop over the clauses.
unfoldable pub mark_clauses : List Bytes → List Bytes → Dict Bool → Dict Bool
unfolding mark_columns
mark_clauses [] names json_columns = json_columns
mark_clauses (clause ∷ clauses) names json_columns =
    mark_clauses clauses names (mark_columns (to_lower clause) names json_columns)

-- `json_columns[name]`, false where the name is missing.
abbrev pub flag : Option Bool → Bool
flag none = false
flag (some b) = b

unfoldable pub is_marked : Dict Bool → Bytes → Bool
unfolding lookup
is_marked json_columns name = flag (lookup name json_columns)

-- Whether one of the clauses tests the name.
unfoldable pub any_tests : List Bytes → Bytes → Bool
any_tests [] name = false
any_tests (clause ∷ clauses) name = tests_json (to_lower clause) name || any_tests clauses name

if-flag : (b : Bool) (o : Option Bool) → flag (if b then some true else o) ≡ (flag o || (b && true))
if-flag true none = refl
if-flag true (some true) = refl
if-flag true (some false) = refl
if-flag false none = refl
if-flag false (some true) = refl
if-flag false (some false) = refl

mark-is_marked :
    (b : Bool) (n name : Bytes) (m : Dict Bool)
    → is_marked (if b then store n true m else m) name ≡ (is_marked m name || (equal n name && b))
unfolding is_marked
mark-is_marked true n name m =
    ap flag (lookup-store name n true m) ∙ if-flag (equal n name) (lookup name m)
mark-is_marked false n name m = ground (arith)

mark_columns-is_marked :
    (clause name : Bytes) (names : List Bytes) (m : Dict Bool)
    → is_marked (mark_columns clause names m) name
      ≡ (is_marked m name || (member name names && tests_json clause name))
unfolding mark_columns member
mark_columns-is_marked clause name [] m = ground arith
mark_columns-is_marked clause name (n ∷ names) m = ground (
  arith,
  equal_iff n name,
  mark_columns-is_marked clause name names (if tests_json clause n then store n true m else m),
  mark-is_marked (tests_json clause n) n name m,
)

mark_clauses-marked :
    (clauses names : List Bytes) (name : Bytes) (m : Dict Bool)
    → is_marked (mark_clauses clauses names m) name
      ≡ (is_marked m name || (member name names && any_tests clauses name))
unfolding mark_clauses any_tests
mark_clauses-marked [] names name m = ground arith
mark_clauses-marked (clause ∷ clauses) names name m = ground (
  arith,
  mark_clauses-marked clauses names name (mark_columns (to_lower clause) names m),
  mark_columns-is_marked (to_lower clause) name names m,
)

-- The two loops mark a name exactly if it is one of the table's columns and one of the clauses, in
-- lower case, tests it.
pub mark_clauses-is_marked :
    (clauses names : List Bytes) (name : Bytes)
    → is_marked (mark_clauses clauses names []) name ≡ (member name names && any_tests clauses name)
unfolding is_marked
mark_clauses-is_marked clauses names name = mark_clauses-marked clauses names name []
