-- ===== src/Schema/JsonClauses.antt =====
-- What counts as a JSON check of a column in `GetTableSchema` of go/connection.go, by the text of the
-- clause.
use adbc_driver_mariadb.Base.{
  ◌↔◌, ◌⊎◌, inl, inr, Bool, true, false, ◌&&◌, ◌||◌, ◌≡◌, refl, sym, ap, ◌∙◌, List, [], ◌∷◌, ◌++◌,
  none, some, arith, Option-cases,
}
use adbc_driver_mariadb.Base.Text.{
  Bytes, codes, equal, eq_of_equal, equal_refl, lower, to_lower, cut_prefix, cut_prefix-append,
  append-cut_prefix, has_prefix, contains, member,
}
use adbc_driver_mariadb.Sql.Quote.{backtick, double_backticks, quote_identifier}
use adbc_driver_mariadb.Schema.Json.{
  tests_json, any_tests, mark_clauses, is_marked, mark_clauses-is_marked,
}

-- That one text occurs in another.
pub record Occurs (p s : Bytes) : Type 0 where
  pub before : Bytes
  pub rest : Bytes
  pub splits : s ≡ before ++ (p ++ rest)

or_cases : (a b : Bool) → (a || b) ≡ true → (a ≡ true) ⊎ (b ≡ true)
or_cases true b h = inl refl
or_cases false b h = inr h

or_left : (a b : Bool) → a ≡ true → (a || b) ≡ true
or_left a b h = ground arith

or_right : (a b : Bool) → b ≡ true → (a || b) ≡ true
or_right a b h = ground arith

has_prefix-splits : (s p : Bytes) → has_prefix s p ≡ true → (rest : Bytes) × (s ≡ p ++ rest)
unfolding has_prefix
has_prefix-splits s p h = elim (Option-cases (cut_prefix s p)) [
  | inl e ↦ cc (h, e)
  | inr (rest, e) ↦ (rest, append-cut_prefix s p e)
]

has_prefix-append : (p rest : Bytes) → has_prefix (p ++ rest) p ≡ true
unfolding has_prefix
has_prefix-append p rest =
    ap (λ o. elim o [ none ↦ false | some _ ↦ true ]) (cut_prefix-append p rest)

Occurs-first : (p s : Bytes) → has_prefix s p ≡ true → Occurs p s
Occurs-first p s h =
    let (rest, e) = has_prefix-splits s p h in record { before = []; rest = rest; splits = e }

Occurs-contains : (p s : Bytes) → contains s p ≡ true → Occurs p s
unfolding contains
Occurs-contains p [] h = Occurs-first p [] h
Occurs-contains p (c ∷ s) h = elim (or_cases (has_prefix (c ∷ s) p) (contains s p) h) [
  | inl e ↦ Occurs-first p (c ∷ s) e
  | inr e ↦
      let o = Occurs-contains p s e in
      record { before = c ∷ o.before; rest = o.rest; splits = ap (λ t. c ∷ t) o.splits }
]

contains-first : (p s : Bytes) → has_prefix s p ≡ true → contains s p ≡ true
unfolding contains
contains-first p [] h = h
contains-first p (c ∷ s) h = or_left _ _ h

contains-append : (p before rest : Bytes) → contains (before ++ (p ++ rest)) p ≡ true
unfolding contains
contains-append p [] rest = contains-first p (p ++ rest) (has_prefix-append p rest)
contains-append p (c ∷ before) rest =
    or_right (has_prefix (c ∷ (before ++ (p ++ rest))) p) _ (contains-append p before rest)

contains-Occurs : (p s : Bytes) → Occurs p s → contains s p ≡ true
contains-Occurs p s o = ap (λ t. contains t p) o.splits ∙ contains-append p o.before o.rest

-- One of the texts of a list has a property.
abbrev pub AnyOf : (Bytes → Type 0) → List Bytes → Type 0
AnyOf P [] = ⊥
AnyOf P (t ∷ ts) = P t ⊎ AnyOf P ts

-- A clause in lower case calls json_valid on the column, with its name in quotes or plain.
abbrev pub IsCheck : Bytes → Bytes → Type 0
IsCheck name clause =
    Occurs (codes "json_valid(" ++ (to_lower (quote_identifier name) ++ codes ")"))
      (to_lower clause)
    ⊎ Occurs (codes "json_valid(" ++ (to_lower name ++ codes ")")) (to_lower clause)

to_lower-append : (s t : Bytes) → to_lower (s ++ t) ≡ to_lower s ++ to_lower t
unfolding to_lower
to_lower-append [] t = refl
to_lower-append (c ∷ s) t = ap (λ r. lower c ∷ r) (to_lower-append s t)

to_lower-quote_identifier :
    (name : Bytes)
    → to_lower (quote_identifier name)
      ≡ backtick ∷ (to_lower (double_backticks name) ++ (backtick ∷ []))
unfolding quote_identifier to_lower lower
to_lower-quote_identifier name =
    ap (λ r. backtick ∷ r) (to_lower-append (double_backticks name) (backtick ∷ []))

tests_json-contains :
    (clause name : Bytes)
    → tests_json clause name ≡ (
        contains clause (codes "json_valid(" ++ (to_lower (quote_identifier name) ++ codes ")"))
        || contains clause (codes "json_valid(" ++ (to_lower name ++ codes ")")))
unfolding tests_json
tests_json-contains clause name = rw (to_lower-quote_identifier name)

IsCheck-tests_json :
    (name clause : Bytes) → tests_json (to_lower clause) name ≡ true → IsCheck name clause
IsCheck-tests_json name clause h =
    elim (or_cases _ _ (sym (tests_json-contains (to_lower clause) name) ∙ h)) [
      | inl e ↦ inl (Occurs-contains _ _ e)
      | inr e ↦ inr (Occurs-contains _ _ e)
    ]

tests_json-IsCheck :
    (name clause : Bytes) → IsCheck name clause → tests_json (to_lower clause) name ≡ true
tests_json-IsCheck name clause (inl o) =
    tests_json-contains (to_lower clause) name ∙ or_left _ _ (contains-Occurs _ _ o)
tests_json-IsCheck name clause (inr o) =
    tests_json-contains (to_lower clause) name ∙ or_right _ _ (contains-Occurs _ _ o)

AnyOf-any_tests :
    (clauses : List Bytes) (name : Bytes)
    → any_tests clauses name ≡ true
    → AnyOf (IsCheck name) clauses
unfolding any_tests
AnyOf-any_tests [] name h = cc
AnyOf-any_tests (clause ∷ clauses) name h = elim (or_cases _ _ h) [
  | inl e ↦ inl (IsCheck-tests_json name clause e)
  | inr e ↦ inr (AnyOf-any_tests clauses name e)
]

any_tests-AnyOf :
    (clauses : List Bytes) (name : Bytes)
    → AnyOf (IsCheck name) clauses
    → any_tests clauses name ≡ true
unfolding any_tests
any_tests-AnyOf [] name h = absurd h
any_tests-AnyOf (clause ∷ clauses) name (inl h) = or_left _ _ (tests_json-IsCheck name clause h)
any_tests-AnyOf (clause ∷ clauses) name (inr h) = or_right _ _ (any_tests-AnyOf clauses name h)

AnyOf-member :
    (names : List Bytes) (name : Bytes) → member name names ≡ true → AnyOf (λ n. n ≡ name) names
unfolding member
AnyOf-member [] name h = cc
AnyOf-member (n ∷ names) name h = elim (or_cases _ _ h) [
  | inl e ↦ inl (eq_of_equal n name e)
  | inr e ↦ inr (AnyOf-member names name e)
]

member-AnyOf :
    (names : List Bytes) (name : Bytes) → AnyOf (λ n. n ≡ name) names → member name names ≡ true
unfolding member
member-AnyOf [] name h = absurd h
member-AnyOf (n ∷ names) name (inl e) = or_left _ _ (ap (λ m. equal m name) e ∙ equal_refl name)
member-AnyOf (n ∷ names) name (inr h) = or_right _ _ (member-AnyOf names name h)

and_cases : (a b : Bool) → (a && b) ≡ true → (a ≡ true) × (b ≡ true)
and_cases true b h = (refl, h)
and_cases false b h = cc

both : (a b : Bool) → a ≡ true → b ≡ true → (a && b) ≡ true
both a b h k = ground arith

-- The two loops mark a name exactly if it is one of the table's columns and one of the clauses, in lower
-- case, has the text `json_valid(...)` around the name in lower case, either quoted as an identifier or
-- as it is.
pub mark_clauses-IsCheck :
    (clauses names : List Bytes) (name : Bytes)
    → (is_marked (mark_clauses clauses names []) name ≡ true)
      ↔ (AnyOf (λ n. n ≡ name) names × AnyOf (IsCheck name) clauses)
mark_clauses-IsCheck clauses names name =
    let e = mark_clauses-is_marked clauses names name in
    (
      λ h.
          let (a, b) = and_cases (member name names) _ (sym e ∙ h) in
          (AnyOf-member names name a, AnyOf-any_tests clauses name b),
      λ p. e ∙ both _ _ (member-AnyOf names name p.0) (any_tests-AnyOf clauses name p.1),
    )
