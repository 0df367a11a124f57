-- ===== src/Sql/Identifier.antt =====
-- Quoted identifiers of go/connection.go before a reader of backtick quotes, and before the
-- placeholder count of go/mariadb.go.
use adbc_driver_mariadb.Base.{
  ℕ, false, ◌≡◌, refl, sym, ap, ◌∙◌, List, [], ◌∷◌, ◌++◌, Option, none, some, ◌==◌, arith,
  if◌then◌else◌, append_assoc, append-nil, Bool-cases, inl, inr,
}
use adbc_driver_mariadb.Base.Text.{Bytes}
use adbc_driver_mariadb.Sql.Quote.{
  backtick, double_backticks, quote_identifier, join, quote_identifiers,
}
use adbc_driver_mariadb.Sql.Scan.{plain, at, next_is, scan}
use adbc_driver_mariadb.Sql.Lexical.{Inside, Lexes, Quote, quoted, scan-Inside}

-- A server's reading of a quoted identifier, after its opening backtick: two backticks stand for
-- one, and a single one ends the name. `none`: the name does not end.
pub read_name : Bytes → Option (Bytes × Bytes)
read_name [] = none
read_name (c ∷ []) = if c == backtick then some ([], []) else none
read_name (c ∷ d ∷ s) =
    let pair = read_name s in
    let single = read_name (d ∷ s) in
    if c == backtick
    then (if d == backtick
        then elim pair [ none ↦ none | some (name, rest) ↦ some (c ∷ name, rest) ]
        else some ([], d ∷ s))
    else elim single [ none ↦ none | some (name, rest) ↦ some (c ∷ name, rest) ]

pub read_identifier : Bytes → Option (Bytes × Bytes)
read_identifier [] = none
read_identifier (c ∷ s) = if c == backtick then read_name s else none

read_name-double_backticks :
    (name rest : Bytes)
    → next_is backtick rest ≡ false
    → read_name (double_backticks name ++ (backtick ∷ rest)) ≡ some (name, rest)
unfolding read_name double_backticks
read_name-double_backticks [] [] h = refl
read_name-double_backticks [] (d ∷ rest) h = ground arith
read_name-double_backticks (c ∷ []) [] h = ground arith
read_name-double_backticks (c ∷ []) (d ∷ rest) h = ground arith
read_name-double_backticks (c ∷ d ∷ name) rest h =
    ground (arith, read_name-double_backticks (d ∷ name) rest)

-- A quoted identifier, with anything but a backtick behind it, reads back as the name it quotes,
-- whatever bytes the name has.
pub read_identifier-quote_identifier :
    (name rest : Bytes)
    → next_is backtick rest ≡ false
    → read_identifier (quote_identifier name ++ rest) ≡ some (name, rest)
unfolding read_identifier quote_identifier
read_identifier-quote_identifier name rest h =
    rw (append_assoc) (read_name-double_backticks name rest h)

double_backticks-Inside :
    (name rest : Bytes)
    → next_is backtick rest ≡ false
    → Inside Quote.backtick (double_backticks name ++ (backtick ∷ rest)) rest
unfolding double_backticks
double_backticks-Inside [] rest h = Inside.close backtick rest refl h
double_backticks-Inside (c ∷ name) rest h = elim (Bool-cases (c == backtick)) [
  | inl e ↦
      rw e (Inside.doubled c c (ground arith) (ground arith) (double_backticks-Inside name rest h))
  | inr e ↦ rw e (Inside.byte c (ground arith) (ground arith) (double_backticks-Inside name rest h))
]

-- If a text that does not begin with a backtick lexes with `n` question marks outside of quoted
-- text and comments, so does a quoted identifier with that text behind it.
pub quote_identifier-Lexes :
    (name : Bytes) {rest : Bytes} {n : ℕ}
    → next_is backtick rest ≡ false
    → Lexes rest n
    → Lexes (quote_identifier name ++ rest) n
unfolding quote_identifier
quote_identifier-Lexes name {rest} h l =
    rw append_assoc (quoted Quote.backtick backtick refl (double_backticks-Inside name rest h) l)

pub scan-quote_identifier :
    (k : ℕ) (name rest : Bytes)
    → next_is backtick rest ≡ false
    → scan (at plain k) (quote_identifier name ++ rest) ≡ scan (at plain k) rest
unfolding scan quote_identifier
scan-quote_identifier k name rest h =
    rw append_assoc (scan-Inside Quote.backtick k (double_backticks-Inside name rest h))

-- What `QuoteIdentifiers` writes behind the first part.
tail_text : List Bytes → Bytes
tail_text [] = []
tail_text (p ∷ ps) = b'.' ∷ quote_identifiers (p ∷ ps)

quote_identifiers-cons :
    (p : Bytes) (ps : List Bytes) → quote_identifiers (p ∷ ps) ≡ quote_identifier p ++ tail_text ps
unfolding quote_identifiers tail_text join
quote_identifiers-cons p [] = sym (append-nil _)
quote_identifiers-cons p (q ∷ ps) = refl

tail_text-no_backtick : (ps : List Bytes) → next_is backtick (tail_text ps) ≡ false
unfolding tail_text
tail_text-no_backtick [] = refl
tail_text-no_backtick (p ∷ ps) = refl

read_identifier-quote_identifiers :
    (p : Bytes) (ps : List Bytes)
    → read_identifier (quote_identifiers (p ∷ ps)) ≡ some (p, tail_text ps)
read_identifier-quote_identifiers p ps =
    rw quote_identifiers-cons
      (read_identifier-quote_identifier p (tail_text ps) (tail_text-no_backtick ps))

tail_text-injective : (ps qs : List Bytes) → tail_text ps ≡ tail_text qs → ps ≡ qs
unfolding tail_text
tail_text-injective [] [] h = refl
tail_text-injective [] (q ∷ qs) h = cc
tail_text-injective (p ∷ ps) [] h = cc
tail_text-injective (p ∷ ps) (q ∷ qs) h =
    let e : quote_identifiers (p ∷ ps) ≡ quote_identifiers (q ∷ qs) = cc in
    let f : some (p, tail_text ps) ≡ some (q, tail_text qs) =
      sym (read_identifier-quote_identifiers p ps)
      ∙ (ap read_identifier e ∙ read_identifier-quote_identifiers q qs) in
    ground (arith, f, tail_text-injective ps qs)

-- Two qualified names that `QuoteIdentifiers` writes alike have the same parts in the same order.
quote_identifiers-injective :
    (ps qs : List Bytes) → quote_identifiers ps ≡ quote_identifiers qs → ps ≡ qs
unfolding quote_identifiers join read_identifier tail_text
quote_identifiers-injective [] [] h = refl
quote_identifiers-injective [] (q ∷ qs) h = cc (read_identifier-quote_identifiers q qs)
quote_identifiers-injective (p ∷ ps) [] h = cc (read_identifier-quote_identifiers p ps)
quote_identifiers-injective (p ∷ ps) (q ∷ qs) h =
    tail_text-injective (p ∷ ps) (q ∷ qs) (ap (λ t. b'.' ∷ t) h)
