-- ===== src/Sql/Tests.antt =====
-- Runs of the lexical code of go/connection.go and go/mariadb.go on small inputs.
use adbc_driver_mariadb.Base.{arith, ◌≡◌, refl, [], ◌∷◌, ◌++◌, some}
use adbc_driver_mariadb.Base.Text.{codes}
use adbc_driver_mariadb.Sql.Quote.{double_backticks, join, quote_identifier, quote_identifiers}
use adbc_driver_mariadb.Sql.Scan.{count_placeholders}
use adbc_driver_mariadb.Sql.Lexical.{
  Lexes, Inside, end, mark, text, quoted, Quote, count_placeholders-Lexes,
}
use adbc_driver_mariadb.Sql.Identifier.{
  read_identifier, read_identifier-quote_identifier, quote_identifier-Lexes,
}

quote_odd_name : quote_identifier (codes "a`b") ≡ codes "`a``b`"
unfolding quote_identifier double_backticks
quote_odd_name = refl

quote_path : quote_identifiers (codes "db" ∷ codes "t" ∷ []) ≡ codes "`db`.`t`"
unfolding quote_identifiers join quote_identifier double_backticks
quote_path = refl

count_mixed :
    count_placeholders (codes "SELECT ?, '?''\\'?', `?` -- ?\n, ? /* ? */ # ?\r - ? --?") ≡ 4
unfolding count_placeholders
count_mixed = refl

small_query : Lexes (codes "'?' ?") 1
small_query =
    quoted Quote.single b'\'' refl
      (Inside.byte b'?' (omega arith) refl (Inside.close b'\'' (codes " ?") refl refl))
      (text b' ' refl (mark b'?' refl end))

count_placeholders-Lexes_example : count_placeholders (codes "'?' ?") ≡ 1
count_placeholders-Lexes_example = count_placeholders-Lexes small_query

read_identifier-quote_identifier_example :
    read_identifier (quote_identifier (codes "a`b") ++ codes ".c") ≡ some (codes "a`b", codes ".c")
read_identifier-quote_identifier_example =
    read_identifier-quote_identifier (codes "a`b") (codes ".c") refl

quote_identifier-Lexes_example : Lexes (quote_identifier (codes "?") ++ codes " ?") 1
quote_identifier-Lexes_example =
    quote_identifier-Lexes (codes "?") refl (text b' ' refl (mark b'?' refl end))
