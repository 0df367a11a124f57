-- ===== src/Sql/Quote.antt =====
-- `quoteIdentifier` and `QuoteIdentifiers` of go/connection.go.
use adbc_driver_mariadb.Base.{ℕ, List, [], ◌∷◌, ◌++◌, map, ◌==◌, if◌then◌else◌}
use adbc_driver_mariadb.Base.Text.{Bytes}

abbrev pub backtick : ℕ
backtick = b'`'

-- `strings.ReplaceAll(name, "`", "``")`.
unfoldable pub double_backticks : Bytes → Bytes
double_backticks [] = []
double_backticks (c ∷ cs) =
    let rest = double_backticks cs in if c == backtick then c ∷ c ∷ rest else c ∷ rest

unfoldable pub quote_identifier : Bytes → Bytes
quote_identifier name = backtick ∷ (double_backticks name ++ backtick ∷ [])

-- `strings.Join` with a byte for the separator.
unfoldable pub join : ℕ → List Bytes → Bytes
join sep [] = []
join sep (p ∷ []) = p
join sep (p ∷ q ∷ ps) = p ++ (sep ∷ join sep (q ∷ ps))

unfoldable pub quote_identifiers : List Bytes → Bytes
quote_identifiers parts = join b'.' (map quote_identifier parts)
