-- ===== src/Sql/Scan.antt =====
-- `countPlaceholders` of go/mariadb.go: one pass over the query's bytes with a lexical state.
-- The loop index is the list of the bytes that are left; an `i++` inside the loop is `skip`.
use adbc_driver_mariadb.Base.{
  ℕ, ◌+◌, Bool, true, false, ◌&&◌, ◌||◌, [], ◌∷◌, ◌==◌, leb, if◌then◌else◌,
}
use adbc_driver_mariadb.Base.Text.{Bytes}

pub data Lexical : Type 0 where
  plain single_quoted double_quoted backtick_quoted line_comment block_comment : Lexical

pub record Scan : Type 0 where
  pub state : Lexical
  pub count : ℕ
  pub skip : Bool

-- `i+1 < len(query) && query[i+1] == b`
abbrev pub next_is : ℕ → Bytes → Bool
next_is b [] = false
next_is b (d ∷ rest) = d == b

-- `i+2 < len(query) && query[i+1] == '-' && query[i+2] <= ' '`
abbrev pub opens_dash_comment : Bytes → Bool
opens_dash_comment [] = false
opens_dash_comment (d ∷ []) = false
opens_dash_comment (d ∷ e ∷ rest) = d == b'-' && leb e b' '

abbrev pub more : Bytes → Bool
more [] = false
more (d ∷ rest) = true

abbrev pub at : Lexical → ℕ → Scan
at s n = record { state = s; count = n; skip = false }

abbrev pub past : Lexical → ℕ → Scan
past s n = record { state = s; count = n; skip = true }

unfoldable pub plain_byte : ℕ → ℕ → Bytes → Scan
plain_byte n c rest =
    if c == b'?'
    then at plain (n + 1)
    else if c == b'\''
    then at single_quoted n
    else if c == b'"'
    then at double_quoted n
    else if c == b'`'
    then at backtick_quoted n
    else if c == b'#'
    then at line_comment n
    else if c == b'-'
    then (if opens_dash_comment rest then past line_comment n else at plain n)
    else if c == b'/'
    then (if next_is b'*' rest then past block_comment n else at plain n)
    else at plain n

-- The three quoted states share one case; the flag is `state != backtickQuoted`.
unfoldable pub quoted_byte : Bool → ℕ → Lexical → ℕ → ℕ → Bytes → Scan
quoted_byte escapes quote state n c rest =
    if c == b'\\' && escapes && more rest
    then past state n
    else if c == quote
    then (if next_is quote rest then past state n else at plain n)
    else at state n

unfoldable pub scan_byte : Lexical → ℕ → ℕ → Bytes → Scan
unfolding plain_byte quoted_byte
scan_byte plain n c rest = plain_byte n c rest
scan_byte single_quoted n c rest = quoted_byte true b'\'' single_quoted n c rest
scan_byte double_quoted n c rest = quoted_byte true b'"' double_quoted n c rest
scan_byte backtick_quoted n c rest = quoted_byte false b'`' backtick_quoted n c rest
scan_byte line_comment n c rest = if c == b'\n' || c == b'\r' then at plain n else at line_comment n
scan_byte block_comment n c rest =
    if c == b'*' && next_is b'/' rest then past plain n else at block_comment n

unfoldable pub scan_step : Scan → ℕ → Bytes → Scan
unfolding scan_byte
scan_step k c rest = if k.skip then record k { skip = false } else scan_byte k.state k.count c rest

unfoldable pub scan : Scan → Bytes → ℕ
unfolding scan_step
scan k [] = k.count
scan k (c ∷ rest) = scan (scan_step k c rest) rest

unfoldable pub count_placeholders : Bytes → ℕ
unfolding scan
count_placeholders query = scan (at plain 0) query
