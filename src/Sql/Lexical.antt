-- ===== src/Sql/Lexical.antt =====
-- An independent description of a query's placeholders, for `countPlaceholders` of go/mariadb.go:
-- which bytes are quoted text, comments and plain text.
use adbc_driver_mariadb.Base.{
  ℕ, suc, ◌+◌, Bool, true, false, ◌&&◌, ◌||◌, ◌≡◌, ◌≢◌, refl, [], ◌∷◌, ◌==◌, arith, if◌then◌else◌,
}
use adbc_driver_mariadb.Base.Text.{Bytes}
use adbc_driver_mariadb.Sql.Scan.{
  Lexical, plain, single_quoted, double_quoted, backtick_quoted, line_comment, block_comment, at,
  next_is, opens_dash_comment, scan, count_placeholders,
}

pub data Quote : Type 0 where
  single double backtick : Quote

abbrev pub quote : Quote → ℕ
quote single = b'\''
quote double = b'"'
quote backtick = b'`'

-- A backslash escapes the next byte in strings, and not in identifiers.
abbrev pub escapes : Quote → Bool
escapes single = true
escapes double = true
escapes backtick = false

-- `Inside q s r`: read after the opening quote, `s` is the quoted text, its end and then `r`.
pub data Inside (q : Quote) : Bytes → Bytes → Type 0 where
  close : (c : ℕ) (r : Bytes) → c ≡ quote q → next_is c r ≡ false → Inside q (c ∷ r) r
  doubled :
      (c d : ℕ) {s r : Bytes} → c ≡ quote q → d ≡ quote q → Inside q s r → Inside q (c ∷ d ∷ s) r
  escaped :
      (c d : ℕ) {s r : Bytes} → c ≡ b'\\' → escapes q ≡ true → Inside q s r → Inside q (c ∷ d ∷ s) r
  byte :
      (c : ℕ) {s r : Bytes}
      → c ≢ quote q
      → (c == b'\\' && escapes q) ≡ false
      → Inside q s r
      → Inside q (c ∷ s) r
  lone_backslash : (c : ℕ) → c ≡ b'\\' → Inside q (c ∷ []) []
  unfinished : Inside q [] []

abbrev ends_line : ℕ → Bool
ends_line c = c == b'\n' || c == b'\r'

-- The rest of a comment's line, with what follows its end.
pub data LineComment : Bytes → Bytes → Type 0 where
  close : (c : ℕ) (r : Bytes) → ends_line c ≡ true → LineComment (c ∷ r) r
  byte : (c : ℕ) {s r : Bytes} → ends_line c ≡ false → LineComment s r → LineComment (c ∷ s) r
  unfinished : LineComment [] []

pub data BlockComment : Bytes → Bytes → Type 0 where
  close : (c d : ℕ) (r : Bytes) → c ≡ b'*' → d ≡ b'/' → BlockComment (c ∷ d ∷ r) r
  byte :
      (c : ℕ) {s r : Bytes}
      → (c == b'*' && next_is b'/' s) ≡ false
      → BlockComment s r
      → BlockComment (c ∷ s) r
  unfinished : BlockComment [] []

-- A byte that is text in itself.
abbrev pub is_text : ℕ → Bytes → Bool
is_text c s =
    if c == b'?' || c == b'\'' || c == b'"' || c == b'`' || c == b'#'
    then false
    else if c == b'-'
    then (if opens_dash_comment s then false else true)
    else if c == b'/'
    then (if next_is b'*' s then false else true)
    else true

-- `Lexes s n`: outside of quotes and comments the query `s` has `n` question marks.
pub data Lexes : Bytes → ℕ → Type 0 where
  end : Lexes [] 0
  mark : (c : ℕ) {s : Bytes} {n : ℕ} → c ≡ b'?' → Lexes s n → Lexes (c ∷ s) (suc n)
  text : (c : ℕ) {s : Bytes} {n : ℕ} → is_text c s ≡ true → Lexes s n → Lexes (c ∷ s) n
  quoted :
      (q : Quote) (c : ℕ) {s r : Bytes} {n : ℕ}
      → c ≡ quote q
      → Inside q s r
      → Lexes r n
      → Lexes (c ∷ s) n
  hash : (c : ℕ) {s r : Bytes} {n : ℕ} → c ≡ b'#' → LineComment s r → Lexes r n → Lexes (c ∷ s) n
  dashes :
      (c d : ℕ) {s r : Bytes} {n : ℕ}
      → c ≡ b'-'
      → opens_dash_comment (d ∷ s) ≡ true
      → LineComment s r
      → Lexes r n
      → Lexes (c ∷ d ∷ s) n
  block :
      (c d : ℕ) {s r : Bytes} {n : ℕ}
      → c ≡ b'/'
      → d ≡ b'*'
      → BlockComment s r
      → Lexes r n
      → Lexes (c ∷ d ∷ s) n

abbrev pub state : Quote → Lexical
state single = single_quoted
state double = double_quoted
state backtick = backtick_quoted

pub scan-Inside :
    (q : Quote) (k : ℕ) {s r : Bytes} → Inside q s r → scan (at (state q) k) s ≡ scan (at plain k) r
unfolding scan
scan-Inside single k (close c r e h) = ground arith
scan-Inside single k (doubled c d e f i) = ground (arith, scan-Inside single k i)
scan-Inside single k (escaped c d e f i) = ground (arith, scan-Inside single k i)
scan-Inside single k (byte c n e i) = ground (arith, scan-Inside single k i)
scan-Inside single k (lone_backslash c e) = ground arith
scan-Inside single k unfinished = refl
scan-Inside double k (close c r e h) = ground arith
scan-Inside double k (doubled c d e f i) = ground (arith, scan-Inside double k i)
scan-Inside double k (escaped c d e f i) = ground (arith, scan-Inside double k i)
scan-Inside double k (byte c n e i) = ground (arith, scan-Inside double k i)
scan-Inside double k (lone_backslash c e) = ground arith
scan-Inside double k unfinished = refl
scan-Inside backtick k (close c r e h) = ground arith
scan-Inside backtick k (doubled c d e f i) = ground (arith, scan-Inside backtick k i)
scan-Inside backtick k (escaped c d e f i) = cc
scan-Inside backtick k (byte c n e i) = ground (arith, scan-Inside backtick k i)
scan-Inside backtick k (lone_backslash c e) = ground arith
scan-Inside backtick k unfinished = refl

scan-LineComment :
    (k : ℕ) {s r : Bytes} → LineComment s r → scan (at line_comment k) s ≡ scan (at plain k) r
unfolding scan
scan-LineComment k (close c r e) = ground arith
scan-LineComment k (byte c e i) = ground (arith, scan-LineComment k i)
scan-LineComment k unfinished = refl

scan-BlockComment :
    (k : ℕ) {s r : Bytes} → BlockComment s r → scan (at block_comment k) s ≡ scan (at plain k) r
unfolding scan
scan-BlockComment k (close c d r e f) = ground arith
scan-BlockComment k (byte c e i) = ground (arith, scan-BlockComment k i)
scan-BlockComment k unfinished = refl

scan-Lexes : (k : ℕ) {s : Bytes} {n : ℕ} → Lexes s n → scan (at plain k) s ≡ k + n
unfolding scan
scan-Lexes k end = omega arith
scan-Lexes k (mark c e l) = ground (arith, scan-Lexes (k + 1) l)
scan-Lexes k (text c e l) = ground (arith, scan-Lexes k l)
scan-Lexes k (quoted single c e i l) = ground (arith, scan-Inside single k i, scan-Lexes k l)
scan-Lexes k (quoted double c e i l) = ground (arith, scan-Inside double k i, scan-Lexes k l)
scan-Lexes k (quoted backtick c e i l) = ground (arith, scan-Inside backtick k i, scan-Lexes k l)
scan-Lexes k (hash c e i l) = ground (arith, scan-LineComment k i, scan-Lexes k l)
scan-Lexes k (dashes c d e f i l) = ground (arith, scan-LineComment k i, scan-Lexes k l)
scan-Lexes k (block c d e f i l) = ground (arith, scan-BlockComment k i, scan-Lexes k l)

-- A query that lexes with `n` question marks outside of quoted text and comments is counted as `n`.
pub count_placeholders-Lexes : {s : Bytes} {n : ℕ} → Lexes s n → count_placeholders s ≡ n
unfolding count_placeholders
count_placeholders-Lexes l = ground (arith, scan-Lexes 0 l)
