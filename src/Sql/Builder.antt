-- ===== src/Sql/Builder.antt =====
-- A query under construction: the `strings.Builder` and the `args` slice that go/connection_getobjects.go
-- and go/connection_statistics.go fill side by side, and `placeholders`.
use adbc_driver_mariadb.Base.{
  ℕ, zero, suc, ◌+◌, ◌≡◌, refl, sym, ap, ◌∙◌, List, [], ◌∷◌, ◌++◌, length, length-append, arith,
  append_assoc, append-nil,
}
use adbc_driver_mariadb.Base.Text.{Bytes, codes}
use adbc_driver_mariadb.Sql.Scan.{plain, at, scan, count_placeholders}

pub record Query : Type 0 where
  pub sql : Bytes
  pub args : List Bytes

abbrev pub write : Query → Bytes → Query
write b s = record b { sql = b.sql ++ s }

abbrev pub bind : Query → Bytes → Query
bind b v = record b { args = b.args ++ (v ∷ []) }

abbrev pub bind_all : Query → List Bytes → Query
bind_all b vs = record b { args = b.args ++ vs }

-- `strings.Repeat`.
unfoldable pub repeat : Bytes → ℕ → Bytes
repeat s zero = []
repeat s (suc n) = s ++ repeat s n

-- `placeholders` of go/connection_getobjects.go.
unfoldable pub placeholders : ℕ → Bytes
unfolding repeat
placeholders zero = []
placeholders (suc n) = repeat (codes "?,") n ++ codes "?"

-- The text `s`, met outside of quotes and comments, has `n` placeholders and ends outside of them.
pub record HasMarks (s : Bytes) (n : ℕ) : Type 0 where
  pub scans : (k : ℕ) (rest : Bytes) → scan (at plain k) (s ++ rest) ≡ scan (at plain (k + n)) rest

-- As many placeholders as arguments.
pub record IsBalanced (b : Query) : Type 0 where
  pub marks : HasMarks b.sql (length b.args)

pub HasMarks-append :
    {s t : Bytes} {m n : ℕ} → HasMarks s m → HasMarks t n → HasMarks (s ++ t) (m + n)
HasMarks-append {s} {t} {m} {n} h g = record {
  scans = λ k rest. rw append_assoc (
      h.scans k (t ++ rest)
      ∙ (g.scans (k + m) rest ∙ ap (λ j. scan (at plain j) rest) (omega arith)));
}

pub HasMarks-eq : {s : Bytes} {m n : ℕ} → HasMarks s m → m ≡ n → HasMarks s n
HasMarks-eq h e = rw (← e) h

pub repeat-HasMarks : (n : ℕ) → HasMarks (repeat (codes "?,") n) n
unfolding repeat scan
repeat-HasMarks zero = record { scans = λ k rest. ap (λ j. scan (at plain j) rest) (omega arith) }
repeat-HasMarks (suc n) = record {
  scans = λ k rest.
      (repeat-HasMarks n).scans (k + 1) rest ∙ ap (λ j. scan (at plain j) rest) (omega arith);
}

question-HasMarks : HasMarks (codes "?") 1
unfolding scan
question-HasMarks = record { scans = λ k rest. refl }

-- The text of `placeholders n` has `n` placeholders.
pub placeholders-HasMarks : (n : ℕ) → HasMarks (placeholders n) n
unfolding placeholders
placeholders-HasMarks zero = record {
  scans = λ k rest. ap (λ j. scan (at plain j) rest) (omega arith);
}
placeholders-HasMarks (suc n) =
    HasMarks-eq (HasMarks-append (repeat-HasMarks n) question-HasMarks) (omega arith)

pub write-IsBalanced :
    {b : Query} (s : Bytes) → IsBalanced b → HasMarks s 0 → IsBalanced (write b s)
write-IsBalanced s h f = record { marks = HasMarks-eq (HasMarks-append h.marks f) (omega arith) }

pub bind_all-IsBalanced :
    {b : Query} (s : Bytes) (vs : List Bytes)
    → IsBalanced b
    → HasMarks s (length vs)
    → IsBalanced (bind_all (write b s) vs)
bind_all-IsBalanced {b} s vs h f = record {
  marks = HasMarks-eq (HasMarks-append h.marks f) (sym (length-append b.args vs));
}

pub bind-IsBalanced :
    {b : Query} (s v : Bytes) → IsBalanced b → HasMarks s 1 → IsBalanced (bind (write b s) v)
bind-IsBalanced s v h f = bind_all-IsBalanced s (v ∷ []) h f

-- A balanced query is counted with its number of arguments.
pub count_placeholders-IsBalanced :
    {b : Query} → IsBalanced b → count_placeholders b.sql ≡ length b.args
unfolding count_placeholders
count_placeholders-IsBalanced {b} h =
    ap (scan (at plain 0)) (sym (append-nil b.sql))
    ∙ (h.marks.scans 0 [] ∙ (unfold scan in omega arith))

pub ruleset balanced_rules = (write-IsBalanced, bind-IsBalanced)

-- A text that has no placeholder, and one that has one.
abbrev pub NoMarks : Bytes → Type 0
NoMarks s = (k : ℕ) (rest : Bytes) → scan (at plain k) (s ++ rest) ≡ scan (at plain k) rest

abbrev pub OneMark : Bytes → Type 0
OneMark s = (k : ℕ) (rest : Bytes) → scan (at plain k) (s ++ rest) ≡ scan (at plain (k + 1)) rest

pub HasMarks-zero : {s : Bytes} → NoMarks s → HasMarks s 0
HasMarks-zero h = record {
  scans = λ k rest. h k rest ∙ ap (λ j. scan (at plain j) rest) (omega arith);
}

pub HasMarks-one : {s : Bytes} → OneMark s → HasMarks s 1
HasMarks-one h = record { scans = h }

pub NoMarks-append : (s t : Bytes) → NoMarks s → NoMarks t → NoMarks (s ++ t)
NoMarks-append s t h g k rest = rw append_assoc (h k (t ++ rest) ∙ g k rest)

-- A text without placeholders is counted as such.
pub count_placeholders-NoMarks : (s : Bytes) → NoMarks s → count_placeholders s ≡ 0
unfolding count_placeholders
count_placeholders-NoMarks s h =
    ap (scan (at plain 0)) (sym (append-nil s)) ∙ (h 0 [] ∙ (unfold scan in refl))
