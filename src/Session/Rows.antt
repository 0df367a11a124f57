-- ===== src/Session/Rows.antt =====
-- The result of a query, as the loops over `rows.Next()` in go/connection.go,
-- go/connection_getobjects.go and go/connection_statistics.go see it.
use adbc_driver_mariadb.Base.{String, ◌≡◌, refl, List, [], ◌∷◌, map, Option, none, some}
use adbc_driver_mariadb.Base.Text.{Bytes}
use adbc_driver_mariadb.Base.Result.{Result, ok, err}
use adbc_driver_mariadb.Session.Server.{Failure, passed, wrapped_io, joined_close}

-- What `Scan` gives for each row that `Next` finds, then what `Err` and the first `Close` return. A
-- second `Close` returns nil.
pub record Rows (R : Type 0) : Type 0 where
  pub scanned : List (Result Bytes R)
  pub error : Option Bytes
  pub close : Option Bytes

module _ {R : Type 0} where
  -- The rows before the first that cannot be scanned, and that row's error.
  unfoldable pub split_scan : List (Result Bytes R) → List R × Option Bytes
  split_scan [] = ([], none)
  split_scan (ok r ∷ rs) = let (before, e) = split_scan rs in (r ∷ before, e)
  split_scan (err e ∷ rs) = ([], some e)

-- `if e := …; e != nil { return WrapIO(e, message) }`
abbrev pub unless_error {ℓ} : {A : Type ℓ} → String → Option Bytes → A → (Failure → A) → A
unless_error message none a f = a
unless_error message (some e) a f = f (wrapped_io message e)

-- `defer func() { err = errors.Join(err, rows.Close()) }()` on a named result.
abbrev pub close_rows : {A : Type 0} → Option Bytes → Result Failure A → Result Failure A
close_rows none r = r
close_rows (some e) (ok a) = err (passed e)
close_rows (some e) (err f) = err (joined_close f e)

-- Rows that can all be scanned, with no error behind them.
unfoldable pub complete : {R : Type 0} → List R → Rows R
complete rs = record { scanned = map ok rs; error = none; close = none }

pub split_scan-complete : {R : Type 0} (rs : List R) → split_scan (complete rs).scanned ≡ (rs, none)
unfolding split_scan complete
split_scan-complete [] = refl
split_scan-complete (r ∷ rs) = rw (split_scan-complete rs) refl
