-- ===== src/Session/Server.antt =====
-- What the driver's objects are given: the session with a server behind `c.Conn` and `ClearPending`
-- in go/mariadb.go and go/connection.go, and the errors that the objects make.
use adbc_driver_mariadb.Base.{String, List}
use adbc_driver_mariadb.Base.Text.{Bytes}
use adbc_driver_mariadb.Base.Result.{Result, ok, err}

-- An error: one that a library returned, passed on or wrapped by `WrapIO` with a message, or one
-- that the `ErrorHelper` makes.
pub data Failure : Type 0 where
  passed : Bytes → Failure
  wrapped_io : String → Bytes → Failure
  invalid_argument invalid_state not_implemented internal not_found : String → Failure
  -- `WrapIO` with a message that names something, and `NotFound` likewise.
  wrapped_io_for : String → List Bytes → Bytes → Failure
  not_found_for : String → Bytes → Failure
  -- `errors.Join` of an error and the one of closing the rows.
  joined_close : Failure → Bytes → Failure
  -- An error of the driver's own, wrapped once more.
  wrapped : String → Failure → Failure
  -- A Go panic.
  panicked : Failure

-- A method that may fail, over the state `S` of what it works on. What it did before it failed
-- stays done.
abbrev pub Exec : Type 0 → Type 0 → Type 0
Exec S A = S → Result Failure A × S

abbrev pub Done : Type 0
Done = Unit {0}

module _ {S A : Type 0} where
  abbrev pub pure : A → Exec S A
  pure a s = (ok a, s)

  abbrev pub raise : Failure → Exec S A
  raise e s = (err e, s)

  abbrev pub of_result : Result Failure A → Exec S A
  of_result r s = (r, s)

  abbrev pub convert_failure : (Bytes → Failure) → Result Bytes A × S → Result Failure A × S
  convert_failure f (ok a, s) = (ok a, s)
  convert_failure f (err e, s) = (err (f e), s)

  -- A library's call, its error passed on, or wrapped.
  abbrev pub pass : (S → Result Bytes A × S) → Exec S A
  pass m s = convert_failure passed (m s)

  abbrev pub wrap : String → (S → Result Bytes A × S) → Exec S A
  wrap message m s = convert_failure (wrapped_io message) (m s)

module _ {S A B : Type 0} where
  abbrev pub continue : (A → Exec S B) → Result Failure A × S → Result Failure B × S
  continue f (ok a, s) = f a s
  continue f (err e, s) = (err e, s)

  infixl 5 ◌>>=◌
  abbrev pub ◌>>=◌ : Exec S A → (A → Exec S B) → Exec S B
  ◌>>=◌ m f s = continue f (m s)

infixl 5 ◌>>◌
abbrev pub ◌>>◌ : {S B : Type 0} → Exec S Done → Exec S B → Exec S B
m >> k = m >>= (λ _. k)

-- The server's side of one session, and the driver libraries between.
pub record Server : Type 1 where
  pub State : Type 0
  pub get_option : String → State → Result Bytes String × State
  pub set_option : String → String → State → Result Bytes Done × State
  pub clear_pending : State → Result Bytes Done × State
  pub execute : Bytes → State → Result Bytes Done × State
  pub query_text : Bytes → State → Result Bytes Bytes × State
