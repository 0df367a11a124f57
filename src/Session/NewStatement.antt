-- ===== src/Session/NewStatement.antt =====
-- `NewStatement` of `mariadbConnectionImpl` in go/mariadb.go.
use adbc_driver_mariadb.Base.{◌≡◌}
use adbc_driver_mariadb.Base.Text.{Bytes}
use adbc_driver_mariadb.Base.Result.{Result, ok, err}
use adbc_driver_mariadb.Session.Server.{Failure, passed, Done}
use adbc_driver_mariadb.Session.ZeroBehavior.{option_key, to_string, parse-to_string}
use adbc_driver_mariadb.Session.Options.{Embedded, Object, set_option, create_child}

-- `errors.Join` of the option's error and the error of closing.
pub data NewFailure : Type 0 where
  one : Failure → NewFailure
  joined : Failure → Bytes → NewFailure

-- The base connection's `NewStatement`, and the base statement's `Close`.
module _ (parent base : Embedded) (new_base : parent.State → Result Bytes base.State × parent.State)
    (close : base.State → Result Bytes Done) where
  abbrev pub Created : Type 0
  Created = Result NewFailure (Object base)

  abbrev close_after : Failure → Result Bytes Done → Created
  close_after e (ok _) = err (one e)
  close_after e (err c) = err (joined e c)

  abbrev after_option : Result Failure Done × Object base → Created
  after_option (ok _, stmt) = ok stmt
  after_option (err e, stmt) = close_after e (close stmt.inner)

  abbrev after_new :
      Object parent → Result Bytes base.State × parent.State → Created × Object parent
  after_new c (ok b, inner') = (
    after_option
        (set_option base option_key (to_string c.zero_behavior) (create_child parent base c b)),
    record c { inner = inner' },
  )
  after_new c (err e, inner') = (err (one (passed e)), record c { inner = inner' })

  unfoldable pub new_statement : Object parent → Created × Object parent
  unfolding set_option create_child
  new_statement c = after_new c (new_base c.inner)

  -- A new statement has the connection's behaviour for zero dates, and setting it never fails: only
  -- the base connection can refuse a statement.
  pub new_statement-behavior :
      (c : Object parent)
      → ((b : base.State) (p : parent.State)
          → new_base c.inner ≡ (ok b, p)
          → (new_statement c).0 ≡ ok (record { inner = b; zero_behavior = c.zero_behavior }))
        × ((e : Bytes) (p : parent.State)
            → new_base c.inner ≡ (err e, p)
            → (new_statement c).0 ≡ err (one (passed e)))
  unfolding new_statement
  new_statement-behavior c = (
    λ b p h. rw (h, new_statement) (rw (parse-to_string c.zero_behavior)),
    λ e p h. rw (h, new_statement),
  )
