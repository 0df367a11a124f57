-- ===== src/Session/Options.antt =====
-- The option methods of `mariadbDatabase`, `mariadbConnectionImpl` and `mariadbStatement` in
-- go/mariadb.go, and how the zero-datetime behaviour passes from one to the next.
use text.Mathlib.Text.{◌==◌}
use adbc_driver_mariadb.Base.{String, List, [], ◌∷◌, if◌then◌else◌}
use adbc_driver_mariadb.Base.Text.{Bytes}
use adbc_driver_mariadb.Base.Result.{Result, ok, err}
use adbc_driver_mariadb.Convert.Inserter.{ZeroBehavior, error_behavior}
use adbc_driver_mariadb.Session.Server.{Failure, Exec, Done, pure, ◌>>◌, convert_failure, passed}
use adbc_driver_mariadb.Session.ZeroBehavior.{option_key, to_string, parse}

-- The object of the base library that a driver object embeds, with the options that it handles.
pub record Embedded : Type 1 where
  pub State : Type 0
  pub get_option : String → State → Result Bytes String × State
  pub set_option : String → String → State → Result Bytes Done × State

module _ (base : Embedded) where
  -- `mariadbDatabase`, and the part of the other objects that the options are about.
  pub record Object : Type 0 where
    pub inner : base.State
    pub zero_behavior : ZeroBehavior

  -- A call on the embedded object.
  abbrev pub on_inner : {A : Type 0} → (base.State → Result Bytes A × base.State) → Exec Object A
  on_inner m o =
      let (r, inner') = m o.inner in convert_failure passed (r, record o { inner = inner' })

  abbrev set_behavior : Result Failure ZeroBehavior → Exec Object Done
  set_behavior (ok z) o = (ok tt, record o { zero_behavior = z })
  set_behavior (err e) o = (err e, o)

  -- `GetOption` of the database and of the statement.
  unfoldable pub get_option : String → Exec Object String
  unfolding to_string
  get_option key o =
      if key == option_key
      then (ok (to_string o.zero_behavior), o)
      else on_inner (base.get_option key) o

  -- `SetOption` of the database and of the statement.
  unfoldable pub set_option : String → String → Exec Object Done
  unfolding parse
  set_option key value o =
      if key == option_key
      then set_behavior (parse value) o
      else on_inner (base.set_option key value) o

  -- `SetOptions`: the options in the order in which the map yields them, up to the first error.
  unfoldable pub set_options : List (String × String) → Exec Object Done
  unfolding set_option
  set_options [] = pure tt
  set_options ((key, value) ∷ opts) = do set_option key value; set_options opts

  -- `CreateDatabase` of the factory.
  unfoldable pub create_database : base.State → Object
  create_database inner = record { inner = inner; zero_behavior = error_behavior }

-- `CreateConnection` and `CreateStatement` of the factory: the behaviour is the parent's.
unfoldable pub create_child : (parent base : Embedded) → Object parent → base.State → Object base
create_child parent base p inner = record { inner = inner; zero_behavior = p.zero_behavior }
