-- ===== src/Session/Inversion.antt =====
-- What a successful method of Session.Server says of its parts.
use adbc_driver_mariadb.Base.{String, ◌≡◌, refl, Option, none, some}
use adbc_driver_mariadb.Base.Text.{Bytes}
use adbc_driver_mariadb.Base.Result.{Result, ok, err}
use adbc_driver_mariadb.Session.Server.{
  Failure, Exec, continue, convert_failure, of_result, pass, wrap, ◌>>=◌,
}
use adbc_driver_mariadb.Session.Rows.{close_rows, unless_error}

module _ {S A B : Type 0} where
  continue-ok :
      (f : A → Exec S B) (r : Result Failure A × S) {b : B} {s' : S}
      → continue f r ≡ (ok b, s')
      → (a : A) × (s1 : S) × (r ≡ (ok a, s1)) × (f a s1 ≡ (ok b, s'))
  continue-ok f (ok a, s) h = (a, s, refl, h)
  continue-ok f (err e, s) h = cc

  pub bind-ok :
      (m : Exec S A) (f : A → Exec S B) (s : S) {b : B} {s' : S}
      → (m >>= f) s ≡ (ok b, s')
      → (a : A) × (s1 : S) × (m s ≡ (ok a, s1)) × (f a s1 ≡ (ok b, s'))
  bind-ok m f s h = continue-ok f (m s) h

module _ {S A : Type 0} where
  convert_failure-ok :
      (f : Bytes → Failure) (r : Result Bytes A × S) {a : A} {s' : S}
      → convert_failure f r ≡ (ok a, s')
      → r ≡ (ok a, s')
  convert_failure-ok f (ok a, s) h = cc
  convert_failure-ok f (err e, s) h = cc

  pub pass-ok :
      (m : S → Result Bytes A × S) (s : S) {a : A} {s' : S}
      → pass m s ≡ (ok a, s')
      → m s ≡ (ok a, s')
  pass-ok m s h = convert_failure-ok _ (m s) h

  pub wrap-ok :
      (message : String) (m : S → Result Bytes A × S) (s : S) {a : A} {s' : S}
      → wrap message m s ≡ (ok a, s')
      → m s ≡ (ok a, s')
  wrap-ok message m s h = convert_failure-ok _ (m s) h

module _ {S A B : Type 0} (f : A → Exec S B) (s : S) {b : B} {s' : S} where
  -- The same for the three ways to start a chain.
  pub bind_result-ok :
      (r : Result Failure A)
      → (of_result r >>= f) s ≡ (ok b, s')
      → (a : A) × (r ≡ ok a) × (f a s ≡ (ok b, s'))
  bind_result-ok (ok a) h = (a, refl, h)
  bind_result-ok (err e) h = cc

  pub bind_pass-ok :
      (m : S → Result Bytes A × S)
      → (pass m >>= f) s ≡ (ok b, s')
      → (a : A) × (s1 : S) × (m s ≡ (ok a, s1)) × (f a s1 ≡ (ok b, s'))
  bind_pass-ok m h = let (a, s1, e, k) = bind-ok (pass m) f s h in (a, s1, pass-ok m s e, k)

  pub bind_wrap-ok :
      (message : String) (m : S → Result Bytes A × S)
      → (wrap message m >>= f) s ≡ (ok b, s')
      → (a : A) × (s1 : S) × (m s ≡ (ok a, s1)) × (f a s1 ≡ (ok b, s'))
  bind_wrap-ok message m h =
      let (a, s1, e, k) = bind-ok (wrap message m) f s h in (a, s1, wrap-ok message m s e, k)

pub close_rows-ok :
    {A : Type 0} (e : Option Bytes) (r : Result Failure A) {a : A}
    → close_rows e r ≡ ok a
    → (r ≡ ok a) × (e ≡ none)
close_rows-ok none r h = (h, refl)
close_rows-ok (some e) (ok a) h = cc
close_rows-ok (some e) (err f) h = cc

pub unless_error-ok :
    {A : Type 0} (message : String) (e : Option Bytes) (r : Result Failure A) {a : A}
    → unless_error message e r err ≡ ok a
    → (r ≡ ok a) × (e ≡ none)
unless_error-ok message none r h = (h, refl)
unless_error-ok message (some e) r h = cc
