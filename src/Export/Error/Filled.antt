-- ===== src/Export/Error/Filled.antt =====
-- That every way in which go/pkg/driver.go fills in a `struct AdbcError` leaves a message in it.
use adbc_driver_mariadb.Base.{◌≡◌, refl, Bool, true, false, Option, none, some}
use adbc_driver_mariadb.Base.Text.{Bytes}
use adbc_driver_mariadb.Export.Error.{
  GoFailure, adbc_error, other_error, DriverError, CError, set_err, fmt_err, set_err_with_details,
  filled_in, err_to_adbc_err,
}

-- Whether the caller gave a struct for the error, and that there is a message in it.
abbrev pub given : Option CError → Bool
given none = false
given (some e) = true

abbrev pub MessageThere : Option Bytes → Type 0
MessageThere none = ⊥
MessageThere (some m) = Unit {0}

abbrev pub Explained : Option CError → Type 0
Explained none = Unit {0}
Explained (some e) = MessageThere e.message

-- The struct stays given or NULL, and holds a message.
pub record IsFilled (e e' : Option CError) : Type 0 where
  pub kept : given e' ≡ given e
  pub explained : Explained e'

pub set_err-IsFilled : (e : Option CError) (m : Bytes) → IsFilled e (set_err e m)
unfolding set_err
set_err-IsFilled none m = record { kept = refl; explained = tt }
set_err-IsFilled (some e) m = record { kept = refl; explained = tt }

pub fmt_err-IsFilled : (e : Option CError) (f m : Bytes) → IsFilled e (fmt_err e f m)
unfolding fmt_err
fmt_err-IsFilled none f m = record { kept = refl; explained = tt }
fmt_err-IsFilled (some e) f m = record { kept = refl; explained = tt }

some-IsFilled : (e e₀ : CError) (m : Bytes) → IsFilled (some e₀) (set_err (some e) m)
unfolding set_err
some-IsFilled e e₀ m = record { kept = refl; explained = tt }

filled_in-IsFilled :
    (plain bare : Bool) (e e₀ : CError) (d : DriverError)
    → IsFilled (some e₀) (filled_in plain bare e d)
filled_in-IsFilled true bare e e₀ d = some-IsFilled _ e₀ d.msg
filled_in-IsFilled false true e e₀ d = some-IsFilled _ e₀ d.msg
filled_in-IsFilled false false e e₀ d = record { kept = refl; explained = tt }

set_err_with_details-IsFilled :
    (e : Option CError) (d : DriverError) → IsFilled e (set_err_with_details e d)
unfolding set_err_with_details
set_err_with_details-IsFilled none d = record { kept = refl; explained = tt }
set_err_with_details-IsFilled (some e) d = filled_in-IsFilled _ _ _ e d

pub err_to_adbc_err-IsFilled :
    (e : Option CError) (f : GoFailure) → IsFilled e (err_to_adbc_err e f).1
unfolding err_to_adbc_err
err_to_adbc_err-IsFilled e (adbc_error d) = set_err_with_details-IsFilled e d
err_to_adbc_err-IsFilled e (other_error m) = set_err-IsFilled e m
