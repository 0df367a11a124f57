-- ===== src/Export/Error/Details.antt =====
-- The details of an error, from `adbc.Error` through `struct AdbcError` to the C caller.
use adbc_driver_mariadb.Base.{
  suc, ltb, Bool, true, false, ◌≡◌, refl, ap, List, [], ◌∷◌, ◌++◌, map, none, some, length,
  length-append, lt→ltb, arith, if◌then◌else◌,
}
use adbc_driver_mariadb.Base.Int.{pos}
use adbc_driver_mariadb.Export.Error.{
  Detail, DriverError, CError, private_code, is_plain, is_bare, filled_in, with_details,
  set_err_with_details, sent_detail, detail_at, error_get_detail_count, error_get_detail,
  err_release,
}

is_bare_more :
    (from : DriverError) (ds : List Detail) (d : Detail) (rest : List Detail)
    → from.details ≡ ds ++ d ∷ rest
    → is_bare from ≡ false
is_bare_more from [] d rest e = rw e
is_bare_more from (x ∷ ds) d rest e = rw e

private_plain : (e : CError) → e.vendor_code ≡ private_code → is_plain e ≡ false
private_plain e h = rw h

detailed :
    (plain bare : Bool) (e : CError) (from : DriverError)
    → plain ≡ false
    → bare ≡ false
    → filled_in plain bare e from ≡ some (with_details from e)
detailed true bare e from p q = cc
detailed false true e from p q = cc
detailed false false e from p q = refl

length-sent : (ds : List Detail) → length (map sent_detail ds) ≡ length ds
length-sent [] = refl
length-sent (d ∷ ds) = ap suc (length-sent ds)

detail_at-sent :
    (before : List Detail) (d : Detail) (rest : List Detail)
    → detail_at (map sent_detail (before ++ d ∷ rest)) (length before) ≡ some (sent_detail d)
detail_at-sent [] d rest = refl
detail_at-sent (x ∷ before) d rest = detail_at-sent before d rest

-- Where the caller's struct asks for the details, by its vendor code, and the error has one, the struct
-- gets the error's text and its details: their number is reported, each of them, at its place, comes back
-- with its key and the bytes that it serializes to, and the release of the struct clears all of it.
pub set_err_with_details-get_detail :
    (e : CError) (from : DriverError) (before : List Detail) (d : Detail) (rest : List Detail)
    → e.vendor_code ≡ private_code
    → from.details ≡ before ++ d ∷ rest
    → (e' : CError) × (set_err_with_details (some e) from ≡ some e')
      × (e'.message ≡ some from.msg)
      × (error_get_detail_count e' ≡ length from.details)
      × (error_get_detail e' (pos (length before)) ≡ some (sent_detail d))
      × ((err_release e').private_data ≡ none)
unfolding set_err_with_details error_get_detail_count error_get_detail err_release
set_err_with_details-get_detail e from before d rest h k =
    let e₁ = record e { sql_state = from.sql_state } in
    (
      with_details from e₁,
      detailed _ _ e₁ from (private_plain e₁ h) (is_bare_more from before d rest k),
      refl,
      length-sent from.details,
      found,
      refl,
    )
  where
    below : ltb (length before) (length (map sent_detail from.details)) ≡ true
    below = lt→ltb _ _ (
        omega (
          arith,
          length-sent from.details,
          ap (length {A = Detail}) k,
          length-append before (d ∷ rest),
        ))

    found :
        (if ltb (length before) (length (map sent_detail from.details))
          then detail_at (map sent_detail from.details) (length before)
          else none)
        ≡ some (sent_detail d)
    found = rw below (rw k (detail_at-sent before d rest))
