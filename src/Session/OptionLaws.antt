-- ===== src/Session/OptionLaws.antt =====
-- The zero-datetime option of go/mariadb.go, set and read back.
use text.Mathlib.Text.{◌==◌}
use text.Mathlib.TextEquality.{eq_iff}
use adbc_driver_mariadb.Base.{
  String, ◌≡◌, ◌≢◌, ◌⊎◌, inl, inr, refl, sym, ◌∙◌, ap, Bool-cases, arith,
}
use adbc_driver_mariadb.Base.Result.{ok, err}
use adbc_driver_mariadb.Convert.Inserter.{ZeroBehavior, error_behavior, convert_to_null}
use adbc_driver_mariadb.Session.Server.{invalid_argument}
use adbc_driver_mariadb.Session.ZeroBehavior.{option_key, to_string, parse-to_string}
use adbc_driver_mariadb.Session.Options.{Embedded, Object, get_option, set_option}

value_cases :
    (value : String)
    → ((z : ZeroBehavior) × (value ≡ to_string z))
      ⊎ ((value ≢ "error") × (value ≢ "convert_to_null"))
unfolding to_string
value_cases value = elim (Bool-cases (value == "error")) [
  | inl e ↦ inl (error_behavior, (eq_iff value "error").0 e)
  | inr ne ↦ elim (Bool-cases (value == "convert_to_null")) [
    | inl e ↦ inl (convert_to_null, (eq_iff value "convert_to_null").0 e)
    | inr ne' ↦ inr (
      λ e. cc (ne, (eq_iff value "error").1 e),
      λ e. cc (ne', (eq_iff value "convert_to_null").1 e),
    )
  ]
]

module _ (base : Embedded) (o : Object base) where
  abbrev after : String → String → Object base
  after key value = (set_option base key value o).1

  set_valid :
      (z : ZeroBehavior) (value : String)
      → value ≡ to_string z
      → set_option base option_key value o ≡ (ok tt, record o { zero_behavior = z })
  unfolding set_option
  set_valid z value e = rw (e, set_option) (rw (parse-to_string z))

  read_valid :
      (z : ZeroBehavior) (value : String)
      → value ≡ to_string z
      → (get_option base option_key (after option_key value)).0 ≡ ok value
  unfolding get_option
  read_valid z value e =
      let stored : (get_option base option_key (record o { zero_behavior = z })).0
          ≡ ok (to_string z) =
        refl in
      ap (λ r. (get_option base option_key r.1).0) (set_valid z value e) ∙ (stored ∙ ap ok (sym e))

  set_invalid :
      (value : String)
      → value ≢ "error"
      → value ≢ "convert_to_null"
      → set_option base option_key value o
        ≡ (err (invalid_argument "invalid zero_datetime_behavior value"), o)
  unfolding set_option
  set_invalid value p q = ground (arith, eq_iff value "error", eq_iff value "convert_to_null")

  -- Setting the zero-datetime option succeeds exactly for its two values, and the value is then read
  -- back; any other value is an invalid argument and changes nothing.
  set_option-zero_behavior :
      (value : String)
      → ((z : ZeroBehavior) × (value ≡ to_string z)
          × ((set_option base option_key value o).0 ≡ ok tt)
          × ((get_option base option_key (after option_key value)).0 ≡ ok value)
          × ((after option_key value).inner ≡ o.inner))
        ⊎ ((value ≢ "error")
            × (value ≢ "convert_to_null")
            × (set_option base option_key value o
                ≡ (err (invalid_argument "invalid zero_datetime_behavior value"), o)))
  set_option-zero_behavior value = elim (value_cases value) [
    | inl (z, e) ↦ inl (
      z,
      e,
      ap (λ r. r.0) (set_valid z value e),
      read_valid z value e,
      ap (λ r. r.1.inner) (set_valid z value e),
    )
    | inr (p, q) ↦ inr (p, q, set_invalid value p q)
  ]
