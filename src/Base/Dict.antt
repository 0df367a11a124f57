-- ===== src/Base/Dict.antt =====
-- Go's maps with string keys, as association lists in the order of insertion.
use mathlib.Core.Path.{◌≡◌, sym}
use mathlib.Core.Logic.{◌≢◌, inl, inr}
use mathlib.Core.Option.{Option, none, some}
use mathlib.Core.List.{List, [], ◌∷◌}
use native.Mathlib.Omega.{arith}
use adbc_driver_mariadb.Base.Tests.{if◌then◌else◌, Bool-cases}
use adbc_driver_mariadb.Base.Text.{Bytes, equal, equal_iff, equal_refl}

abbrev pub Dict {ℓ} : Type ℓ → Type ℓ
Dict V = List (Bytes × V)

module _ {ℓ} {V : Type ℓ} where
  -- `m[key]`, with the second result that says whether the key is there.
  unfoldable pub lookup : Bytes → Dict V → Option V
  lookup key [] = none
  lookup key ((k, v) ∷ m) = let rest = lookup key m in if equal k key then some v else rest

  -- `m[key] = value`
  unfoldable pub store : Bytes → V → Dict V → Dict V
  store key value [] = (key, value) ∷ []
  store key value ((k, v) ∷ m) =
      let rest = store key value m in if equal k key then (k, value) ∷ m else (k, v) ∷ rest

  pub lookup-store :
      (other key : Bytes) (value : V) (m : Dict V)
      → lookup other (store key value m) ≡ (if equal key other then some value else lookup other m)
  unfolding lookup store
  lookup-store other key value [] = ground arith
  lookup-store other key value ((k, v) ∷ m) = ground (
    arith,
    equal_iff k other,
    equal_iff k key,
    equal_iff key other,
    lookup-store other key value m,
  )

  pub lookup-store_self :
      (key : Bytes) (value : V) (m : Dict V) → lookup key (store key value m) ≡ some value
  lookup-store_self key value m = rw (lookup-store key key value m) (rw (equal_refl key))

  pub lookup-store_ne :
      (other key : Bytes) (value : V) (m : Dict V)
      → other ≢ key
      → lookup other (store key value m) ≡ lookup other m
  lookup-store_ne other key value m h = elim (Bool-cases (equal key other)) [
    | inl e ↦ absurd (h (sym ((equal_iff key other).0 e)))
    | inr e ↦ rw (lookup-store other key value m) (rw e)
  ]
