-- ===== src/Schema/Metadata.antt =====
-- The metadata maps of `GetTableSchema` in go/connection.go.
use text.Mathlib.Text.{◌==◌ as str_eq}
use text.Mathlib.TextEquality.{eq_iff}
use adbc_driver_mariadb.Base.{
  String, false, ◌≡◌, refl, ◌∙◌, [], ◌∷◌, Option, none, some, arith, if◌then◌else◌,
}
use adbc_driver_mariadb.Base.Text.{Bytes}
use adbc_driver_mariadb.Arrow.{Metadata, get_value}
use adbc_driver_mariadb.Schema.Column.{put, put_if}

pub get_value-put :
    (key other : String) (value : Bytes) (m : Metadata)
    → get_value (put key value m) other
      ≡ (if str_eq key other then some value else get_value m other)
unfolding get_value put
get_value-put key other value [] = ground arith
get_value-put key other value ((k, v) ∷ m) =
    ground (arith, eq_iff k other, eq_iff k key, eq_iff key other, get_value-put key other value m)

pub get_value-put_if :
    (key other : String) (value : Option Bytes) (m : Metadata)
    → str_eq key other ≡ false
    → get_value (put_if key value m) other ≡ get_value m other
get_value-put_if key other none m h = refl
get_value-put_if key other (some v) m h = get_value-put key other v m ∙ (rw h refl)
