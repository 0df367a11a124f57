-- ===== src/Convert/Served.antt =====
-- `ConvertRawColumnType` and `CreateInserter` of go/mariadb.go taken together: the inserter that a
-- column's values are read by.
use text.Mathlib.Text.{◌==◌ as str_eq}
use adbc_driver_mariadb.Base.{
  ℕ, ◌*◌, ◌/◌, ◌<◌, Bool, true, false, ◌&&◌, ◌||◌, ◌≡◌, ◌≢◌, refl, ap, ◌∙◌, [], ◌∷◌, ◌++◌, Option,
  none, some, arith, ◌==◌, inl, inr, Bool-cases,
}
use adbc_driver_mariadb.Base.Text.{Bytes, codes, equal, equal_iff, equal_refl, to_upper}
use adbc_driver_mariadb.Base.Int.{
  pos, pos_part, quot, rem, ltb_ℤ, wrap32, wrap32-eq, rem-pos, quot-pos,
}
use adbc_driver_mariadb.Base.Result.{Result, ok, err}
use adbc_driver_mariadb.Arrow.{Field}
use adbc_driver_mariadb.Convert.Column.{
  ColumnType, Converted, Library, Kind, default_kind, bit_kind, time_kind, vector_kind,
  timestamp_kind, kind_of, normalize_unsigned, normalized, convert_kind, convert_raw_column_type,
  unit_of,
}
use adbc_driver_mariadb.Convert.Inserter.{
  ZeroBehavior, Inserter, create_inserter, bit_inserter, duration_inserter, vector_inserter,
  zero_datetime_inserter,
}

-- Whether a byte stands in a text.
has_byte : ℕ → Bytes → Bool
has_byte b [] = false
has_byte b (c ∷ cs) = c == b || has_byte b cs

has_byte-append : (b : ℕ) (s t : Bytes) → has_byte b t ≡ true → has_byte b (s ++ t) ≡ true
unfolding has_byte
has_byte-append b [] t h = h
has_byte-append b (c ∷ s) t h = ground (arith, has_byte-append b s t)

-- A name with a space is none of the names of the switch.
apart : (s t : Bytes) → has_byte b' ' s ≡ true → has_byte b' ' t ≡ false → equal s t ≡ false
unfolding has_byte equal
apart [] [] h g = cc
apart [] (d ∷ t) h g = refl
apart (c ∷ s) [] h g = refl
apart (c ∷ s) (d ∷ t) h g = ground (arith, apart s t)

kind_of-space : (s : Bytes) → has_byte b' ' s ≡ true → kind_of s ≡ default_kind
unfolding has_byte kind_of
kind_of-space s h =
    let no = λ (t : Bytes) (g : has_byte b' ' t ≡ false). apart s t h g in
    simp (
      no (codes "UUID") refl,
      no (codes "INET4") refl,
      no (codes "INET6") refl,
      no (codes "DECIMAL") refl,
      no (codes "NUMERIC") refl,
      no (codes "VECTOR") refl,
      no (codes "JSON") refl,
      no (codes "YEAR") refl,
      no (codes "TIME") refl,
      no (codes "BIT") refl,
      no (codes "GEOMETRY") refl,
      no (codes "POINT") refl,
      no (codes "LINESTRING") refl,
      no (codes "POLYGON") refl,
      no (codes "MULTIPOINT") refl,
      no (codes "MULTILINESTRING") refl,
      no (codes "MULTIPOLYGON") refl,
      no (codes "ENUM") refl,
      no (codes "SET") refl,
      no (codes "TIMESTAMP") refl,
    )

abbrev turned : Bytes → Bytes
turned x = x ++ codes " UNSIGNED"

normalize_unsigned-prefix : (x : Bytes) → normalize_unsigned (codes "UNSIGNED " ++ x) ≡ turned x
unfolding normalize_unsigned
normalize_unsigned-prefix x = refl

not_equal : (s t : Bytes) → s ≢ t → equal s t ≡ false
not_equal s t h = elim (Bool-cases (equal s t)) [
  | inl e ↦ absurd (h ((equal_iff s t).0 e))
  | inr e ↦ e
]

normalized-prefix :
    (ct : ColumnType) (x : Bytes)
    → to_upper ct.database_type_name ≡ codes "UNSIGNED " ++ x
    → turned x ≢ codes "UNSIGNED " ++ x
    → normalized ct ≡ record ct { database_type_name = turned x }
unfolding normalized
normalized-prefix ct x h ne =
    rw (h, normalized)
      (rw (normalize_unsigned-prefix x) (rw (not_equal (turned x) (codes "UNSIGNED " ++ x) ne)))

turned-space : (x : Bytes) → has_byte b' ' (turned x) ≡ true
turned-space x = has_byte-append b' ' x (codes " UNSIGNED") (unfold has_byte in refl)

-- A type name that reads "UNSIGNED X", in any case, is handed to the default conversion as
-- "X UNSIGNED", where turning the name round changes it.
convert_raw_column_type-unsigned :
    (lib : Library) (ct : ColumnType) (x : Bytes)
    → to_upper ct.database_type_name ≡ codes "UNSIGNED " ++ x
    → x ++ codes " UNSIGNED" ≢ codes "UNSIGNED " ++ x
    → convert_raw_column_type lib ct
      ≡ lib.default_convert (record ct { database_type_name = x ++ codes " UNSIGNED" })
unfolding convert_raw_column_type convert_kind
convert_raw_column_type-unsigned lib ct x h ne =
    rw (normalized-prefix ct x h ne, convert_raw_column_type)
      (rw h (rw (normalize_unsigned-prefix x) (rw (kind_of-space (turned x) (turned-space x)))))

-- The keys of the libraries are none of the driver's own.
pub record KeysApart (lib : Library) : Type 0 where
  pub type_name : str_eq lib.key_database_type_name "mariadb.native_type" ≡ false
  pub column_name : str_eq lib.key_column_name "mariadb.native_type" ≡ false
  pub length : str_eq lib.key_length "mariadb.native_type" ≡ false

-- The field that a schema makes of a converted column.
abbrev pub field_of : ColumnType → Converted → Field
field_of ct c = record {
  name = ct.name;
  type = c.type;
  nullable = c.nullable;
  metadata = c.metadata;
}

abbrev pub inserter_of : ZeroBehavior → ColumnType → Result Bytes Converted → Option Inserter
inserter_of z ct (ok c) = some (create_inserter z c.type (field_of ct c))
inserter_of z ct (err e) = none

-- The inserter that reads a column's values; `none` if its type is not converted.
abbrev pub column_inserter : Library → ZeroBehavior → ColumnType → Option Inserter
column_inserter lib z ct = inserter_of z ct (convert_raw_column_type lib ct)

normalized-plain :
    (ct : ColumnType)
    → normalize_unsigned (to_upper ct.database_type_name) ≡ to_upper ct.database_type_name
    → normalized ct ≡ ct
unfolding normalized
normalized-plain ct h = rw (h, normalized) (rw (equal_refl (to_upper ct.database_type_name)))

-- A name that is not turned round goes to the case of its kind as it is.
convert_raw_column_type-plain :
    (lib : Library) (ct : ColumnType) (u : Bytes) (k : Kind)
    → to_upper ct.database_type_name ≡ u
    → normalize_unsigned u ≡ u
    → kind_of u ≡ k
    → convert_raw_column_type lib ct ≡ convert_kind lib k ct u
unfolding convert_raw_column_type
convert_raw_column_type-plain lib ct u k h n e =
    let plain : normalize_unsigned (to_upper ct.database_type_name)
        ≡ to_upper ct.database_type_name =
      rw h n in
    rw (normalized-plain ct plain, convert_raw_column_type) (rw h (rw n (rw e)))

width_fits :
    (n : ℕ) → 0 < n → (ltb_ℤ (pos 0) (pos (4 * n)) && pos_part (rem (pos (4 * n)) 4) == 0) ≡ true
width_fits n p = rw (rem-pos (4 * n) 4) (ground arith)

dimension_fits : (n : ℕ) → n < 2_147_483_648 → wrap32 (quot (pos (4 * n)) 4) ≡ pos n
dimension_fits n b =
    rw (quot-pos (4 * n) 4)
      (let e : 4 * n / 4 ≡ n = omega arith in rw e (wrap32-eq (pos n) (omega arith) (omega arith)))

module _ (lib : Library) (z : ZeroBehavior) (ct : ColumnType) where
  abbrev of_kind : Kind → Bytes → Option Inserter
  of_kind k u = inserter_of z ct (convert_kind lib k ct u)

  time_kind-inserter :
      KeysApart lib
      → (u : Bytes) → of_kind time_kind u ≡ some (duration_inserter (unit_of ct.precision))
  unfolding convert_kind create_inserter
  time_kind-inserter a u = ground (arith, a.type_name, a.column_name)

  -- Where the libraries' metadata keys are none of the driver's own: a TIME column is read by the
  -- duration inserter, in the unit of its precision.
  column_inserter-time :
      KeysApart lib
      → to_upper ct.database_type_name ≡ codes "TIME"
      → column_inserter lib z ct ≡ some (duration_inserter (unit_of ct.precision))
  unfolding normalize_unsigned kind_of equal
  column_inserter-time a h =
      ap (inserter_of z ct)
        (convert_raw_column_type-plain lib ct (codes "TIME") time_kind h refl refl)
      ∙ time_kind-inserter a (codes "TIME")

  -- A TIMESTAMP column is read by the inserter that looks for zero dates.
  column_inserter-timestamp :
      to_upper ct.database_type_name ≡ codes "TIMESTAMP"
      → column_inserter lib z ct ≡ some (zero_datetime_inserter z)
  unfolding normalize_unsigned kind_of equal convert_kind create_inserter
  column_inserter-timestamp h =
      ap (inserter_of z ct)
        (convert_raw_column_type-plain lib ct (codes "TIMESTAMP") timestamp_kind h refl refl)

  bit_kind-inserter :
      (u : Bytes) → ct.database_type_name ≡ codes "BIT" → of_kind bit_kind u ≡ some bit_inserter
  unfolding convert_kind create_inserter
  bit_kind-inserter u h = rw (h, create_inserter) refl

  -- A column whose type name is BIT, in capitals, is read by the bit inserter.
  column_inserter-bit :
      ct.database_type_name ≡ codes "BIT" → column_inserter lib z ct ≡ some bit_inserter
  unfolding normalize_unsigned kind_of equal to_upper
  column_inserter-bit h =
      ap (inserter_of z ct)
        (convert_raw_column_type-plain lib ct (codes "BIT") bit_kind (ap to_upper h) refl refl)
      ∙ bit_kind-inserter (codes "BIT") h

  vector_kind-inserter :
      (n : ℕ) (u : Bytes)
      → KeysApart lib
      → ct.length ≡ some (pos (4 * n))
      → 0 < n
      → n < 2_147_483_648
      → of_kind vector_kind u ≡ some (vector_inserter n)
  unfolding convert_kind create_inserter
  vector_kind-inserter n u a e p b =
      rw (e, convert_kind)
        (rw (width_fits n p) (rw (dimension_fits n b) (ground (arith, a.type_name, a.column_name))))

  -- Where the libraries' metadata keys are none of the driver's own: a VECTOR column whose packed
  -- width is four bytes for each of `n` elements, with `n` positive and in the range of an int32,
  -- is read by the vector inserter for `n` elements.
  column_inserter-vector :
      (n : ℕ)
      → KeysApart lib
      → to_upper ct.database_type_name ≡ codes "VECTOR"
      → ct.length ≡ some (pos (4 * n))
      → 0 < n
      → n < 2_147_483_648
      → column_inserter lib z ct ≡ some (vector_inserter n)
  unfolding normalize_unsigned kind_of equal
  column_inserter-vector n a h e p b =
      ap (inserter_of z ct)
        (convert_raw_column_type-plain lib ct (codes "VECTOR") vector_kind h refl refl)
      ∙ vector_kind-inserter n (codes "VECTOR") a e p b
