-- ===== src/Objects/GroupKeeps.antt =====
-- The columns that the grouping of go/connection_getobjects.go ends with.
use adbc_driver_mariadb.Base.{
  ◌≡◌, refl, ap, sym, ◌∙◌, Bool, true, false, List, [], ◌∷◌, ◌++◌, append_assoc, append-nil, Option,
  none, some, some-injective, inl, inr, Bool-cases, Option-cases,
}
use adbc_driver_mariadb.Base.Text.{Bytes, equal, equal_iff}
use adbc_driver_mariadb.Objects.Column.{ColumnInfo}
use adbc_driver_mariadb.Objects.Group.{
  Row, TableInfo, CatalogInfo, Groups, no_groups, fresh, enter_info, enter_catalog, enter_table,
  add_column, enter_current, enter_row, group_row, group_rows, in_schema, with_schema,
}

-- A column with its catalog and its table.
pub record Placed : Type 0 where
  pub catalog : Bytes
  pub table : Bytes
  pub column : ColumnInfo

abbrev place : Bytes → Bytes → ColumnInfo → Placed
place c t x = record { catalog = c; table = t; column = x }

-- The columns of a table, of a list of tables and of the catalogs, the newest first.
unfoldable pub in_table : Bytes → Bytes → List ColumnInfo → List Placed
in_table c t [] = []
in_table c t (x ∷ xs) = place c t x ∷ in_table c t xs

unfoldable pub in_tables : Bytes → List TableInfo → List Placed
in_tables c [] = []
in_tables c (t ∷ ts) = in_table c t.table_name t.table_columns ++ in_tables c ts

abbrev pub in_schema_of : Bytes → Option (Bytes × List TableInfo) → List Placed
in_schema_of c none = []
in_schema_of c (some (name, ts)) = in_tables c ts

unfoldable pub in_infos : List CatalogInfo → List Placed
in_infos [] = []
in_infos (i ∷ is) = in_schema_of i.catalog_name i.db_schema ++ in_infos is

-- The column of a row, if it has a table and a column.
abbrev pub in_row : Bytes → Option (Bytes × Bytes) → Option ColumnInfo → List Placed
in_row c none x = []
in_row c (some t) none = []
in_row c (some t) (some x) = place c t.0 x ∷ []

-- The columns of the rows, the last row's first.
unfoldable pub in_rows : List Row → List Placed
in_rows [] = []
in_rows (row ∷ rows) = in_rows rows ++ in_row row.catalog row.table row.column

add-enter :
    (c : Bytes) (t : Bytes × Bytes) (b : Bool) (ts : List TableInfo) (x : Option ColumnInfo)
    → in_tables c (add_column x (enter_table t b ts)) ≡ in_row c (some t) x ++ in_tables c ts
unfolding in_tables in_table add_column enter_table
add-enter c t b [] none = refl
add-enter c t b [] (some x) = refl
add-enter c t false (u ∷ us) none = refl
add-enter c t false (u ∷ us) (some x) = refl
add-enter c t true (u ∷ us) none = elim (Bool-cases (equal u.table_name t.0)) [
  | inl e ↦ rw e
  | inr e ↦ rw e
]
add-enter c t true (u ∷ us) (some x) = elim (Bool-cases (equal u.table_name t.0)) [
  | inl e ↦ rw e (ap (λ n. place c n x ∷ in_tables c (u ∷ us)) ((equal_iff u.table_name t.0).0 e))
  | inr e ↦ rw e
]

current-schema :
    (row : Row) (t : Bytes × Bytes) (b : Bool) (i : CatalogInfo) (is : List CatalogInfo)
    (g : Groups) (s : Option (Bytes × List TableInfo))
    → with_schema i is (in_schema row t b s) ≡ some g
    → in_infos g.infos
      ≡ in_row i.catalog_name (some t) row.column ++ (in_schema_of i.catalog_name s ++ in_infos is)
unfolding in_infos
current-schema row t b i is g none h = cc
current-schema row t b i is g (some (name, ts)) h =
    ap (λ x. in_infos x.infos) (sym (some-injective _ g h))
    ∙ rw (add-enter i.catalog_name t b ts row.column) (
        append_assoc (in_row i.catalog_name (some t) row.column) (in_tables i.catalog_name ts)
          (in_infos is))

current :
    (row : Row) (t : Bytes × Bytes) (b : Bool) (i : CatalogInfo) (is : List CatalogInfo)
    (g : Groups)
    → i.catalog_name ≡ row.catalog
    → enter_current row t b (i ∷ is) ≡ some g
    → in_infos g.infos ≡ in_row row.catalog (some t) row.column ++ in_infos (i ∷ is)
unfolding in_infos
current row t b i is g e h =
    current-schema row t b i is g i.db_schema h
    ∙ ap (λ c. in_row c (some t) row.column ++ in_infos (i ∷ is)) e

schema-empty :
    (c : Bytes) (s : Option Bytes)
    → in_schema_of c (elim s [ none ↦ none | some name ↦ some (name, []) ]) ≡ []
unfolding in_tables
schema-empty c none = refl
schema-empty c (some name) = refl

enter_info-infos :
    (row : Row) (b : Bool) (is : List CatalogInfo)
    → in_infos (enter_info row b is).infos ≡ in_infos is
unfolding in_infos
enter_info-infos row b [] = rw (schema-empty row.catalog row.db_schema)
enter_info-infos row b (i ∷ is) = elim (Bool-cases (equal i.catalog_name row.catalog)) [
  | inl e ↦ rw e
  | inr e ↦ rw e (rw (schema-empty row.catalog row.db_schema))
]

enter_info-current :
    (row : Row) (b : Bool) (is : List CatalogInfo)
    → (i : CatalogInfo) × (rest : List CatalogInfo) × ((enter_info row b is).infos ≡ i ∷ rest)
      × (i.catalog_name ≡ row.catalog)
enter_info-current row b [] = (fresh row, [], refl, refl)
enter_info-current row b (i ∷ is) = elim (Bool-cases (equal i.catalog_name row.catalog)) [
  | inl e ↦ (i, is, rw e, (equal_iff i.catalog_name row.catalog).0 e)
  | inr e ↦ (fresh row, i ∷ is, rw e, refl)
]

enter_catalog-infos :
    (row : Row) (g : Groups) → in_infos (enter_catalog row g).infos ≡ in_infos g.infos
unfolding enter_catalog in_infos in_tables
enter_catalog-infos row g = enter_info-infos row g.has_table g.infos

enter_catalog-current :
    (row : Row) (g : Groups)
    → (i : CatalogInfo) × (is : List CatalogInfo) × ((enter_catalog row g).infos ≡ i ∷ is)
      × (i.catalog_name ≡ row.catalog)
unfolding enter_catalog
enter_catalog-current row g = enter_info-current row g.has_table g.infos

enter_row-infos :
    (row : Row) (found : Option (Bytes × Bytes)) (i : CatalogInfo) (is : List CatalogInfo)
    (g g' : Groups)
    → g.infos ≡ i ∷ is
    → i.catalog_name ≡ row.catalog
    → enter_row row found g ≡ some g'
    → in_infos g'.infos ≡ in_row row.catalog found row.column ++ in_infos g.infos
unfolding enter_row
enter_row-infos row none i is g g' p e h = ap (λ x. in_infos x.infos) (sym (some-injective g g' h))
enter_row-infos row (some t) i is g g' p e h =
    current row t g.has_table i is g' e (ap (enter_current row t g.has_table) (sym p) ∙ h)
    ∙ ap (λ l. in_row row.catalog (some t) row.column ++ in_infos l) (sym p)

group_row-infos :
    (row : Row) (g g' : Groups)
    → group_row row g ≡ some g'
    → in_infos g'.infos ≡ in_row row.catalog row.table row.column ++ in_infos g.infos
unfolding group_row
group_row-infos row g g' h =
    let (i, is, p, e) = enter_catalog-current row g in
    enter_row-infos row row.table i is (enter_catalog row g) g' p e h
    ∙ ap (λ l. in_row row.catalog row.table row.column ++ l) (enter_catalog-infos row g)

group_rows-infos :
    (rows : List Row) (g g' : Groups)
    → group_rows rows g ≡ some g'
    → in_infos g'.infos ≡ in_rows rows ++ in_infos g.infos
unfolding group_rows in_rows
group_rows-infos [] g g' h = ap (λ x. in_infos x.infos) (sym (some-injective g g' h))
group_rows-infos (row ∷ rows) g g' h = elim (Option-cases (group_row row g)) [
  | inl e ↦ cc
  | inr (next, e) ↦
      let rest : group_rows rows next ≡ some g' = cc in
      group_rows-infos rows next g' rest
      ∙ (ap (λ l. in_rows rows ++ l) (group_row-infos row g next e)
          ∙ sym (
              append_assoc (in_rows rows) (in_row row.catalog row.table row.column)
                (in_infos g.infos)))
]

-- Whatever the order of the rows is: where the grouping ends without a panic, its columns are
-- exactly those of the rows that have a table and a column, each under its catalog and its table,
-- and in the order of the rows.
pub group_rows-in_rows :
    (rows : List Row) (g : Groups)
    → group_rows rows no_groups ≡ some g
    → in_infos g.infos ≡ in_rows rows
unfolding in_infos
group_rows-in_rows rows g h = group_rows-infos rows no_groups g h ∙ append-nil (in_rows rows)
