-- ===== src/Objects/GroupTotal.antt =====
-- When the grouping of go/connection_getobjects.go ends without a panic.
use adbc_driver_mariadb.Base.{
  ◌≡◌, ◌≢◌, refl, ap, ◌∙◌, Bool, List, [], ◌∷◌, Option, none, some, inl, inr, Bool-cases,
}
use adbc_driver_mariadb.Base.Text.{Bytes, equal}
use adbc_driver_mariadb.Objects.Group.{
  Row, TableInfo, CatalogInfo, Groups, no_groups, fresh, enter_info, enter_catalog, enter_current,
  enter_row, group_row, group_rows, in_schema, with_schema, after,
}

-- Rows as the query's joins give them. The synthetic schema is one row, and the condition of its join,
-- `1=1` with `AND 1=0` or the filter, reads no other table: so the schema is the same in each row, NULL or
-- not. TABLES is joined where it is not NULL, so where it is NULL there is no table.
unfoldable pub Joined : Option Bytes → List Row → Type 0
Joined d [] = Unit
Joined d (row ∷ rows) = (row.db_schema ≡ d) × (d ≡ none → row.table ≡ none) × Joined d rows

NoTables : List Row → Type 0
NoTables [] = Unit
NoTables (row ∷ rows) = (row.table ≡ none) × NoTables rows

HasSchemas : List Row → Type 0
HasSchemas [] = Unit
HasSchemas (row ∷ rows) = (row.db_schema ≢ none) × HasSchemas rows

Schemas : List CatalogInfo → Type 0
Schemas [] = Unit
Schemas (i ∷ is) = (i.db_schema ≢ none) × Schemas is

schema-some :
    (s : Option Bytes)
    → s ≢ none
    → (elim s as (λ x. Option (Bytes × List TableInfo)) [
      | none ↦ none
      | some name ↦ some (name, [])
    ])
      ≢ none
schema-some none h = absurd (h refl)
schema-some (some name) h = λ e. cc

fresh-schema : (row : Row) → row.db_schema ≢ none → (fresh row).db_schema ≢ none
fresh-schema row h = schema-some row.db_schema h

enter_info-Schemas :
    (row : Row) (b : Bool) (is : List CatalogInfo)
    → row.db_schema ≢ none
    → Schemas is
    → (i : CatalogInfo) × (rest : List CatalogInfo) × ((enter_info row b is).infos ≡ i ∷ rest)
      × (i.db_schema ≢ none)
      × Schemas rest
unfolding Schemas
enter_info-Schemas row b [] h s = (fresh row, [], refl, fresh-schema row h, tt)
enter_info-Schemas row b (i ∷ is) h s = elim (Bool-cases (equal i.catalog_name row.catalog)) [
  | inl e ↦ (i, is, rw e, s.0, s.1)
  | inr e ↦ (fresh row, i ∷ is, rw e, fresh-schema row h, s)
]

current-total :
    (row : Row) (t : Bytes × Bytes) (b : Bool) (i : CatalogInfo) (is : List CatalogInfo)
    (s : Option (Bytes × List TableInfo))
    → s ≢ none
    → Schemas is
    → (g : Groups) × (with_schema i is (in_schema row t b s) ≡ some g) × Schemas g.infos
unfolding Schemas
current-total row t b i is none n h = absurd (n refl)
current-total row t b i is (some (name, ts)) n h = (_, refl, ((λ e. cc), h))

enter_row-total :
    (row : Row) (found : Option (Bytes × Bytes)) (i : CatalogInfo) (is : List CatalogInfo)
    (g : Groups)
    → g.infos ≡ i ∷ is
    → i.db_schema ≢ none
    → Schemas is
    → (g' : Groups) × (enter_row row found g ≡ some g') × Schemas g'.infos
unfolding enter_row Schemas
enter_row-total row none i is g p n h = (g, refl, rw p (n, h))
enter_row-total row (some t) i is g p n h =
    let (g', e, s) = current-total row t g.has_table i is i.db_schema n h in
    (g', ap (enter_current row t g.has_table) p ∙ e, s)

group_rows-Schemas :
    (rows : List Row) (g : Groups)
    → HasSchemas rows
    → Schemas g.infos
    → (g' : Groups) × (group_rows rows g ≡ some g')
unfolding group_rows HasSchemas group_row enter_catalog
group_rows-Schemas [] g h s = (g, refl)
group_rows-Schemas (row ∷ rows) g h s =
    let (i, is, p, n, r) = enter_info-Schemas row g.has_table g.infos h.0 s in
    let (next, e, s') =
      enter_row-total row row.table i is (enter_info row g.has_table g.infos) p n r in
    let (g', e') = group_rows-Schemas rows next h.1 s' in (g', ap (after (group_rows rows)) e ∙ e')

group_rows-NoTables :
    (rows : List Row) (g : Groups) → NoTables rows → (g' : Groups) × (group_rows rows g ≡ some g')
unfolding group_rows group_row enter_row NoTables
group_rows-NoTables [] g h = (g, refl)
group_rows-NoTables (row ∷ rows) g h =
    let next = enter_catalog row g in
    let (g', e) = group_rows-NoTables rows next h.1 in
    (g', ap (λ t. after (group_rows rows) (enter_row row t next)) h.0 ∙ e)

Joined-HasSchemas : (name : Bytes) (rows : List Row) → Joined (some name) rows → HasSchemas rows
unfolding HasSchemas Joined
Joined-HasSchemas name [] h = tt
Joined-HasSchemas name (row ∷ rows) h = ((λ e. cc (h.0)), Joined-HasSchemas name rows h.2)

Joined-NoTables : (rows : List Row) → Joined none rows → NoTables rows
unfolding NoTables Joined
Joined-NoTables [] h = tt
Joined-NoTables (row ∷ rows) h = (h.1 refl, Joined-NoTables rows h.2)

-- On rows as the query's joins give them the grouping has a result.
pub group_rows-total :
    (d : Option Bytes) (rows : List Row)
    → Joined d rows
    → (g : Groups) × (group_rows rows no_groups ≡ some g)
unfolding Schemas
group_rows-total none rows h = group_rows-NoTables rows no_groups (Joined-NoTables rows h)
group_rows-total (some name) rows h =
    group_rows-Schemas rows no_groups (Joined-HasSchemas name rows h) tt
