-- ===== src/Statistics/CatalogOrder.antt =====
-- The orders of catalogs and schemas that `GetStatistics` of go/connection_statistics.go passes on.
use mathlib.Core.Path.{subst}
use adbc_driver_mariadb.Base.{
  ℕ, Bool, true, false, ◌||◌, ◌≡◌, refl, ap, sym, ◌∙◌, List, [], ◌∷◌, ◌++◌, Option, none, some,
  some-injective, arith, if◌then◌else◌,
}
use adbc_driver_mariadb.Base.Text.{Bytes, equal, equal_iff, member}
use adbc_driver_mariadb.Base.Int.{ℤ}
use adbc_driver_mariadb.Base.Dict.{Dict, lookup, store, lookup-store}
use adbc_driver_mariadb.Objects.Key.{table_key}
use adbc_driver_mariadb.Statistics.Rows.{
  Statistic, TableRow, IndexRow, Collected, nothing, list_of, enter_if_new, append_at, append_stats,
  table_stats, table_row, then_rows, table_rows, index_stats, index_known, index_row, index_rows,
}
use adbc_driver_mariadb.Statistics.Left.{is_some, has, is_some-if, is_some-if_new, lookup-equal}

-- No text stands twice.
abbrev pub Distinct : List Bytes → Type 0
Distinct [] = Unit
Distinct (s ∷ ss) = (member s ss ≡ false) × Distinct ss

member-append :
    (s : Bytes) (xs ys : List Bytes) → member s (xs ++ ys) ≡ (member s xs || member s ys)
unfolding member
member-append s [] ys = refl
member-append s (x ∷ xs) ys = ground (arith, member-append s xs ys)

Distinct-append :
    (xs : List Bytes) (c : Bytes) → Distinct xs → member c xs ≡ false → Distinct (xs ++ (c ∷ []))
unfolding member
Distinct-append [] c d h = (refl, tt)
Distinct-append (x ∷ xs) c (e, d) h = (
  ground (arith, equal_iff x c, equal_iff c x, member-append x xs (c ∷ [])),
  Distinct-append xs c d (ground (arith)),
)

member-last : (d c : Bytes) (b : Bool) → (b || member d (c ∷ [])) ≡ (equal c d || b)
unfolding member
member-last d c b = ground (arith)

then_rows-some :
    (row_count_key distinct_count_key : ℤ) (rest : Collected → Option Collected)
    (o : Option Collected) {m' : Collected}
    → then_rows row_count_key distinct_count_key rest o ≡ some m'
    → (m : Collected) × (o ≡ some m) × (rest m ≡ some m')
then_rows-some _ _ rest none h = cc
then_rows-some _ _ rest (some m) h = (m, refl, h)

-- The order lists each catalog that has a map, once, and each of these has the one schema "".
pub record Ordered (m : Collected) : Type 0 where
  pub once : Distinct m.catalog_order
  pub listed : (d : Bytes) → member d m.catalog_order ≡ has d m
  pub schemas : (d : Bytes) → lookup d m.schema_order ≡ (if has d m then some ([] ∷ []) else none)

has-some :
    (c : Bytes) (m : Collected) {schemas : Dict (List Statistic)}
    → lookup c m.stats_by_catalog ≡ some schemas
    → has c m ≡ true
has-some c m e = ap is_some e

-- A step that keeps the two orders and which catalogs have a map.
same_maps-Ordered :
    (m : Collected) (stats : Dict (Dict (List Statistic)))
    → ((d : Bytes) → is_some (lookup d stats) ≡ has d m)
    → Ordered m
    → Ordered (record m { stats_by_catalog = stats })
same_maps-Ordered m stats maps w = record {
  once = w.once;
  listed = λ d. w.listed d ∙ sym (maps d);
  schemas = λ d. w.schemas d ∙ ap (λ b. if b then some ([] ∷ []) else none) (sym (maps d));
}

append_at-Ordered :
    (c : Bytes) (more : List Statistic) (o : Option (Dict (List Statistic))) (m : Collected)
    {m' : Collected}
    → lookup c m.stats_by_catalog ≡ o
    → append_at c more o m ≡ some m'
    → Ordered m
    → Ordered m'
append_at-Ordered c more none m e h w = cc
append_at-Ordered c more (some schemas) m {m'} e h w =
    let schemas' = store [] (list_of (lookup [] schemas) ++ more) schemas in
    let stats = store c schemas' m.stats_by_catalog in
    subst Ordered (some-injective _ m' h) (
      same_maps-Ordered m stats
        (λ d.
          ap is_some (lookup-store d c schemas' m.stats_by_catalog)
          ∙ is_some-if (equal c d) schemas schemas' (lookup d m.stats_by_catalog)
              (lookup-equal c d m.stats_by_catalog e))
        w)

if_else :
    (b h : Bool) (o : Option (List Bytes))
    → (if b then o else (if h then o else none)) ≡ (if b || h then o else none)
if_else true h o = refl
if_else false h o = refl

entered-maps :
    (c d : Bytes) (m : Collected)
    → is_some (lookup d (store c (([], []) ∷ []) m.stats_by_catalog)) ≡ (equal c d || has d m)
entered-maps c d m =
    ap is_some (lookup-store d c (([], []) ∷ []) m.stats_by_catalog)
    ∙ is_some-if_new (equal c d) (([], []) ∷ []) (lookup d m.stats_by_catalog)

enter_if_new-Ordered :
    (c : Bytes) (o : Option (Dict (List Statistic))) (m : Collected)
    → lookup c m.stats_by_catalog ≡ o
    → Ordered m
    → Ordered (enter_if_new c o m)
enter_if_new-Ordered c (some schemas) m e w = w
enter_if_new-Ordered c none m e w = record {
  once = Distinct-append m.catalog_order c w.once (w.listed c ∙ ap is_some e);
  listed = λ d.
      member-append d m.catalog_order (c ∷ [])
      ∙ (ap (λ b. b || member d (c ∷ [])) (w.listed d)
          ∙ (member-last d c (has d m) ∙ sym (entered-maps c d m)));
  schemas = λ d.
      lookup-store d c ([] ∷ []) m.schema_order
      ∙ (ap (λ o. if equal c d then some ([] ∷ []) else o) (w.schemas d)
          ∙ (if_else (equal c d) (has d m) (some ([] ∷ []))
              ∙ ap (λ b. if b then some ([] ∷ []) else none) (sym (entered-maps c d m))));
}

module _ (row_count_key distinct_count_key : ℤ) where
  table_row-Ordered :
      (r : TableRow) (m m' : Collected)
      → table_row row_count_key distinct_count_key r m ≡ some m'
      → Ordered m
      → Ordered m'
  unfolding table_row append_stats
  table_row-Ordered r m m' h w =
      let c = r.catalog_name in
      let m1 = enter_if_new c (lookup c m.stats_by_catalog) m in
      let w1 = enter_if_new-Ordered c (lookup c m.stats_by_catalog) m refl w in
      let m2 = record m1 { known_tables = store (table_key c r.table) tt m1.known_tables } in
      let w2 : Ordered m2 = record { once = w1.once; listed = w1.listed; schemas = w1.schemas } in
      append_at-Ordered c (table_stats row_count_key distinct_count_key r)
        (lookup c m1.stats_by_catalog) m2 refl h w2

  table_rows-Ordered :
      (rs : List TableRow) (m m' : Collected)
      → table_rows row_count_key distinct_count_key rs m ≡ some m'
      → Ordered m
      → Ordered m'
  unfolding table_rows
  table_rows-Ordered [] m m' h w = subst Ordered (some-injective m m' h) w
  table_rows-Ordered (r ∷ rs) m m' h w =
      let (m1, e, k) =
        then_rows-some row_count_key distinct_count_key
          (table_rows row_count_key distinct_count_key rs)
          (table_row row_count_key distinct_count_key r m) h in
      table_rows-Ordered rs m1 m' k (table_row-Ordered r m m1 e w)

  index_known-Ordered :
      (r : IndexRow) (n : Option ℕ) (o : Option (Unit {0})) (m m' : Collected)
      → index_known row_count_key distinct_count_key r n o m ≡ some m'
      → Ordered m
      → Ordered m'
  unfolding append_stats
  index_known-Ordered r none o m m' h w = subst Ordered (some-injective m m' h) w
  index_known-Ordered r (some n) none m m' h w = subst Ordered (some-injective m m' h) w
  index_known-Ordered r (some n) (some u) m m' h w =
      append_at-Ordered r.catalog_name (index_stats row_count_key distinct_count_key r)
        (lookup r.catalog_name m.stats_by_catalog) m refl h w

  index_rows-Ordered :
      (rs : List IndexRow) (m m' : Collected)
      → index_rows row_count_key distinct_count_key rs m ≡ some m'
      → Ordered m
      → Ordered m'
  unfolding index_rows index_row
  index_rows-Ordered [] m m' h w = subst Ordered (some-injective m m' h) w
  index_rows-Ordered (r ∷ rs) m m' h w =
      let (m1, e, k) =
        then_rows-some row_count_key distinct_count_key
          (index_rows row_count_key distinct_count_key rs)
          (index_row row_count_key distinct_count_key r m) h in
      index_rows-Ordered rs m1 m' k (
        index_known-Ordered r r.cardinality
          (lookup (table_key r.catalog_name r.table) m.known_tables) m m1 e w)

  -- What the two loops leave lists each catalog that has statistics, and no other, once, and gives it
  -- the one schema "" and no other catalog a schema, whatever the rows are.
  pub collected-Ordered :
      (rows : List TableRow) (rs : List IndexRow) (m m' : Collected)
      → table_rows row_count_key distinct_count_key rows nothing ≡ some m
      → index_rows row_count_key distinct_count_key rs m ≡ some m'
      → Ordered m'
  unfolding lookup member
  collected-Ordered rows rs m m' h k = index_rows-Ordered rs m m' k (
      table_rows-Ordered rows nothing m h
        (record { once = tt; listed = λ d. refl; schemas = λ d. refl }))
