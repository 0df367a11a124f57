-- ===== src/Statistics/RowsKeep.antt =====
-- The statistics that the loops of go/connection_statistics.go leave for each catalog.
use adbc_driver_mariadb.Base.{
  ℕ, Bool, true, false, ◌||◌, ◌≡◌, refl, ap, sym, ◌∙◌, List, [], ◌∷◌, ◌++◌, append_assoc,
  append-nil, Option, none, some, arith, if◌then◌else◌, Bool-cases, inl, inr,
}
use adbc_driver_mariadb.Base.Text.{Bytes, equal, equal_iff, equal_refl}
use adbc_driver_mariadb.Base.Int.{ℤ}
use adbc_driver_mariadb.Base.Dict.{lookup, store, lookup-store}
use adbc_driver_mariadb.Objects.Key.{table_key, NoZero, table_key-injective}
use adbc_driver_mariadb.Statistics.Rows.{
  Statistic, TableRow, IndexRow, Collected, nothing, enter_if_new, append_stats, table_stats,
  table_row, table_rows, index_stats, index_known, index_row, index_rows,
}
use adbc_driver_mariadb.Statistics.Left.{
  is_some, stats_at, has, append_if, Left, append_at-Left, enter_if_new-Left, is_some-if_new,
}

or_right : (a : Bool) {b : Bool} → b ≡ true → (a || b) ≡ true
or_right a h = ground (arith)

or_false : (a : Bool) → (a || false) ≡ a
or_false a = ground (arith)

or_swap : (a b c : Bool) → (a || (b || c)) ≡ ((b || a) || c)
or_swap a b c = ground (arith)

if_nil : (b : Bool) → append_if b [] ≡ []
if_nil true = refl
if_nil false = refl

-- The statistics that a row adds to a catalog.
abbrev pub of_catalog : Bytes → Bytes → List Statistic → List Statistic
of_catalog d catalog more = append_if (equal catalog d) more

-- `listed`: whether a row has a key.
unfoldable pub keyed : Bytes → List TableRow → Bool
keyed key [] = false
keyed key (r ∷ rs) = equal (table_key r.catalog_name r.table) key || keyed key rs

unfoldable pub known : Bytes → Collected → Bool
known key m = is_some (lookup key m.known_tables)

unfoldable pub appears : Bytes → List TableRow → Bool
appears d [] = false
appears d (r ∷ rs) = equal r.catalog_name d || appears d rs

-- No catalog's name has a byte zero.
abbrev pub TableNames : List TableRow → Type 0
TableNames [] = Unit
TableNames (r ∷ rs) = NoZero r.catalog_name × TableNames rs

abbrev pub IndexNames : List IndexRow → Type 0
IndexNames [] = Unit
IndexNames (r ∷ rs) = NoZero r.catalog_name × IndexNames rs

keyed-appears :
    (c t : Bytes) (rows : List TableRow)
    → NoZero c
    → TableNames rows
    → keyed (table_key c t) rows ≡ true
    → appears c rows ≡ true
unfolding keyed appears
keyed-appears c t [] h hs e = cc
keyed-appears c t (r ∷ rs) h (g, gs) e =
    elim (Bool-cases (equal (table_key r.catalog_name r.table) (table_key c t))) [
      | inl same ↦
          let (catalogs, _) =
            table_key-injective r.catalog_name c r.table t g h
              ((equal_iff (table_key r.catalog_name r.table) (table_key c t)).0 same) in
          rw ((equal_iff r.catalog_name c).1 catalogs) refl
      | inr other ↦
          or_right (equal r.catalog_name c)
            (keyed-appears c t rs h gs (ap (λ b. b || keyed (table_key c t) rs) (sym other) ∙ e))
    ]

module _ (row_count_key distinct_count_key : ℤ) where
  -- The statistics of a catalog's tables, in the order of the rows.
  unfoldable pub tables_in : Bytes → List TableRow → List Statistic
  tables_in d [] = []
  tables_in d (r ∷ rs) =
      of_catalog d r.catalog_name (table_stats row_count_key distinct_count_key r) ++ tables_in d rs

  table_row-Left :
      (r : TableRow) (m : Collected)
      → (m' : Collected) × (table_row row_count_key distinct_count_key r m ≡ some m')
        × Left m m'
            (λ d. of_catalog d r.catalog_name (table_stats row_count_key distinct_count_key r))
            (λ d. equal r.catalog_name d)
        × ((key : Bytes)
            → known key m' ≡ (equal (table_key r.catalog_name r.table) key || known key m))
  unfolding table_row append_stats known
  table_row-Left r m =
      let c = r.catalog_name in
      let key = table_key c r.table in
      let (entered, tables) = enter_if_new-Left c (lookup c m.stats_by_catalog) m refl in
      let m1 = enter_if_new c (lookup c m.stats_by_catalog) m in
      let m2 = record m1 { known_tables = store key tt m1.known_tables } in
      let c_has : has c m1 ≡ true = entered.maps c ∙ rw (equal_refl c) refl in
      let (m', e, left, tables') =
        append_at-Left c (table_stats row_count_key distinct_count_key r)
          (lookup c m1.stats_by_catalog) m2 refl c_has in
      (
        m',
        e,
        record {
          stats = λ d.
              left.stats d
              ∙ ap
                  (λ l. l ++ append_if (equal c d) (table_stats row_count_key distinct_count_key r))
                  (entered.stats d ∙ append-nil (stats_at d m));
          maps = λ d. left.maps d ∙ entered.maps d;
        },
        λ k.
            ap (λ t. is_some (lookup k t)) tables'
            ∙ (ap is_some (lookup-store k key tt m1.known_tables)
                ∙ (is_some-if_new (equal key k) tt (lookup k m1.known_tables)
                    ∙ ap (λ t. equal key k || is_some (lookup k t)) tables)),
      )

  table_rows-Left :
      (rs : List TableRow) (m : Collected)
      → (m' : Collected) × (table_rows row_count_key distinct_count_key rs m ≡ some m')
        × Left m m' (λ d. tables_in d rs) (λ d. appears d rs)
        × ((key : Bytes) → known key m' ≡ (keyed key rs || known key m))
  unfolding table_rows tables_in appears keyed
  table_rows-Left [] m = (
    m,
    refl,
    record { stats = λ d. sym (append-nil (stats_at d m)); maps = λ d. refl },
    λ key. refl,
  )
  table_rows-Left (r ∷ rs) m =
      let (m1, e1, left1, known1) = table_row-Left r m in
      let (m2, e2, left2, known2) = table_rows-Left rs m1 in
      (
        m2,
        rw e1 e2,
        record {
          stats = λ d.
              left2.stats d
              ∙ (ap (λ l. l ++ tables_in d rs) (left1.stats d)
                  ∙ append_assoc (stats_at d m) _ (tables_in d rs));
          maps = λ d.
              left2.maps d
              ∙ (ap (λ b. appears d rs || b) (left1.maps d)
                  ∙ or_swap (appears d rs) (equal r.catalog_name d) (has d m));
        },
        λ key.
            known2 key
            ∙ (ap (λ b. keyed key rs || b) (known1 key)
                ∙ or_swap (keyed key rs) (equal (table_key r.catalog_name r.table) key)
                    (known key m)),
      )

  -- The statistics of a catalog's columns, from the index rows of the tables that the rows list.
  unfoldable pub columns_in : Bytes → List TableRow → List IndexRow → List Statistic
  columns_in d rows [] = []
  columns_in d rows (r ∷ rs) =
      (if keyed (table_key r.catalog_name r.table) rows
        then of_catalog d r.catalog_name (index_stats row_count_key distinct_count_key r)
        else [])
      ++ columns_in d rows rs

  no_stats :
      (r : IndexRow) (o : Option (Unit {0})) (d : Bytes)
      → r.cardinality ≡ none
      → (if is_some o
          then of_catalog d r.catalog_name (index_stats row_count_key distinct_count_key r)
          else [])
        ≡ []
  unfolding index_stats
  no_stats r none d e = refl
  no_stats r (some u) d e = rw e (if_nil (equal r.catalog_name d))

  index_known-Left :
      (r : IndexRow) (n : Option ℕ) (o : Option (Unit {0})) (m : Collected)
      → r.cardinality ≡ n
      → (is_some o ≡ true → has r.catalog_name m ≡ true)
      → (m' : Collected) × (index_known row_count_key distinct_count_key r n o m ≡ some m')
        × Left m m'
            (λ d.
              if is_some o
              then of_catalog d r.catalog_name (index_stats row_count_key distinct_count_key r)
              else [])
            (λ d. false)
        × (m'.known_tables ≡ m.known_tables)
  unfolding append_stats
  index_known-Left r none o m e h = (
    m,
    refl,
    record {
      stats = λ d. sym (ap (λ l. stats_at d m ++ l) (no_stats r o d e) ∙ append-nil (stats_at d m));
      maps = λ d. refl;
    },
    refl,
  )
  index_known-Left r (some n) none m e h =
      (m, refl, record { stats = λ d. sym (append-nil (stats_at d m)); maps = λ d. refl }, refl)
  index_known-Left r (some n) (some u) m e h =
      append_at-Left r.catalog_name (index_stats row_count_key distinct_count_key r)
        (lookup r.catalog_name m.stats_by_catalog) m refl (h refl)

  index_rows-Left :
      (rows : List TableRow) (rs : List IndexRow) (m : Collected)
      → TableNames rows
      → IndexNames rs
      → ((key : Bytes) → known key m ≡ keyed key rows)
      → ((d : Bytes) → has d m ≡ appears d rows)
      → (m' : Collected) × (index_rows row_count_key distinct_count_key rs m ≡ some m')
        × ((d : Bytes) → stats_at d m' ≡ stats_at d m ++ columns_in d rows rs)
  unfolding index_rows index_row columns_in known
  index_rows-Left rows [] m g g' k h = (m, refl, λ d. sym (append-nil (stats_at d m)))
  index_rows-Left rows (r ∷ rs) m g (g1, g') k h =
      let key = table_key r.catalog_name r.table in
      let (m1, e1, left, tables) =
        index_known-Left r r.cardinality (lookup key m.known_tables) m refl (λ e.
          h r.catalog_name ∙ keyed-appears r.catalog_name r.table rows g1 g (sym (k key) ∙ e)) in
      let (m2, e2, stats) =
        index_rows-Left rows rs m1 g g' (λ key. ap (λ t. is_some (lookup key t)) tables ∙ k key)
          (λ d. left.maps d ∙ h d) in
      (
        m2,
        rw e1 e2,
        λ d.
            stats d
            ∙ (ap (λ l. l ++ columns_in d rows rs) (left.stats d)
                ∙ (append_assoc (stats_at d m) _ (columns_in d rows rs)
                    ∙ ap
                        (λ b.
                          stats_at d m
                          ++ ((if b
                                then of_catalog d r.catalog_name
                                    (index_stats row_count_key distinct_count_key r)
                                else [])
                              ++ columns_in d rows rs))
                        (k key))),
      )

  -- Where no catalog of the rows has the byte zero in its name, the two loops end without a panic, and
  -- leave for each catalog the statistics of its tables, in the order of the first rows, followed by
  -- those of the columns of the listed tables, in the order of the second.
  pub collected-stats :
      (rows : List TableRow) (rs : List IndexRow)
      → TableNames rows
      → IndexNames rs
      → (m m' : Collected) × (table_rows row_count_key distinct_count_key rows nothing ≡ some m)
        × (index_rows row_count_key distinct_count_key rs m ≡ some m')
        × ((d : Bytes) → stats_at d m' ≡ tables_in d rows ++ columns_in d rows rs)
  unfolding lookup known
  collected-stats rows rs g g' =
      let (m, e, left, tables) = table_rows-Left rows nothing in
      let (m', e', stats) =
        index_rows-Left rows rs m g g' (λ key. tables key ∙ or_false (keyed key rows))
          (λ d. left.maps d ∙ or_false (appears d rows)) in
      (m, m', e, e', λ d. stats d ∙ ap (λ l. l ++ columns_in d rows rs) (left.stats d))
