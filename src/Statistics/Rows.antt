-- ===== src/Statistics/Rows.antt =====
-- The loops of `GetStatistics` in go/connection_statistics.go over the rows of its two queries.
use adbc_driver_mariadb.Base.{ℕ, Bool, true, List, [], ◌∷◌, ◌++◌, Option, none, some}
use adbc_driver_mariadb.Base.Text.{Bytes}
use adbc_driver_mariadb.Base.Int.{ℤ, pos}
use adbc_driver_mariadb.Base.Dict.{Dict, lookup, store}
use adbc_driver_mariadb.Objects.Key.{table_key}

-- What `driverbase.NewUint64Stat` is given.
pub record Statistic : Type 0 where
  pub table : Bytes
  pub column : Option Bytes
  pub key : ℤ
  pub value : ℕ
  pub approximate : Bool

pub record TableRow : Type 0 where
  pub catalog_name : Bytes
  pub table : Bytes
  pub row_count : Option ℕ
  pub avg_row_length : Option ℕ
  pub data_length : Option ℕ
  pub index_length : Option ℕ

pub record IndexRow : Type 0 where
  pub catalog_name : Bytes
  pub table : Bytes
  pub column : Bytes
  pub cardinality : Option ℕ

-- `statisticDataLengthKey` and the other two.
abbrev pub data_length_key : ℤ
data_length_key = pos 1024

abbrev pub index_length_key : ℤ
index_length_key = pos 1025

abbrev pub avg_row_length_key : ℤ
avg_row_length_key = pos 1026

pub record Collected : Type 0 where
  pub catalog_order : List Bytes
  pub schema_order : Dict (List Bytes)
  pub stats_by_catalog : Dict (Dict (List Statistic))
  pub known_tables : Dict (Unit {0})

abbrev pub nothing : Collected
nothing = record { catalog_order = []; schema_order = []; stats_by_catalog = []; known_tables = [] }

-- The value of a key that is missing is the empty list.
abbrev pub list_of : Option (List Statistic) → List Statistic
list_of none = []
list_of (some stats) = stats

-- `if !exists` at the map of the catalogs.
abbrev pub enter_if_new : Bytes → Option (Dict (List Statistic)) → Collected → Collected
enter_if_new catalog (some schemas) m = m
enter_if_new catalog none m = record m {
  catalog_order = m.catalog_order ++ (catalog ∷ []);
  schema_order = store catalog ([] ∷ []) m.schema_order;
  stats_by_catalog = store catalog (([], []) ∷ []) m.stats_by_catalog;
}

-- `statsByCatalog[catalogName][""] = append(statsByCatalog[catalogName][""], more...)`: a catalog
-- without a map is a Go panic, `none`.
abbrev pub append_at :
    Bytes → List Statistic → Option (Dict (List Statistic)) → Collected → Option Collected
append_at catalog more none m = none
append_at catalog more (some schemas) m = some (record m {
  stats_by_catalog =
      store catalog (store [] (list_of (lookup [] schemas) ++ more) schemas) m.stats_by_catalog;
})

unfoldable pub append_stats : Bytes → List Statistic → Collected → Option Collected
unfolding lookup store
append_stats catalog more m = append_at catalog more (lookup catalog m.stats_by_catalog) m

abbrev pub stat_if : Bytes → ℤ → Option ℕ → List Statistic
stat_if table key none = []
stat_if table key (some n) =
    record { table = table; column = none; key = key; value = n; approximate = true } ∷ []

-- `adbc.StatisticRowCountKey` and `adbc.StatisticDistinctCountKey`.
module _ (row_count_key distinct_count_key : ℤ) where
  unfoldable pub table_stats : TableRow → List Statistic
  table_stats r =
      stat_if r.table row_count_key r.row_count
      ++ (stat_if r.table data_length_key r.data_length
          ++ (stat_if r.table index_length_key r.index_length
              ++ stat_if r.table avg_row_length_key r.avg_row_length))

  unfoldable pub table_row : TableRow → Collected → Option Collected
  unfolding append_stats table_stats
  table_row r m =
      let entered = enter_if_new r.catalog_name (lookup r.catalog_name m.stats_by_catalog) m in
      append_stats r.catalog_name (table_stats r) (record entered {
        known_tables = store (table_key r.catalog_name r.table) tt entered.known_tables;
      })

  abbrev pub then_rows : (Collected → Option Collected) → Option Collected → Option Collected
  then_rows rest none = none
  then_rows rest (some m) = rest m

  unfoldable pub table_rows : List TableRow → Collected → Option Collected
  unfolding table_row
  table_rows [] m = some m
  table_rows (r ∷ rs) m = then_rows (table_rows rs) (table_row r m)

  unfoldable pub index_stats : IndexRow → List Statistic
  index_stats r = elim r.cardinality [
    | none ↦ []
    | some n ↦
        record {
          table = r.table;
          column = some r.column;
          key = distinct_count_key;
          value = n;
          approximate = true;
        }
        ∷ []
  ]

  -- The rows without a cardinality and those of other tables are skipped.
  abbrev pub index_known : IndexRow → Option ℕ → Option (Unit {0}) → Collected → Option Collected
  index_known r none known m = some m
  index_known r (some n) none m = some m
  index_known r (some n) (some known) m = append_stats r.catalog_name (index_stats r) m

  unfoldable pub index_row : IndexRow → Collected → Option Collected
  unfolding append_stats index_stats
  index_row r m =
      index_known r r.cardinality (lookup (table_key r.catalog_name r.table) m.known_tables) m

  unfoldable pub index_rows : List IndexRow → Collected → Option Collected
  unfolding index_row
  index_rows [] m = some m
  index_rows (r ∷ rs) m = then_rows (index_rows rs) (index_row r m)
