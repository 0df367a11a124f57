-- ===== src/Statistics/Balance.antt =====
-- Placeholders and arguments of the queries of go/connection_statistics.go.
use adbc_driver_mariadb.Base.{◌≡◌, refl, length, Option, none, some}
use adbc_driver_mariadb.Base.Text.{Bytes}
use adbc_driver_mariadb.Sql.Scan.{count_placeholders}
use adbc_driver_mariadb.Statistics.Query.{table_query, index_query}

-- Both queries of `GetStatistics` have as many placeholders outside of quotes and comments as they
-- have arguments, whichever of the catalog and the table name are given.
count_placeholders-statistics :
    (catalog table_name : Option Bytes)
    → (count_placeholders (table_query catalog table_name).sql
        ≡ length (table_query catalog table_name).args)
      × (count_placeholders (index_query catalog table_name).sql
          ≡ length (index_query catalog table_name).args)
unfolding table_query index_query count_placeholders
count_placeholders-statistics none none = (refl, refl)
count_placeholders-statistics none (some table_name) = (refl, refl)
count_placeholders-statistics (some catalog) none = (refl, refl)
count_placeholders-statistics (some catalog) (some table_name) = (refl, refl)
