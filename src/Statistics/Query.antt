-- ===== src/Statistics/Query.antt =====
-- `statisticsFilter` of go/connection_statistics.go, and the two queries of `GetStatistics` that share
-- its text and its arguments.
use adbc_driver_mariadb.Base.{◌++◌, Option}
use adbc_driver_mariadb.Base.Text.{Bytes, codes}
use adbc_driver_mariadb.Sql.Builder.{Query}
use adbc_driver_mariadb.Objects.Query.{bind_if, empty_query}

unfoldable pub statistics_filter : Option Bytes → Option Bytes → Query
statistics_filter catalog table_name =
    bind_if (bind_if empty_query (codes " AND TABLE_SCHEMA LIKE ?") catalog)
      (codes " AND TABLE_NAME LIKE ?") table_name

-- The filter between the two parts of a query.
abbrev pub around : Bytes → Bytes → Query → Query
around before after filter = record { sql = before ++ (filter.sql ++ after); args = filter.args }

abbrev pub table_text : Bytes
table_text =
    codes
      "\n\t\tSELECT TABLE_SCHEMA, TABLE_NAME, TABLE_ROWS, AVG_ROW_LENGTH,\n\t\t       DATA_LENGTH, INDEX_LENGTH\n\t\tFROM INFORMATION_SCHEMA.TABLES\n\t\tWHERE TABLE_TYPE = 'BASE TABLE'"

abbrev pub table_order : Bytes
table_order = codes "\n\t\tORDER BY TABLE_SCHEMA, TABLE_NAME"

abbrev pub index_text : Bytes
index_text =
    codes
      "\n\t\tSELECT TABLE_SCHEMA, TABLE_NAME, COLUMN_NAME, MAX(CARDINALITY)\n\t\tFROM INFORMATION_SCHEMA.STATISTICS\n\t\tWHERE CARDINALITY IS NOT NULL"

abbrev pub index_order : Bytes
index_order =
    codes
      "\n\t\tGROUP BY TABLE_SCHEMA, TABLE_NAME, COLUMN_NAME\n\t\tORDER BY TABLE_SCHEMA, TABLE_NAME, COLUMN_NAME"

unfoldable pub table_query : Option Bytes → Option Bytes → Query
unfolding statistics_filter
table_query catalog table_name =
    around table_text table_order (statistics_filter catalog table_name)

unfoldable pub index_query : Option Bytes → Option Bytes → Query
unfolding statistics_filter
index_query catalog table_name =
    around index_text index_order (statistics_filter catalog table_name)
