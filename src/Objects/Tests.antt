-- ===== src/Objects/Tests.antt =====
-- Runs of the queries of go/connection_getobjects.go.
use adbc_driver_mariadb.Base.{◌≡◌, refl, [], ◌∷◌, some, none, length}
use adbc_driver_mariadb.Base.Text.{codes}
use adbc_driver_mariadb.Sql.Scan.{count_placeholders}
use adbc_driver_mariadb.Sql.Builder.{placeholders}
use adbc_driver_mariadb.Objects.Query.{ObjectsFilter, ObjectDepth, objects_query}
use adbc_driver_mariadb.Objects.Balance.{count_placeholders-objects_query}
use adbc_driver_mariadb.Base.{List, true, false}
use adbc_driver_mariadb.Base.Text.{equal, contains}
use adbc_driver_mariadb.Base.Int.{pos, wrap32, wrap16}
use adbc_driver_mariadb.Objects.Column.{
  ColumnRow, ColumnInfo, clamp_int32, clamp_int16, build_column_info,
}
use adbc_driver_mariadb.Objects.Clamp.{clamp-nearest}
use adbc_driver_mariadb.Objects.Group.{Row, Groups, no_groups, group_rows}
use adbc_driver_mariadb.Objects.GroupKeeps.{in_infos, in_rows, group_rows-in_rows}

abbrev two_types : ObjectsFilter
two_types = record {
  depth = ObjectDepth.columns;
  catalog = some (codes "shop");
  db_schema = none;
  table_name = some (codes "ord?r%");
  table_type = codes "BASE TABLE" ∷ codes "VIEW" ∷ [];
  column_name = none;
}

count_two_types : count_placeholders (objects_query two_types).sql ≡ 4
unfolding objects_query count_placeholders placeholders
count_two_types = refl

count_placeholders-objects_query_example :
    count_placeholders (objects_query two_types).sql ≡ length (objects_query two_types).args
count_placeholders-objects_query_example = count_placeholders-objects_query two_types

clamp-nearest_example :
    (clamp_int32 (pos 4_294_967_295) ≡ pos 2_147_483_647)
    × (clamp_int16 (pos 4_294_967_295) ≡ pos 32_767)
clamp-nearest_example = clamp-nearest (pos 4_294_967_295)

abbrev id_row : ColumnRow
id_row = record {
  data_type = codes "int";
  column_type = codes "int(10) unsigned";
  column_name = codes "id";
  is_nullable = codes "NO";
  ordinal_position = pos 1;
  column_comment = none;
  column_default = none;
  char_max_length = none;
  char_octet_length = none;
  numeric_precision = some (pos 10);
  numeric_scale = some (pos 0);
  datetime_precision = none;
  extra = some (codes "auto_increment, INVISIBLE");
  generation_expression = none;
}

abbrev id_column : ColumnInfo
id_column = record {
  column_name = codes "id";
  ordinal_position = pos 1;
  remarks = some (codes "[MariaDB: INVISIBLE]");
  xdbc_type_name = codes "int UNSIGNED";
  xdbc_column_size = some (pos 10);
  xdbc_decimal_digits = some (pos 0);
  xdbc_num_prec_radix = some (pos 10);
  xdbc_nullable = some (pos 0);
  xdbc_is_nullable = codes "NO";
  xdbc_column_def = none;
  xdbc_char_octet_length = none;
  xdbc_is_autoincrement = true;
  xdbc_is_generatedcolumn = false;
}

build_id : build_column_info (pos 0) (pos 1) id_row ≡ id_column
unfolding build_column_info contains equal wrap32 wrap16
build_id = refl

-- A table with two columns, and a catalog without a table.
abbrev three_rows : List Row
three_rows =
    record {
      catalog = codes "shop";
      db_schema = some [];
      table = some (codes "t", codes "VIEW");
      column = some id_column;
    }
    ∷ record {
      catalog = codes "shop";
      db_schema = some [];
      table = some (codes "t", codes "VIEW");
      column = some id_column;
    }
    ∷ record { catalog = codes "test"; db_schema = some []; table = none; column = none }
    ∷ []

abbrev grouped : Groups
grouped = record {
  infos =
      record { catalog_name = codes "test"; db_schema = some ([], []) }
      ∷ record {
        catalog_name = codes "shop";
        db_schema = some (
          [],
          record {
            table_name = codes "t";
            table_type = codes "VIEW";
            table_columns = id_column ∷ id_column ∷ [];
          }
              ∷ [],
        );
      }
      ∷ [];
  has_table = false;
}

group_three : group_rows three_rows no_groups ≡ some grouped
unfolding group_rows equal
group_three = refl

group_rows-in_rows_example : in_infos grouped.infos ≡ in_rows three_rows
group_rows-in_rows_example = group_rows-in_rows three_rows grouped group_three
