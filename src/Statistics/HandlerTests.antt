-- ===== src/Statistics/HandlerTests.antt =====
-- Runs of `GetStatistics` of go/connection_statistics.go with a small server.
use mathlib.Core.Path.{subst}
use adbc_driver_mariadb.Base.{ap, ℕ, suc, ◌≡◌, refl, List, [], ◌∷◌, some, none, length}
use adbc_driver_mariadb.Base.Text.{Bytes, codes, equal, split_at_byte}
use adbc_driver_mariadb.Base.Int.{pos}
use adbc_driver_mariadb.Base.Dict.{Dict}
use adbc_driver_mariadb.Base.Result.{Result, ok, err, ok-injective}
use adbc_driver_mariadb.Session.Server.{Server}
use adbc_driver_mariadb.Session.Rows.{Rows, complete, split_scan}
use adbc_driver_mariadb.Statistics.Rows.{Statistic, TableRow, IndexRow}
use adbc_driver_mariadb.Statistics.RowsKeep.{TableNames, IndexNames}
use adbc_driver_mariadb.Statistics.Handler.{get_statistics}
use adbc_driver_mariadb.Statistics.HandlerStats.{Found, get_statistics-Found}
use adbc_driver_mariadb.Statistics.Answers.{get_statistics-ok}

abbrev tables : List TableRow
tables =
    record {
      catalog_name = codes "shop";
      table = codes "t";
      row_count = some 7;
      avg_row_length = none;
      data_length = some 16_384;
      index_length = none;
    }
    ∷ []

-- A column of the table, and one of a table that is not listed.
abbrev indexes : List IndexRow
indexes =
    record {
      catalog_name = codes "shop";
      table = codes "t";
      column = codes "id";
      cardinality = some 7;
    }
    ∷ record {
      catalog_name = codes "test";
      table = codes "u";
      column = codes "id";
      cardinality = some 1;
    }
    ∷ []

abbrev counting : Server
counting = record {
  State = ℕ;
  get_option = λ key s. (err [], s);
  set_option = λ key value s. (err [], s);
  clear_pending = λ s. (ok tt, s);
  execute = λ statement s. (ok tt, suc s);
  query_text = λ query s. (err [], s);
}

abbrev answer : {R : Type 0} → List R → Bytes → List Bytes → ℕ → Result Bytes (Rows R) × ℕ
answer rows sql args s = (ok (complete rows), suc s)

-- The reader is the number of catalogs.
abbrev build : List Bytes → Dict (List Bytes) → Dict (Dict (List Statistic)) → Result Bytes ℕ
build order schemas stats = ok (length order)

tables_named : TableNames tables
unfolding split_at_byte
tables_named = (refl, tt)

indexes_named : IndexNames indexes
unfolding split_at_byte
indexes_named = (refl, (refl, tt))

get_statistics-ok_example :
    (reader : ℕ) × (get_statistics
        (pos 6)
        (pos 1)
        ℕ
        (ok 0)
        build
        counting
        (answer tables)
        (answer indexes)
        none
        none
        none
        0
      ≡ (ok reader, 2))
get_statistics-ok_example =
    get_statistics-ok (pos 6) (pos 1) ℕ (ok 0) build (0, refl)
      (λ order schemas stats. (length order, refl)) counting (answer tables) (answer indexes) none
      none none 0 0 1 2 tables indexes refl refl refl refl tables_named indexes_named

get_one :
    get_statistics
      (pos 6)
      (pos 1)
      ℕ
      (ok 0)
      build
      counting
      (answer tables)
      (answer indexes)
      none
      none
      none
      0
    ≡ (ok 1, 2)
unfolding get_statistics complete equal
get_one = refl

tables_answered :
    (rows : Rows TableRow) → complete tables ≡ rows → TableNames (split_scan rows.scanned).0
unfolding complete split_scan
tables_answered rows e =
    subst (λ (r : Rows TableRow). TableNames (split_scan r.scanned).0) e tables_named

indexes_answered :
    (rows : Rows IndexRow) → complete indexes ≡ rows → IndexNames (split_scan rows.scanned).0
unfolding complete split_scan
indexes_answered rows e =
    subst (λ (r : Rows IndexRow). IndexNames (split_scan r.scanned).0) e indexes_named

get_statistics-Found_example :
    (s1 : ℕ) × (counting.clear_pending 0 ≡ (ok tt, s1))
    × Found (pos 6) (pos 1) ℕ (ok 0) build counting (answer tables) (answer indexes) none none s1 1
get_statistics-Found_example =
    get_statistics-Found (pos 6) (pos 1) ℕ (ok 0) build counting (answer tables) (answer indexes)
      none none none 0 2 1 refl get_one
      (λ s s' rows e. tables_answered rows (ok-injective (ap (λ p. p.0) e)))
      (λ s s' rows e. indexes_answered rows (ok-injective (ap (λ p. p.0) e)))
