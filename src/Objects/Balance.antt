-- ===== src/Objects/Balance.antt =====
-- Placeholders and arguments of the queries of go/connection_getobjects.go.
use adbc_driver_mariadb.Base.{
  Bool, true, false, ◌≡◌, refl, List, [], ◌∷◌, ◌++◌, length, Option, none, some, arith,
}
use adbc_driver_mariadb.Base.Text.{Bytes, codes}
use adbc_driver_mariadb.Sql.Scan.{scan, count_placeholders}
use adbc_driver_mariadb.Sql.Builder.{
  Query, write, HasMarks, IsBalanced, NoMarks, OneMark, HasMarks-zero, HasMarks-one,
  HasMarks-append, HasMarks-eq, placeholders-HasMarks, write-IsBalanced, bind-IsBalanced,
  bind_all-IsBalanced, count_placeholders-IsBalanced, placeholders,
}
use adbc_driver_mariadb.Objects.Query.{
  ObjectsFilter, objects_query, constraints_query, schema_filter, table_filter, column_filter,
  bind_if, bind_types, empty_query, never, include_schemas, include_tables, include_columns,
  select_text, schema_join_text, table_join_text, column_join_text, constraints_text, types_text,
  constraints_order,
}

empty-IsBalanced : IsBalanced empty_query
empty-IsBalanced = record { marks = HasMarks-zero (λ k rest. refl) }

never-NoMarks : NoMarks never
unfolding scan
never-NoMarks k rest = refl

module _ {b : Query} (h : IsBalanced b) where
  bind_if-IsBalanced :
      (text : Bytes) (v : Option Bytes) → OneMark text → IsBalanced (bind_if b text v)
  bind_if-IsBalanced text none f = h
  bind_if-IsBalanced text (some v) f = bind-IsBalanced text v h (HasMarks-one f)

  bind_types-IsBalanced :
      (text : Bytes) (ts : List Bytes) → NoMarks text → IsBalanced (bind_types b text ts)
  unfolding scan
  bind_types-IsBalanced text [] f = h
  bind_types-IsBalanced text (t ∷ ts) f =
      let closed : HasMarks (codes ")") 0 = HasMarks-zero (λ k rest. refl) in
      let inner = HasMarks-append (placeholders-HasMarks (length (t ∷ ts))) closed in
      bind_all-IsBalanced (text ++ (placeholders (length (t ∷ ts)) ++ codes ")")) (t ∷ ts) h
        (HasMarks-eq (HasMarks-append (HasMarks-zero f) inner) (omega arith))

  write_text : (text : Bytes) → NoMarks text → IsBalanced (write b text)
  write_text text f = write-IsBalanced text h (HasMarks-zero f)

module _ {b : Query} (h : IsBalanced b) where
  schema_filter-IsBalanced : (on : Bool) (v : Option Bytes) → IsBalanced (schema_filter on v b)
  unfolding schema_filter scan
  schema_filter-IsBalanced false v = write_text h never never-NoMarks
  schema_filter-IsBalanced true v = bind_if-IsBalanced h _ v (λ k rest. refl)

  table_filter-IsBalanced :
      (on : Bool) (v : Option Bytes) (ts : List Bytes) → IsBalanced (table_filter on v ts b)
  unfolding table_filter scan
  table_filter-IsBalanced false v ts = write_text h never never-NoMarks
  table_filter-IsBalanced true v ts =
      bind_types-IsBalanced (bind_if-IsBalanced h _ v (λ k rest. refl)) types_text ts
        (λ k rest. refl)

  column_filter-IsBalanced : (on : Bool) (v : Option Bytes) → IsBalanced (column_filter on v b)
  unfolding column_filter scan
  column_filter-IsBalanced false v = write_text h never never-NoMarks
  column_filter-IsBalanced true v = bind_if-IsBalanced h _ v (λ k rest. refl)

objects_query-IsBalanced : (f : ObjectsFilter) → IsBalanced (objects_query f)
unfolding objects_query scan
objects_query-IsBalanced f =
    let selected = write_text empty-IsBalanced select_text (λ k rest. refl) in
    let joined = write_text selected schema_join_text (λ k rest. refl) in
    let schemas = schema_filter-IsBalanced joined (include_schemas f.depth) f.db_schema in
    let joined' = write_text schemas table_join_text (λ k rest. refl) in
    let tables =
      table_filter-IsBalanced joined' (include_tables f.depth) f.table_name f.table_type in
    let joined'' = write_text tables column_join_text (λ k rest. refl) in
    let columns = column_filter-IsBalanced joined'' (include_columns f.depth) f.column_name in
    write_text (bind_if-IsBalanced columns _ f.catalog (λ k rest. refl)) _ (λ k rest. refl)

constraints_query-IsBalanced :
    (catalog table_name : Option Bytes) (table_type : List Bytes)
    → IsBalanced (constraints_query catalog table_name table_type)
unfolding constraints_query scan
constraints_query-IsBalanced catalog table_name table_type =
    let selected = write_text empty-IsBalanced constraints_text (λ k rest. refl) in
    let by_catalog = bind_if-IsBalanced selected _ catalog (λ k rest. refl) in
    let by_table = bind_if-IsBalanced by_catalog _ table_name (λ k rest. refl) in
    write_text (bind_types-IsBalanced by_table types_text table_type (λ k rest. refl))
      constraints_order (λ k rest. refl)

-- For every depth and every filter, the query of `GetObjects` has as many placeholders outside of
-- quotes and comments as it has arguments.
pub count_placeholders-objects_query :
    (f : ObjectsFilter) → count_placeholders (objects_query f).sql ≡ length (objects_query f).args
count_placeholders-objects_query f = count_placeholders-IsBalanced (objects_query-IsBalanced f)

-- For every filter, the query of `addTableConstraints` has as many placeholders outside of quotes
-- and comments as it has arguments.
count_placeholders-constraints_query :
    (catalog table_name : Option Bytes) (table_type : List Bytes)
    → let b = constraints_query catalog table_name table_type in
      count_placeholders b.sql ≡ length b.args
count_placeholders-constraints_query catalog table_name table_type =
    count_placeholders-IsBalanced (constraints_query-IsBalanced catalog table_name table_type)
