-- ===== src/Schema/HandlerFields.antt =====
-- The fields of the schema that `GetTableSchema` in go/connection.go returns.
use text.Mathlib.Text.{◌==◌ as str_eq}
use adbc_driver_mariadb.Base.{
  String, Bool, true, false, ◌≡◌, ◌≢◌, refl, ap, sym, ◌∙◌, List, [], ◌∷◌, map, Option, none, some,
  inl, inr, if◌then◌else◌, Bool-cases,
}
use adbc_driver_mariadb.Base.Text.{Bytes, codes, to_upper, equal_fold}
use adbc_driver_mariadb.Base.Dict.{Dict}
use adbc_driver_mariadb.Base.Result.{Result, ok, err, ok-injective, ◌>>=◌, bind-ok}
use adbc_driver_mariadb.Arrow.{Metadata, Field, get_value}
use adbc_driver_mariadb.Convert.Column.{Library, convert_raw_column_type}
use adbc_driver_mariadb.Session.Server.{Failure, wrapped_io_for, of_result, pass, wrap, Server}
use adbc_driver_mariadb.Session.Rows.{Rows, split_scan, unless_error, close_rows}
use adbc_driver_mariadb.Session.Inversion.{bind-ok as step-ok, pass-ok, wrap-ok, unless_error-ok}
use adbc_driver_mariadb.Schema.TypeValues.{ValuesError}
use adbc_driver_mariadb.Schema.Json.{is_marked}
use adbc_driver_mariadb.Schema.Column.{
  TableColumn, put, put_if, to_map, fail_as, is_enumerated, values_key, encoded_values, with_values,
  column_metadata, column_type_of, build_field,
}
use adbc_driver_mariadb.Schema.Metadata.{get_value-put, get_value-put_if}
use adbc_driver_mariadb.Schema.Handler.{
  columns_query, found, columns_result, json_result, cons_field, build_fields, selected_catalog,
  checks_query, schema_of, get_table_schema,
}

pub fail_as-ok :
    {E A : Type 0} (f : E → Failure) (r : Result E A) {a : A} → fail_as f r ≡ ok a → r ≡ ok a
fail_as-ok f (ok a) h = cc
fail_as-ok f (err e) h = cc

column_metadata-column_type :
    (col : TableColumn) (m : Metadata)
    → get_value (column_metadata col m) "mariadb.column_type" ≡ some col.column_type
unfolding column_metadata
column_metadata-column_type col m =
    let declared = put "mariadb.column_type" col.column_type (to_map m []) in
    get_value-put_if "mariadb.collation" "mariadb.column_type" col.collation_name
      (put_if "mariadb.character_set" col.character_set_name declared) refl
    ∙ get_value-put_if "mariadb.character_set" "mariadb.column_type" col.character_set_name declared
        refl
    ∙ get_value-put "mariadb.column_type" "mariadb.column_type" col.column_type (to_map m [])

values_key-other : (t : Bytes) → str_eq (values_key t) "mariadb.column_type" ≡ false
values_key-other t = elim (Bool-cases (equal_fold t (codes "SET"))) [
  | inl e ↦ rw e refl
  | inr e ↦ rw e refl
]

-- A field, and a column, by its name and its declaration.
abbrev pub declared : Field → Bytes × Option Bytes
declared f = (f.name, get_value f.metadata "mariadb.column_type")

abbrev pub declaration : TableColumn → Bytes × Option Bytes
declaration col = (col.column_name, some col.column_type)

cons_field-ok :
    (r : Result Failure (List Field)) (f : Field) {fields : List Field}
    → cons_field r f ≡ ok fields
    → (rest : List Field) × (r ≡ ok rest) × (f ∷ rest ≡ fields)
cons_field-ok (ok rest) f h = (rest, refl, ok-injective h)
cons_field-ok (err e) f h = cc

found-ok :
    (table_name : Bytes) (columns : List TableColumn) {columns' : List TableColumn}
    → found table_name columns ≡ ok columns'
    → (columns ≡ columns') × (columns ≢ [])
found-ok table_name [] h = cc
found-ok table_name (col ∷ columns) h = (ok-injective h, λ e. cc)

no_error :
    (message : String) (e close : Option Bytes) (r : Result Failure (List TableColumn))
    {columns : List TableColumn}
    → unless_error message e r (λ f. close_rows close (err f)) ≡ ok columns
    → (r ≡ ok columns) × (e ≡ none)
no_error message none close r h = (h, refl)
no_error message (some e) none r h = cc
no_error message (some e) (some e') r h = cc

columns_result-ok :
    (table_name : Bytes) (rows : Rows TableColumn) {columns : List TableColumn}
    → columns_result table_name rows ≡ ok columns
    → ((split_scan rows.scanned).0 ≡ columns)
      × ((split_scan rows.scanned).0 ≢ [])
      × ((split_scan rows.scanned).1 ≡ none)
unfolding columns_result
columns_result-ok table_name rows h =
    let (columns, scan) = split_scan rows.scanned in
    let closed : Result Failure (List TableColumn) =
      unless_error "failed to close table schema rows" rows.close (found table_name columns) err in
    let ended : Result Failure (List TableColumn) =
      unless_error "rows error" rows.error closed (λ f. close_rows rows.close (err f)) in
    let (h1, all) = no_error "failed to scan column information" scan rows.close ended h in
    let (h2, _) = no_error "rows error" rows.error rows.close closed h1 in
    let (h3, _) =
      unless_error-ok "failed to close table schema rows" rows.close (found table_name columns)
        h2 in
    let (e, some_rows) = found-ok table_name columns h3 in (e, some_rows, all)

module _ (lib : Library) (marshal : List Bytes → Result Bytes Bytes)
    (values_error : Bytes → ValuesError → Bytes) where
  with_values-column_type :
      (b : Bool) (col : TableColumn) (m m' : Metadata)
      → (if b
          then encoded_values lib marshal values_error col
            >>= (λ encoded. ok (put (values_key col.data_type) encoded m))
          else ok m)
        ≡ ok m'
      → get_value m' "mariadb.column_type" ≡ get_value m "mariadb.column_type"
  with_values-column_type true col m m' h =
      let (encoded, _, e) =
        bind-ok (encoded_values lib marshal values_error col)
          (λ encoded. ok (put (values_key col.data_type) encoded m)) h in
      ap (λ m. get_value m "mariadb.column_type") (sym (ok-injective e))
      ∙ get_value-put (values_key col.data_type) "mariadb.column_type" encoded m
      ∙ (rw (values_key-other col.data_type) refl)
  with_values-column_type false col m m' h =
      ap (λ m. get_value m "mariadb.column_type") (sym (ok-injective h))

  build_field-column :
      (json : Bool) (col : TableColumn) (f : Field)
      → build_field lib marshal values_error json col ≡ ok f
      → (f.name ≡ col.column_name)
        × (get_value f.metadata "mariadb.column_type" ≡ some col.column_type)
  unfolding build_field with_values
  build_field-column json col f h =
      let (c, _, k) =
        bind-ok
          (fail_as (wrapped_io_for "failed to convert column type for %s" (col.column_name ∷ []))
            (convert_raw_column_type lib (column_type_of json col)))
          _ h in
      let (m, e, l) =
        bind-ok (with_values lib marshal values_error col (column_metadata col c.metadata)) _ k in
      let same = ok-injective l in
      (
        ap (λ (f : Field). f.name) (sym same),
        ap (λ (f : Field). get_value f.metadata "mariadb.column_type") (sym same)
            ∙ with_values-column_type (is_enumerated (to_upper col.data_type)) col
                (column_metadata col c.metadata) m e
            ∙ column_metadata-column_type col c.metadata,
      )

  build_fields-columns :
      (json_columns : Dict Bool) (columns : List TableColumn) (fields : List Field)
      → build_fields lib marshal values_error json_columns columns ≡ ok fields
      → map declared fields ≡ map declaration columns
  unfolding build_fields
  build_fields-columns json_columns [] fields h = ap (map declared) (sym (ok-injective h))
  build_fields-columns json_columns (col ∷ columns) fields h =
      let json = is_marked json_columns col.column_name in
      let (f, e, k) =
        bind-ok (build_field lib marshal values_error json col)
          (cons_field (build_fields lib marshal values_error json_columns columns)) h in
      let (rest, e', same) =
        cons_field-ok (build_fields lib marshal values_error json_columns columns) f k in
      let (name, column_type) = build_field-column json col f e in
      ap (map declared) (sym same)
      ∙ (λ i. (name i, column_type i) ∷ build_fields-columns json_columns columns rest e' i)

  module _ (srv : Server)
      (query_columns : Bytes → List Bytes → srv.State → Result Bytes (Rows TableColumn) × srv.State)
      (query_checks : Bytes → List Bytes → srv.State → Result Bytes (Rows Bytes) × srv.State) where
    schema_of-columns :
        (selected table_name : Bytes) (columns : List TableColumn) (fields : List Field)
        (s s' : srv.State)
        → schema_of lib marshal values_error srv query_columns query_checks selected table_name
            columns s
          ≡ (ok fields, s')
        → map declared fields ≡ map declaration columns
    unfolding schema_of
    schema_of-columns selected table_name columns fields s s' h =
        let (clauses, s1) = query_checks checks_query (selected ∷ table_name ∷ []) s in
        let (json_columns, s2, _, h2) =
          step-ok (of_result (json_result columns clauses))
            (λ j. of_result (build_fields lib marshal values_error j columns)) s1 h in
        build_fields-columns json_columns columns fields (ap (λ p. p.0) h2)

    abbrev pub Described : Option Bytes → Bytes → srv.State → List Field → Type 0
    Described catalog table_name s fields =
        (s1 s2 s3 : srv.State) × (selected : Bytes) × (rows : Rows TableColumn) × (srv.clear_pending
            s
          ≡ (ok tt, s1))
        × (selected_catalog srv catalog s1 ≡ (ok selected, s2))
        × (query_columns columns_query (selected ∷ table_name ∷ []) s2 ≡ (ok rows, s3))
        × ((split_scan rows.scanned).0 ≢ [])
        × ((split_scan rows.scanned).1 ≡ none)
        × (map declared fields ≡ map declaration (split_scan rows.scanned).0)

    -- Where `GetTableSchema` succeeds: the server answered the column query, for the catalog that was
    -- given or else the current one, with at least one row, all rows could be scanned, and the schema
    -- has one field for each of them, in their order, with the column's name and, under
    -- "mariadb.column_type", its declaration.
    pub get_table_schema-fields :
        (catalog : Option Bytes) (table_name : Bytes) (s s' : srv.State) (fields : List Field)
        → get_table_schema lib marshal values_error srv query_columns query_checks catalog
            table_name s
          ≡ (ok fields, s')
        → Described catalog table_name s fields
    unfolding get_table_schema
    get_table_schema-fields catalog table_name s s' fields h =
        let (_, s1, h1, k1) = step-ok (pass srv.clear_pending) _ s h in
        let (selected, s2, h2, k2) = step-ok (selected_catalog srv catalog) _ s1 k1 in
        let (rows, s3, h3, k3) =
          step-ok
            (wrap "failed to query table schema"
              (query_columns columns_query (selected ∷ table_name ∷ [])))
            _ s2 k2 in
        let (columns, s4, h4, k4) = step-ok (of_result (columns_result table_name rows)) _ s3 k3 in
        let (e, some_rows, all) = columns_result-ok table_name rows (ap (λ p. p.0) h4) in
        (
          s1,
          s2,
          s3,
          selected,
          rows,
          pass-ok srv.clear_pending s h1,
          h2,
          wrap-ok "failed to query table schema"
              (query_columns columns_query (selected ∷ table_name ∷ [])) s2 h3,
          some_rows,
          all,
          schema_of-columns selected table_name columns fields s4 s' k4
              ∙ ap (map declaration) (sym e),
        )
