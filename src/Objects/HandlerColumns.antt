-- ===== src/Objects/HandlerColumns.antt =====
-- The columns in the result of `GetObjects` in go/connection_getobjects.go, from the rows that the
-- server answered.
use mathlib.Core.List.{reverse}
use adbc_driver_mariadb.Base.{
  ◌≡◌, refl, ap, sym, ◌∙◌, Bool, true, false, List, [], ◌∷◌, map, Option, none, some,
}
use adbc_driver_mariadb.Base.Text.{Bytes}
use adbc_driver_mariadb.Base.Int.{ℤ}
use adbc_driver_mariadb.Base.Result.{Result, ok, err, ok-injective}
use adbc_driver_mariadb.Session.Server.{Failure, Server, of_result, pass, wrap}
use adbc_driver_mariadb.Session.Rows.{Rows, split_scan, unless_error}
use adbc_driver_mariadb.Session.Inversion.{
  bind-ok, pass-ok, wrap-ok, close_rows-ok, unless_error-ok,
}
use adbc_driver_mariadb.Objects.Query.{
  ObjectsFilter, include_tables, objects_query, constraints_query,
}
use adbc_driver_mariadb.Objects.Group.{Row, Groups, no_groups, group_rows}
use adbc_driver_mariadb.Objects.GroupKeeps.{group_rows-in_rows}
use adbc_driver_mariadb.Objects.Constraints.{ConstraintRow, table_map, start, constraint_rows}
use adbc_driver_mariadb.Objects.Slices.{CatalogObject, slices, table_names, attach}
use adbc_driver_mariadb.Objects.Built.{
  objects_columns, columns_in, reverse-in_rows, objects_columns-slices, objects_columns-attach,
}
use adbc_driver_mariadb.Objects.Handler.{
  ObjectRow, row_of, constraints_result, constrained, add_table_constraints, grouped,
  objects_result, with_constraints, get_objects,
}

constraints_result-columns :
    (rows : Rows ConstraintRow) (objects objects' : List CatalogObject)
    → constraints_result rows objects ≡ ok objects'
    → objects_columns objects' ≡ objects_columns objects
constraints_result-columns rows objects objects' h =
    let (scanned, scan) = split_scan rows.scanned in
    let heap =
      (constraint_rows (table_map (table_names objects) 0 []) scanned (start, λ p. [])).1 in
    let inner : Result Failure (List CatalogObject) =
      unless_error "error during table constraint iteration" rows.error (ok (attach heap 0 objects))
        err in
    let (e, _) = unless_error-ok "failed to scan table constraint" scan inner h in
    let (e', _) =
      unless_error-ok "error during table constraint iteration" rows.error
        (ok (attach heap 0 objects)) e in
    ap objects_columns (sym (ok-injective e')) ∙ objects_columns-attach heap 0 objects

module _ (srv : Server) (no_nulls nullable : ℤ)
    (query_objects : Bytes → List Bytes → srv.State → Result Bytes (Rows ObjectRow) × srv.State)
    (query_constraints : Bytes
      → List Bytes
      → srv.State
      → Result Bytes (Rows ConstraintRow) × srv.State)
    (Reader : Type 0) (build : List CatalogObject → Result Bytes Reader) where
  abbrev rows_of : Rows ObjectRow → List Row
  rows_of rows = map (row_of no_nulls nullable) (split_scan rows.scanned).0

  grouped-columns :
      (rows : Rows ObjectRow) (o : Option Groups) (objects : List CatalogObject)
      → group_rows (rows_of rows) no_groups ≡ o
      → grouped srv no_nulls nullable query_objects query_constraints Reader build rows
          (split_scan rows.scanned).1
          o
        ≡ ok objects
      → (objects_columns objects ≡ columns_in (rows_of rows)) × ((split_scan rows.scanned).1 ≡ none)
  grouped-columns rows none objects e h = cc
  grouped-columns rows (some g) objects e h =
      let closed : Result Failure (List CatalogObject) =
        unless_error "failed to close objects rows" rows.close (ok (slices g.infos)) err in
      let ended : Result Failure (List CatalogObject) =
        unless_error "error during objects iteration" rows.error closed err in
      let (h1, none_left) =
        unless_error-ok "failed to scan objects row" (split_scan rows.scanned).1 ended h in
      let (h2, _) = unless_error-ok "error during objects iteration" rows.error closed h1 in
      let (h3, _) =
        unless_error-ok "failed to close objects rows" rows.close (ok (slices g.infos)) h2 in
      (
        ap objects_columns (sym (ok-injective h3))
            ∙ objects_columns-slices g.infos
            ∙ ap reverse (group_rows-in_rows (rows_of rows) g e)
            ∙ reverse-in_rows (rows_of rows),
        none_left,
      )

  objects_result-columns :
      (rows : Rows ObjectRow) (objects : List CatalogObject)
      → objects_result srv no_nulls nullable query_objects query_constraints Reader build rows
        ≡ ok objects
      → (objects_columns objects ≡ columns_in (rows_of rows)) × ((split_scan rows.scanned).1 ≡ none)
  unfolding objects_result
  objects_result-columns rows objects h =
      grouped-columns rows (group_rows (rows_of rows) no_groups) objects refl h

  constrained-columns :
      (f : ObjectsFilter) (objects objects' : List CatalogObject) (names : List (Bytes × Bytes))
      (s s' : srv.State)
      → constrained srv no_nulls nullable query_objects query_constraints Reader build f objects
          names s
        ≡ (ok objects', s')
      → objects_columns objects' ≡ objects_columns objects
  constrained-columns f objects objects' [] s s' h =
      ap objects_columns (sym (ok-injective (ap (λ p. p.0) h)))
  constrained-columns f objects objects' (t ∷ ts) s s' h =
      let q = constraints_query f.catalog f.table_name f.table_type in
      let (rows, s1, _, h1) =
        bind-ok (wrap "failed to query table constraints" (query_constraints q.sql q.args)) _ s h in
      let (h2, _) = close_rows-ok rows.close (constraints_result rows objects) (ap (λ p. p.0) h1) in
      constraints_result-columns rows objects objects' h2

  with_constraints-columns :
      (f : ObjectsFilter) (objects objects' : List CatalogObject) (b : Bool) (s s' : srv.State)
      → with_constraints srv no_nulls nullable query_objects query_constraints Reader build f
          objects b s
        ≡ (ok objects', s')
      → objects_columns objects' ≡ objects_columns objects
  unfolding add_table_constraints
  with_constraints-columns f objects objects' false s s' h =
      ap objects_columns (sym (ok-injective (ap (λ p. p.0) h)))
  with_constraints-columns f objects objects' true s s' h =
      constrained-columns f objects objects' (table_names objects) s s' h

  abbrev pub Answered : ObjectsFilter → srv.State → Reader → Type 0
  Answered f s reader =
      (s1 s2 : srv.State) × (rows : Rows ObjectRow) × (objects : List CatalogObject)
      × (srv.clear_pending s ≡ (ok tt, s1))
      × (query_objects (objects_query f).sql (objects_query f).args s1 ≡ (ok rows, s2))
      × ((split_scan rows.scanned).1 ≡ none)
      × (build objects ≡ ok reader)
      × (objects_columns objects ≡ columns_in (rows_of rows))

  -- Where `GetObjects` succeeds: the server answered its query with rows that could all be scanned, and
  -- the result was built from objects whose columns are exactly those of the rows that have a table and
  -- a column, each under its catalog and its table, in the order of the rows.
  pub get_objects-columns :
      (f : ObjectsFilter) (s s' : srv.State) (reader : Reader)
      → get_objects srv no_nulls nullable query_objects query_constraints Reader build f s
        ≡ (ok reader, s')
      → Answered f s reader
  unfolding get_objects
  get_objects-columns f s s' reader h =
      let (_, s1, h1, k1) = bind-ok (pass srv.clear_pending) _ s h in
      let (rows, s2, h2, k2) =
        bind-ok
          (wrap "failed to query objects"
            (query_objects (objects_query f).sql (objects_query f).args))
          _ s1 k1 in
      let result =
        objects_result srv no_nulls nullable query_objects query_constraints Reader build rows in
      let (objects, s3, h3, k3) = bind-ok (of_result result) _ s2 k2 in
      let (objects', s4, h4, k4) =
        bind-ok
          (with_constraints srv no_nulls nullable query_objects query_constraints Reader build f
            objects (include_tables f.depth))
          _ s3 k3 in
      let (e, none_left) = objects_result-columns rows objects (ap (λ p. p.0) h3) in
      (
        s1,
        s2,
        rows,
        objects',
        pass-ok srv.clear_pending s h1,
        wrap-ok "failed to query objects"
            (query_objects (objects_query f).sql (objects_query f).args) s1 h2,
        none_left,
        ap (λ p. p.0) (pass-ok (λ s. (build objects', s)) s4 k4),
        with_constraints-columns f objects objects' (include_tables f.depth) s3 s4 h4 ∙ e,
      )
