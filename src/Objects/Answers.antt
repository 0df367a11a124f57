-- ===== src/Objects/Answers.antt =====
-- `GetObjects` of go/connection_getobjects.go where the server answers.
use adbc_driver_mariadb.Base.{
  ◌≡◌, refl, ap, ◌∙◌, Bool, true, false, List, [], ◌∷◌, map, Option, none,
}
use adbc_driver_mariadb.Base.Text.{Bytes}
use adbc_driver_mariadb.Base.Int.{ℤ}
use adbc_driver_mariadb.Base.Result.{Result, ok, err}
use adbc_driver_mariadb.Session.Server.{Failure, Server}
use adbc_driver_mariadb.Session.Rows.{
  Rows, split_scan, unless_error, close_rows, complete, split_scan-complete,
}
use adbc_driver_mariadb.Objects.Query.{
  ObjectsFilter, include_tables, objects_query, constraints_query,
}
use adbc_driver_mariadb.Objects.Group.{no_groups, group_rows}
use adbc_driver_mariadb.Objects.GroupTotal.{Joined, group_rows-total}
use adbc_driver_mariadb.Objects.Constraints.{ConstraintRow, table_map, start, constraint_rows}
use adbc_driver_mariadb.Objects.Slices.{CatalogObject, slices, table_names, attach}
use adbc_driver_mariadb.Objects.Handler.{
  ObjectRow, row_of, constraints_result, constrained, add_table_constraints, grouped,
  objects_result, with_constraints, get_objects,
}

constraints_result-complete :
    (rows : List ConstraintRow) (objects : List CatalogObject)
    → (objects' : List CatalogObject) × (constraints_result (complete rows) objects ≡ ok objects')
unfolding complete
constraints_result-complete rows objects = (
  _,
  ap
      (λ (p : List ConstraintRow × Option Bytes).
        unless_error "failed to scan table constraint" p.1
          (ok (
            attach (constraint_rows (table_map (table_names objects) 0 []) p.0 (start, λ q. [])).1 0
              objects))
          err)
      (split_scan-complete rows),
)

module _ (srv : Server) (no_nulls nullable : ℤ)
    (query_objects : Bytes → List Bytes → srv.State → Result Bytes (Rows ObjectRow) × srv.State)
    (query_constraints : Bytes
      → List Bytes
      → srv.State
      → Result Bytes (Rows ConstraintRow) × srv.State)
    (Reader : Type 0) (build : List CatalogObject → Result Bytes Reader) where
  objects_result-complete :
      (d : Option Bytes) (rows : List ObjectRow)
      → Joined d (map (row_of no_nulls nullable) rows)
      → (objects : List CatalogObject) × (objects_result srv no_nulls nullable query_objects
            query_constraints Reader build
            (complete rows)
          ≡ ok objects)
  unfolding objects_result complete
  objects_result-complete d rows h =
      let (g, e) = group_rows-total d (map (row_of no_nulls nullable) rows) h in
      let group =
        grouped srv no_nulls nullable query_objects query_constraints Reader build
          (complete rows) in
      (
        slices g.infos,
        ap
              (λ (p : List ObjectRow × Option Bytes).
                group p.1 (group_rows (map (row_of no_nulls nullable) p.0) no_groups))
              (split_scan-complete rows)
            ∙ ap (group none) e,
      )

  -- The constraint query is answered wherever it is asked.
  abbrev pub AnswersConstraints : ObjectsFilter → Type 0
  AnswersConstraints f =
      let q = constraints_query f.catalog f.table_name f.table_type in
      (s : srv.State)
      → (rows : List ConstraintRow) × (s' : srv.State) × (query_constraints q.sql q.args s
          ≡ (ok (complete rows), s'))

  constrained-ok :
      (f : ObjectsFilter) (objects : List CatalogObject) (names : List (Bytes × Bytes))
      (s : srv.State)
      → AnswersConstraints f
      → (objects' : List CatalogObject) × (s' : srv.State) × (constrained srv no_nulls nullable
            query_objects query_constraints Reader build f objects names s
          ≡ (ok objects', s'))
  unfolding complete split_scan
  constrained-ok f objects [] s answers = (objects, s, refl)
  constrained-ok f objects (t ∷ ts) s answers =
      let (rows, s', e) = answers s in
      let (objects', e') = constraints_result-complete rows objects in
      (
        objects',
        s',
        rw e (ap (λ (r : Result Failure (List CatalogObject)). (close_rows none r, s')) e'),
      )

  with_constraints-ok :
      (f : ObjectsFilter) (objects : List CatalogObject) (b : Bool) (s : srv.State)
      → AnswersConstraints f
      → (objects' : List CatalogObject) × (s' : srv.State) × (with_constraints srv no_nulls nullable
            query_objects query_constraints Reader build f objects b s
          ≡ (ok objects', s'))
  unfolding add_table_constraints
  with_constraints-ok f objects false s answers = (objects, s, refl)
  with_constraints-ok f objects true s answers =
      constrained-ok f objects (table_names objects) s answers

  -- Where the pending results can be cleared, the server answers the queries with complete rows, the
  -- objects' rows are as the joins of the query give them (the same schema in each, NULL or not, and no
  -- table where it is NULL), and a reader can be built from any objects, `GetObjects` returns a reader,
  -- at every depth and with every filter.
  pub get_objects-ok :
      (f : ObjectsFilter) (s s1 s2 : srv.State) (d : Option Bytes) (rows : List ObjectRow)
      → srv.clear_pending s ≡ (ok tt, s1)
      → query_objects (objects_query f).sql (objects_query f).args s1 ≡ (ok (complete rows), s2)
      → Joined d (map (row_of no_nulls nullable) rows)
      → AnswersConstraints f
      → ((objects : List CatalogObject) → (reader : Reader) × (build objects ≡ ok reader))
      → (reader : Reader) × (s' : srv.State) × (get_objects srv no_nulls nullable query_objects
            query_constraints Reader build f s
          ≡ (ok reader, s'))
  unfolding get_objects
  get_objects-ok f s s1 s2 d rows cleared found schemas answers builds =
      let (objects, e) = objects_result-complete d rows schemas in
      let (objects', s', e') = with_constraints-ok f objects (include_tables f.depth) s2 answers in
      let (reader, b) = builds objects' in (reader, s', rw (cleared, found, e, e', b) refl)
