-- ===== src/Objects/ConstraintsKeep.antt =====
-- The columns that the constraints of go/connection_getobjects.go end with.
use adbc_driver_mariadb.Base.{
  ℕ, ◌≡◌, ◌≢◌, refl, ap, sym, ◌∙◌, ◌⊎◌, inl, inr, Bool, true, false, not, ◌||◌, List, [], ◌∷◌, ◌++◌,
  append_assoc, append-nil, Option, none, some, some-injective, arith, ◌==◌, ==_iff, if◌then◌else◌,
  Bool-cases,
}
use adbc_driver_mariadb.Base.Text.{Bytes, equal, equal_iff}
use adbc_driver_mariadb.Base.Dict.{Dict, lookup}
use adbc_driver_mariadb.Objects.Key.{table_key, table_key-no_nil}
use adbc_driver_mariadb.Objects.Constraints.{
  ConstraintRow, ConstraintInfo, Heap, update, Cursor, start, enter_key, enter_constraint,
  fill_constraint, with_column, with_usage, add_to, constraint_row, constraint_rows,
}

-- A column with the name of its constraint.
abbrev pub Named : Type 0
Named = Bytes × Bytes

pub under : Bytes → List Bytes → List Named
under name [] = []
under name (column ∷ columns) = (name, column) ∷ under name columns

-- The columns of a table's constraints, the newest first.
pub columns_of : List ConstraintInfo → List Named
columns_of [] = []
columns_of (i ∷ is) = under i.constraint_name i.column_names ++ columns_of is

abbrev pub row_column : Bytes → Option Bytes → List Named
row_column name none = []
row_column name (some column) = (name, column) ∷ []

-- Whether a key is that of the table behind `p`.
abbrev pub points : Option ℕ → ℕ → Bool
points none p = false
points (some q) p = q == p

abbrev pub row_at : Dict ℕ → ℕ → ConstraintRow → List Named
row_at tables p row =
    if points (lookup (table_key row.catalog row.table) tables) p
    then row_column row.constraint_name row.column_name
    else []

-- The columns in the rows that are about the table behind `p`, the last row's first.
pub rows_at : Dict ℕ → ℕ → List ConstraintRow → List Named
rows_at tables p [] = []
rows_at tables p (row ∷ rows) = rows_at tables p rows ++ row_at tables p row

-- The newest of the constraints has this name.
abbrev Newest : Bytes → List ConstraintInfo → Type 0
Newest name [] = ⊥
Newest name (i ∷ is) = i.constraint_name ≡ name

record IsCursor (tables : Dict ℕ) (c : Cursor) (heap : Heap) : Type 0 where
  table : (c.key ≡ []) ⊎ (c.current_table ≡ lookup c.key tables)
  newest : (p : ℕ) → c.current_table ≡ some p → c.has_constraint ≡ true → Newest c.name (heap p)

Newest-eq : (m n : Bytes) (cs : List ConstraintInfo) → m ≡ n → Newest m cs → Newest n cs
Newest-eq m n [] e h = h
Newest-eq m n (i ∷ is) e h = h ∙ e

with_usage-columns :
    (a b c : Option Bytes) (i : ConstraintInfo)
    → ((with_usage a b c i).constraint_name ≡ i.constraint_name)
      × ((with_usage a b c i).column_names ≡ i.column_names)
with_usage-columns a none c i = (refl, refl)
with_usage-columns a (some t) none i = (refl, refl)
with_usage-columns a (some t) (some c) i = (refl, refl)

with_column-columns :
    (o : Option Bytes) (i : ConstraintInfo)
    → ((with_column o i).constraint_name ≡ i.constraint_name)
      × (under i.constraint_name (with_column o i).column_names
          ≡ row_column i.constraint_name o ++ under i.constraint_name i.column_names)
unfolding under
with_column-columns none i = (refl, refl)
with_column-columns (some name) i = (refl, refl)

module _ (row : ConstraintRow) where
  enter_constraint-columns :
      (c : Cursor) (cs : List ConstraintInfo)
      → columns_of (enter_constraint row c cs) ≡ columns_of cs
  unfolding columns_of under enter_constraint
  enter_constraint-columns c cs = ground arith

  enter_constraint-Newest :
      (c : Cursor) (cs : List ConstraintInfo)
      → (c.has_constraint ≡ true → Newest c.name cs)
      → Newest row.constraint_name (enter_constraint row c cs)
  unfolding enter_constraint
  enter_constraint-Newest c cs h =
      elim (Bool-cases (not c.has_constraint || not (equal c.name row.constraint_name))) [
        | inl e ↦ rw e refl
        | inr e ↦
            let known : c.has_constraint ≡ true = ground arith in
            let same : equal c.name row.constraint_name ≡ true = ground arith in
            rw e (
              Newest-eq c.name row.constraint_name cs
                ((equal_iff c.name row.constraint_name).0 same) (h known))
      ]

  fill_constraint-columns :
      (cs : List ConstraintInfo)
      → Newest row.constraint_name cs
      → (columns_of (fill_constraint row cs)
          ≡ row_column row.constraint_name row.column_name ++ columns_of cs)
        × Newest row.constraint_name (fill_constraint row cs)
  unfolding columns_of under fill_constraint
  fill_constraint-columns [] h = absurd h
  fill_constraint-columns (i ∷ is) h =
      let col = with_column row.column_name i in
      let (n, l) =
        with_usage-columns row.foreign_catalog row.foreign_table row.foreign_column col in
      let (m, k) = with_column-columns row.column_name i in
      let name = n ∙ m in
      (
        ap (λ (t : Bytes × List Bytes). under t.0 t.1 ++ columns_of is) (λ j. (name j, l j))
            ∙ (ap (λ t. t ++ columns_of is) k
                ∙ (ap
                      (λ t.
                        (row_column t row.column_name ++ under i.constraint_name i.column_names)
                        ++ columns_of is)
                      h
                    ∙ append_assoc (row_column row.constraint_name row.column_name)
                        (under i.constraint_name i.column_names) (columns_of is))),
        name ∙ h,
      )

  -- What a row adds behind a pointer.
  add_to-columns :
      (c : Cursor) (heap : Heap) (p q : ℕ)
      → (c.has_constraint ≡ true → Newest c.name (heap q))
      → columns_of ((add_to row c (some q) heap).1 p)
        ≡ (if q == p then row_column row.constraint_name row.column_name else [])
          ++ columns_of (heap p)
  add_to-columns c heap p q h = elim (Bool-cases (q == p)) [
    | inr e ↦ rw e
    | inl e ↦
        let same : q ≡ p = (==_iff q p).0 e in
        let filled =
          fill_constraint-columns (enter_constraint row c (heap q))
            (enter_constraint-Newest c (heap q) h) in
        rw e (
          filled.0
          ∙ ap (λ t. row_column row.constraint_name row.column_name ++ t)
              (enter_constraint-columns c (heap q) ∙ ap (λ t. columns_of (heap t)) same))
  ]

  add_to-step :
      (c : Cursor) (heap : Heap) (p : ℕ) (o : Option ℕ)
      → ((q : ℕ) → o ≡ some q → c.has_constraint ≡ true → Newest c.name (heap q))
      → columns_of ((add_to row c o heap).1 p)
        ≡ (if points o p then row_column row.constraint_name row.column_name else [])
          ++ columns_of (heap p)
  add_to-step c heap p none h = refl
  add_to-step c heap p (some q) h = add_to-columns c heap p q (h q refl)

  update-Newest :
      (heap : Heap) (q : ℕ) (name : Bytes) (cs : List ConstraintInfo)
      → Newest name cs
      → Newest name (update heap q cs q)
  update-Newest heap q name cs h = let e : (q == q) ≡ true = ground arith in rw e h

  add_to-IsCursor :
      (tables : Dict ℕ) (c : Cursor) (heap : Heap) (o : Option ℕ)
      → c.current_table ≡ o
      → IsCursor tables c heap
      → let (c', heap') = add_to row c o heap in IsCursor tables c' heap'
  add_to-IsCursor tables c heap none e h = h
  add_to-IsCursor tables c heap (some q) e h = record {
    table = h.table;
    newest = λ p at has.
        let same : q ≡ p = some-injective q p (sym e ∙ at) in
        let filled =
          fill_constraint-columns (enter_constraint row c (heap q))
            (enter_constraint-Newest c (heap q) (h.newest q e)) in
        rw (← same) (update-Newest heap q row.constraint_name _ filled.1);
  }

enter_key-current :
    (tables : Dict ℕ) (k : Bytes) (c : Cursor) (heap : Heap)
    → k ≢ []
    → IsCursor tables c heap
    → ((enter_key tables k c).current_table ≡ lookup k tables)
      × IsCursor tables (enter_key tables k c) heap
unfolding enter_key
enter_key-current tables k c heap n h = elim (Bool-cases (equal k c.key)) [
  | inr e ↦ rw e (refl, record { table = inr refl; newest = λ p at has. cc })
  | inl e ↦
      let same : k ≡ c.key = (equal_iff k c.key).0 e in
      let known : c.current_table ≡ lookup k tables = elim h.table [
        | inl none_yet ↦ absurd (n (same ∙ none_yet))
        | inr found ↦ found ∙ ap (λ j. lookup j tables) (sym same)
      ] in
      rw e (known, h)
]

constraint_row-columns :
    (tables : Dict ℕ) (row : ConstraintRow) (c : Cursor) (heap : Heap) (p : ℕ)
    → IsCursor tables c heap
    → let (c', heap') = constraint_row tables row (c, heap) in
      (columns_of (heap' p) ≡ row_at tables p row ++ columns_of (heap p)) × IsCursor tables c' heap'
unfolding constraint_row
constraint_row-columns tables row c heap p h =
    let key = table_key row.catalog row.table in
    let (e, entered) =
      enter_key-current tables key c heap (table_key-no_nil row.catalog row.table) h in
    let c' = enter_key tables key c in
    (
      add_to-step row c' heap p c'.current_table entered.newest
          ∙ ap
              (λ o.
                (if points o p then row_column row.constraint_name row.column_name else [])
                ++ columns_of (heap p))
              e,
      add_to-IsCursor row tables c' heap c'.current_table refl entered,
    )

constraint_rows-columns :
    (tables : Dict ℕ) (rows : List ConstraintRow) (c : Cursor) (heap : Heap) (p : ℕ)
    → IsCursor tables c heap
    → columns_of ((constraint_rows tables rows (c, heap)).1 p)
      ≡ rows_at tables p rows ++ columns_of (heap p)
unfolding constraint_rows rows_at
constraint_rows-columns tables [] c heap p h = refl
constraint_rows-columns tables (row ∷ rows) c heap p h =
    let (e, h') = constraint_row-columns tables row c heap p h in
    let (c', heap') = constraint_row tables row (c, heap) in
    constraint_rows-columns tables rows c' heap' p h'
    ∙ (ap (λ l. rows_at tables p rows ++ l) e
        ∙ sym (append_assoc (rows_at tables p rows) (row_at tables p row) (columns_of (heap p))))

-- Whatever the order of the rows is: the constraints of a table end with exactly the columns of the
-- rows that are about that table, each under its constraint's name, and in the order of the rows.
pub constraint_rows-rows_at :
    (tables : Dict ℕ) (rows : List ConstraintRow) (p : ℕ)
    → columns_of ((constraint_rows tables rows (start, λ q. [])).1 p) ≡ rows_at tables p rows
unfolding columns_of
constraint_rows-rows_at tables rows p =
    constraint_rows-columns tables rows start (λ q. []) p
      (record { table = inl refl; newest = λ q e. cc })
    ∙ append-nil (rows_at tables p rows)
