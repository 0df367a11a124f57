-- ===== src/Ingest/Bounds.antt =====
-- The batch size and the first checks of `ExecuteBulkIngest` of go/connection.go.
use native.Mathlib.Nat.{le_trans, mul-le-mul_right}
use adbc_driver_mariadb.Base.{
  ℕ, ◌*◌, ◌/◌, ◌≤◌, ◌<◌, Bool, true, false, ◌≡◌, refl, List, length, ltb, ◌==◌, min, if◌then◌else◌,
  arith, ◌⊎◌, inl, inr, Bool-cases,
}
use adbc_driver_mariadb.Base.Text.{Bytes}
use adbc_driver_mariadb.Base.Int.{pos, ltb_ℤ}
use adbc_driver_mariadb.Base.Result.{Result, err}
use adbc_driver_mariadb.Arrow.{Field}
use adbc_driver_mariadb.Session.Server.{Failure, invalid_argument, Server}
use adbc_driver_mariadb.Ingest.Bulk.{
  batch_size, max_placeholders, default_batch_size, IngestOptions, execute_bulk_ingest,
}

cap_pos : (cols : ℕ) → 0 < cols → cols ≤ max_placeholders → 0 < max_placeholders / cols
cap_pos cols p h = grind arith

cap_mul : (cols : ℕ) → max_placeholders / cols * cols ≤ max_placeholders
cap_mul cols = grind arith

-- The batch size as a number of rows.
rows_of : ℕ → ℕ → ℕ
rows_of cols n =
    let cap = max_placeholders / cols in
    if n == 0 then min default_batch_size cap else if ltb cap n then cap else n

batch_size-rows_of : (cols n : ℕ) → batch_size cols (pos n) ≡ pos (rows_of cols n)
unfolding batch_size rows_of
batch_size-rows_of cols n = ground arith

rows_of_bounds :
    (cols n : ℕ)
    → 0 < max_placeholders / cols
    → (0 < rows_of cols n)
      × (rows_of cols n ≤ max_placeholders / cols)
      × (rows_of cols n ≤ (if n == 0 then default_batch_size else n))
unfolding rows_of
rows_of_bounds cols n h = (ground arith, ground arith, ground arith)

-- For a table of 1 to 65535 columns and any requested size that is not negative, a batch has at least
-- one row, its rows have at most 65535 placeholders together, and it is no larger than the size that
-- was asked for, or than 1000 where none was.
pub batch_size_bounds :
    (cols requested : ℕ)
    → 0 < cols
    → cols ≤ max_placeholders
    → (rows : ℕ) × (batch_size cols (pos requested) ≡ pos rows)
      × (0 < rows)
      × (rows * cols ≤ max_placeholders)
      × (rows ≤ (if requested == 0 then default_batch_size else requested))
batch_size_bounds cols requested p h =
    let b = rows_of_bounds cols requested (cap_pos cols p h) in
    (
      rows_of cols requested,
      batch_size-rows_of cols requested,
      b.0,
      le_trans (mul-le-mul_right cols b.1) (cap_mul cols),
      b.2,
    )

abbrev pub is_invalid : Result Failure ℕ → Bool
is_invalid (err (invalid_argument message)) = true
is_invalid _ = false

-- The checks before the database is touched: a size limit in bytes, no column, or more than 65535
-- columns make the ingest fail as an invalid argument, with the session as it was.
execute_bulk_ingest-invalid :
    (srv : Server) (ingest : IngestOptions → List Field → srv.State → Result Bytes ℕ × srv.State)
    (o : IngestOptions) (fields : List Field) (s : srv.State)
    → (ltb_ℤ (pos 0) o.max_query_size_bytes ≡ true)
      ⊎ (length fields ≡ 0)
      ⊎ (max_placeholders < length fields)
    → (is_invalid (execute_bulk_ingest srv ingest o fields s).0 ≡ true)
      × ((execute_bulk_ingest srv ingest o fields s).1 ≡ s)
unfolding execute_bulk_ingest
execute_bulk_ingest-invalid srv ingest o fields s h =
    elim (Bool-cases (ltb_ℤ (pos 0) o.max_query_size_bytes)) [
      | inl e ↦ rw (e, execute_bulk_ingest) (refl, refl)
      | inr size ↦ elim (Bool-cases (length fields == 0)) [
        | inl e ↦ rw (size, execute_bulk_ingest) (rw e (refl, refl))
        | inr some_column ↦
            let e : ltb max_placeholders (length fields) ≡ true = ground arith in
            rw (size, execute_bulk_ingest) (rw some_column (rw e (refl, refl)))
      ]
    ]
