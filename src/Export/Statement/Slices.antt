-- ===== src/Export/Statement/Slices.antt =====
-- The partitions that `MariaDBStatementExecutePartitions` hands out.
use adbc_driver_mariadb.Base.{
  ℕ, zero, suc, ◌+◌, ◌-◌, ◌<◌, true, false, ◌≡◌, refl, sym, ap, ◌∙◌, List, [], ◌∷◌, ◌++◌, map,
  append_assoc, length, length-append, take, arith,
}
use adbc_driver_mariadb.Base.Text.{Bytes}
use adbc_driver_mariadb.Export.Driver.{Partitions}
use adbc_driver_mariadb.Export.Statement.Execute.{fill_slices, total_len, fill_partitions, slice_of}

-- No partition ID is empty.
abbrev pub NoneEmpty : List Bytes → Type 0
NoneEmpty [] = Unit {0}
NoneEmpty (p ∷ ps) = (0 < length p) × NoneEmpty ps

take-append : (p rest : Bytes) → take (length p) (p ++ rest) ≡ p
take-append [] rest = refl
take-append (b ∷ p) rest = ap (λ r. b ∷ r) (take-append p rest)

cons_eq : {x y : Bytes} {xs ys : List Bytes} → x ≡ y → xs ≡ ys → x ∷ xs ≡ y ∷ ys
cons_eq a b = cc

slice_of-append :
    (before p rest : Bytes) → slice_of (before ++ (p ++ rest)) (length before, length p) ≡ p
slice_of-append [] p rest = take-append p rest
slice_of-append (b ∷ before) p rest = slice_of-append before p rest

-- The loop with as many entries as IDs, after `before` has been written.
fill_slices_lem :
    (before : Bytes) (ps : List Bytes)
    → NoneEmpty ps
    → (start : ℕ) → start ≡ length before
    → (left : ℕ) → left ≡ total_len ps
    → ((fill_slices (length ps) start left ps).2 ≡ true)
      × (map
            (slice_of (before ++ (fill_slices (length ps) start left ps).0))
            (fill_slices (length ps) start left ps).1
          ≡ ps)
unfolding fill_slices total_len
fill_slices_lem before [] h start e left l = (refl, refl)
fill_slices_lem before (p ∷ ps) (h, hs) start e zero l = absurd (omega (arith, h, l))
fill_slices_lem before (p ∷ ps) (h, hs) start e (suc left) l =
    let rest = fill_slices (length ps) (start + length p) (suc left - length p) ps in
    let ih =
      fill_slices_lem (before ++ p) ps hs (start + length p)
        (omega (arith, e, length-append before p)) (suc left - length p) (omega (arith, l)) in
    (
      ih.0,
      cons_eq
          (ap (λ s. slice_of (before ++ (p ++ rest.0)) (s, length p)) e
            ∙ slice_of-append before p rest.0)
          (ap (λ b. map (slice_of b) rest.1) (sym (append_assoc before p rest.0)) ∙ ih.1),
    )

-- Where no partition ID is empty and there are as many IDs as partitions, the partitions that the
-- caller gets are complete, and reading each of them in the block gives the IDs in their order.
pub fill_partitions-slices :
    (part : Partitions)
    → part.num_partitions ≡ length part.partition_ids
    → NoneEmpty part.partition_ids
    → ((fill_partitions part).releasable ≡ true)
      × ((fill_partitions part).num ≡ length part.partition_ids)
      × (map (slice_of (fill_partitions part).block) (fill_partitions part).slices
          ≡ part.partition_ids)
unfolding fill_partitions
fill_partitions-slices part e h =
    let filled =
      fill_slices_lem [] part.partition_ids h 0 refl (total_len part.partition_ids) refl in
    rw e (filled.0, refl, filled.1)

total_len-append : (ps qs : List Bytes) → total_len (ps ++ qs) ≡ total_len ps + total_len qs
unfolding total_len
total_len-append [] qs = omega arith
total_len-append (p ∷ ps) qs = omega (arith, total_len-append ps qs)

fill_slices-empty_last :
    (slots start left : ℕ) (ps : List Bytes)
    → left ≡ total_len ps
    → (fill_slices slots start left (ps ++ [] ∷ [])).2 ≡ false
unfolding fill_slices total_len
fill_slices-empty_last zero start left [] e = refl
fill_slices-empty_last (suc slots) start zero [] e = refl
fill_slices-empty_last (suc slots) start (suc left) [] e = absurd (omega (arith, e))
fill_slices-empty_last zero start left (p ∷ ps) e = refl
fill_slices-empty_last (suc slots) start zero (p ∷ ps) e = refl
fill_slices-empty_last (suc slots) start (suc left) (p ∷ ps) e =
    fill_slices-empty_last slots (start + length p) (suc left - length p) ps (omega (arith, e))

-- Where the last partition ID is empty, the loop ends in a panic, whatever IDs stand before it: the
-- partitions that the caller gets have no release callback.
pub fill_partitions-empty_last :
    (n : ℕ) (ids : List Bytes)
    → (fill_partitions (record { num_partitions = n; partition_ids = ids ++ [] ∷ [] })).releasable
      ≡ false
unfolding fill_partitions total_len
fill_partitions-empty_last n ids =
    fill_slices-empty_last n 0 _ ids (total_len-append ids ([] ∷ []) ∙ omega arith)
