-- ===== src/Preconditions/Moves.antt =====
-- What the checks for a move and for an expiry in libmport/check_preconditions.c do.
use mport.Base.{
  true, false, Bool-cases, inl, inr, List, [], ◌∷◌, ◌≡◌, refl, arith, if◌then◌else◌, length,
}
use mport.Db.{ok, undefined}
use mport.Moved.{MovedRow, MovedEntry, rows_of_port}
use mport.Moved.Lookup.{all_full, Works, moved_lookup_ok, moved_lookup_null}
use mport.Preconditions.{
  System, Meta, Check, moved_result, first_moved, check_if_moved, check_if_deprecated,
}

-- what the two checks come to, from the rows of the port
abbrev pub by_rows : List MovedRow → Check
by_rows [] = undefined
by_rows (r ∷ rs) = if all_full (r ∷ rs) then ok tt else undefined

full_rows :
    (rs : List MovedRow) (es : List MovedEntry)
    → all_full rs ≡ true
    → length es ≡ length rs
    → first_moved es ≡ by_rows rs
unfolding first_moved
full_rows [] [] k l = refl
full_rows [] (e ∷ es) k l = absurd (ground (arith, l))
full_rows (r ∷ rs) [] k l = absurd (ground (arith, l))
full_rows (r ∷ rs) (e ∷ es) k l = rw k refl

null_rows : (rs : List MovedRow) → all_full rs ≡ false → undefined ≡ by_rows rs
null_rows [] k = refl
null_rows (r ∷ rs) k = rw k refl

-- With a loaded index and no error of SQLite, both checks pass where the index has rows for the port
-- and no column of them is NULL, whatever the rows say, and read through a NULL pointer where it has
-- none, or where a column is NULL.
pub check_if_moved_lem :
    (sys : System) (pack : Meta)
    → Works sys.index
    → (check_if_moved sys pack ≡ by_rows (rows_of_port pack.origin sys.index.moved))
      × (check_if_deprecated sys pack ≡ by_rows (rows_of_port pack.origin sys.index.moved))
unfolding check_if_moved check_if_deprecated moved_result
check_if_moved_lem sys pack w =
    let rs = rows_of_port pack.origin sys.index.moved in
    elim (Bool-cases (all_full rs)) [
      | inl k ↦
          let (es, e, l) = moved_lookup_ok sys.index pack.origin w k in
          (rw e (full_rows rs es k l), rw e (full_rows rs es k l))
      | inr k ↦
          let e = moved_lookup_null sys.index pack.origin w k in
          (rw e (null_rows rs k), rw e (null_rows rs k))
    ]
