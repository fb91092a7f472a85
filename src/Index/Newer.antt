-- ===== src/Index/Newer.antt =====
-- What `mport_index_check` of libmport/index.c decides: whether the index has a newer version.
use mathlib.Core.Path.{subst, sym, ◌∙◌}
use mport.Base.{
  Bool, true, false, ◌||◌, ◌&&◌, ◌≡◌, refl, ◌↔◌, ◌⊎◌, inl, inr, Bool-cases, List, [], ◌∷◌, All,
  Exists, arith,
}
use mport.Base.Int.{ℤ, pos, negsuc, lt_int}
use mport.Base.Text.{Bytes}
use mport.Db.{runs, Result, ok, all_rows}
use mport.Moved.{IndexError, db_count}
use mport.Version.Compare.{done, version_cmp, parse_version}
use mport.Version.Compare.Bounds.{ends_in_separator, version_cmp_total}
use mport.Preconditions.{System, Meta, filter_rows}
use mport.Preconditions.Depends.{check_preconditions}
use mport.Index.{
  IndexStatement, count_packages, select_packages, EntryRow, IndexEntry, Catalog, fault_of,
  populate_row, each_entry, read_query, rows_if_any, searched, lookup_alias, matches, search_rows,
  lookup_pkgname,
}
use mport.Index.Check.{
  returns_ok, is_zero, newer_or_os, entry_is_newer, any_newer, check_found, index_check,
}

-- The version that the index has is greater than the package's, or is equal to it where the package
-- was installed for an older OS.
unfoldable pub Newer : Meta → Bool → Bytes → Type 0
Newer pack os v =
    (z : ℤ) × (version_cmp pack.version v ≡ done z)
    × ((lt_int z (pos 0) ≡ true) ⊎ ((z ≡ pos 0) × (os ≡ true)))

-- no column of the row is NULL, and its version can be compared
unfoldable pub Readable : EntryRow → Type 0
Readable r =
    (e : IndexEntry) × (populate_row r ≡ ok e)
    × (ends_in_separator (parse_version e.version).version ≡ false)

unfoldable pub HasNewer : Catalog → Bytes → Meta → Bool → EntryRow → Type 0
HasNewer ix q pack os r =
    (matches ix q r.pkg ≡ true)
    × ((e : IndexEntry) × (populate_row r ≡ ok e) × Newer pack os e.version)

is_zero_iff : (z : ℤ) → (is_zero z ≡ true) ↔ (z ≡ pos 0)
unfolding is_zero
is_zero_iff (pos n) = ground arith
is_zero_iff (negsuc n) = ground arith

newer_iff :
    (b : Bool) (z : ℤ)
    → ((lt_int z (pos 0) || (is_zero z && b)) ≡ true)
      ↔ ((lt_int z (pos 0) ≡ true) ⊎ ((z ≡ pos 0) × (b ≡ true)))
newer_iff b z = ground (arith, is_zero_iff z)

module _ (sys : System) (ix : Catalog) (pack : Meta) (q : Bytes) (os : Bool)
    (on_os : returns_ok (check_preconditions sys pack 16) ≡ ok os)
    (comparable : ends_in_separator (parse_version pack.version).version ≡ false) where
  same_result :
      (z y : ℤ)
      → y ≡ z
      → (lt_int y (pos 0) ≡ true) ⊎ ((y ≡ pos 0) × (os ≡ true))
      → (lt_int z (pos 0) ≡ true) ⊎ ((z ≡ pos 0) × (os ≡ true))
  same_result z y e n = subst (λ x. (lt_int x (pos 0) ≡ true) ⊎ ((x ≡ pos 0) × (os ≡ true))) e n

  -- the entry that was read is newer or not
  entry_decided :
      (e : IndexEntry)
      → ends_in_separator (parse_version e.version).version ≡ false
      → (b : Bool) × (entry_is_newer sys pack e ≡ ok b) × ((b ≡ true) ↔ Newer pack os e.version)
  unfolding entry_is_newer newer_or_os Newer
  entry_decided e k =
      let (z, c) = version_cmp_total pack.version e.version comparable k in
      (
        lt_int z (pos 0) || (is_zero z && os),
        rw (on_os, c) refl,
        (
          λ t. (z, c, (newer_iff os z).0 t),
          λ (y, d, n). (newer_iff os z).1 (same_result z y (cc (c, d)) n),
        ),
      )

  -- the rows that were read, and the search through them
  abbrev Decided : List EntryRow → Type 0
  Decided rs =
      (es : List IndexEntry) × (each_entry populate_row
          (all_rows (filter_rows (λ r. matches ix q r.pkg) rs))
        ≡ ok es)
      × ((any_newer sys pack es ≡ ok true) ↔ Exists (HasNewer ix q pack os) rs)
      × ((b : Bool) × (any_newer sys pack es ≡ ok b))

  module _ (r : EntryRow) (rs : List EntryRow) where
    other-Decided : matches ix q r.pkg ≡ false → Decided rs → Decided (r ∷ rs)
    unfolding HasNewer
    other-Decided m (es, read, iff, at) = (
      es,
      rw (m, read) refl,
      (
        λ t. inr (iff.0 t),
        λ x. elim x [ inl (h, n) ↦ absurd (ground (arith, m, h)) | inr y ↦ iff.1 y ],
      ),
      at,
    )

    module _ (e : IndexEntry) (m : matches ix q r.pkg ≡ true) (pe : populate_row r ≡ ok e) where
      first-Decided :
          entry_is_newer sys pack e ≡ ok true
          → Newer pack os e.version
          → Decided rs
          → Decided (r ∷ rs)
      unfolding HasNewer any_newer each_entry
      first-Decided c n (es, read, iff, at) = (
        e ∷ es,
        rw (m, pe, read) refl,
        (λ t. inl (m, (e, pe, n)), λ x. rw c refl),
        (true, rw c refl),
      )

      older-Decided :
          entry_is_newer sys pack e ≡ ok false
          → (Newer pack os e.version → ⊥)
          → Decided rs
          → Decided (r ∷ rs)
      unfolding HasNewer any_newer each_entry
      older-Decided c n (es, read, iff, (b, at)) = (
        e ∷ es,
        rw (m, pe, read) refl,
        (
          λ t. inr (iff.0 (rw (sym skipped) t)),
          λ x. skipped ∙ elim x [
            | inl (h, (f, pf, w)) ↦
                absurd (n (subst (λ (y : IndexEntry). Newer pack os y.version) (same_entry f pf) w))
            | inr y ↦ iff.1 y
          ],
        ),
        (b, skipped ∙ at),
      )
        where
          same_entry : (f : IndexEntry) → populate_row r ≡ ok f → f ≡ e
          same_entry f pf = cc (pe, pf)

          skipped : any_newer sys pack (e ∷ es) ≡ any_newer sys pack es
          skipped = rw c refl

      read-Decided :
          (b : Bool)
          → entry_is_newer sys pack e ≡ ok b
          → (b ≡ true) ↔ Newer pack os e.version
          → Decided rs
          → Decided (r ∷ rs)
      read-Decided true c iff d = first-Decided c (iff.0 refl) d
      read-Decided false c iff d = older-Decided c (λ n. absurd (ground (arith, iff.1 n))) d

  rows-Decided :
      (rs : List EntryRow) → All (λ r. matches ix q r.pkg ≡ true → Readable r) rs → Decided rs
  unfolding each_entry any_newer Readable
  rows-Decided [] k = ([], refl, (λ e. ground arith, λ x. absurd x), (false, refl))
  rows-Decided (r ∷ rs) (k, ks) = elim (Bool-cases (matches ix q r.pkg)) [
    | inl m ↦
        let (e, pe, s) = k m in
        let (b, c, iff) = entry_decided e s in read-Decided r rs e m pe b c iff (rows-Decided rs ks)
    | inr m ↦ other-Decided r rs m (rows-Decided rs ks)
  ]

searched_lem :
    {A B : Type 0} (read : A → Result IndexError B) (rs : List A)
    → searched runs runs read rs ≡ each_entry read (all_rows rs)
unfolding searched rows_if_any read_query db_count each_entry
searched_lem read [] = refl
searched_lem read (r ∷ rs) = refl

fault_of-runs :
    (ix : Catalog) (s : IndexStatement)
    → ix.loaded ≡ true
    → ix.fault s ≡ runs
    → fault_of ix s ≡ runs
unfolding fault_of
fault_of-runs ix s l f = simp (l, f)

lookup_pkgname-read :
    (ix : Catalog) (name q : Bytes) (es : List IndexEntry)
    → ix.loaded ≡ true
    → ((s : IndexStatement) → ix.fault s ≡ runs)
    → lookup_alias ix name ≡ ok q
    → each_entry populate_row (all_rows (filter_rows (λ r. matches ix q r.pkg) ix.packages)) ≡ ok es
    → lookup_pkgname ix name ≡ ok es
unfolding lookup_pkgname search_rows
lookup_pkgname-read ix name q es l f a read = simp (
  l,
  a,
  fault_of-runs ix count_packages l (f count_packages),
  fault_of-runs ix select_packages l (f select_packages),
  searched_lem populate_row (filter_rows (λ r. matches ix q r.pkg) ix.packages),
  read,
)

-- Where the index is attached, SQLite runs its statements, the name of the package has the alias (or
-- stays) `q`, the check for an older OS decides `os`, and the version of the package and every row
-- whose name matches can be read and compared, mport_index_check answers yes exactly where a
-- matching row of the index has a greater version, or an equal one while `os` holds.
pub index_check_iff :
    (sys : System) (ix : Catalog) (pack : Meta) (q : Bytes) (os : Bool)
    → ix.loaded ≡ true
    → ((s : IndexStatement) → ix.fault s ≡ runs)
    → lookup_alias ix pack.name ≡ ok q
    → returns_ok (check_preconditions sys pack 16) ≡ ok os
    → ends_in_separator (parse_version pack.version).version ≡ false
    → All (λ r. matches ix q r.pkg ≡ true → Readable r) ix.packages
    → (index_check sys ix pack ≡ ok true) ↔ Exists (HasNewer ix q pack os) ix.packages
unfolding index_check check_found
index_check_iff sys ix pack q os l f a on_os k rs =
    let (es, read, iff, at) = rows-Decided sys ix pack q os on_os k ix.packages rs in
    rw (lookup_pkgname-read ix pack.name q es l f a read) iff
