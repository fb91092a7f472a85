-- ===== src/Moved/Lookup.antt =====
-- What `mport_moved_lookup` of libmport/index.c returns from a loaded index, where SQLite reports no
-- error.
use mport.Base.{
  suc, Bool, true, false, ◌&&◌, Bool-cases, inl, inr, Option, none, some, Option-cases, arith, List,
  [], ◌∷◌, ◌≡◌, refl, ap, ◌∙◌, length,
}
use mport.Base.Text.{Bytes}
use mport.Plist.Command.{strlcpy}
use mport.Db.{undefined, ok, runs, select, all_rows}
use mport.Moved.{
  Index, text_of, MovedRow, MovedEntry, equal_rows, rows_of_port, first_alias, lookup_alias_inverse,
  db_count, original_name, moved_name, moved_entry, moved_entries, stepped, if_any, moved_lookup,
}

unfoldable pub has_text : Option Bytes → Bool
has_text none = false
has_text (some s) = true

-- no column of the row is NULL
unfoldable pub is_full : MovedRow → Bool
is_full r = has_text r.port && has_text r.moved_to && has_text r.why && has_text r.date

unfoldable pub all_full : List MovedRow → Bool
all_full [] = true
all_full (r ∷ rs) = is_full r && all_full rs

both_true : (a b : Bool) → (a && b) ≡ true → (a ≡ true) × (b ≡ true)
both_true a b k = ground (arith, k)

-- the index is loaded, and SQLite reports no error
pub record Works (ix : Index) : Type 0 where
  pub loaded : ix.loaded ≡ true
  pub counts : ix.count_fault ≡ runs
  pub selects : ix.moved_fault ≡ runs
  pub aliases : (name : Bytes) → ix.alias_fault name ≡ runs

first_alias_ok :
    (query : Bytes) (xs : List Bytes)
    → (pkg : Bytes) × (first_alias query (select runs xs) ≡ ok pkg)
unfolding first_alias
first_alias_ok query [] = (query, refl)
first_alias_ok query (x ∷ xs) = (x, refl)

module _ (ix : Index) (origin : Bytes) (w : Works ix) where
  alias_ok : (query : Bytes) → (pkg : Bytes) × (lookup_alias_inverse ix query ≡ ok pkg)
  unfolding lookup_alias_inverse
  alias_ok query = rw (w.aliases query) (first_alias_ok query (equal_rows query ix.alias_packages))

  moved_name_ok : (s : Bytes) → (pkg : Bytes) × (moved_name ix s ≡ ok pkg)
  unfolding moved_name
  moved_name_ok [] = ([], refl)
  moved_name_ok (c ∷ s) = let (pkg, e) = alias_ok (c ∷ s) in (strlcpy pkg 128, rw e)

  moved_entry_ok :
      (r : MovedRow) → is_full r ≡ true → (e : MovedEntry) × (moved_entry ix origin r ≡ ok e)
  unfolding moved_entry original_name text_of is_full has_text
  moved_entry_ok r k =
      let (p, e) = alias_ok origin in
      elim (Option-cases r.port) [
        | inl n ↦ absurd (ground (arith, k, n))
        | inr (port, a) ↦ elim (Option-cases r.moved_to) [
          | inl n ↦ absurd (ground (arith, k, n))
          | inr (to, b) ↦ elim (Option-cases r.why) [
            | inl n ↦ absurd (ground (arith, k, n))
            | inr (why, c) ↦ elim (Option-cases r.date) [
              | inl n ↦ absurd (ground (arith, k, n))
              | inr (date, d) ↦
                  let (q, f) = moved_name_ok (strlcpy to 128) in rw (a, b, c, d, e, f) (_, refl)
            ]
          ]
        ]
      ]

  moved_entry_null : (r : MovedRow) → is_full r ≡ false → moved_entry ix origin r ≡ undefined
  unfolding moved_entry text_of is_full has_text
  moved_entry_null r k = elim (Option-cases r.port) [
    | inl n ↦ rw n refl
    | inr (port, a) ↦ elim (Option-cases r.moved_to) [
      | inl n ↦ rw (a, n) refl
      | inr (to, b) ↦ elim (Option-cases r.why) [
        | inl n ↦ rw (a, b, n) refl
        | inr (why, c) ↦ elim (Option-cases r.date) [
          | inl n ↦ rw (a, b, c, n) refl
          | inr (date, d) ↦ absurd (ground (arith, k, a, b, c, d))
        ]
      ]
    ]
  ]

  moved_entries_ok :
      (rs : List MovedRow)
      → all_full rs ≡ true
      → (es : List MovedEntry) × (moved_entries ix origin (all_rows rs) ≡ ok es)
        × (length es ≡ length rs)
  unfolding moved_entries all_full
  moved_entries_ok [] k = ([], refl, refl)
  moved_entries_ok (r ∷ rs) k =
      let (e, p) = moved_entry_ok r (both_true (is_full r) (all_full rs) k).0 in
      let (es, q, l) = moved_entries_ok rs (both_true (is_full r) (all_full rs) k).1 in
      (e ∷ es, rw (p, q), ap suc l)

  moved_entries_null :
      (rs : List MovedRow) → all_full rs ≡ false → moved_entries ix origin (all_rows rs) ≡ undefined
  unfolding moved_entries all_full
  moved_entries_null [] k = absurd (ground (arith, k))
  moved_entries_null (r ∷ rs) k = elim (Bool-cases (is_full r)) [
    | inl f ↦
        let (e, p) = moved_entry_ok r f in rw (p, moved_entries_null rs (ground (arith, k, f))) refl
    | inr f ↦ rw (moved_entry_null r f) refl
  ]

  if_any_entries :
      (rs : List MovedRow)
      → if_any (length rs) (moved_entries ix origin (all_rows rs))
        ≡ moved_entries ix origin (all_rows rs)
  unfolding if_any moved_entries
  if_any_entries [] = refl
  if_any_entries (r ∷ rs) = refl

  -- one entry for each row of the port, where none has NULL
  pub moved_lookup_ok :
      all_full (rows_of_port origin ix.moved) ≡ true
      → (es : List MovedEntry) × (moved_lookup ix origin ≡ ok es)
        × (length es ≡ length (rows_of_port origin ix.moved))
  unfolding moved_lookup db_count stepped
  moved_lookup_ok k =
      let found = rows_of_port origin ix.moved in
      let (es, e, l) = moved_entries_ok found k in
      (es, simp (w.loaded, w.counts, w.selects) (if_any_entries found ∙ e), l)

  pub moved_lookup_null :
      all_full (rows_of_port origin ix.moved) ≡ false → moved_lookup ix origin ≡ undefined
  unfolding moved_lookup db_count stepped
  moved_lookup_null k =
      let found = rows_of_port origin ix.moved in
      simp (w.loaded, w.counts, w.selects) (if_any_entries found ∙ moved_entries_null found k)
