-- ===== src/Install/Primitive/Counts.antt =====
-- The files that `do_actual_install` of libmport/bundle_read_install_pkg.c counts, and those that
-- `get_file_count` has counted before.
use mport.Base.{
  ℕ, suc, ◌+◌, ◌≤◌, Bool, true, false, Bool-cases, ◌&&◌, ◌≡◌, inl, inr, Option, none, some, List,
  [], ◌∷◌, length, map, arith, if◌then◌else◌,
}
use mport.Base.Text.{Bytes, str_eq}
use mport.Plist.Command.{AssetType, Entry}
use mport.Preconditions.{filter_rows}
use mport.Store.{AssetRow, Package, Event, advanced, Host}
use mport.Store.Ends.{◌then◌}
use mport.Delete.{of_types}
use mport.Delete.Commands.{has_type}
use mport.Install.{Spot, in_phase, entry_of, at_file, spot_after, file_types, actualinstall}
use mport.Install.Laws.{is_quiet}

-- a step of the meter is not beyond its total
unfoldable pub Within : Event → Type 0
Within (advanced n total path) = n ≤ total
Within e = Unit

pub quiet-Within : (e : Event) → is_quiet e ≡ true → Within e
unfolding is_quiet Within
quiet-Within (advanced n total path) d = absurd (ground arith)
quiet-Within e d = tt

-- the files among the entries
unfoldable pub count_files : List Entry → ℕ
count_files [] = 0
count_files (e ∷ es) = if of_types file_types e.type then suc (count_files es) else count_files es

pub count_files-map :
    (name : Bytes) (rows : List AssetRow)
    → count_files (
        map entry_of
          (filter_rows (λ (r : AssetRow). str_eq r.pkg name && in_phase actualinstall r.type) rows))
      ≤ length (filter_rows (has_type name file_types) rows)
unfolding count_files has_type entry_of
count_files-map name [] = omega arith
count_files-map name (r ∷ rs) = elim (Bool-cases (str_eq r.pkg name)) [
  | inr e ↦ rw e (count_files-map name rs)
  | inl e ↦ elim (Bool-cases (in_phase actualinstall r.type)) [
    | inl d ↦ elim (Bool-cases (of_types file_types r.type)) [
      | inl c ↦ let k = count_files-map name rs in rw (e, d, c) (omega (arith, k))
      | inr c ↦ let k = count_files-map name rs in rw (e, d, c) k
    ]
    | inr d ↦ elim (Bool-cases (of_types file_types r.type)) [
      | inl c ↦ let k = count_files-map name rs in rw (e, d, c) (omega (arith, k))
      | inr c ↦ let k = count_files-map name rs in rw (e, d, c) k
    ]
  ]
]

-- a file is counted once, and nothing else is
pub spot_after-count :
    (h : Host) (p : Package) (e : Entry) (s : Spot)
    → (spot_after h p e s).count ≤ s.count + (if of_types file_types e.type then 1 else 0)
unfolding spot_after at_file
spot_after-count h p e s = if_count (of_types (AssetType.cwd ∷ []) e.type) _ _ (stay _ _) (
    if_count (of_types (AssetType.chmod ∷ []) e.type) _ _ (stay _ _) (
      if_count (of_types (AssetType.chown ∷ []) e.type) _ _ (stay _ _) (
        if_count (of_types (AssetType.chgrp ∷ []) e.type) _ _ (stay _ _)
          (at_end (of_types file_types e.type) e.text))))
  where
    if_count :
        (c : Bool) (x y : Spot) {n : ℕ} → x.count ≤ n → y.count ≤ n → (if c then x else y).count ≤ n
    if_count true x y f g = f
    if_count false x y f g = g

    stay : (n m : ℕ) → n ≤ n + m
    stay n m = omega arith

    at_end :
        (c : Bool) (o : Option Bytes)
        → (if c then at_file h.root e.type s o else s).count ≤ s.count + (if c then 1 else 0)
    at_end false o = omega arith
    at_end true none = omega arith
    at_end true (some d) = omega arith
