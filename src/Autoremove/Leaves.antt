-- ===== src/Autoremove/Leaves.antt =====
-- What `mport_autoremove` of libmport/autoremove.c does to packages that no other needs.
use mport.Base.{
  ℕ, zero, suc, Bool, true, false, ◌≡◌, refl, Option, none, some, List, [], ◌∷◌, if◌then◌else◌,
  length, arith,
}
use mport.Db.{Fault, runs, refused, breaks_after, ok, select}
use mport.Preconditions.{DependRow}
use mport.Store.{InstalledRow, count_updepends, Tables, Package, Host, Trace, World}
use mport.Pkgmeta.{
  needing, stepped_count, updepends_of, unless_none, pkgmeta_list, pkgmeta_get_updepends,
}
use mport.Autoremove.{
  Run, finishes, is_explicit, remove_updepends, autoremove_package, autoremove_loop,
  autoremove_listed, autoremove,
}

-- the count of no rows
no_rows :
    (fuel : ℕ) (h : Host) (p : Package) (ts : Tables) (t : Trace) (f : Fault) (w : World)
    → remove_updepends fuel h (updepends_of h p ts t (stepped_count (select f (0 ∷ [])))) w
      ≡ finishes w
unfolding remove_updepends updepends_of stepped_count unless_none
no_rows fuel h p ts t runs w = refl
no_rows fuel h p ts t refused w = refl
no_rows fuel h p ts t (breaks_after zero) w = refl
no_rows fuel h p ts t (breaks_after (suc n)) w = refl

none_needing :
    (fuel : ℕ) (h : Host) (p : Package) (ts : Tables) (t : Trace) (f : Fault) (w : World)
    (ds : List DependRow)
    → ds ≡ []
    → remove_updepends fuel h
        (updepends_of h p ts t (stepped_count (select f (length (needing p.name ds) ∷ []))))
        w
      ≡ finishes w
unfolding needing
none_needing fuel h p ts t f w [] e = no_rows fuel h p ts t f w
none_needing fuel h p ts t f w (d ∷ ds) e = absurd (ground arith)

unless_explicit :
    (b : Bool) (r : Run) (w : World) → r ≡ finishes w → (if b then finishes w else r) ≡ finishes w
unless_explicit true r w e = refl
unless_explicit false r w e = e

skip_package :
    (fuel : ℕ) (h : Host) (p : Package) (w : World)
    → w.tables.depends ≡ []
    → autoremove_package fuel h p w ≡ finishes w
unfolding autoremove_package pkgmeta_get_updepends needing
skip_package fuel h p w e =
    unless_explicit (is_explicit p)
      (remove_updepends fuel h (pkgmeta_get_updepends h p w.tables w.trace) w) w
      (none_needing fuel h p w.tables w.trace (h.fault w.trace.events count_updepends) w
        w.tables.depends e)

skip_loop :
    (fuel : ℕ) (h : Host) (ps : List Package) (w : World)
    → w.tables.depends ≡ []
    → autoremove_loop fuel h ps w ≡ finishes w
unfolding autoremove_loop
skip_loop fuel h [] w e = refl
skip_loop fuel h (p ∷ ps) w e = simp (skip_package fuel h p w e, skip_loop fuel h ps w e)

skip_listed :
    (fuel : ℕ) (h : Host) (o : Option (List Package)) (w : World)
    → w.tables.depends ≡ []
    → autoremove_listed fuel h (ok o) w ≡ finishes w
unfolding autoremove_listed
skip_listed fuel h none w e = refl
skip_listed fuel h (some ps) w e = skip_loop fuel h ps w e

-- Where the list of the packages is read and no package needs another, nothing changes, although
-- packages may be installed automatically: each is skipped, since it is not needed.
pub autoremove-no_depends :
    (fuel : ℕ) (order : List InstalledRow → List InstalledRow) (h : Host) (w : World)
    (o : Option (List Package))
    → pkgmeta_list order h w.tables w.trace ≡ ok o
    → w.tables.depends ≡ []
    → autoremove fuel order h w ≡ finishes w
unfolding autoremove
autoremove-no_depends fuel order h w o l e = rw l (skip_listed fuel h o w e)
