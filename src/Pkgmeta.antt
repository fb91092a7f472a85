-- ===== src/Pkgmeta.antt =====
-- libmport/pkgmeta.c: the list of the installed packages, and the packages that need another.
use mport.Base.{ℕ, zero, suc, ◌+◌, Option, none, some, List, [], ◌∷◌, ◌++◌, length}
use mport.Base.Text.{Bytes, str_eq}
use mport.Db.{
  Steps, row, finished, failed, Query, unprepared, prepared, Result, ok, err, undefined, ◌>>=◌,
  select,
}
use mport.Preconditions.{DependRow, filter_rows}
use mport.Store.{
  InstalledRow, Tables, Package, count_packages, list_packages, count_updepends, list_updepends,
  Host, Trace, Why, sql_error,
}

-- populate_meta_from_stmt, for the fields of the model
unfoldable pub package_of : InstalledRow → Package
package_of r = record {
  name = r.pkg;
  version = r.version;
  prefix = r.prefix;
  locked = r.locked;
  automatic = r.automatic;
}

-- populate_vec_from_stmt. The vector has `room` places left, and a write behind it is undefined.
unfoldable pub populate : ℕ → Steps InstalledRow → Result Why (List Package)
unfolding package_of
populate zero (row r rest) = undefined
populate zero finished = undefined
populate (suc room) finished = ok []
populate room failed = err sql_error
populate (suc room) (row r rest) = do ps ← populate room rest; ok (package_of r ∷ ps)

unfoldable pub populate_query : ℕ → Query InstalledRow → Result Why (List Package)
populate_query len unprepared = err sql_error
populate_query len (prepared s) = populate (len + 1) s

-- a statement of one row with a count, `none` where SQLite fails
unfoldable pub stepped_count : Query ℕ → Option ℕ
stepped_count unprepared = none
stepped_count (prepared finished) = none
stepped_count (prepared failed) = none
stepped_count (prepared (row n rest)) = some n

-- `none` is a NULL vector
unfoldable pub unless_none : ℕ → Result Why (List Package) → Result Why (Option (List Package))
unless_none zero r = ok none
unless_none (suc n) r = do ps ← r; ok (some ps)

-- mport_pkgmeta_count, which gives 0 where SQLite fails
unfoldable pub pkgmeta_count : Host → Tables → Trace → ℕ
unfolding stepped_count
pkgmeta_count h ts t =
    elim (stepped_count (select (h.fault t.events count_packages) (length ts.packages ∷ []))) [
      | none ↦ 0
      | some n ↦ n
    ]

-- mport_pkgmeta_list, where `order` is SQLite's ORDER BY pkg, version
unfoldable pub pkgmeta_list :
    (List InstalledRow → List InstalledRow)
    → Host
    → Tables
    → Trace
    → Result Why (Option (List Package))
unfolding pkgmeta_count populate_query populate unless_none
pkgmeta_list order h ts t =
    let len = pkgmeta_count h ts t in
    unless_none len
      (populate_query len (select (h.fault t.events list_packages) (order ts.packages)))

-- `depend_pkgname=name`
unfoldable pub needing : Bytes → List DependRow → List DependRow
needing name ds = filter_rows (λ (d : DependRow). str_eq d.depend_pkgname name) ds

-- `FROM packages,depends WHERE packages.pkg=depends.pkg` for the rows of depends
unfoldable pub join_packages : List InstalledRow → List DependRow → List InstalledRow
join_packages ps [] = []
join_packages ps (d ∷ ds) =
    filter_rows (λ (p : InstalledRow). str_eq p.pkg d.pkg) ps ++ join_packages ps ds

unfoldable pub updepends_of :
    Host → Package → Tables → Trace → Option ℕ → Result Why (Option (List Package))
unfolding needing join_packages populate_query populate unless_none
updepends_of h p ts t none = err sql_error
updepends_of h p ts t (some n) = unless_none n (
    populate_query n (
      select (h.fault t.events list_updepends)
        (join_packages ts.packages (needing p.name ts.depends))))

-- mport_pkgmeta_get_updepends
unfoldable pub pkgmeta_get_updepends :
    Host → Package → Tables → Trace → Result Why (Option (List Package))
unfolding updepends_of stepped_count needing
pkgmeta_get_updepends h p ts t = updepends_of h p ts t (
    stepped_count
      (select (h.fault t.events count_updepends) (length (needing p.name ts.depends) ∷ [])))
