-- ===== src/Index/Check.antt =====
-- libmport/index.c: `mport_index_check`, which looks for a newer version of a package.
use mport.Base.{leb, Bool, true, false, ◌||◌, ◌&&◌, List, [], ◌∷◌, if◌then◌else◌}
use mport.Base.Int.{ℤ, pos, negsuc, lt_int}
use mport.Db.{Result, ok, err, undefined, ◌>>=◌}
use mport.Moved.{IndexError}
use mport.Version.Compare.{Outcome, done, out_of_bounds, no_fuel, version_cmp}
use mport.Preconditions.{System, Meta, Check}
use mport.Preconditions.Depends.{check_preconditions}
use mport.Index.{IndexEntry, Catalog, lookup_pkgname}

-- whether mport_check_preconditions returns MPORT_OK
unfoldable pub returns_ok : Check → Result IndexError Bool
returns_ok (ok u) = ok true
returns_ok (err e) = ok false
returns_ok undefined = undefined

unfoldable pub is_zero : ℤ → Bool
is_zero (pos n) = leb n 0
is_zero (negsuc n) = false

-- the condition of the loop, for the result of the comparison, which is computed twice
unfoldable pub newer_or_os : Bool → Outcome ℤ → Result IndexError Bool
newer_or_os osflag (done r) = ok (lt_int r (pos 0) || (is_zero r && osflag))
newer_or_os osflag out_of_bounds = undefined
newer_or_os osflag no_fuel = undefined

unfoldable pub entry_is_newer : System → Meta → IndexEntry → Result IndexError Bool
entry_is_newer sys pack e = do
  osflag ← returns_ok (check_preconditions sys pack 16)
  newer_or_os osflag (version_cmp pack.version e.version)

unfoldable pub any_newer : System → Meta → List IndexEntry → Result IndexError Bool
any_newer sys pack [] = ok false
any_newer sys pack (e ∷ es) = do
  newer ← entry_is_newer sys pack e
  let rest = any_newer sys pack es
  if newer then ok true else rest

unfoldable pub check_found :
    System → Meta → Result IndexError (List IndexEntry) → Result IndexError Bool
check_found sys pack (ok es) = any_newer sys pack es
check_found sys pack (err e) = ok false
check_found sys pack undefined = undefined

-- mport_index_check, whose 0 is also the answer where the lookup fails
unfoldable pub index_check : System → Catalog → Meta → Result IndexError Bool
index_check sys ix pack = check_found sys pack (lookup_pkgname ix pack.name)
