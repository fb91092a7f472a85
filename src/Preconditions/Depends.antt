-- ===== src/Preconditions/Depends.antt =====
-- libmport/check_preconditions.c: `check_depends`, the checks for an older version and an older OS,
-- and `mport_check_preconditions`, which runs the checks that its flags name.
mod Tests
pub mod Order
pub mod Satisfied
use mport.Base.{
  ℕ, zero, suc, ◌+◌, ◌/◌, ◌%◌, ◌^◌, Bool, true, false, not, ◌&&◌, ◌||◌, Option, none, some, List,
  [], ◌∷◌, ◌==◌, if◌then◌else◌, length, drop,
}
use mport.Base.Int.{ℤ, pos, lt_int}
use mport.Base.Text.{Bytes, codes, str_eq}
use mport.Db.{
  Fault, runs, refused, breaks_after, Steps, row, finished, failed, Query, unprepared, prepared,
  Result, ok, err, undefined, ◌>>=◌, ◌>>◌, select,
}
use mport.Version.Compare.{Outcome, done, out_of_bounds, no_fuel, version_cmp}
use mport.Version.Require.{Verdict, met, not_met, impossible, fatal, require_check}
use mport.Preconditions.{
  System, Meta, PackageRow, DependRow, Statement, depends, lookup, older, older_os, Reason, sql,
  no_os_release, malformed, other_os, version_not_met, not_installed, no_older, no_older_os,
  earlier, Check, filter_rows, check_if_moved, check_if_deprecated, check_if_installed,
  check_conflicts,
}

-- `flavor is not null and flavor != '' and pkg=substr(?, length(flavor) + 2)`
pub flavored_name : Bytes → PackageRow → Option Bytes → Bool
flavored_name name p none = false
flavored_name name p (some []) = false
flavored_name name p (some (c ∷ f)) = str_eq p.pkg (drop (length (c ∷ f) + 1) name)

-- `WHERE (pkg=? or (…)) AND status='clean'`
pub provides : Bytes → PackageRow → Bool
provides name p =
    (str_eq p.pkg name || flavored_name name p p.flavor) && str_eq p.status (codes "clean")

-- What is made of the result of `mport_version_require_check`: the next dependency follows, `ok true`,
-- or the current error is returned without setting one, `ok false`.
pub version_verdict : Bytes → Bytes → Outcome Verdict → Result Reason Bool
version_verdict pkg version (done met) = ok true
version_verdict pkg version (done not_met) = err (version_not_met pkg version)
version_verdict pkg version (done impossible) = ok false
version_verdict pkg version (done fatal) = err malformed
version_verdict pkg version out_of_bounds = undefined
version_verdict pkg version no_fuel = undefined

pub installed_version : DependRow → Bytes → Option Bytes → Result Reason Bool
installed_version d inst_version none = ok true
installed_version d inst_version (some version) =
    version_verdict d.depend_pkgname version (require_check inst_version version)

-- the `switch` on the step of the lookup
pub lookup_step : DependRow → Bytes → Query PackageRow → Result Reason Bool
lookup_step d os unprepared = err sql
lookup_step d os (prepared finished) = err (not_installed d.depend_pkgname)
lookup_step d os (prepared failed) = err sql
lookup_step d os (prepared (row p rest)) =
    if str_eq p.os_release os
    then installed_version d p.version d.depend_pkgversion
    else err (other_os d.depend_pkgname p.os_release)

-- one turn of the loop: the lookup, bound to the name of the dependency
pub check_depend : System → Bytes → DependRow → Result Reason Bool
check_depend sys os d =
    if sys.bind_fails d.depend_pkgname
    then err sql
    else lookup_step d os (
        select (sys.lookup_fault d.depend_pkgname)
          (filter_rows (provides d.depend_pkgname) sys.packages))

-- RETURN_CURRENT_ERROR where no error was set: MPORT_OK, if there is no earlier one
pub return_current : Bool → Check
return_current true = err earlier
return_current false = ok tt

pub depend_loop : System → Bytes → Steps DependRow → Check
depend_loop sys os finished = ok tt
depend_loop sys os failed = err sql
depend_loop sys os (row d rest) = do
  goes_on ← check_depend sys os d
  let others = depend_loop sys os rest
  if goes_on then others else return_current sys.has_error

abbrev pub is_refused : Fault → Bool
is_refused runs = false
is_refused refused = true
is_refused (breaks_after n) = false

pub depends_on : System → Option Bytes → Query DependRow → Check
depends_on sys os unprepared = err sql
depends_on sys none (prepared s) =
    if is_refused (sys.fault lookup) then err sql else err no_os_release
depends_on sys (some os) (prepared s) =
    if is_refused (sys.fault lookup) then err sql else depend_loop sys os s

pub of_package : Bytes → DependRow → Bool
of_package name d = str_eq d.pkg name

pub check_depends : System → Meta → Check
check_depends sys pack =
    depends_on sys sys.os_release
      (select (sys.fault depends) (filter_rows (of_package pack.name) sys.stub_depends))

-- `mport_version_cmp(a, b) < 0`, in a statement
pub is_less : Outcome ℤ → Result Reason Bool
is_less (done r) = ok (lt_int r (pos 0))
is_less out_of_bounds = undefined
is_less no_fuel = undefined

-- `(mport_version_cmp(version, %Q) < 0 and os_release=%Q) or os_release != %Q`
pub is_older : Meta → Bytes → PackageRow → Result Reason Bool
is_older pack os p =
    if str_eq p.os_release os then is_less (version_cmp p.version pack.version) else ok true

pub is_older_os : Bytes → PackageRow → Result Reason Bool
is_older_os os p = is_less (version_cmp p.os_release os)

-- The one step of a statement whose condition calls `mport_version_cmp`: it goes to the first row
-- for which the condition holds.
unfoldable pub first_row : Reason → (PackageRow → Result Reason Bool) → List PackageRow → Check
first_row none_found p [] = err none_found
first_row none_found p (x ∷ xs) = do
  found ← p x
  let rest = first_row none_found p xs
  if found then ok tt else rest

unfoldable pub one_step : Fault → Check → Check
one_step runs c = c
one_step refused c = err sql
one_step (breaks_after zero) c = err sql
one_step (breaks_after (suc n)) c = c

pub older_than : System → Meta → Option Bytes → Check
older_than sys pack none = err no_os_release
older_than sys pack (some os) = one_step (sys.fault older) (
    first_row no_older (is_older pack os)
      (filter_rows (λ (p : PackageRow). str_eq p.pkg pack.name) sys.packages))

pub check_if_older_installed : System → Meta → Check
check_if_older_installed sys pack = older_than sys pack sys.os_release

unfoldable pub older_os_than : System → Meta → Option Bytes → Check
older_os_than sys pack none = err no_os_release
older_os_than sys pack (some os) = one_step (sys.fault older_os) (
    first_row no_older_os (is_older_os os)
      (filter_rows (λ (p : PackageRow). str_eq p.pkg pack.name) sys.packages))

unfoldable pub check_if_older_os : System → Meta → Check
check_if_older_os sys pack = older_os_than sys pack sys.os_release

-- `flags & (1 << k)`
unfoldable pub has_flag : ℕ → ℕ → Bool
has_flag flags k = ((flags / 2 ^ k) % 2) == 1

-- `if (flags & FLAG && check(mport, pack) != MPORT_OK) RETURN_CURRENT_ERROR;`
unfoldable pub run_if : Bool → Check → Check
run_if true c = c
run_if false c = ok tt

unfoldable pub check_preconditions : System → Meta → ℕ → Check
check_preconditions sys pack flags = do
  run_if (has_flag flags 5) (check_if_moved sys pack)
  run_if (has_flag flags 6) (check_if_deprecated sys pack)
  run_if (has_flag flags 0) (check_if_installed sys pack)
  run_if (has_flag flags 3) (check_if_older_installed sys pack)
  run_if (has_flag flags 2) (check_conflicts sys pack)
  run_if (has_flag flags 1) (check_depends sys pack)
  run_if (has_flag flags 4) (check_if_older_os sys pack)
