-- ===== src/Preconditions.antt =====
-- libmport/check_preconditions.c: the checks in front of an installation or an update.
pub mod Depends
pub mod Moves
use mport.Base.{
  ℕ, zero, suc, ◌+◌, ◌/◌, ◌%◌, ◌^◌, Bool, true, false, not, ◌&&◌, ◌||◌, Option, none, some, List,
  [], ◌∷◌, ◌++◌, ◌==◌, if◌then◌else◌, length, drop,
}
use mport.Base.Int.{ℤ, pos, lt_int}
use mport.Base.Text.{Bytes, codes, str_eq, has_prefix}
use mport.Db.{
  Fault, Steps, row, finished, failed, Query, unprepared, prepared, Result, ok, err, undefined,
  ◌>>=◌, ◌>>◌, select,
}
use mport.Moved.{Index, MovedEntry, IndexError, moved_lookup}
use mport.Version.Compare.{Outcome, done, out_of_bounds, no_fuel, version_cmp}
use mport.Version.Require.{Verdict, met, not_met, impossible, fatal, require_check}

-- rows of the tables packages, stub.depends and stub.conflicts; `none` is NULL
pub record PackageRow : Type 0 where
  pub pkg : Bytes
  pub version : Bytes
  pub os_release : Bytes
  pub flavor : Option Bytes
  pub status : Bytes

pub record DependRow : Type 0 where
  pub pkg : Bytes
  pub depend_pkgname : Bytes
  pub depend_pkgversion : Option Bytes

pub record ConflictRow : Type 0 where
  pub pkg : Bytes
  pub conflict_pkg : Bytes
  pub conflict_version : Bytes

-- the fields of mportPackageMeta that the checks read
pub record Meta : Type 0 where
  pub name : Bytes
  pub version : Bytes
  pub origin : Bytes
  pub flavor : Option Bytes

-- the statements of the file
pub data Statement : Type 0 where
  installed_by_name installed_by_flavor conflicts depends lookup older older_os : Statement

-- What is read from outside: the tables, the OS release that `mport_get_osrelease` finds (`none`
-- for NULL), the index, SQLite's GLOB, and what SQLite does with each statement. The lookup of a
-- dependency is one statement that is run again for each name, and its arguments may not bind. The last
-- tells whether mport_err_code has an error of an earlier call where a check sets none.
pub record System : Type 0 where
  pub packages : List PackageRow
  pub stub_depends : List DependRow
  pub stub_conflicts : List ConflictRow
  pub os_release : Option Bytes
  pub index : Index
  pub glob : Bytes → Bytes → Bool
  pub fault : Statement → Fault
  pub bind_fails : Bytes → Bool
  pub lookup_fault : Bytes → Fault
  pub has_error : Bool

-- the message of each error; all have the code MPORT_ERR_FATAL
pub data Reason : Type 0 where
  sql no_os_release lookup_failed malformed : Reason
  already_installed : Bytes → Reason
  conflicts_with : Bytes → Bytes → Reason
  other_os : Bytes → Bytes → Reason
  version_not_met : Bytes → Bytes → Reason
  not_installed : Bytes → Reason
  no_older no_older_os earlier : Reason

abbrev pub Check : Type 0
Check = Result Reason (Unit {0})

abbrev pub filter_rows {ℓ} : {A : Type ℓ} → (A → Bool) → List A → List A
filter_rows p [] = []
filter_rows p (x ∷ xs) = let rest = filter_rows p xs in if p x then x ∷ rest else rest

-- mport_starts_with
pub starts_with : Bytes → Bytes → Bool
starts_with pre str = has_prefix pre str

pub moved_result : Result IndexError (List MovedEntry) → Result Reason (List MovedEntry)
moved_result (ok es) = ok es
moved_result (err e) = err lookup_failed
moved_result undefined = undefined

-- After `if (… || *movedEntries != NULL) return MPORT_OK;` the first entry is NULL, and its date is
-- read.
pub first_moved : List MovedEntry → Check
first_moved [] = undefined
first_moved (e ∷ es) = ok tt

pub check_if_moved : System → Meta → Check
check_if_moved sys pack = do es ← moved_result (moved_lookup sys.index pack.origin); first_moved es

pub check_if_deprecated : System → Meta → Check
check_if_deprecated sys pack = do
  es ← moved_result (moved_lookup sys.index pack.origin)
  first_moved es

-- the `switch` on the step; `strcmp` reads the system's release, which may be NULL
pub installed_step : Option Bytes → Steps PackageRow → Check
installed_step os finished = ok tt
installed_step os failed = err sql
installed_step none (row p rest) = undefined
installed_step (some os) (row p rest) =
    if str_eq p.os_release os then err (already_installed p.version) else ok tt

pub named : Bytes → PackageRow → Bool
named name p = str_eq p.pkg name

-- the second statement, for the name with the flavor in front
pub installed_by_full_name : System → Bytes → Check
installed_by_full_name sys full_name =
    elim (select (sys.fault installed_by_flavor) (filter_rows (named full_name) sys.packages)) [
      | unprepared ↦ err sql
      | prepared s ↦ installed_step sys.os_release s
    ]

-- where no row has the name
pub installed_as_flavor : System → Meta → Option Bytes → Check
installed_as_flavor sys pack none = ok tt
installed_as_flavor sys pack (some flavor) =
    if starts_with flavor pack.name
    then ok tt
    else installed_by_full_name sys (flavor ++ b'-' ∷ pack.name)

pub first_installed : System → Meta → Query PackageRow → Check
first_installed sys pack unprepared = err sql
first_installed sys pack (prepared finished) = installed_as_flavor sys pack pack.flavor
first_installed sys pack (prepared failed) = err sql
first_installed sys pack (prepared (row p rest)) = installed_step sys.os_release (row p rest)

pub check_if_installed : System → Meta → Check
check_if_installed sys pack =
    first_installed sys pack
      (select (sys.fault installed_by_name) (filter_rows (named pack.name) sys.packages))

-- the join of stub.conflicts and packages
pub conflict_rows : System → Bytes → List ConflictRow → List PackageRow
conflict_rows sys name [] = []
conflict_rows sys name (c ∷ cs) =
    let rest = conflict_rows sys name cs in
    if str_eq c.pkg name
    then filter_rows
        (λ (p : PackageRow). sys.glob p.pkg c.conflict_pkg && sys.glob p.version c.conflict_version)
        sys.packages
      ++ rest
    else rest

pub first_conflict : Query PackageRow → Check
first_conflict unprepared = err sql
first_conflict (prepared (row p rest)) = err (conflicts_with p.pkg p.version)
first_conflict (prepared finished) = ok tt
first_conflict (prepared failed) = err sql

pub check_conflicts : System → Meta → Check
check_conflicts sys pack =
    first_conflict (select (sys.fault conflicts) (conflict_rows sys pack.name sys.stub_conflicts))
