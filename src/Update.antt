-- ===== src/Update.antt =====
-- libmport/bundle_read_update_pkg.c, libmport/install_primative.c and libmport/update_primative.c: the
-- update of a package with a backup, and the calls that read a bundle's file.
pub mod Outcomes
pub mod Restore
pub mod Detached
mod Tests
use mport.Base.{
  ℕ, Bool, true, ◌||◌, Option, none, some, List, [], ◌∷◌, ◌++◌, map, if◌then◌else◌, length,
}
use mport.Base.Text.{Bytes, codes, str_eq}
use mport.Db.{
  Result, ok, err, undefined, Steps, row, finished, failed, Query, unprepared, prepared, ◌>>=◌,
  select,
}
use mport.Preconditions.{DependRow, filter_rows}
use mport.Store.{
  AssetRow, InstalledRow, Tables, Package, Event, told, unable_to_install, unable_to_update,
  unable_to_restore, locked_update, logged, removed_tree, made_temporary, made_backup,
  opened_bundle, closed_bundle, backup_assets, count_depends, backup_depends, installed_prefix,
  Host, Trace, World, Why, sql_error, failed_command, Act, ◌and_then◌, nothing, with_event, emit,
  attempt, outside,
}
use mport.Lock.{lock_islocked}
use mport.Delete.Commands.{each_row, first_count}
use mport.Delete.Primitive.{delete_primative}
use mport.Install.{Bundle}
use mport.Install.Primitive.{bundle_read_install_pkg}

-- a row of the stub database's table of packages
pub record StubRow : Type 0 where
  pub name : Bytes
  pub version : Bytes
  pub prefix : Bytes

-- a file that is a bundle
pub record Archive : Type 0 where
  pub bundle : Bundle
  pub packages : List StubRow

-- What the calls here ask of others: the name of a temporary file, what a bundle's file holds, whether
-- mport_check_preconditions passes for a package and flags, and the mode of the session; whether an
-- opening that fails has attached the stub database of its file, whether a closing detaches the one
-- that is attached, and, where the stub database of another file is attached, what a bundle is then,
-- and whether the checks pass.
pub record Session : Type 0 where
  pub tmpfile : Bytes
  pub archive : List Event → Bytes → Option Archive
  pub passes : Tables → ℕ → Package → Bool
  pub offline : Bool
  pub attaches : List Event → Bytes → Bool
  pub detaches : List Event → Bytes → Bool
  pub restub : Bytes → Bundle → Bundle
  pub passes_on : Bytes → Tables → ℕ → Package → Bool

-- mport_pkgmeta_read_stub selects 0 for both
unfoldable pub package_of_stub : StubRow → Package
package_of_stub r = record {
  name = r.name;
  version = r.version;
  prefix = r.prefix;
  locked = 0;
  automatic = 0;
}

unfoldable pub read_all : {A : Type 0} → Query A → Act Trace
read_all unprepared t = err (sql_error, t)
read_all (prepared s) t = each_row (λ a. nothing) s t

-- the dependencies of the installed package, which are counted first
unfoldable pub build_create_extras_depends : Host → Package → Tables → Act Trace
build_create_extras_depends h p ts =
    let rows = filter_rows (λ (r : DependRow). str_eq r.pkg p.name) ts.depends in
    (λ t. first_count (λ n u. ok u) (select (h.fault t.events count_depends) (length rows ∷ [])) t)
    and_then (λ t. read_all (select (h.fault t.events backup_depends) rows) t)

-- The files that are copied are only looked for here.
unfoldable pub make_backup_bundle : Host → Package → Bytes → Tables → Act Trace
make_backup_bundle h p tmp ts =
    (λ t.
      read_all
        (select (h.fault t.events backup_assets)
          (filter_rows (λ (r : AssetRow). str_eq r.pkg p.name) ts.assets))
        t)
    and_then build_create_extras_depends h p ts
    and_then attempt h (made_backup tmp)

-- a failure is followed by an event
unfoldable pub or_event : Event → Result (Why × Trace) Trace → Result (Why × Trace) Trace
or_event e (ok t) = ok t
or_event e (err (why, t)) = err (why, with_event e t)
or_event e undefined = undefined

unfoldable pub before_update : Host → Session → Package → Tables → Act Trace
before_update h x p ts =
    emit (logged (some (codes "Begining update")))
    and_then attempt h (made_temporary x.tmpfile)
    and_then (λ t. or_event (removed_tree x.tmpfile) (make_backup_bundle h p x.tmpfile ts t))

-- mport_bundle_read_init and mport_bundle_read_prep_for_install
unfoldable pub open_archive : Host → Bytes → Act World
open_archive h file = outside (λ _. attempt h (opened_bundle file))

-- a stub database should have packages
unfoldable pub with_packages : (Bundle → List Package → Act World) → Option Archive → Act World
with_packages f none w = err (failed_command, w)
with_packages f (some a) w = elim a.packages [
  | [] ↦ err (failed_command, w)
  | r ∷ rs ↦ f a.bundle (map package_of_stub (r ∷ rs)) w
]

unfoldable pub with_prefix : Option Bytes → ℕ → Package → Package
with_prefix none automatic p = record p { automatic = automatic }
with_prefix (some prefix) automatic p = record p { automatic = automatic; prefix = prefix }

-- the loop stops at the first package that fails
unfoldable pub install_each : Host → Session → Option Bytes → ℕ → Bundle → List Package → Act World
install_each h x prefix automatic b [] w = ok w
install_each h x prefix automatic b (p ∷ ps) w =
    (if x.passes w.tables 7 (with_prefix prefix automatic p)
      then bundle_read_install_pkg h b (with_prefix prefix automatic p) w
      else err (failed_command, w))
    >>= install_each h x prefix automatic b ps

unfoldable pub with_events : List Event → World → World
with_events es w = record w { trace = record w.trace { events = es ++ w.trace.events } }

-- the archive is closed whatever the loop has done
unfoldable pub finish_install :
    Host → Bytes → Result (Why × World) World → Result (Why × World) World
finish_install h file (ok w) = outside (λ _. attempt h (closed_bundle file)) w
finish_install h file (err (why, w)) =
    err (why, with_events (closed_bundle file ∷ told unable_to_install file ∷ []) w)
finish_install h file undefined = undefined

-- Offline, the preconditions are checked of a package that is a NULL pointer.
unfoldable pub install_primative : Host → Session → Bytes → Option Bytes → ℕ → Act World
install_primative h x file prefix automatic = open_archive h file and_then (λ w.
    with_packages
      (λ b ps v.
        if x.offline
        then undefined
        else finish_install h file (install_each h x prefix automatic b ps v))
      (x.archive w.trace.events file) w)

unfoldable pub install_backup_bundle : Host → Session → Act World
install_backup_bundle h x = install_primative h x x.tmpfile none 0

-- the error is returned whether the backup was restored or not
unfoldable pub restored :
    Session → Package → Why → Result (Why × World) World → Result (Why × World) World
restored x p why (ok w) = err (why, with_events (removed_tree x.tmpfile ∷ []) w)
restored x p why (err (other, w)) = err (why, with_events (told unable_to_restore p.name ∷ []) w)
restored x p why undefined = undefined

unfoldable pub or_restore :
    Host → Session → Package → Result (Why × World) World → Result (Why × World) World
or_restore h x p (ok w) = ok (with_events (removed_tree x.tmpfile ∷ []) w)
or_restore h x p (err (why, w)) = restored x p why (install_backup_bundle h x w)
or_restore h x p undefined = undefined

-- mport_bundle_read_update_pkg
unfoldable pub bundle_read_update_pkg : Host → Session → Bundle → Package → Act World
bundle_read_update_pkg h x b p = outside (before_update h x p) and_then (λ w.
    or_restore h x p ((delete_primative h p true and_then bundle_read_install_pkg h b p) w))

-- The prefix of the installed package; a package without a row is an error.
unfoldable pub first_prefix : (Bytes → Act World) → Query Bytes → Act World
first_prefix f unprepared w = err (sql_error, w)
first_prefix f (prepared (row prefix rest)) w = f prefix w
first_prefix f (prepared finished) w = err (failed_command, w)
first_prefix f (prepared failed) w = err (sql_error, w)

unfoldable pub prefixes_of : List InstalledRow → List Bytes
prefixes_of [] = []
prefixes_of (r ∷ rs) = r.prefix ∷ prefixes_of rs

-- set_prefix_to_installed, and what follows it
unfoldable pub with_installed_prefix : Host → Package → (Package → Act World) → Act World
with_installed_prefix h p f w =
    first_prefix (λ prefix. f (record p { prefix = prefix }))
      (select (h.fault w.trace.events installed_prefix)
        (prefixes_of (filter_rows (λ (r : InstalledRow). str_eq r.pkg p.name) w.tables.packages)))
      w

-- a failure is told, and the next package follows
unfoldable pub or_go_on : Package → Result (Why × World) World → Result (Why × World) World
or_go_on p (ok w) = ok w
or_go_on p (err (why, w)) = ok (with_events (told unable_to_update p.name ∷ []) w)
or_go_on p undefined = undefined

-- The file whose stub database is attached as stub, which is one name for all bundles: a bundle that is
-- opened takes it from the one before, and one that is closed leaves it free.
unfoldable pub stub_after : Host → Session → List Event → Option Bytes
stub_after h x [] = none
stub_after h x (e ∷ es) =
    let rest = stub_after h x es in
    elim e [
      | opened_bundle f ↦
          if h.succeeds es (opened_bundle f) || x.attaches es f then some f else rest
      | closed_bundle f ↦ if x.detaches es f then none else rest
      | _ ↦ rest
    ]

-- the checks of a package and its update, with the stub database that is attached: without one, a
-- statement on its tables is an error
unfoldable pub update_on : Host → Session → Bytes → Bundle → Package → Option Bytes → Act World
update_on h x file b p none w = err (sql_error, w)
update_on h x file b p (some f) w =
    if (if str_eq f file then x.passes w.tables 14 p else x.passes_on f w.tables 14 p)
    then with_installed_prefix h p
        (bundle_read_update_pkg h x (if str_eq f file then b else x.restub f b)) w
    else err (failed_command, w)

unfoldable pub update_one : Host → Session → Bytes → Bundle → Package → Act World
update_one h x file b p w =
    if lock_islocked (some p)
    then ok (with_events (told locked_update p.name ∷ []) w)
    else or_go_on p (update_on h x file b p (stub_after h x w.trace.events) w)

unfoldable pub update_each : Host → Session → Bytes → Bundle → List Package → Act World
update_each h x file b [] w = ok w
update_each h x file b (p ∷ ps) w = update_one h x file b p w >>= update_each h x file b ps

-- mport_bundle_read_finish, whose DETACH fails where no stub database is attached
unfoldable pub finish_update : Host → Bytes → Option Bytes → Act World
finish_update h file none w = err (sql_error, with_events (closed_bundle file ∷ []) w)
finish_update h file (some f) w = outside (λ _. attempt h (closed_bundle file)) w

-- mport_update_primative
unfoldable pub update_primative : Host → Session → Bytes → Act World
update_primative h x file =
    open_archive h file
    and_then (λ w.
        with_packages (λ b ps. update_each h x file b ps) (x.archive w.trace.events file) w)
    and_then (λ w. finish_update h file (stub_after h x w.trace.events) w)
