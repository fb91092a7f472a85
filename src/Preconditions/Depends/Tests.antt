-- ===== src/Preconditions/Depends/Tests.antt =====
-- The checks of libmport/check_preconditions.c on a small system.
use mport.Base.{true, false, ◌≡◌, refl, ◌↔◌, none, some, [], ◌∷◌, All, Exists}
use mport.Base.Text.{codes, str_eq, cstr, rindex}
use mport.Db.{ok, runs}
use mport.Version.Compare.{parse_version, cut_at, number_at, is_separator}
use mport.Version.Require.{require_check}
use mport.Moved.{Index, rows_of_port, equals}
use mport.Preconditions.{
  System, Meta, PackageRow, DependRow, filter_rows, check_if_moved, check_if_deprecated,
  check_conflicts,
}
use mport.Preconditions.Depends.{
  flavored_name, provides, version_verdict, installed_version, lookup_step, check_depend,
  return_current, depend_loop, depends_on, of_package, check_depends, check_preconditions,
}
use mport.Preconditions.Depends.Order.{IsOlder, check_preconditions_iff}
use mport.Moved.Lookup.{has_text, is_full, all_full}
use mport.Preconditions.Moves.{check_if_moved_lem}
use mport.Preconditions.Depends.Satisfied.{
  NoFault, PassDepends, NoConflict, check_depends_iff, check_conflicts_iff,
}

abbrev index : Index
index = record {
  loaded = true;
  moved = [];
  alias_packages = [];
  count_fault = runs;
  moved_fault = runs;
  alias_fault = λ name. runs;
}

abbrev installed : PackageRow
installed = record {
  pkg = codes "libfoo";
  version = codes "1.2";
  os_release = codes "3.0";
  flavor = none;
  status = codes "clean";
}

abbrev needed : DependRow
needed = record {
  pkg = codes "foo";
  depend_pkgname = codes "libfoo";
  depend_pkgversion = some (codes ">=1.0");
}

abbrev system : System
system = record {
  packages = installed ∷ [];
  stub_depends = needed ∷ [];
  stub_conflicts =
      record { pkg = codes "foo"; conflict_pkg = codes "foo-old"; conflict_version = codes "*" }
      ∷ [];
  os_release = some (codes "3.0");
  index = index;
  glob = λ s pattern. str_eq s pattern;
  fault = λ s. runs;
  bind_fails = λ name. false;
  lookup_fault = λ name. runs;
  has_error = false;
}

abbrev foo : Meta
foo = record { name = codes "foo"; version = codes "2.0"; origin = codes "misc/foo"; flavor = none }

abbrev no_fault : NoFault system
no_fault = record {
  prepares = refl;
  prepares_lookup = refl;
  binds = λ name. refl;
  looks_up = λ name. refl;
}

check_preconditions_iff_example : (check_preconditions system foo 14 ≡ ok tt) ↔ (
    Exists (IsOlder foo (codes "3.0")) (installed ∷ [])
    × All (NoConflict system (codes "foo")) system.stub_conflicts
    × PassDepends system (codes "3.0") (filter_rows (of_package (codes "foo")) (needed ∷ [])))
unfolding parse_version cut_at number_at rindex cstr is_separator
check_preconditions_iff_example =
    check_preconditions_iff system foo (codes "3.0") no_fault refl refl refl refl (refl, tt)

-- a requirement of one byte is not judged, and the dependency behind it, which is not installed, is
-- not looked at
abbrev short_first : System
short_first = record system {
  stub_depends =
      record {
        pkg = codes "foo";
        depend_pkgname = codes "libfoo";
        depend_pkgversion = some (codes "1");
      }
      ∷ record { pkg = codes "foo"; depend_pkgname = codes "libbar"; depend_pkgversion = none }
      ∷ [];
}

passes_short : check_depends short_first foo ≡ ok tt
unfolding check_depends depends_on depend_loop check_depend lookup_step installed_version
    version_verdict return_current provides flavored_name of_package str_eq require_check
passes_short = refl

check_depends_iff_example :
    (check_depends system foo ≡ ok tt)
    ↔ PassDepends system (codes "3.0") (filter_rows (of_package (codes "foo")) (needed ∷ []))
check_depends_iff_example = check_depends_iff system (codes "3.0") no_fault foo refl

check_conflicts_iff_example :
    (check_conflicts system foo ≡ ok tt)
    ↔ All (NoConflict system (codes "foo")) system.stub_conflicts
check_conflicts_iff_example = check_conflicts_iff system foo refl

-- a port that has moved, with a row that says so
abbrev moved_away : System
moved_away = record system {
  index = record index {
    moved =
        record {
          port = some (codes "misc/foo");
          moved_to = some (codes "misc/bar");
          why = some (codes "renamed");
          date = some (codes "2020-01-01");
        }
        ∷ [];
  };
}

check_if_moved_lem_example :
    (check_if_moved moved_away foo ≡ ok tt) × (check_if_deprecated moved_away foo ≡ ok tt)
unfolding rows_of_port all_full is_full has_text equals str_eq
check_if_moved_lem_example =
    check_if_moved_lem moved_away foo
      (record { loaded = refl; counts = refl; selects = refl; aliases = λ name. refl })
