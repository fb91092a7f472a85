-- ===== src/Index/Tests.antt =====
-- A small index, and what libmport/index.c finds in it and does to attach it.
use mport.Base.{true, false, ◌≡◌, refl, ◌↔◌, none, some, [], ◌∷◌, Exists}
use mport.Base.Text.{
  Bytes, codes, str_eq, cstr, is_digit, scan_digits, strtol_at_digit, strtol_int, rindex,
}
use mport.Plist.Command.{strlcpy}
use mport.Db.{ok, err, runs}
use mport.Moved.{index_not_loaded, db_count}
use mport.Preconditions.{System, Meta}
use mport.Preconditions.Depends.{
  check_preconditions, run_if, has_flag, check_if_older_os, older_os_than, one_step, first_row,
}
use mport.Version.Compare.{
  cut_at, number_at, parse_version, cmp_ints, is_separator, skip_separators, take_part, next_part,
  or_else, cmp_loop, cmp_versions, then_ints, version_cmp,
}
use mport.Index.{
  EntryRow, Catalog, fault_of, text_of, populate_row, each_entry, rows_if_any, read_query, searched,
  equals, alias_step, lookup_alias, matches, search_rows, lookup_pkgname, mirror_entry, mirror_code,
  mirror_list, depends_entry, depends_count, depends_list,
}
use mport.Index.Check.{
  returns_ok, is_zero, newer_or_os, entry_is_newer, any_newer, check_found, index_check,
}
use mport.Index.Newer.{Readable, HasNewer, index_check_iff}
use mport.Index.Load.{Outside, IndexState, load_ok, index_load}
use mport.Index.Load.Attached.{IsConsistent, index_load-Keeps}

abbrev entry : Bytes → Bytes → EntryRow
entry pkg version = record {
  pkg = some pkg;
  version = some version;
  comment = some (codes "a tool");
  bundlefile = some (codes "tool.mport");
  license = some (codes "bsd2");
  hash = some (codes "00");
}

abbrev catalog : Catalog
catalog = record {
  loaded = true;
  packages = entry (codes "other") (codes "9.0") ∷ entry (codes "tool2") (codes "2.1") ∷ [];
  aliases = record { alias = some (codes "tool"); pkg = some (codes "tool2") } ∷ [];
  mirrors = record { country = some (codes "us"); mirror = some (codes "http://a") } ∷ [];
  depends =
      record {
        pkg = some (codes "tool2");
        version = some (codes "2.1");
        d_pkg = some (codes "other");
        d_version = some (codes "9.0");
      }
      ∷ [];
  glob = str_eq;
  by_country = λ ms. ms;
  fault = λ s. runs;
}

abbrev system : System
system = record {
  packages = [];
  stub_depends = [];
  stub_conflicts = [];
  os_release = some (codes "3.0");
  index = record {
    loaded = true;
    moved = [];
    alias_packages = [];
    count_fault = runs;
    moved_fault = runs;
    alias_fault = λ name. runs;
  };
  glob = str_eq;
  fault = λ s. runs;
  bind_fails = λ name. false;
  lookup_fault = λ name. runs;
  has_error = false;
}

abbrev tool : Meta
tool = record {
  name = codes "tool";
  version = codes "2.0";
  origin = codes "misc/tool";
  flavor = none;
}

-- the mirrors are listed, and the code is not MPORT_OK
mirrors_listed :
    mirror_list catalog ≡ ok (101, record { country = codes "us"; url = codes "http://a" } ∷ [])
unfolding mirror_list fault_of searched rows_if_any read_query each_entry mirror_entry mirror_code
    text_of db_count strlcpy
mirrors_listed = refl

depends_listed :
    depends_list catalog (codes "tool2") (codes "2.1")
    ≡ ok (
        record {
          pkgname = codes "tool2";
          version = codes "2.1";
          d_pkgname = codes "other";
          d_version = codes "9.0";
        }
        ∷ [])
unfolding depends_list fault_of rows_if_any read_query each_entry depends_entry depends_count
    text_of equals str_eq
depends_listed = refl

not_loaded :
    lookup_pkgname (record catalog { loaded = false }) (codes "tool") ≡ err index_not_loaded
unfolding lookup_pkgname
not_loaded = refl

index_check_iff_example :
    (index_check system catalog tool ≡ ok true)
    ↔ Exists (HasNewer catalog (codes "tool2") tool false) catalog.packages
unfolding lookup_alias alias_step fault_of equals text_of returns_ok Readable populate_row str_eq
    matches check_preconditions run_if has_flag check_if_older_os older_os_than one_step first_row
    parse_version cut_at number_at rindex cstr is_separator
index_check_iff_example =
    index_check_iff system catalog tool (codes "tool2") false refl (λ s. refl) refl refl refl
      (λ m. (_, refl, refl), (λ m. (_, refl, refl), tt))

-- the update is found
newer_found : index_check system catalog tool ≡ ok true
unfolding index_check check_found any_newer entry_is_newer newer_or_os is_zero returns_ok
    lookup_pkgname search_rows searched rows_if_any read_query each_entry populate_row text_of
    lookup_alias alias_step fault_of equals matches db_count str_eq check_preconditions run_if
    has_flag check_if_older_os older_os_than one_step first_row version_cmp parse_version cut_at
    number_at rindex cstr strtol_int strtol_at_digit is_digit cmp_ints is_separator skip_separators
    take_part next_part or_else cmp_loop cmp_versions then_ints scan_digits
newer_found = refl

abbrev outside : Outside
outside = record {
  no_index = false;
  birthtime = some 1000;
  now = 2000000;
  writable = true;
  fetch_bootstrap_index = (true, true);
  fetch_index = (true, true);
  attach_runs = true;
  detach_runs = true;
  get_fault = λ name. runs;
  set_runs = true;
}

abbrev before_load : IndexState
before_load = record { have_index = false; attached = false; file = true; settings = [] }

index_load-Keeps_example :
    IsConsistent (index_load outside before_load).0
    × ((index_load outside before_load).1 ≡ load_ok
        → ((index_load outside before_load).0.have_index ≡ true)
          × ((index_load outside before_load).0.attached ≡ true))
unfolding IsConsistent
index_load-Keeps_example = index_load-Keeps outside before_load refl
