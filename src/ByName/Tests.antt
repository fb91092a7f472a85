-- ===== src/ByName/Tests.antt =====
-- Installations by name, by libmport/install.c, from an index of two packages.
use mathlib.Core.Path.{subst}
use mport.Base.{ℕ, ◌<◌, true, false, ◌≡◌, refl, some, List, [], ◌∷◌, ◌++◌, arith, if◌then◌else◌}
use mport.Base.Text.{Bytes, codes, str_eq, str_eq_iff}
use mport.Db.{runs}
use mport.Moved.{db_count}
use mport.Index.{
  EntryRow, Catalog, fault_of, text_of, populate_row, each_entry, rows_if_any, read_query, searched,
  equals, alias_step, lookup_alias, matches, search_rows, lookup_pkgname, depends_entry,
  depends_count,
}
use mport.ByName.{
  with_vec, Actions, CallEnd, good, bad, crashed, ended, if_good, cut_to, verify_hash, staged,
  after_verify, install_fetched, install_entry, of_version, chosen, install_chosen, install_name,
  entries_before, query_before, counted_before, depends_vec, each_depends, all_entries,
  depends_or_update, install_depends,
}
use mport.ByName.Changes.{Reaches}
use mport.ByName.Verified.{install_depends-Reaches}
use mport.ByName.Ranks.{Lower, Ranked}
use mport.ByName.Enough.{Ends, install_depends-Ends}

abbrev entry : Bytes → Bytes → EntryRow
entry pkg version = record {
  pkg = some pkg;
  version = some version;
  comment = some (codes "text");
  bundlefile = some (pkg ++ codes ".mport");
  license = some (codes "bsd2");
  hash = some (codes "a1");
}

-- app depends on lib
abbrev catalog : Catalog
catalog = record {
  loaded = true;
  packages = entry (codes "app") (codes "2.0") ∷ entry (codes "lib") (codes "1.0") ∷ [];
  aliases = [];
  mirrors = [];
  depends =
      record {
        pkg = some (codes "app");
        version = some (codes "2.0");
        d_pkg = some (codes "lib");
        d_version = some (codes "1.0");
      }
      ∷ [];
  glob = str_eq;
  by_country = λ ms. ms;
  fault = λ s. runs;
}

-- the state is the list of the files that were installed, the last first; every file has the hash `h`
abbrev actions : Bytes → Actions (List Bytes)
actions h = record {
  file_exists = λ s path. true;
  fetch_bundle = λ directory file s. (s, true);
  hash_file = λ s path. some h;
  unlink = λ path s. (s, true);
  primative_install = λ path prefix automatic s. (path ∷ s, true);
  installed = λ s name. some false;
  upgradeable = λ s name. false;
  output_path = codes "/tmp";
  primative_update = λ path s. (s, true);
}

run : ℕ → Bytes → Bytes → CallEnd (List Bytes)
unfolding install_depends with_vec depends_or_update all_entries each_depends depends_vec
    counted_before query_before entries_before depends_entry depends_count text_of fault_of equals
    str_eq install_name install_chosen chosen install_entry install_fetched after_verify verify_hash
    cut_to staged ended if_good lookup_pkgname search_rows searched rows_if_any read_query
    each_entry populate_row lookup_alias alias_step matches db_count of_version
run n h name = install_depends n catalog (actions h) name (codes "2.0") false []

-- the package is installed behind the one that it depends on
installs_behind :
    run 2 (codes "a1") (codes "app")
    ≡ good
        (codes "/var/db/mport/downloads/app.mport" ∷ codes "/var/db/mport/downloads/lib.mport" ∷ [])
unfolding run
installs_behind = refl

-- another hash stops the first installation
refuses_hash : run 2 (codes "b2") (codes "app") ≡ bad []
unfolding run
refuses_hash = refl

-- a name that the index does not have reads behind the vector of entries
crashes_unknown : run 2 (codes "a1") (codes "none") ≡ crashed
unfolding run
crashes_unknown = refl

install_depends-Reaches_example :
    Reaches catalog
      (actions (codes "a1"))
      []
      (install_depends 2 catalog (actions (codes "a1")) (codes "app") (codes "2.0") false [])
install_depends-Reaches_example =
    install_depends-Reaches 2 catalog (actions (codes "a1")) (codes "app") (codes "2.0") false []

abbrev rank : Bytes → ℕ
rank name = if str_eq name (codes "app") then 1 else 0

catalog-Ranked : Ranked catalog rank
unfolding Ranked Lower equals str_eq
catalog-Ranked = (
  λ n d e k.
      let same : codes "lib" ≡ d = cc in
      subst (λ x. rank x < rank n) same
        (subst (λ x. rank (codes "lib") < rank x) ((str_eq_iff (codes "app") n).0 e) (omega arith)),
  tt,
)

install_depends-Ends_example :
    Ends (install_depends 2 catalog (actions (codes "a1")) (codes "app") (codes "2.0") false [])
unfolding str_eq
install_depends-Ends_example =
    install_depends-Ends 2 catalog (actions (codes "a1")) rank catalog-Ranked (codes "app")
      (codes "2.0") false [] (omega arith)
