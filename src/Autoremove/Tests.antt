-- ===== src/Autoremove/Tests.antt =====
-- `mport_autoremove` of libmport/autoremove.c on a small system.
use mport.Base.{ℕ, true, false, ◌≡◌, ◌≢◌, refl, none, some, List, [], ◌∷◌}
use mport.Base.Text.{Bytes, codes, str_eq}
use mport.Db.{runs}
use mport.Store.{
  InstalledRow, Package, Host, World, emit, attempt, or_tell, outside, with_trace, changed_by,
  transaction, settle, db_do,
}
use mport.Delete.{take, in_buffer, asset_path, type_code, of_types}
use mport.Delete.Commands.{
  linux_ldconfig, each_row, in_prefix, asset_exec, has_type, run_unexec, unldconfig_asset,
  unldconfig_log, run_unldconfig, run_tool, text_or, remove_kld, special_asset, run_special_unexec,
  package_dir, infra_dir, stub_infra_dir, run_pkg_deinstall, unlink_if_there, remove_infra_tree,
  delete_pkg_infra, names_of, needed_by, confirm_needed, first_count, check_for_upwards_depends,
}
use mport.Delete.Assets.{
  hashed, same_hash, remove_if_copy, delete_found, empty_found, tell, unlink_or_tell, progress,
  lower, has_prefix_nocase, before_nocase, hash_of, compare_hash, check_sum, like_sample,
  remove_copy, remove_sample_copy, check_regular, unregister, delete_file, unlink_empty,
  delete_empty, uses_dir, unless_used, if_safe_to_delete_dir, delete_dir, exec_or_tell,
  delete_asset,
}
use mport.Delete.Primitive.{
  total_steps, count_assets, refuse_locked, each_asset, delete_all_assets, before_delete,
  delete_files, delete_rows, last_traces, after_delete, delete_primative,
}
use mport.Pkgmeta.{
  pkgmeta_count, pkgmeta_list, populate_query, populate, unless_none, stepped_count, package_of,
}
use mport.Autoremove.{Run, finishes, fails, is_undefined, no_fuel, remove_all, again, autoremove}
use mport.Autoremove.Loop.{any_locked, all_uninstalled, remove_all-locked, remove_all-finishes}
use mport.Store.Works.{Healthy}
use mport.Autoremove.Enough.{remove_all-enough}
use mport.Autoremove.Leaves.{autoremove-no_depends}
use mport.Lock.{lock_islocked}

abbrev installed : Bytes → ℕ → InstalledRow
installed pkg locked = record {
  pkg = pkg;
  version = codes "1.0";
  prefix = codes "/usr/local";
  status = codes "clean";
  locked = locked;
  automatic = 1;
}

abbrev automatic_package : Bytes → ℕ → Package
automatic_package name locked = record {
  name = name;
  version = codes "1.0";
  prefix = codes "/usr/local";
  locked = locked;
  automatic = 1;
}

abbrev world : World
world = record {
  tables = record {
    assets = [];
    depends = [];
    packages = installed (codes "foo") 0 ∷ installed (codes "bar") 1 ∷ [];
    categories = [];
  };
  saved = none;
  trace = record { events = []; hash = none; current = 0 };
}

abbrev host : Host
host = record {
  root = [];
  succeeds = λ es e. true;
  fault = λ es q. runs;
  lstat = λ es path. none;
  md5 = λ es path. some [];
  sha256 = λ es path. some [];
  file_exists = λ es path. false;
  passwd = λ _. none;
  groups = λ _. none;
}

remove_all-locked_example :
    remove_all 100 host
      (automatic_package (codes "foo") 0 ∷ automatic_package (codes "bar") 1 ∷ [])
      world
    ≢ finishes world
unfolding any_locked lock_islocked
remove_all-locked_example =
    remove_all-locked 100 host
      (automatic_package (codes "foo") 0 ∷ automatic_package (codes "bar") 1 ∷ []) world world refl

autoremove-no_depends_example : autoremove 5 (λ ps. ps) host world ≡ finishes world
unfolding pkgmeta_list pkgmeta_count populate_query populate unless_none stepped_count package_of
autoremove-no_depends_example =
    autoremove-no_depends 5 (λ ps. ps) host world
      (some (automatic_package (codes "foo") 0 ∷ automatic_package (codes "bar") 1 ∷ [])) refl refl

abbrev state_of : Run → World
state_of (finishes w) = w
state_of (fails why w) = w
state_of is_undefined = world
state_of no_fuel = world

abbrev foo_only : List Package
foo_only = automatic_package (codes "foo") 0 ∷ []

foo-removed :
    remove_all 2 host foo_only world ≡ finishes (state_of (remove_all 2 host foo_only world))
unfolding take in_buffer asset_path type_code of_types each_row in_prefix asset_exec has_type
    run_unexec unldconfig_asset unldconfig_log run_unldconfig run_tool text_or remove_kld
    special_asset run_special_unexec package_dir infra_dir stub_infra_dir run_pkg_deinstall
    unlink_if_there remove_infra_tree delete_pkg_infra names_of needed_by confirm_needed first_count
    check_for_upwards_depends tell unlink_or_tell progress lower has_prefix_nocase before_nocase
    hash_of compare_hash hashed same_hash remove_if_copy delete_found empty_found linux_ldconfig
    check_sum like_sample remove_copy remove_sample_copy check_regular unregister delete_file
    unlink_empty delete_empty uses_dir unless_used if_safe_to_delete_dir delete_dir exec_or_tell
    delete_asset total_steps count_assets refuse_locked each_asset delete_all_assets before_delete
    delete_files delete_rows last_traces after_delete delete_primative lock_islocked emit attempt
    or_tell outside with_trace changed_by transaction settle db_do str_eq remove_all again
foo-removed = refl

remove_all-finishes_example :
    ((state_of (remove_all 2 host foo_only world)).tables ≡ all_uninstalled foo_only world.tables)
    × ((state_of (remove_all 2 host foo_only world)).saved ≡ none)
remove_all-finishes_example =
    remove_all-finishes 2 host foo_only world (state_of (remove_all 2 host foo_only world)) refl
      foo-removed

host-Healthy : Healthy host
host-Healthy = record {
  all_succeed = λ es e. refl;
  all_run = λ es q. refl;
  has_md5 = λ es path. ([], refl);
  has_sha256 = λ es path. ([], refl);
}

remove_all-enough_example :
    (v : World) × (remove_all 2 host foo_only world ≡ finishes v)
    × (v.tables ≡ all_uninstalled foo_only world.tables)
unfolding any_locked lock_islocked
remove_all-enough_example = remove_all-enough host foo_only world host-Healthy refl refl tt
