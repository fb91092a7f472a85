-- ===== src/Delete/Primitive/Tests.antt =====
-- A deletion by `mport_delete_primative` of libmport/delete_primative.c on a small system.
use mport.Base.{arith, Bool, not, true, false, ◌≡◌, refl, ◌⊎◌, none, some, [], ◌∷◌}
use mport.Base.Text.{Bytes, codes, str_eq}
use mport.Db.{runs, Result, ok, err, undefined}
use mport.Plist.Command.{file}
use mport.Store.{
  AssetRow, InstalledRow, Tables, Package, delete_packages, mark_dirty, Event, executed, regular,
  Host, World, Why, sql_error, changed_by, emit, attempt, or_tell, outside, with_trace, transaction,
  settle, db_do,
}
use mport.Store.Ends.{Ends, At, durable}
use mport.Lock.{lock_islocked}
use mport.Delete.{take, in_buffer, asset_path, type_code, of_types}
use mport.Delete.Commands.{
  linux_ldconfig, each_row, in_prefix, asset_exec, has_type, run_unexec, unldconfig_asset,
  unldconfig_log, run_unldconfig, run_tool, text_or, remove_kld, special_asset, run_special_unexec,
  package_dir, infra_dir, stub_infra_dir, run_pkg_deinstall, unlink_if_there, remove_infra_tree,
  delete_pkg_infra, names_of, needed_by, confirm_needed, first_count, check_for_upwards_depends,
}
use mport.Delete.Assets.{
  hashed, same_hash, remove_if_copy, delete_found, empty_found, tell, unlink_or_tell, progress,
  lower, has_prefix_nocase, before_nocase, hash_of, compare_hash, check_sum, like_sample,
  remove_copy, remove_sample_copy, check_regular, unregister, delete_file, unlink_empty,
  delete_empty, uses_dir, unless_used, if_safe_to_delete_dir, delete_dir, exec_or_tell,
  delete_asset,
}
use mport.Delete.Primitive.{
  total_steps, count_assets, refuse_locked, each_asset, delete_all_assets, before_delete,
  delete_files, delete_rows, last_traces, after_delete, delete_primative,
}
use mport.Store.Works.{Healthy}
use mport.Delete.Works.{IsComplete}
use mport.Delete.Primitive.Succeeds.{delete_primative-succeeds}
use mport.Delete.Primitive.Rows.{uninstalled}
use mport.Delete.Primitive.Outcomes.{delete_primative-ok, delete_primative-err}
use mport.Delete.Primitive.Refused.{delete_primative-locked, delete_primative-in_transaction}
use mport.Delete.Primitive.Others.{delete_primative-others}

abbrev asset : Bytes → AssetRow
asset pkg = record {
  pkg = pkg;
  type = file;
  text = some (codes "bin/foo");
  checksum = some (codes "0123456789abcdef0123456789abcdef");
  owner = none;
  group = none;
  mode = none;
}

abbrev installed : Bytes → InstalledRow
installed pkg = record {
  pkg = pkg;
  version = codes "1.0";
  prefix = codes "/usr/local";
  status = codes "clean";
  locked = 0;
  automatic = 0;
}

abbrev tables : Tables
tables = record {
  assets = asset (codes "foo") ∷ asset (codes "bar") ∷ [];
  depends = [];
  packages = installed (codes "foo") ∷ installed (codes "bar") ∷ [];
  categories = record { pkg = codes "foo"; category = codes "misc" } ∷ [];
}

abbrev world : World
world = record {
  tables = tables;
  saved = none;
  trace = record { events = []; hash = none; current = 0 };
}

abbrev is_delete_packages : Event → Bool
is_delete_packages (executed (delete_packages n)) = true
is_delete_packages e = false

-- a system where every call succeeds, or where one statement in the transaction fails
abbrev host : (Event → Bool) → Host
host works = record {
  root = [];
  succeeds = λ es e. works e;
  fault = λ es q. runs;
  lstat = λ es path. some (regular 5);
  md5 = λ es path. some (codes "0123456789abcdef0123456789abcdef");
  sha256 = λ es path. some (codes "0123456789abcdef0123456789abcdef");
  file_exists = λ es path. false;
  passwd = λ _. none;
  groups = λ _. none;
}

abbrev foo : Package
foo = record {
  name = codes "foo";
  version = codes "1.0";
  prefix = codes "/usr/local";
  locked = 0;
  automatic = 0;
}

abbrev all_work : Event → Bool
all_work e = true

abbrev state_of : Result (Why × World) World → World
state_of (ok w) = w
state_of (err (why, w)) = w
state_of undefined = world

foo-deleted :
    delete_primative (host all_work) foo false world
    ≡ ok (state_of (delete_primative (host all_work) foo false world))
unfolding take in_buffer asset_path type_code of_types each_row in_prefix asset_exec has_type
    run_unexec unldconfig_asset unldconfig_log run_unldconfig run_tool text_or remove_kld
    special_asset run_special_unexec package_dir infra_dir stub_infra_dir run_pkg_deinstall
    unlink_if_there remove_infra_tree delete_pkg_infra names_of needed_by confirm_needed first_count
    check_for_upwards_depends tell unlink_or_tell progress lower has_prefix_nocase before_nocase
    hash_of compare_hash hashed same_hash remove_if_copy delete_found empty_found linux_ldconfig
    check_sum like_sample remove_copy remove_sample_copy check_regular unregister delete_file
    unlink_empty delete_empty uses_dir unless_used if_safe_to_delete_dir delete_dir exec_or_tell
    delete_asset total_steps count_assets refuse_locked each_asset delete_all_assets before_delete
    delete_files delete_rows last_traces after_delete delete_primative lock_islocked emit attempt
    or_tell outside with_trace changed_by transaction settle db_do str_eq
foo-deleted = refl

delete_primative-ok_example :
    ((state_of (delete_primative (host all_work) foo false world)).tables
      ≡ uninstalled (codes "foo") tables)
    × ((state_of (delete_primative (host all_work) foo false world)).saved ≡ none)
delete_primative-ok_example =
    delete_primative-ok (host all_work) foo false world
      (state_of (delete_primative (host all_work) foo false world)) refl foo-deleted

-- the third statement of the transaction fails
abbrev one_fails : Event → Bool
one_fails e = not (is_delete_packages e)

foo-broken :
    delete_primative (host one_fails) foo false world
    ≡ err (sql_error, state_of (delete_primative (host one_fails) foo false world))
unfolding take in_buffer asset_path type_code of_types each_row in_prefix asset_exec has_type
    run_unexec unldconfig_asset unldconfig_log run_unldconfig run_tool text_or remove_kld
    special_asset run_special_unexec package_dir infra_dir stub_infra_dir run_pkg_deinstall
    unlink_if_there remove_infra_tree delete_pkg_infra names_of needed_by confirm_needed first_count
    check_for_upwards_depends tell unlink_or_tell progress lower has_prefix_nocase before_nocase
    hash_of compare_hash hashed same_hash remove_if_copy delete_found empty_found linux_ldconfig
    check_sum like_sample remove_copy remove_sample_copy check_regular unregister delete_file
    unlink_empty delete_empty uses_dir unless_used if_safe_to_delete_dir delete_dir exec_or_tell
    delete_asset total_steps count_assets refuse_locked each_asset delete_all_assets before_delete
    delete_files delete_rows last_traces after_delete delete_primative lock_islocked emit attempt
    or_tell outside with_trace changed_by transaction settle db_do str_eq
foo-broken = refl

delete_primative-err_example :
    (durable (state_of (delete_primative (host one_fails) foo false world)) ≡ tables)
    ⊎ (durable (state_of (delete_primative (host one_fails) foo false world))
        ≡ changed_by (mark_dirty (codes "foo")) tables)
delete_primative-err_example =
    delete_primative-err (host one_fails) foo false world
      (state_of (delete_primative (host one_fails) foo false world)) sql_error refl foo-broken

abbrev locked_foo : Package
locked_foo = record foo { locked = 1 }

delete_primative-locked_example :
    Ends (λ _. ⊥) (At tables none) (delete_primative (host all_work) locked_foo true world)
unfolding lock_islocked
delete_primative-locked_example = delete_primative-locked (host all_work) locked_foo true world refl

abbrev in_transaction : World
in_transaction = record world { saved = some tables }

delete_primative-in_transaction_example :
    Ends
      (λ _. ⊥)
      (λ v. v.saved ≡ some tables)
      (delete_primative (host all_work) foo true in_transaction)
delete_primative-in_transaction_example =
    delete_primative-in_transaction (host all_work) foo true in_transaction tables refl

delete_primative-others_example :
    Ends
      (λ v. uninstalled (codes "foo") v.tables ≡ uninstalled (codes "foo") tables)
      (λ v. uninstalled (codes "foo") v.tables ≡ uninstalled (codes "foo") tables)
      (delete_primative (host one_fails) foo false world)
delete_primative-others_example = delete_primative-others (host one_fails) foo false world

host-Healthy : Healthy (host all_work)
host-Healthy = record {
  all_succeed = λ es e. refl;
  all_run = λ es q. refl;
  has_md5 = λ es path. (codes "0123456789abcdef0123456789abcdef", refl);
  has_sha256 = λ es path. (codes "0123456789abcdef0123456789abcdef", refl);
}

asset-IsComplete : (pkg : Bytes) → IsComplete (asset pkg)
unfolding of_types type_code
asset-IsComplete pkg = record {
  text = λ e. absurd (ground arith);
  checksum = λ e. absurd (ground arith);
}

delete_primative-succeeds_example :
    (v : World) × (delete_primative (host all_work) foo true world ≡ ok v)
    × (v.tables ≡ uninstalled (codes "foo") tables)
unfolding lock_islocked
delete_primative-succeeds_example =
    delete_primative-succeeds (host all_work) foo true world host-Healthy refl refl
      (asset-IsComplete (codes "foo"), (asset-IsComplete (codes "bar"), tt))
