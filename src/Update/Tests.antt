-- ===== src/Update/Tests.antt =====
-- Updates by libmport/bundle_read_update_pkg.c and libmport/update_primative.c on a small system.
use mport.Base.{arith, Bool, not, true, false, ◌≡◌, refl, none, some, [], ◌∷◌, All}
use mport.Base.Text.{Bytes, codes, str_eq}
use mport.Db.{runs, Result, ok, err, undefined}
use mport.Plist.Command.{AssetType}
use mport.Store.{
  AssetRow, InstalledRow, Tables, Package, Event, extracted, regular, Host, World, Why,
  failed_command, changed_by, emit, attempt, or_tell, outside, with_trace, ◌and_then◌, transaction,
  settle, db_do, new_row, has_row,
}
use mport.Store.Ends.{Ends}
use mport.Store.Ends.{At}
use mport.Lock.{lock_islocked}
use mport.Delete.{take, in_buffer, asset_path, type_code, of_types}
use mport.Delete.Commands.{
  each_row, in_prefix, asset_exec, has_type, run_unexec, linux_ldconfig, unldconfig_asset,
  unldconfig_log, run_unldconfig, run_tool, text_or, remove_kld, special_asset, run_special_unexec,
  package_dir, infra_dir, stub_infra_dir, run_pkg_deinstall, unlink_if_there, remove_infra_tree,
  delete_pkg_infra, names_of, needed_by, confirm_needed, first_count, check_for_upwards_depends,
}
use mport.Delete.Assets.{
  tell, unlink_or_tell, progress, lower, has_prefix_nocase, before_nocase, hash_of, compare_hash,
  hashed, check_sum, like_sample, same_hash, remove_copy, remove_if_copy, remove_sample_copy,
  check_regular, unregister, delete_found, delete_file, unlink_empty, empty_found, delete_empty,
  uses_dir, unless_used, if_safe_to_delete_dir, delete_dir, exec_or_tell, delete_asset,
}
use mport.Delete.Primitive.{
  total_steps, count_assets, refuse_locked, each_asset, delete_all_assets, before_delete,
  delete_files, delete_rows, last_traces, after_delete, delete_primative,
}
use mport.Install.{
  actualinstall, Bundle, in_array, entry_of, in_phase, phase_select, phase_assets, read_list,
  with_list, get_assetlist, file_total, get_file_count, number_or_0, get_id, first_spot, ends_field,
  before_blank, is_absolute, below, file_path, at_file, spot_after, without_root, bare_row,
  file_row, path_row, dir_text, row_of,
}
use mport.Install.Files.{
  is_empty, attempt_unset, own, own_dir, mode_dir, place_dir, has_own_mode, own_file, change_mode,
  if_mode, mode_file, register_if_shell, place_found, push, blank_fields, nonempty, parse_sample,
  copy_unless_there, copy_single, copy_sample, create_sample_file, copy_if_sample, unpack,
  unpack_text, place_file, install_exec, place_asset,
}
use mport.Install.Commands.{
  metafile, run_mtree, run_pkg_install, go_to, make_prefix, enter_prefix, pre_assets,
  do_pre_install, copy_metafile, post_asset, post_dir, post_assets, run_postexec, before_complete,
}
use mport.Install.Primitive.{
  whatever, insert_row, install_asset, install_assets, bundle_depends, bundle_categories,
  before_rows, create_rows, before_begin, after_commit, install_rows, current_error,
  do_actual_install, do_post_install, bundle_read_install_pkg,
}
use mport.Delete.Primitive.Rows.{uninstalled}
use mport.Install.Primitive.Errors.{PlainDir}
use mport.Install.Primitive.Outcomes.{installed}
use mport.Update.{
  StubRow, Archive, Session, package_of_stub, read_all, build_create_extras_depends,
  make_backup_bundle, or_event, before_update, open_archive, with_packages, with_prefix,
  install_each, with_events, finish_install, install_primative, install_backup_bundle, restored,
  or_restore, bundle_read_update_pkg, first_prefix, prefixes_of, with_installed_prefix, or_go_on,
  stub_after, update_on, update_one,
}
use mport.Update.Outcomes.{IsPlain, bundle_read_update_pkg-ok, bundle_read_update_pkg-IsPlain}
use mport.Update.Restore.{bundle_read_update_pkg-not_restored}
use mport.Update.Detached.{Reopens}

abbrev asset : AssetType → Bytes → AssetRow
asset type text = record {
  pkg = codes "foo";
  type = type;
  text = some text;
  checksum = none;
  owner = some (codes "www");
  group = none;
  mode = some (codes "0644");
}

abbrev bundle : Bundle
bundle = record {
  tmpdir = codes "/tmp/x";
  assets =
      asset AssetType.preexec (codes "true")
      ∷ asset AssetType.file (codes "bin/foo")
      ∷ asset AssetType.sample (codes "etc/foo.conf.sample")
      ∷ asset AssetType.file_owner_mode (codes "/srv/foo")
      ∷ asset AssetType.postexec (codes "%D")
      ∷ [];
  depends = [];
  categories = record { pkg = codes "foo"; category = codes "net" } ∷ [];
}

abbrev bar : InstalledRow
bar = record {
  pkg = codes "bar";
  version = codes "1.0";
  prefix = codes "/usr/local";
  status = codes "clean";
  locked = 0;
  automatic = 0;
}

-- the package that is updated: it is locked
abbrev old_foo : InstalledRow
old_foo = record bar { pkg = codes "foo"; version = codes "0.9"; locked = 1; automatic = 1 }

abbrev tables : Tables
tables = record { assets = []; depends = []; packages = old_foo ∷ bar ∷ []; categories = [] }

abbrev world : World
world = record {
  tables = tables;
  saved = none;
  trace = record { events = []; hash = none; current = 0 };
}

abbrev host : (Event → Bool) → Host
host works = record {
  root = [];
  succeeds = λ es e. works e;
  fault = λ es q. runs;
  lstat = λ es path. some (regular 5);
  md5 = λ es path. some (codes "0123456789abcdef0123456789abcdef");
  sha256 = λ es path. some (codes "0123456789abcdef0123456789abcdef");
  file_exists = λ es path. false;
  passwd = λ name. some 80;
  groups = λ name. none;
}

abbrev foo : Package
foo = record {
  name = codes "foo";
  version = codes "1.0";
  prefix = codes "/usr/local";
  locked = 0;
  automatic = 0;
}

abbrev all_work : Event → Bool
all_work e = true

abbrev state_of : Result (Why × World) World → World
state_of (ok w) = w
state_of (err (why, w)) = w
state_of undefined = world

abbrev stub_foo : StubRow
stub_foo = record { name = codes "foo"; version = codes "1.0"; prefix = codes "/usr/local" }

abbrev stub_bar : StubRow
stub_bar = record { name = codes "bar"; version = codes "1.1"; prefix = codes "/usr/local" }

abbrev new_foo : Package
new_foo = package_of_stub stub_foo

abbrev archive : Archive
archive = record { bundle = bundle; packages = stub_foo ∷ stub_bar ∷ [] }

abbrev session : Session
session = record {
  tmpfile = codes "/tmp/mport.1";
  archive = λ es file. some archive;
  passes = λ ts flags p. true;
  offline = false;
  attaches = λ es file. true;
  detaches = λ es file. true;
  restub = λ file b. b;
  passes_on = λ file ts flags p. true;
}

abbrev updated : World
updated = state_of (bundle_read_update_pkg (host all_work) session bundle foo world)

bundle-PlainDir : All PlainDir (phase_assets actualinstall foo bundle)
unfolding phase_assets in_phase entry_of PlainDir of_types type_code is_empty str_eq in_array take
bundle-PlainDir = (
  (λ e. absurd (ground arith)),
  ((λ e. absurd (ground arith)), ((λ e. absurd (ground arith)), tt)),
)

foo-updated : bundle_read_update_pkg (host all_work) session bundle foo world ≡ ok updated
unfolding in_array entry_of in_phase phase_select phase_assets read_list with_list get_assetlist
    file_total get_file_count number_or_0 get_id first_spot ends_field before_blank is_absolute
    below file_path at_file spot_after without_root bare_row file_row path_row dir_text row_of
    is_empty attempt_unset own own_dir mode_dir place_dir has_own_mode own_file change_mode if_mode
    mode_file register_if_shell place_found push blank_fields nonempty parse_sample
    copy_unless_there copy_single copy_sample create_sample_file copy_if_sample unpack unpack_text
    place_file install_exec place_asset metafile run_mtree run_pkg_install go_to make_prefix
    enter_prefix pre_assets do_pre_install copy_metafile post_asset post_dir post_assets
    run_postexec before_complete whatever insert_row install_asset install_assets bundle_depends
    bundle_categories before_rows create_rows before_begin after_commit install_rows current_error
    do_actual_install do_post_install bundle_read_install_pkg take in_buffer asset_path type_code
    of_types text_or linux_ldconfig run_tool package_dir infra_dir stub_infra_dir first_count
    has_type lower has_prefix_nocase before_nocase emit attempt or_tell outside with_trace
    changed_by transaction settle db_do str_eq new_row has_row each_row in_prefix asset_exec
    run_unexec unldconfig_asset unldconfig_log run_unldconfig remove_kld special_asset
    run_special_unexec run_pkg_deinstall unlink_if_there remove_infra_tree delete_pkg_infra names_of
    needed_by confirm_needed check_for_upwards_depends tell unlink_or_tell progress hash_of
    compare_hash hashed same_hash remove_if_copy delete_found empty_found check_sum like_sample
    remove_copy remove_sample_copy check_regular unregister delete_file unlink_empty delete_empty
    uses_dir unless_used if_safe_to_delete_dir delete_dir exec_or_tell delete_asset total_steps
    count_assets refuse_locked each_asset delete_all_assets before_delete delete_files delete_rows
    last_traces after_delete delete_primative lock_islocked package_of_stub read_all
    build_create_extras_depends make_backup_bundle or_event before_update open_archive with_packages
    with_prefix install_each with_events finish_install install_primative install_backup_bundle
    restored or_restore bundle_read_update_pkg first_prefix prefixes_of with_installed_prefix
    or_go_on stub_after update_on update_one
foo-updated = refl

bundle_read_update_pkg-ok_example :
    (updated.tables ≡ installed (host all_work) bundle foo (uninstalled (codes "foo") tables))
    × (updated.saved ≡ none)
bundle_read_update_pkg-ok_example =
    bundle_read_update_pkg-ok (host all_work) session bundle foo world updated refl bundle-PlainDir
      foo-updated

bundle_read_update_pkg-IsPlain_example : All (IsPlain (codes "foo")) updated.tables.packages
unfolding package_of_stub
bundle_read_update_pkg-IsPlain_example =
    bundle_read_update_pkg-IsPlain (host all_work) session bundle stub_foo world updated refl
      bundle-PlainDir foo-updated

-- the second file cannot be written
abbrev one_fails : Event → Bool
one_fails (extracted path) = not (str_eq path (codes "/usr/local/etc/foo.conf.sample"))
one_fails e = true

abbrev begun : World
begun = state_of (outside (before_update (host one_fails) session foo) world)

abbrev broken : World
broken = state_of (
    (delete_primative (host one_fails) foo true
        and_then bundle_read_install_pkg (host one_fails) bundle foo)
      begun)

foo-fails :
    (outside (before_update (host one_fails) session foo) world ≡ ok begun)
    × ((delete_primative (host one_fails) foo true
            and_then bundle_read_install_pkg (host one_fails) bundle foo)
          begun
        ≡ err (failed_command, broken))
    × (has_row (codes "foo") broken.tables.packages ≡ true)
unfolding in_array entry_of in_phase phase_select phase_assets read_list with_list get_assetlist
    file_total get_file_count number_or_0 get_id first_spot ends_field before_blank is_absolute
    below file_path at_file spot_after without_root bare_row file_row path_row dir_text row_of
    is_empty attempt_unset own own_dir mode_dir place_dir has_own_mode own_file change_mode if_mode
    mode_file register_if_shell place_found push blank_fields nonempty parse_sample
    copy_unless_there copy_single copy_sample create_sample_file copy_if_sample unpack unpack_text
    place_file install_exec place_asset metafile run_mtree run_pkg_install go_to make_prefix
    enter_prefix pre_assets do_pre_install copy_metafile post_asset post_dir post_assets
    run_postexec before_complete whatever insert_row install_asset install_assets bundle_depends
    bundle_categories before_rows create_rows before_begin after_commit install_rows current_error
    do_actual_install do_post_install bundle_read_install_pkg take in_buffer asset_path type_code
    of_types text_or linux_ldconfig run_tool package_dir infra_dir stub_infra_dir first_count
    has_type lower has_prefix_nocase before_nocase emit attempt or_tell outside with_trace
    changed_by transaction settle db_do str_eq new_row has_row each_row in_prefix asset_exec
    run_unexec unldconfig_asset unldconfig_log run_unldconfig remove_kld special_asset
    run_special_unexec run_pkg_deinstall unlink_if_there remove_infra_tree delete_pkg_infra names_of
    needed_by confirm_needed check_for_upwards_depends tell unlink_or_tell progress hash_of
    compare_hash hashed same_hash remove_if_copy delete_found empty_found check_sum like_sample
    remove_copy remove_sample_copy check_regular unregister delete_file unlink_empty delete_empty
    uses_dir unless_used if_safe_to_delete_dir delete_dir exec_or_tell delete_asset total_steps
    count_assets refuse_locked each_asset delete_all_assets before_delete delete_files delete_rows
    last_traces after_delete delete_primative lock_islocked package_of_stub read_all
    build_create_extras_depends make_backup_bundle or_event before_update open_archive with_packages
    with_prefix install_each with_events finish_install install_primative install_backup_bundle
    restored or_restore bundle_read_update_pkg first_prefix prefixes_of with_installed_prefix
    or_go_on stub_after update_on update_one
foo-fails = (refl, refl, refl)

bundle_read_update_pkg-not_restored_example :
    Ends
      (λ _. ⊥)
      (At broken.tables broken.saved)
      (bundle_read_update_pkg (host one_fails) session bundle foo world)
bundle_read_update_pkg-not_restored_example =
    bundle_read_update_pkg-not_restored (host one_fails) session bundle foo archive stub_foo
      (stub_bar ∷ []) world begun broken failed_command (λ es. refl) refl foo-fails.0 foo-fails.1
      foo-fails.2

abbrev opened : World
opened = state_of (open_archive (host one_fails) (codes "foo.mport") world)

abbrev opened_begun : World
opened_begun = state_of (outside (before_update (host one_fails) session new_foo) opened)

abbrev opened_broken : World
opened_broken = state_of (
    (delete_primative (host one_fails) new_foo true
        and_then bundle_read_install_pkg (host one_fails) bundle new_foo)
      opened_begun)

abbrev reopens : Reopens (host one_fails) session
reopens = record {
  archive = archive;
  first = stub_foo;
  others = stub_bar ∷ [];
  is_archive = λ es. refl;
  has_packages = refl;
  opens = λ es. refl;
  detaches = λ es f. refl;
}
