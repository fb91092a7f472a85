-- ===== src/Registry/Tests.antt =====
-- An installation by libmport/bundle_read_install_pkg.c and a deletion by libmport/delete_primative.c,
-- one after the other on a small system.
use mport.Base.{arith, Bool, true, false, ◌≡◌, refl, Option, none, some, List, [], ◌∷◌, All}
use mport.Base.Text.{Bytes, codes, str_eq}
use mport.Db.{runs, Result, ok, err, undefined}
use mport.Plist.Command.{AssetType}
use mport.Store.{
  AssetRow, InstalledRow, Tables, Package, Event, regular, Host, World, Why, changed_by, emit,
  attempt, or_tell, outside, with_trace, transaction, settle, db_do, new_row, has_row,
}
use mport.Store.Ends.{durable, rolled_back}
use mport.Lock.{lock_islocked}
use mport.Delete.{take, in_buffer, asset_path, type_code, of_types}
use mport.Delete.Commands.{
  each_row, in_prefix, asset_exec, has_type, run_unexec, linux_ldconfig, unldconfig_asset,
  unldconfig_log, run_unldconfig, run_tool, text_or, remove_kld, special_asset, run_special_unexec,
  package_dir, infra_dir, stub_infra_dir, run_pkg_deinstall, unlink_if_there, remove_infra_tree,
  delete_pkg_infra, names_of, needed_by, confirm_needed, first_count, check_for_upwards_depends,
}
use mport.Delete.Assets.{
  tell, unlink_or_tell, progress, lower, has_prefix_nocase, before_nocase, hash_of, compare_hash,
  hashed, check_sum, like_sample, same_hash, remove_copy, remove_if_copy, remove_sample_copy,
  check_regular, unregister, delete_found, delete_file, unlink_empty, empty_found, delete_empty,
  uses_dir, unless_used, if_safe_to_delete_dir, delete_dir, exec_or_tell, delete_asset,
}
use mport.Delete.Primitive.{
  total_steps, count_assets, refuse_locked, each_asset, delete_all_assets, before_delete,
  delete_files, delete_rows, last_traces, after_delete, delete_primative,
}
use mport.Install.{
  actualinstall, Bundle, in_array, entry_of, in_phase, phase_select, phase_assets, read_list,
  with_list, get_assetlist, file_total, get_file_count, number_or_0, get_id, first_spot, ends_field,
  before_blank, is_absolute, below, file_path, at_file, spot_after, without_root, bare_row,
  file_row, path_row, dir_text, row_of,
}
use mport.Install.Files.{
  is_empty, attempt_unset, own, own_dir, mode_dir, place_dir, has_own_mode, own_file, change_mode,
  if_mode, mode_file, register_if_shell, place_found, push, blank_fields, nonempty, parse_sample,
  copy_unless_there, copy_single, copy_sample, create_sample_file, copy_if_sample, unpack,
  unpack_text, place_file, install_exec, place_asset,
}
use mport.Install.Commands.{
  metafile, run_mtree, run_pkg_install, go_to, make_prefix, enter_prefix, pre_assets,
  do_pre_install, copy_metafile, post_asset, post_dir, post_assets, run_postexec, before_complete,
}
use mport.Install.Primitive.{
  whatever, insert_row, install_asset, install_assets, bundle_depends, bundle_categories,
  before_rows, create_rows, before_begin, after_commit, install_rows, current_error,
  do_actual_install, do_post_install, bundle_read_install_pkg,
}
use mport.Delete.Primitive.Rows.{uninstalled}
use mport.Install.Primitive.Errors.{PlainDir}
use mport.Install.Primitive.RoundTrip.{delete_primative-bundle_read_install_pkg}
use mport.Registry.{registry, Call, installs, deletes, call, Steps, closed, state_behind, session}
use mport.Registry.Sessions.{PlainCall, session-Steps}

abbrev asset : AssetType → Bytes → AssetRow
asset type text = record {
  pkg = codes "foo";
  type = type;
  text = some text;
  checksum = none;
  owner = some (codes "www");
  group = none;
  mode = some (codes "0644");
}

abbrev bundle : Bundle
bundle = record {
  tmpdir = codes "/tmp/x";
  assets =
      asset AssetType.preexec (codes "true")
      ∷ asset AssetType.file (codes "bin/foo")
      ∷ asset AssetType.sample (codes "etc/foo.conf.sample")
      ∷ asset AssetType.file_owner_mode (codes "/srv/foo")
      ∷ asset AssetType.postexec (codes "%D")
      ∷ [];
  depends = [];
  categories = record { pkg = codes "foo"; category = codes "net" } ∷ [];
}

abbrev bar : InstalledRow
bar = record {
  pkg = codes "bar";
  version = codes "1.0";
  prefix = codes "/usr/local";
  status = codes "clean";
  locked = 0;
  automatic = 0;
}

abbrev tables : Tables
tables = record { assets = []; depends = []; packages = bar ∷ []; categories = [] }

abbrev world : World
world = record {
  tables = tables;
  saved = none;
  trace = record { events = []; hash = none; current = 0 };
}

abbrev host : (Event → Bool) → Host
host works = record {
  root = [];
  succeeds = λ es e. works e;
  fault = λ es q. runs;
  lstat = λ es path. some (regular 5);
  md5 = λ es path. some (codes "0123456789abcdef0123456789abcdef");
  sha256 = λ es path. some (codes "0123456789abcdef0123456789abcdef");
  file_exists = λ es path. false;
  passwd = λ name. some 80;
  groups = λ name. none;
}

abbrev foo : Package
foo = record {
  name = codes "foo";
  version = codes "1.0";
  prefix = codes "/usr/local";
  locked = 0;
  automatic = 0;
}

abbrev all_work : Event → Bool
all_work e = true

abbrev state_of : Result (Why × World) World → World
state_of (ok w) = w
state_of (err (why, w)) = w
state_of undefined = world

abbrev behind_foo : World
behind_foo = state_of (bundle_read_install_pkg (host all_work) bundle foo world)

foo-installed : bundle_read_install_pkg (host all_work) bundle foo world ≡ ok behind_foo
unfolding in_array entry_of in_phase phase_select phase_assets read_list with_list get_assetlist
    file_total get_file_count number_or_0 get_id first_spot ends_field before_blank is_absolute
    below file_path at_file spot_after without_root bare_row file_row path_row dir_text row_of
    is_empty attempt_unset own own_dir mode_dir place_dir has_own_mode own_file change_mode if_mode
    mode_file register_if_shell place_found push blank_fields nonempty parse_sample
    copy_unless_there copy_single copy_sample create_sample_file copy_if_sample unpack unpack_text
    place_file install_exec place_asset metafile run_mtree run_pkg_install go_to make_prefix
    enter_prefix pre_assets do_pre_install copy_metafile post_asset post_dir post_assets
    run_postexec before_complete whatever insert_row install_asset install_assets bundle_depends
    bundle_categories before_rows create_rows before_begin after_commit install_rows current_error
    do_actual_install do_post_install bundle_read_install_pkg take in_buffer asset_path type_code
    of_types text_or linux_ldconfig run_tool package_dir infra_dir stub_infra_dir first_count
    has_type lower has_prefix_nocase before_nocase emit attempt or_tell outside with_trace
    changed_by transaction settle db_do str_eq new_row has_row
foo-installed = refl

abbrev behind_both : World
behind_both = state_of (delete_primative (host all_work) foo false behind_foo)

foo-deleted : delete_primative (host all_work) foo false behind_foo ≡ ok behind_both
unfolding in_array entry_of in_phase phase_select phase_assets read_list with_list get_assetlist
    file_total get_file_count number_or_0 get_id first_spot ends_field before_blank is_absolute
    below file_path at_file spot_after without_root bare_row file_row path_row dir_text row_of
    is_empty attempt_unset own own_dir mode_dir place_dir has_own_mode own_file change_mode if_mode
    mode_file register_if_shell place_found push blank_fields nonempty parse_sample
    copy_unless_there copy_single copy_sample create_sample_file copy_if_sample unpack unpack_text
    place_file install_exec place_asset metafile run_mtree run_pkg_install go_to make_prefix
    enter_prefix pre_assets do_pre_install copy_metafile post_asset post_dir post_assets
    run_postexec before_complete whatever insert_row install_asset install_assets bundle_depends
    bundle_categories before_rows create_rows before_begin after_commit install_rows current_error
    do_actual_install do_post_install bundle_read_install_pkg take in_buffer asset_path type_code
    of_types text_or linux_ldconfig run_tool package_dir infra_dir stub_infra_dir first_count
    has_type lower has_prefix_nocase before_nocase emit attempt or_tell outside with_trace
    changed_by transaction settle db_do str_eq new_row has_row each_row in_prefix asset_exec
    run_unexec unldconfig_asset unldconfig_log run_unldconfig remove_kld special_asset
    run_special_unexec run_pkg_deinstall unlink_if_there remove_infra_tree delete_pkg_infra names_of
    needed_by confirm_needed check_for_upwards_depends tell unlink_or_tell progress hash_of
    compare_hash hashed same_hash remove_if_copy delete_found empty_found check_sum like_sample
    remove_copy remove_sample_copy check_regular unregister delete_file unlink_empty delete_empty
    uses_dir unless_used if_safe_to_delete_dir delete_dir exec_or_tell delete_asset total_steps
    count_assets refuse_locked each_asset delete_all_assets before_delete delete_files delete_rows
    last_traces after_delete delete_primative lock_islocked
foo-deleted = refl

bundle-PlainDir : All PlainDir (phase_assets actualinstall foo bundle)
unfolding phase_assets in_phase entry_of PlainDir of_types type_code is_empty str_eq in_array take
bundle-PlainDir = (
  (λ e. absurd (ground arith)),
  ((λ e. absurd (ground arith)), ((λ e. absurd (ground arith)), tt)),
)

delete_primative-bundle_read_install_pkg_example :
    (behind_both.tables ≡ tables) × (behind_both.saved ≡ none)
unfolding uninstalled str_eq
delete_primative-bundle_read_install_pkg_example =
    delete_primative-bundle_read_install_pkg (host all_work) (host all_work) bundle foo false world
      behind_foo behind_both refl refl bundle-PlainDir foo-installed foo-deleted

abbrev calls : List Call
calls = installs bundle foo ∷ deletes foo false ∷ []

abbrev state_or : Option World → World
state_or none = world
state_or (some w) = w

session-ends :
    session (host all_work) calls world ≡ some (state_or (session (host all_work) calls world))
unfolding session call state_behind closed durable rolled_back in_array entry_of in_phase
    phase_select phase_assets read_list with_list get_assetlist file_total get_file_count
    number_or_0 get_id first_spot ends_field before_blank is_absolute below file_path at_file
    spot_after without_root bare_row file_row path_row dir_text row_of is_empty attempt_unset own
    own_dir mode_dir place_dir has_own_mode own_file change_mode if_mode mode_file register_if_shell
    place_found push blank_fields nonempty parse_sample copy_unless_there copy_single copy_sample
    create_sample_file copy_if_sample unpack unpack_text place_file install_exec place_asset
    metafile run_mtree run_pkg_install go_to make_prefix enter_prefix pre_assets do_pre_install
    copy_metafile post_asset post_dir post_assets run_postexec before_complete whatever insert_row
    install_asset install_assets bundle_depends bundle_categories before_rows create_rows
    before_begin after_commit install_rows current_error do_actual_install do_post_install
    bundle_read_install_pkg take in_buffer asset_path type_code of_types text_or linux_ldconfig
    run_tool package_dir infra_dir stub_infra_dir first_count has_type lower has_prefix_nocase
    before_nocase emit attempt or_tell outside with_trace changed_by transaction settle db_do str_eq
    new_row has_row each_row in_prefix asset_exec run_unexec unldconfig_asset unldconfig_log
    run_unldconfig remove_kld special_asset run_special_unexec run_pkg_deinstall unlink_if_there
    remove_infra_tree delete_pkg_infra names_of needed_by confirm_needed check_for_upwards_depends
    tell unlink_or_tell progress hash_of compare_hash hashed same_hash remove_if_copy delete_found
    empty_found check_sum like_sample remove_copy remove_sample_copy check_regular unregister
    delete_file unlink_empty delete_empty uses_dir unless_used if_safe_to_delete_dir delete_dir
    exec_or_tell delete_asset total_steps count_assets refuse_locked each_asset delete_all_assets
    before_delete delete_files delete_rows last_traces after_delete delete_primative lock_islocked
session-ends = refl

session-Steps_example :
    Steps calls (registry tables) (registry (state_or (session (host all_work) calls world)).tables)
unfolding PlainCall
session-Steps_example =
    session-Steps (host all_work) calls world (state_or (session (host all_work) calls world)) refl
      (bundle-PlainDir, (tt, tt)) session-ends
