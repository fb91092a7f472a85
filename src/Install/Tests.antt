-- ===== src/Install/Tests.antt =====
-- Installations by libmport/bundle_read_install_pkg.c on a small system.
use mport.Base.{arith, Bool, not, true, false, ◌≡◌, refl, ◌⊎◌, none, some, [], ◌∷◌, ◌++◌}
use mport.Base.Text.{Bytes, codes, str_eq}
use mport.Db.{runs, Result, ok, err, undefined}
use mport.Plist.Command.{AssetType}
use mport.Store.{
  AssetRow, InstalledRow, Tables, Package, Event, parsed_mode, extracted, regular, Host, World, Why,
  failed_command, changed_by, emit, attempt, or_tell, outside, with_trace, transaction, settle,
  db_do, new_row, has_row,
}
use mport.Store.Ends.{Ends, durable, rolled_back}
use mport.Store.Works.{Healthy}
use mport.Delete.{take, in_buffer, asset_path, type_code, of_types}
use mport.Delete.Commands.{
  text_or, linux_ldconfig, run_tool, package_dir, infra_dir, stub_infra_dir, first_count, has_type,
}
use mport.Delete.Assets.{lower, has_prefix_nocase, before_nocase}
use mport.Delete.Primitive.Rows.{uninstalled}
use mport.Install.{
  Bundle, in_array, entry_of, in_phase, phase_select, phase_assets, read_list, with_list,
  get_assetlist, file_total, get_file_count, number_or_0, get_id, first_spot, ends_field,
  before_blank, is_absolute, below, file_path, at_file, spot_after, without_root, bare_row,
  file_row, path_row, dir_text, row_of,
}
use mport.Install.Files.{
  is_empty, attempt_unset, own, own_dir, mode_dir, place_dir, has_own_mode, own_file, change_mode,
  if_mode, mode_file, register_if_shell, place_found, push, blank_fields, nonempty, parse_sample,
  copy_unless_there, copy_single, copy_sample, create_sample_file, copy_if_sample, unpack,
  unpack_text, place_file, install_exec, place_asset,
}
use mport.Install.Commands.{
  metafile, run_mtree, run_pkg_install, go_to, make_prefix, enter_prefix, pre_assets,
  do_pre_install, copy_metafile, post_asset, post_dir, post_assets, run_postexec, before_complete,
}
use mport.Install.Primitive.{
  whatever, insert_row, install_asset, install_assets, bundle_depends, bundle_categories,
  before_rows, create_rows, before_begin, after_commit, install_rows, current_error,
  do_actual_install, do_post_install, bundle_read_install_pkg,
}
use mport.Install.Laws.{Finds, Every}
use mport.Install.Primitive.Errors.{PlainDir}
use mport.Install.Primitive.Outcomes.{installed, bundle_read_install_pkg-ok}
use mport.Install.Primitive.Failed.{bundle_read_install_pkg-err}
use mport.Install.Primitive.Loop.{IsReady}
use mport.Install.Primitive.Succeeds.{IsReadyRow, bundle_read_install_pkg-succeeds}
use mport.Install.Primitive.Others.{bundle_read_install_pkg-others}
use mport.Install.Primitive.Counts.{Within}
use mport.Install.Primitive.Progress.{bundle_read_install_pkg-Within}

abbrev asset : AssetType → Bytes → AssetRow
asset type text = record {
  pkg = codes "foo";
  type = type;
  text = some text;
  checksum = none;
  owner = some (codes "www");
  group = none;
  mode = some (codes "0644");
}

abbrev bundle : Bundle
bundle = record {
  tmpdir = codes "/tmp/x";
  assets =
      asset AssetType.preexec (codes "true")
      ∷ asset AssetType.file (codes "bin/foo")
      ∷ asset AssetType.sample (codes "etc/foo.conf.sample")
      ∷ asset AssetType.file_owner_mode (codes "/srv/foo")
      ∷ asset AssetType.postexec (codes "%D")
      ∷ [];
  depends = [];
  categories = record { pkg = codes "foo"; category = codes "net" } ∷ [];
}

abbrev bar : InstalledRow
bar = record {
  pkg = codes "bar";
  version = codes "1.0";
  prefix = codes "/usr/local";
  status = codes "clean";
  locked = 0;
  automatic = 0;
}

abbrev tables : Tables
tables = record { assets = []; depends = []; packages = bar ∷ []; categories = [] }

abbrev world : World
world = record {
  tables = tables;
  saved = none;
  trace = record { events = []; hash = none; current = 0 };
}

abbrev host : (Event → Bool) → Host
host works = record {
  root = [];
  succeeds = λ es e. works e;
  fault = λ es q. runs;
  lstat = λ es path. some (regular 5);
  md5 = λ es path. some (codes "0123456789abcdef0123456789abcdef");
  sha256 = λ es path. some (codes "0123456789abcdef0123456789abcdef");
  file_exists = λ es path. false;
  passwd = λ name. some 80;
  groups = λ name. none;
}

abbrev foo : Package
foo = record {
  name = codes "foo";
  version = codes "1.0";
  prefix = codes "/usr/local";
  locked = 0;
  automatic = 0;
}

abbrev all_work : Event → Bool
all_work e = true

abbrev state_of : Result (Why × World) World → World
state_of (ok w) = w
state_of (err (why, w)) = w
state_of undefined = world

abbrev behind_foo : World
behind_foo = state_of (bundle_read_install_pkg (host all_work) bundle foo world)

foo-installed : bundle_read_install_pkg (host all_work) bundle foo world ≡ ok behind_foo
unfolding in_array entry_of in_phase phase_select phase_assets read_list with_list get_assetlist
    file_total get_file_count number_or_0 get_id first_spot ends_field before_blank is_absolute
    below file_path at_file spot_after without_root bare_row file_row path_row dir_text row_of
    is_empty attempt_unset own own_dir mode_dir place_dir has_own_mode own_file change_mode if_mode
    mode_file register_if_shell place_found push blank_fields nonempty parse_sample
    copy_unless_there copy_single copy_sample create_sample_file copy_if_sample unpack unpack_text
    place_file install_exec place_asset metafile run_mtree run_pkg_install go_to make_prefix
    enter_prefix pre_assets do_pre_install copy_metafile post_asset post_dir post_assets
    run_postexec before_complete whatever insert_row install_asset install_assets bundle_depends
    bundle_categories before_rows create_rows before_begin after_commit install_rows current_error
    do_actual_install do_post_install bundle_read_install_pkg take in_buffer asset_path type_code
    of_types text_or linux_ldconfig run_tool package_dir infra_dir stub_infra_dir first_count
    has_type lower has_prefix_nocase before_nocase emit attempt or_tell outside with_trace
    changed_by transaction settle db_do str_eq new_row has_row
foo-installed = refl

bundle_read_install_pkg-ok_example :
    (has_row (codes "foo") tables.packages ≡ false)
    × (behind_foo.tables ≡ installed (host all_work) bundle foo tables)
    × (behind_foo.saved ≡ none)
unfolding phase_assets in_phase entry_of PlainDir of_types type_code is_empty str_eq in_array take
bundle_read_install_pkg-ok_example =
    bundle_read_install_pkg-ok (host all_work) bundle foo world behind_foo refl
      (
        (λ e. absurd (ground arith)),
        ((λ e. absurd (ground arith)), ((λ e. absurd (ground arith)), tt)),
      )
      foo-installed

-- the second file cannot be written
abbrev one_fails : Event → Bool
one_fails (extracted path) = not (str_eq path (codes "/usr/local/etc/foo.conf.sample"))
one_fails e = true

abbrev behind_error : World
behind_error = state_of (bundle_read_install_pkg (host one_fails) bundle foo world)

foo-failed :
    bundle_read_install_pkg (host one_fails) bundle foo world ≡ err (failed_command, behind_error)
unfolding in_array entry_of in_phase phase_select phase_assets read_list with_list get_assetlist
    file_total get_file_count number_or_0 get_id first_spot ends_field before_blank is_absolute
    below file_path at_file spot_after without_root bare_row file_row path_row dir_text row_of
    is_empty attempt_unset own own_dir mode_dir place_dir has_own_mode own_file change_mode if_mode
    mode_file register_if_shell place_found push blank_fields nonempty parse_sample
    copy_unless_there copy_single copy_sample create_sample_file copy_if_sample unpack unpack_text
    place_file install_exec place_asset metafile run_mtree run_pkg_install go_to make_prefix
    enter_prefix pre_assets do_pre_install copy_metafile post_asset post_dir post_assets
    run_postexec before_complete whatever insert_row install_asset install_assets bundle_depends
    bundle_categories before_rows create_rows before_begin after_commit install_rows current_error
    do_actual_install do_post_install bundle_read_install_pkg take in_buffer asset_path type_code
    of_types text_or linux_ldconfig run_tool package_dir infra_dir stub_infra_dir first_count
    has_type lower has_prefix_nocase before_nocase emit attempt or_tell outside with_trace
    changed_by transaction settle db_do str_eq new_row has_row
foo-failed = refl

bundle_read_install_pkg-err_example :
    ((durable behind_error).packages ≡ tables.packages)
    ⊎ ((durable behind_error).packages ≡ tables.packages ++ new_row foo ∷ [])
bundle_read_install_pkg-err_example =
    bundle_read_install_pkg-err (host one_fails) bundle foo world behind_error failed_command refl
      foo-failed

bundle_read_install_pkg-others_example :
    Ends
      (λ v. uninstalled (codes "foo") v.tables ≡ uninstalled (codes "foo") tables)
      (λ v. uninstalled (codes "foo") v.tables ≡ uninstalled (codes "foo") tables)
      (bundle_read_install_pkg (host one_fails) bundle foo world)
bundle_read_install_pkg-others_example =
    bundle_read_install_pkg-others (host one_fails) bundle foo world

host-Healthy : Healthy (host all_work)
host-Healthy = record {
  all_succeed = λ es e. refl;
  all_run = λ es q. refl;
  has_md5 = λ es path. (codes "0123456789abcdef0123456789abcdef", refl);
  has_sha256 = λ es path. (codes "0123456789abcdef0123456789abcdef", refl);
}

host-Finds : Finds (host all_work)
host-Finds = record { finds = λ es path. (regular 5, refl) }

asset-IsReadyRow : (type : AssetType) (text : Bytes) → IsReadyRow (asset type text)
unfolding IsReadyRow IsReady entry_of
asset-IsReadyRow type text e d = absurd (ground arith)

bundle_read_install_pkg-succeeds_example :
    (v : World) × (bundle_read_install_pkg (host all_work) bundle foo world ≡ ok v)
    × (v.tables ≡ installed (host all_work) bundle foo tables)
unfolding has_row str_eq
bundle_read_install_pkg-succeeds_example =
    bundle_read_install_pkg-succeeds (host all_work) bundle foo world host-Healthy host-Finds refl
      refl refl
      (
        asset-IsReadyRow AssetType.preexec _,
        (
          asset-IsReadyRow AssetType.file _,
          (
            asset-IsReadyRow AssetType.sample _,
            (
              asset-IsReadyRow AssetType.file_owner_mode _,
              (asset-IsReadyRow AssetType.postexec _, tt),
            ),
          ),
        ),
      )

bundle_read_install_pkg-Within_example :
    Ends
      (λ (v : World). Every Within v.trace.events)
      (λ (v : World). Every Within v.trace.events)
      (bundle_read_install_pkg (host all_work) bundle foo world)
unfolding Every
bundle_read_install_pkg-Within_example =
    bundle_read_install_pkg-Within (host all_work) bundle foo world tt

-- The mode of a directory is not one: MPORT_OK is returned where no error was set before, with the
-- transaction still open, and the status that a rollback leaves is dirty.
abbrev no_mode : Event → Bool
no_mode (parsed_mode mode) = false
no_mode e = true

abbrev dir_bundle : Bundle
dir_bundle = record bundle {
  assets = asset AssetType.dir (codes "share/foo") ∷ asset AssetType.file (codes "bin/foo") ∷ [];
}

abbrev behind_dir : World
behind_dir = state_of (bundle_read_install_pkg (host no_mode) dir_bundle foo world)

dir-not_installed :
    (bundle_read_install_pkg (host no_mode) dir_bundle foo world ≡ ok behind_dir)
    × ((durable behind_dir).packages ≡ bar ∷ new_row foo ∷ [])
    × ((durable behind_dir).assets ≡ [])
unfolding in_array entry_of in_phase phase_select phase_assets read_list with_list get_assetlist
    file_total get_file_count number_or_0 get_id first_spot ends_field before_blank is_absolute
    below file_path at_file spot_after without_root bare_row file_row path_row dir_text row_of
    is_empty attempt_unset own own_dir mode_dir place_dir has_own_mode own_file change_mode if_mode
    mode_file register_if_shell place_found push blank_fields nonempty parse_sample
    copy_unless_there copy_single copy_sample create_sample_file copy_if_sample unpack unpack_text
    place_file install_exec place_asset metafile run_mtree run_pkg_install go_to make_prefix
    enter_prefix pre_assets do_pre_install copy_metafile post_asset post_dir post_assets
    run_postexec before_complete whatever insert_row install_asset install_assets bundle_depends
    bundle_categories before_rows create_rows before_begin after_commit install_rows current_error
    do_actual_install do_post_install bundle_read_install_pkg take in_buffer asset_path type_code
    of_types text_or linux_ldconfig run_tool package_dir infra_dir stub_infra_dir first_count
    has_type lower has_prefix_nocase before_nocase emit attempt or_tell outside with_trace
    changed_by transaction settle db_do str_eq new_row has_row durable rolled_back
dir-not_installed = (refl, refl, refl)
