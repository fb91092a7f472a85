-- ===== src/Delete/Commands.antt =====
-- libmport/delete_primative.c: the commands that a deletion runs (`run_unexec`, `run_unldconfig`,
-- `run_special_unexec`, `run_pkg_deinstall`), the removal of the package's own files
-- (`delete_pkg_infra`), and the question about the packages that depend on it.
use mport.Base.{
  ℕ, zero, suc, Bool, true, ◌&&◌, Option, none, some, List, [], ◌∷◌, ◌++◌, ◌==◌, if◌then◌else◌,
  length,
}
use mport.Base.Text.{Bytes, codes, str_eq}
use mport.Db.{
  Steps, row, finished, failed, Query, unprepared, prepared, ok, err, undefined, ◌>>=◌, select,
}
use mport.Plist.Command.{
  AssetType, ldconfig, ldconfig_linux, glib_schemas, info, kld, desktop_file_utils, postunexec,
}
use mport.Preconditions.{DependRow, filter_rows}
use mport.Store.{
  AssetRow, InstalledRow, Tables, Package, cannot_remove_dir, cannot_unlink, confirmed, told,
  unlinked, ran_exec, ran, removed_dir, removed_tree, changed_dir, changed_mode, logged,
  upwards_depends, ldconfig_assets, special_assets, exec_assets, Host, Trace, sql_error,
  needed_by_others, Act, ◌and_then◌, nothing, with_event, emit, attempt, or_tell,
}
use mport.Delete.{in_buffer, asset_path, type_code, of_types}

-- the loop over the rows of a statement, with what follows it and the rows that were read
unfoldable pub each_row : {A : Type 0} → (A → Act Trace) → Steps A → Act Trace
each_row f finished t = ok t
each_row f failed t = err (sql_error, t)
each_row f (row a rest) t = f a t >>= each_row f rest

-- the statement is prepared, the prefix becomes the working directory, and the rows follow
unfoldable pub in_prefix : {A : Type 0} → Host → Package → (A → Act Trace) → Query A → Act Trace
in_prefix h p f unprepared t = err (sql_error, t)
in_prefix h p f (prepared s) t =
    (attempt h (changed_dir (h.root ++ in_buffer p.prefix)) and_then each_row f s) t

-- mport_run_asset_exec, which reads its text
unfoldable pub asset_exec : Host → Package → Bytes → Option Bytes → Act Trace
asset_exec h p cwd none t = undefined
asset_exec h p cwd (some text) t =
    attempt h (ran_exec text cwd (asset_path h.root p.prefix (some text))) t

unfoldable pub has_type : Bytes → List AssetType → AssetRow → Bool
has_type name types r = str_eq r.pkg name && of_types types r.type

unfoldable pub run_unexec : Host → Package → AssetType → Tables → Act Trace
run_unexec h p type ts t =
    (in_prefix h p (λ (r : AssetRow). asset_exec h p (in_buffer p.prefix) r.text)
          (select (h.fault t.events (exec_assets type))
            (filter_rows (has_type p.name (type ∷ [])) ts.assets))
        and_then emit (
            logged (
              some (
                if type_code type == type_code postunexec
                then codes "postunexec"
                else codes "preunexec"))))
      t

unfoldable pub linux_ldconfig : Option Bytes → Bytes
linux_ldconfig none = codes "/compat/linux/sbin/ldconfig"
linux_ldconfig (some d) = d ++ codes "/sbin/ldconfig"

unfoldable pub unldconfig_asset : Host → AssetRow → Act Trace
unldconfig_asset h r =
    if of_types (ldconfig ∷ []) r.type
    then attempt h (ran (codes "/usr/sbin/service ldconfig restart > /dev/null"))
    else if of_types (ldconfig_linux ∷ []) r.type
    then attempt h (ran (linux_ldconfig r.text))
    else nothing

-- The text hangs on the type of the last row; where there was none, the variable has no value.
unfoldable pub unldconfig_log : List AssetRow → Option Bytes
unldconfig_log [] = none
unldconfig_log (r ∷ []) =
    some
      (if type_code r.type == type_code ldconfig then codes "ldconfig" else codes "ldconfig-linux")
unldconfig_log (r ∷ s ∷ rs) = unldconfig_log (s ∷ rs)

unfoldable pub run_unldconfig : Host → Package → Tables → Act Trace
run_unldconfig h p ts t =
    let rows = filter_rows (has_type p.name (ldconfig ∷ ldconfig_linux ∷ [])) ts.assets in
    (in_prefix h p (unldconfig_asset h) (select (h.fault t.events ldconfig_assets) rows)
        and_then emit (logged (unldconfig_log rows)))
      t

-- `mport_file_exists(tool) && mport_xsystem(…) != MPORT_OK` is an error
unfoldable pub run_tool : Host → Bytes → Bytes → Act Trace
run_tool h tool command t = if h.file_exists t.events tool then attempt h (ran command) t else ok t

unfoldable pub text_or : Bytes → Option Bytes → Bytes
text_or d none = d
text_or d (some s) = s

-- the module's index, and its directory unless that is /boot/modules; a NULL text is read
unfoldable pub remove_kld : Host → Option Bytes → Act Trace
remove_kld h none t = undefined
remove_kld h (some d) t =
    (attempt h (ran (codes "/usr/sbin/kldxref " ++ d))
        and_then (if str_eq (codes "/boot/modules") d
            then nothing
            else or_tell h (removed_dir d true) (emit (told cannot_remove_dir d))))
      t

unfoldable pub special_asset : Host → Package → AssetRow → Act Trace
special_asset h p r =
    if of_types (glib_schemas ∷ []) r.type
    then run_tool h (codes "/usr/local/bin/glib-compile-schemas") (
        codes "/usr/local/bin/glib-compile-schemas "
        ++ text_or p.prefix r.text
        ++ codes "/share/glib-2.0/schemas > /dev/null || true")
    else if of_types (info ∷ []) r.type
    then run_tool h (codes "/usr/local/bin/indexinfo")
        (codes "/usr/local/bin/indexinfo " ++ text_or p.prefix r.text)
    else if of_types (kld ∷ []) r.type
    then remove_kld h r.text
    else if of_types (desktop_file_utils ∷ []) r.type
    then run_tool h (codes "/usr/local/bin/update-desktop-database")
        (codes "/usr/local/bin/update-desktop-database -q > /dev/null || true")
    else nothing

unfoldable pub run_special_unexec : Host → Package → Tables → Act Trace
run_special_unexec h p ts t =
    in_prefix h p (special_asset h p)
      (select (h.fault t.events special_assets) (
        filter_rows (has_type p.name (desktop_file_utils ∷ glib_schemas ∷ info ∷ kld ∷ []))
          ts.assets))
      t

-- `<base>/<name>-<version>`
unfoldable pub package_dir : Bytes → Package → Bytes
package_dir base p = base ++ b'/' ∷ p.name ++ b'-' ∷ p.version

unfoldable pub infra_dir : Bytes
infra_dir = codes "/var/db/mport/infrastructure"

unfoldable pub stub_infra_dir : Bytes
stub_infra_dir = codes "+INFRASTRUCTURE"

unfoldable pub run_pkg_deinstall : Host → Package → Bytes → Act Trace
run_pkg_deinstall h p mode t =
    let file = in_buffer (package_dir infra_dir p ++ codes "/pkg-deinstall") in
    if h.file_exists t.events file
    then (attempt h (changed_mode file)
          and_then attempt h (
              ran (codes "PKG_PREFIX=" ++ p.prefix ++ b' ' ∷ file ++ b' ' ∷ p.name ++ b' ' ∷ mode)))
        t
    else ok t

-- `mport_file_exists(file) && unlink(file) != 0` is told
unfoldable pub unlink_if_there : Host → Bytes → Act Trace
unlink_if_there h file t =
    if h.file_exists t.events file
    then or_tell h (unlinked file) (emit (told cannot_unlink file)) t
    else ok t

unfoldable pub remove_infra_tree : Host → Bytes → Act Trace
remove_infra_tree h dir t =
    if h.file_exists t.events dir then attempt h (removed_tree dir) t else ok t

unfoldable pub delete_pkg_infra : Host → Package → Act Trace
delete_pkg_infra h p =
    unlink_if_there h (in_buffer (h.root ++ package_dir stub_infra_dir p ++ codes "/mtree"))
    and_then unlink_if_there h
        (in_buffer (h.root ++ package_dir stub_infra_dir p ++ codes "/pkg-message"))
    and_then remove_infra_tree h (in_buffer (h.root ++ package_dir infra_dir p))

unfoldable pub names_of : List InstalledRow → List Bytes
names_of [] = []
names_of (p ∷ ps) = p.pkg ∷ names_of ps

-- the join of depends and packages: one row for each installed package that needs the name
unfoldable pub needed_by : Bytes → List InstalledRow → List DependRow → List Bytes
needed_by name ps [] = []
needed_by name ps (d ∷ ds) =
    let rest = needed_by name ps ds in
    if str_eq d.depend_pkgname name
    then names_of (filter_rows (λ (p : InstalledRow). str_eq d.pkg p.pkg) ps) ++ rest
    else rest

unfoldable pub confirm_needed : Host → ℕ → Act Trace
confirm_needed h zero t = ok t
confirm_needed h (suc n) t =
    if h.succeeds t.events confirmed
    then ok (with_event confirmed t)
    else err (needed_by_others, with_event confirmed t)

-- `group_concat` and `count` give one row
unfoldable pub first_count : (ℕ → Act Trace) → Query ℕ → Act Trace
first_count f unprepared t = err (sql_error, t)
first_count f (prepared finished) t = err (sql_error, t)
first_count f (prepared failed) t = err (sql_error, t)
first_count f (prepared (row n rest)) t = f n t

unfoldable pub check_for_upwards_depends : Host → Package → Tables → Act Trace
check_for_upwards_depends h p ts t =
    first_count (confirm_needed h)
      (select (h.fault t.events upwards_depends)
        (length (needed_by p.name ts.packages ts.depends) ∷ []))
      t
