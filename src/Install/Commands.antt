-- ===== src/Install/Commands.antt =====
-- libmport/bundle_read_install_pkg.c: the steps before and behind the files of a package
-- (`do_pre_install`, `run_mtree`, `run_pkg_install`, `copy_metafile`, `run_postexec`).
use mport.Base.{none, some, List, [], ◌∷◌, ◌++◌, if◌then◌else◌}
use mport.Base.Text.{Bytes, codes, str_eq}
use mport.Db.{ok}
use mport.Plist.Command.{
  Entry, cwd, preexec, postexec, ldconfig, ldconfig_linux, glib_schemas, info, kld,
  desktop_file_utils, touch,
}
use mport.Store.{
  Package, shown_message, ran, changed_dir, changed_mode, logged, started_service, made_dir,
  copied_file, Host, Trace, Act, ◌and_then◌, nothing, emit, attempt, or_tell,
}
use mport.Delete.{in_buffer, asset_path, of_types}
use mport.Delete.Commands.{
  text_or, linux_ldconfig, run_tool, package_dir, infra_dir, stub_infra_dir,
}
use mport.Install.{Bundle, preinstall, postinstall, phase_assets, get_assetlist}
use mport.Install.Files.{install_exec}

-- a file of the bundle's own, below its temporary directory
unfoldable pub metafile : Bundle → Package → Bytes → Bytes
metafile b p type = in_buffer (b.tmpdir ++ b'/' ∷ package_dir stub_infra_dir p ++ b'/' ∷ type)

unfoldable pub run_mtree : Host → Bundle → Package → Act Trace
run_mtree h b p t =
    let file = metafile b p (codes "mtree") in
    if h.file_exists t.events file
    then attempt h
        (ran (
          codes "/usr/sbin/mtree -U -f "
          ++ file
          ++ codes " -d -e -p "
          ++ p.prefix
          ++ codes " >/dev/null"))
        t
    else ok t

unfoldable pub run_pkg_install : Host → Bundle → Package → Bytes → Act Trace
run_pkg_install h b p mode t =
    let file = metafile b p (codes "pkg-install") in
    if h.file_exists t.events file
    then (attempt h (changed_mode file)
          and_then attempt h (
              ran (codes "PKG_PREFIX=" ++ p.prefix ++ b' ' ∷ file ++ b' ' ∷ p.name ++ b' ' ∷ mode)))
        t
    else ok t

unfoldable pub go_to : Host → Bytes → Act Trace
go_to h dir = attempt h (changed_dir (h.root ++ dir))

-- the directory, where it cannot be entered: only the Linux prefix has its parent made too
unfoldable pub make_prefix : Bytes → Act Trace
make_prefix dir =
    if str_eq (codes "/compat/linux") dir
    then emit (made_dir (codes "/compat")) and_then emit (made_dir (codes "/compat/linux"))
    else emit (made_dir dir)

unfoldable pub enter_prefix : Host → Bytes → Act Trace
enter_prefix h dir = or_tell h (changed_dir (h.root ++ dir)) (make_prefix dir and_then go_to h dir)

unfoldable pub pre_assets : Host → Package → List Entry → Bytes → Act Trace
pre_assets h p [] dir = nothing
pre_assets h p (e ∷ es) dir =
    let rest = pre_assets h p es dir in
    if of_types (cwd ∷ []) e.type
    then go_to h (in_buffer (text_or p.prefix e.text))
      and_then pre_assets h p es (in_buffer (text_or p.prefix e.text))
    else if of_types (preexec ∷ []) e.type
    then install_exec h dir none e.text and_then rest
    else rest

unfoldable pub do_pre_install : Host → Bundle → Package → Act Trace
do_pre_install h b p =
    run_mtree h b p
    and_then run_pkg_install h b p (codes "PRE-INSTALL")
    and_then get_assetlist h preinstall p b
    and_then enter_prefix h (in_buffer p.prefix)
    and_then pre_assets h p (phase_assets preinstall p b) (in_buffer p.prefix)
    and_then emit (logged (some (codes "preexec")))

-- A failure is not seen by the caller, but leaves out what follows it.
unfoldable pub copy_metafile : Host → Bundle → Package → Bytes → Act Trace
copy_metafile h b p type t =
    let from = metafile b p type in
    let todir = in_buffer (h.root ++ package_dir infra_dir p) in
    let to = in_buffer (h.root ++ package_dir infra_dir p ++ b'/' ∷ type) in
    if h.file_exists t.events from
    then (if h.succeeds t.events (made_dir todir)
        then (emit (made_dir todir) and_then emit (copied_file from to)) t
        else emit (made_dir todir) t)
    else ok t

-- one entry behind the files; `file` is the entry's path below the root
unfoldable pub post_asset : Host → Package → Entry → Bytes → Act Trace
post_asset h p e dir =
    let file = asset_path h.root p.prefix e.text in
    if of_types (cwd ∷ []) e.type
    then go_to h (in_buffer (text_or p.prefix e.text))
    else if of_types (postexec ∷ []) e.type
    then install_exec h dir (some file) e.text
    else if of_types (ldconfig ∷ []) e.type
    then attempt h (ran (codes "/usr/sbin/service ldconfig restart > /dev/null"))
    else if of_types (ldconfig_linux ∷ []) e.type
    then attempt h (ran (linux_ldconfig e.text))
    else if of_types (glib_schemas ∷ []) e.type
    then run_tool h (codes "/usr/local/bin/glib-compile-schemas") (
        codes "/usr/local/bin/glib-compile-schemas "
        ++ text_or p.prefix e.text
        ++ codes "/share/glib-2.0/schemas > /dev/null || true")
    else if of_types (info ∷ []) e.type
    then run_tool h (codes "/usr/local/bin/indexinfo")
        (codes "/usr/local/bin/indexinfo " ++ text_or p.prefix e.text)
    else if of_types (kld ∷ []) e.type
    then attempt h (ran (codes "/usr/sbin/kldxref " ++ file))
    else if of_types (desktop_file_utils ∷ []) e.type
    then run_tool h (codes "/usr/local/bin/update-desktop-database")
        (codes "/usr/local/bin/update-desktop-database -q > /dev/null || true")
    else if of_types (touch ∷ []) e.type
    then attempt h (ran (codes "/usr/bin/touch " ++ file))
    else nothing

unfoldable pub post_dir : Package → Entry → Bytes → Bytes
post_dir p e dir = if of_types (cwd ∷ []) e.type then in_buffer (text_or p.prefix e.text) else dir

unfoldable pub post_assets : Host → Package → List Entry → Bytes → Act Trace
post_assets h p [] dir = nothing
post_assets h p (e ∷ es) dir = post_asset h p e dir and_then post_assets h p es (post_dir p e dir)

unfoldable pub run_postexec : Host → Bundle → Package → Act Trace
run_postexec h b p =
    get_assetlist h postinstall p b
    and_then go_to h (in_buffer p.prefix)
    and_then post_assets h p (phase_assets postinstall p b) (in_buffer p.prefix)
    and_then emit (logged (some (codes "postexec")))

-- `do_post_install` up to the statement that completes the package
unfoldable pub before_complete : Host → Bundle → Package → Act Trace
before_complete h b p =
    copy_metafile h b p (codes "mtree")
    and_then copy_metafile h b p (codes "pkg-install")
    and_then copy_metafile h b p (codes "pkg-deinstall")
    and_then copy_metafile h b p (codes "pkg-message")
    and_then run_postexec h b p
    and_then attempt h shown_message
    and_then run_pkg_install h b p (codes "POST-INSTALL")
    and_then emit started_service
