-- ===== src/Install/Phases.antt =====
-- libmport/bundle_read_install_pkg.c: `do_pre_install`, and `do_post_install` up to the statement
-- that completes the package, have every property of acts with laws.
use mport.Base.{true, none, some, List, [], ◌∷◌, ◌++◌, ◌≡◌, refl, All, if◌then◌else◌}
use mport.Base.Text.{Bytes, codes}
use mport.Db.{undefined}
use mport.Plist.Command.{
  AssetType, Entry, cwd, preexec, postexec, ldconfig, ldconfig_linux, glib_schemas, info, kld,
  desktop_file_utils, touch,
}
use mport.Store.{
  Package, ran, copied_file, made_dir, Host, Trace, Act, ◌and_then◌, nothing, emit, attempt,
}
use mport.Delete.{in_buffer, asset_path, of_types}
use mport.Delete.Commands.{text_or, run_tool, package_dir, infra_dir}
use mport.Install.{Bundle, phase_assets, preinstall, postinstall}
use mport.Install.Commands.{
  metafile, pre_assets, do_pre_install, copy_metafile, post_asset, post_dir, post_assets,
  run_postexec, before_complete,
}
use mport.Install.Laws.{is_quiet, Laws}
use mport.Install.Places.{if_Has, install_exec-Has}
use mport.Install.Around.{
  get_assetlist-Has, if_exists-Has, if_succeeds-Has, run_mtree-Has, run_pkg_install-Has, go_to-Has,
  enter_prefix-Has,
}

-- an entry of the types that has no text is behaviour with the property
unfoldable pub Stuck : (Act Trace → Type 0) → List AssetType → Entry → Type 0
Stuck M types e = of_types types e.type ≡ true → e.text ≡ none → M (λ t. undefined)

module _ (h : Host) (M : Act Trace → Type 0) (l : Laws h M) where
  pre_assets-Has :
      (p : Package) (es : List Entry) (folder : Bytes)
      → All (Stuck M (preexec ∷ [])) es
      → M (pre_assets h p es folder)
  unfolding pre_assets Stuck
  pre_assets-Has p [] folder k = l.idle
  pre_assets-Has p (e ∷ es) folder (k, ks) =
      if_Has M (of_types (cwd ∷ []) e.type) _ _
        (λ _. l.follows (go_to-Has h M l _) (pre_assets-Has p es _ ks))
        (λ _.
          if_Has M (of_types (preexec ∷ []) e.type) _ _
            (λ d.
              l.follows (install_exec-Has h M l folder none e.text (k d))
                (pre_assets-Has p es folder ks))
            (λ _. pre_assets-Has p es folder ks))

  pub do_pre_install-Has :
      (b : Bundle) (p : Package)
      → All (Stuck M (preexec ∷ [])) (phase_assets preinstall p b)
      → M (do_pre_install h b p)
  unfolding do_pre_install is_quiet
  do_pre_install-Has b p k = l.follows (run_mtree-Has h M l b p) (
      l.follows (run_pkg_install-Has h M l b p (codes "PRE-INSTALL")) (
        l.follows (get_assetlist-Has h M l preinstall p b) (
          l.follows (enter_prefix-Has h M l (in_buffer p.prefix)) (
            l.follows (pre_assets-Has p (phase_assets preinstall p b) (in_buffer p.prefix) k)
              (l.emits _ refl)))))

  copy_metafile-Has : (b : Bundle) (p : Package) (type : Bytes) → M (copy_metafile h b p type)
  unfolding copy_metafile is_quiet emit
  copy_metafile-Has b p type =
      if_exists-Has h M l (metafile b p type)
        (λ t.
          if h.succeeds t.events (made_dir (in_buffer (h.root ++ package_dir infra_dir p)))
          then (emit (made_dir (in_buffer (h.root ++ package_dir infra_dir p)))
                and_then emit (
                    copied_file (metafile b p type)
                      (in_buffer (h.root ++ package_dir infra_dir p ++ b'/' ∷ type))))
              t
          else emit (made_dir (in_buffer (h.root ++ package_dir infra_dir p))) t)
        (if_succeeds-Has h M l _ _ _ (l.follows (l.emits _ refl) (l.emits _ refl)) (l.emits _ refl))

  run_tool-Has : (tool command : Bytes) → M (run_tool h tool command)
  unfolding run_tool is_quiet
  run_tool-Has tool command = if_exists-Has h M l tool (attempt h (ran command)) (l.attempts _ refl)

  ran-Has : (command : Bytes) → M (attempt h (ran command))
  unfolding is_quiet
  ran-Has command = l.attempts _ refl

  post_asset-Has :
      (p : Package) (e : Entry) (folder : Bytes)
      → Stuck M (postexec ∷ []) e
      → M (post_asset h p e folder)
  unfolding post_asset Stuck
  post_asset-Has p e folder k =
      if_Has M (of_types (cwd ∷ []) e.type) _ _ (λ _. go_to-Has h M l _)
        (λ _.
          if_Has M (of_types (postexec ∷ []) e.type) _ _
            (λ d.
              install_exec-Has h M l folder (some (asset_path h.root p.prefix e.text)) e.text (k d))
            (λ _.
              if_Has M (of_types (ldconfig ∷ []) e.type) _ _ (λ _. ran-Has _)
                (λ _.
                  if_Has M (of_types (ldconfig_linux ∷ []) e.type) _ _ (λ _. ran-Has _)
                    (λ _. special-Has p e))))
    where
      last-Has :
          (p : Package) (e : Entry)
          → M (
              if of_types (desktop_file_utils ∷ []) e.type
              then run_tool h
                  (codes "/usr/local/bin/update-desktop-database")
                  (codes "/usr/local/bin/update-desktop-database -q > /dev/null || true")
              else if of_types (touch ∷ []) e.type
              then attempt h (ran (codes "/usr/bin/touch " ++ asset_path h.root p.prefix e.text))
              else nothing)
      last-Has p e =
          if_Has M (of_types (desktop_file_utils ∷ []) e.type) _ _ (λ _. run_tool-Has _ _)
            (λ _. if_Has M (of_types (touch ∷ []) e.type) _ _ (λ _. ran-Has _) (λ _. l.idle))

      special-Has :
          (p : Package) (e : Entry)
          → M (
              if of_types (glib_schemas ∷ []) e.type
              then run_tool h (codes "/usr/local/bin/glib-compile-schemas") (
                  codes "/usr/local/bin/glib-compile-schemas "
                  ++ text_or p.prefix e.text
                  ++ codes "/share/glib-2.0/schemas > /dev/null || true")
              else if of_types (info ∷ []) e.type
              then run_tool h
                  (codes "/usr/local/bin/indexinfo")
                  (codes "/usr/local/bin/indexinfo " ++ text_or p.prefix e.text)
              else if of_types (kld ∷ []) e.type
              then attempt h (ran (codes "/usr/sbin/kldxref " ++ asset_path h.root p.prefix e.text))
              else if of_types (desktop_file_utils ∷ []) e.type
              then run_tool h
                  (codes "/usr/local/bin/update-desktop-database")
                  (codes "/usr/local/bin/update-desktop-database -q > /dev/null || true")
              else if of_types (touch ∷ []) e.type
              then attempt h (ran (codes "/usr/bin/touch " ++ asset_path h.root p.prefix e.text))
              else nothing)
      special-Has p e =
          if_Has M (of_types (glib_schemas ∷ []) e.type) _ _ (λ _. run_tool-Has _ _)
            (λ _.
              if_Has M (of_types (info ∷ []) e.type) _ _ (λ _. run_tool-Has _ _)
                (λ _.
                  if_Has M (of_types (kld ∷ []) e.type) _ _ (λ _. ran-Has _) (λ _. last-Has p e)))

  post_assets-Has :
      (p : Package) (es : List Entry) (folder : Bytes)
      → All (Stuck M (postexec ∷ [])) es
      → M (post_assets h p es folder)
  unfolding post_assets
  post_assets-Has p [] folder k = l.idle
  post_assets-Has p (e ∷ es) folder (k, ks) =
      l.follows (post_asset-Has p e folder k) (post_assets-Has p es (post_dir p e folder) ks)

  pub before_complete-Has :
      (b : Bundle) (p : Package)
      → All (Stuck M (postexec ∷ [])) (phase_assets postinstall p b)
      → M (before_complete h b p)
  unfolding before_complete run_postexec is_quiet
  before_complete-Has b p k = l.follows (copy_metafile-Has b p _) (
      l.follows (copy_metafile-Has b p _) (
        l.follows (copy_metafile-Has b p _) (
          l.follows (copy_metafile-Has b p _) (
            l.follows
              (l.follows (get_assetlist-Has h M l postinstall p b) (
                l.follows (go_to-Has h M l _) (
                  l.follows
                    (post_assets-Has p (phase_assets postinstall p b) (in_buffer p.prefix) k)
                    (l.emits _ refl))))
              (l.follows (l.attempts _ refl) (
                l.follows (run_pkg_install-Has h M l b p (codes "POST-INSTALL"))
                  (l.emits _ refl)))))))
