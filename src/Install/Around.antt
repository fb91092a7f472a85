-- ===== src/Install/Around.antt =====
-- libmport/bundle_read_install_pkg.c: the steps before and behind the files of a package have every
-- property of acts with laws.
use mport.Base.{ℕ, zero, suc, List, [], ◌∷◌, ◌++◌, ◌≢◌, refl, arith, if◌then◌else◌}
use mport.Base.Text.{Bytes, codes, str_eq}
use mport.Db.{Fault, runs, refused, breaks_after, ok, err, all_rows, rows_until, select}
use mport.Plist.Command.{Entry}
use mport.Store.{
  Package, Event, changed_dir, count_stub_files, Host, Trace, sql_error, Act, ◌and_then◌, nothing,
  emit, or_tell,
}
use mport.Delete.Commands.{first_count}
use mport.Install.{
  Bundle, Phase, phase_assets, phase_select, read_list, with_list, get_assetlist, file_total,
  get_file_count,
}
use mport.Install.Commands.{metafile, run_mtree, run_pkg_install, go_to, make_prefix, enter_prefix}
use mport.Install.Laws.{is_quiet, Laws}
use mport.Install.Places.{if_Has, if_at_Has}

module _ (h : Host) (M : Act Trace → Type 0) (l : Laws h M) where
  read_list-Has : (xs : List Entry) → M (read_list (all_rows xs))
  unfolding read_list
  read_list-Has [] = l.idle
  read_list-Has (x ∷ xs) = read_list-Has xs

  read_part-Has :
      (n : ℕ) (xs : List Entry) → M (λ u. err (sql_error, u)) → M (read_list (rows_until n xs))
  unfolding read_list
  read_part-Has zero xs f = f
  read_part-Has (suc n) [] f = f
  read_part-Has (suc n) (x ∷ xs) f = read_part-Has n xs f

  with_list-Has :
      (f : Fault) (xs : List Entry)
      → (f ≢ runs → M (λ u. err (sql_error, u)))
      → M (with_list (select f xs))
  unfolding with_list
  with_list-Has runs xs g = read_list-Has xs
  with_list-Has refused xs g = g (λ e. absurd (ground arith))
  with_list-Has (breaks_after n) xs g = read_part-Has n xs (g (λ e. absurd (ground arith)))

  pub get_assetlist-Has : (ph : Phase) (p : Package) (b : Bundle) → M (get_assetlist h ph p b)
  unfolding get_assetlist
  get_assetlist-Has ph p b =
      l.looks (λ t. with_list (select (h.fault t.events (phase_select ph)) (phase_assets ph p b)))
        (λ t.
          with_list-Has (h.fault t.events (phase_select ph)) (phase_assets ph p b)
            (l.not_run t (phase_select ph)))

  counted-Has :
      (f : Fault) (n : ℕ)
      → (f ≢ runs → M (λ u. err (sql_error, u)))
      → M (first_count (λ m u. ok u) (select f (n ∷ [])))
  unfolding first_count
  counted-Has runs n g = l.idle
  counted-Has refused n g = g (λ e. absurd (ground arith))
  counted-Has (breaks_after zero) n g = g (λ e. absurd (ground arith))
  counted-Has (breaks_after (suc m)) n g = l.idle

  pub get_file_count-Has : (p : Package) (b : Bundle) → M (get_file_count h p b)
  unfolding get_file_count
  get_file_count-Has p b =
      l.looks
        (λ t.
          first_count (λ m u. ok u)
            (select (h.fault t.events count_stub_files) (file_total p b ∷ [])))
        (λ t.
          counted-Has (h.fault t.events count_stub_files) (file_total p b)
            (l.not_run t count_stub_files))

  -- a command that is run where a file is there
  pub if_exists-Has :
      (file : Bytes) (a : Act Trace)
      → M a
      → M (λ t. if h.file_exists t.events file then a t else ok t)
  if_exists-Has file a f =
      l.looks (λ t u. if h.file_exists t.events file then a u else ok u)
        (λ t. if_at_Has M (h.file_exists t.events file) a nothing (λ _. f) (λ _. l.idle))

  pub if_succeeds-Has :
      (e : Event) (x y : Act Trace)
      → M x
      → M y
      → M (λ t. if h.succeeds t.events e then x t else y t)
  if_succeeds-Has e x y f g =
      l.looks (λ t u. if h.succeeds t.events e then x u else y u)
        (λ t. if_at_Has M (h.succeeds t.events e) x y (λ _. f) (λ _. g))

  pub run_mtree-Has : (b : Bundle) (p : Package) → M (run_mtree h b p)
  unfolding run_mtree is_quiet
  run_mtree-Has b p = if_exists-Has (metafile b p (codes "mtree")) _ (l.attempts _ refl)

  pub run_pkg_install-Has :
      (b : Bundle) (p : Package) (mode : Bytes) → M (run_pkg_install h b p mode)
  unfolding run_pkg_install is_quiet
  run_pkg_install-Has b p mode =
      if_exists-Has (metafile b p (codes "pkg-install")) _
        (l.follows (l.attempts _ refl) (l.attempts _ refl))

  pub go_to-Has : (folder : Bytes) → M (go_to h folder)
  unfolding go_to is_quiet
  go_to-Has folder = l.attempts _ refl

  make_prefix-Has : (folder : Bytes) → M (make_prefix folder)
  unfolding make_prefix is_quiet
  make_prefix-Has folder =
      if_Has M (str_eq (codes "/compat/linux") folder) _ _
        (λ _. l.follows (l.emits _ refl) (l.emits _ refl)) (λ _. l.emits _ refl)

  pub enter_prefix-Has : (folder : Bytes) → M (enter_prefix h folder)
  unfolding enter_prefix or_tell emit is_quiet
  enter_prefix-Has folder =
      if_succeeds-Has (changed_dir (h.root ++ folder)) (emit (changed_dir (h.root ++ folder)))
        (emit (changed_dir (h.root ++ folder)) and_then make_prefix folder and_then go_to h folder)
        (l.emits _ refl)
        (l.follows (l.emits _ refl) (l.follows (make_prefix-Has folder) (go_to-Has folder)))
