-- ===== src/Install/Places.antt =====
-- libmport/bundle_read_install_pkg.c: one asset of `do_actual_install` outside the tables has every
-- property of acts with laws.
use mport.Base.{
  ℕ, ◌+◌, Bool, true, false, not, ◌&&◌, ◌||◌, Option, none, some, List, [], ◌∷◌, ◌≡◌, refl, arith,
  if◌then◌else◌,
}
use mport.Base.Text.{Bytes}
use mport.Db.{ok, err, undefined}
use mport.Plist.Command.{
  AssetType, Entry, cwd, sample, shell, sample_owner_mode, dir, dirrm, dirrmtry, dir_owner_mode,
  exec,
}
use mport.Store.{
  Package, Event, advanced, copied_file, FileKind, regular, irregular, Host, Trace, failed_command,
  Act, nothing, emit, attempt,
}
use mport.Delete.{of_types}
use mport.Delete.Commands.{text_or}
use mport.Install.{Spot, file_path, file_types}
use mport.Install.Files.{
  is_empty, attempt_unset, own, own_dir, mode_dir, place_dir, has_own_mode, own_file, change_mode,
  if_mode, mode_file, register_if_shell, place_found, copy_unless_there, copy_single, copy_sample,
  parse_sample, create_sample_file, copy_if_sample, unpack, unpack_text, place_file, install_exec,
  place_asset,
}
use mport.Install.Laws.{is_quiet, Laws}

-- the assets whose text is read without a test
unfoldable pub needs_text : AssetType → Bool
needs_text t = of_types (exec ∷ []) t || of_types file_types t

abbrev pub dir_types : List AssetType
dir_types = dir ∷ dirrm ∷ dirrmtry ∷ dir_owner_mode ∷ []

pub if_Has :
    (M : Act Trace → Type 0) (b : Bool) (x y : Act Trace)
    → (b ≡ true → M x)
    → (b ≡ false → M y)
    → M (if b then x else y)
if_Has M true x y f g = f refl
if_Has M false x y f g = g refl

-- the same where both branches have the state
pub if_at_Has :
    (M : Act Trace → Type 0) (b : Bool) (x y : Act Trace)
    → (b ≡ true → M x)
    → (b ≡ false → M y)
    → M (λ t. if b then x t else y t)
if_at_Has M true x y f g = f refl
if_at_Has M false x y f g = g refl

module _ (h : Host) (M : Act Trace → Type 0) (l : Laws h M) where
  own-Has : (path : Bytes) (e : Entry) (s : Spot) → M (own h path e s)
  unfolding own is_quiet
  own-Has path e s = l.attempts _ refl

  own_dir-Has : (path : Bytes) (e : Entry) (s : Spot) → M (own_dir h path e s)
  unfolding own_dir
  own_dir-Has path e s =
      if_Has M (is_empty e.owner && is_empty e.group) _ _ (λ _. l.idle) (λ _. own-Has path e s)

  mode_dir-Has :
      (path : Bytes) (e : Entry) (s : Spot)
      → (is_empty e.mode ≡ false → (v : Event) → is_quiet v ≡ true → M (attempt_unset h v))
      → M (mode_dir h path e s)
  unfolding mode_dir is_quiet
  mode_dir-Has path e s u =
      if_Has M (is_empty e.mode) _ _ (λ _. l.idle) (λ d. l.follows (u d _ refl) (u d _ refl))

  place_dir-Has :
      (e : Entry) (s : Spot)
      → (is_empty e.mode ≡ false → (v : Event) → is_quiet v ≡ true → M (attempt_unset h v))
      → M (place_dir h e s)
  unfolding place_dir is_quiet
  place_dir-Has e s u =
      l.follows (l.attempts _ refl)
        (l.follows (mode_dir-Has (text_or [] e.text) e s u) (own_dir-Has (text_or [] e.text) e s))

  own_file-Has : (path : Bytes) (e : Entry) (s : Spot) → M (own_file h path e s)
  unfolding own_file is_quiet
  own_file-Has path e s =
      if_Has M (has_own_mode e.type) _ _ (λ _. own-Has path e s) (λ _. l.attempts _ refl)

  change_mode-Has : (path mode : Bytes) → M (change_mode h path mode)
  unfolding change_mode is_quiet
  change_mode-Has path mode =
      l.follows (l.attempts _ refl) (l.follows (l.attempts _ refl) (l.attempts _ refl))

  if_mode-Has : (path : Bytes) (mode : Option Bytes) → M (if_mode h path mode)
  unfolding if_mode
  if_mode-Has path none = l.idle
  if_mode-Has path (some mode) = change_mode-Has path mode

  mode_file-Has : (path : Bytes) (e : Entry) (s : Spot) → M (mode_file h path e s)
  unfolding mode_file
  mode_file-Has path e s =
      if_Has M (has_own_mode e.type && not (is_empty e.mode)) _ _ (λ _. change_mode-Has path e.mode)
        (λ _. if_mode-Has path s.mode)

  register-Has : (path : Bytes) (type : AssetType) → M (register_if_shell h path type)
  unfolding register_if_shell is_quiet
  register-Has path type =
      if_Has M (of_types (shell ∷ []) type) _ _ (λ _. l.attempts _ refl) (λ _. l.idle)

  place_found-Has :
      (path : Bytes) (e : Entry) (s : Spot) (o : Option FileKind)
      → (o ≡ none → M (λ u. err (failed_command, u)))
      → M (place_found h path e s o)
  unfolding place_found
  place_found-Has path e s none f = f refl
  place_found-Has path e s (some irregular) f = l.idle
  place_found-Has path e s (some (regular n)) f =
      l.follows (own_file-Has path e s)
        (l.follows (mode_file-Has path e s) (register-Has path e.type))

  copy_unless_there-Has : (from to : Bytes) → M (copy_unless_there h from to)
  unfolding copy_unless_there is_quiet
  copy_unless_there-Has from to =
      l.looks (λ t u. if h.file_exists t.events to then ok u else attempt h (copied_file from to) u)
        (λ t.
          if_at_Has M (h.file_exists t.events to) nothing (attempt h (copied_file from to))
            (λ _. l.idle) (λ _. l.attempts _ refl))

  copy_single-Has : (file : Bytes) (o : Option Bytes) → M (copy_single h file o)
  unfolding copy_single
  copy_single-Has file none = l.idle
  copy_single-Has file (some to) = copy_unless_there-Has file to

  copy_sample-Has :
      (folder file buffer : Bytes) (ws : List Bytes) → M (copy_sample h folder file buffer ws)
  unfolding copy_sample
  copy_sample-Has folder file buffer [] = copy_single-Has file _
  copy_sample-Has folder file buffer (w ∷ []) = copy_single-Has file _
  copy_sample-Has folder file buffer (w ∷ second ∷ ws) = copy_unless_there-Has w _

  copy_if_sample-Has : (type : AssetType) (folder d : Bytes) → M (copy_if_sample h type folder d)
  unfolding copy_if_sample create_sample_file
  copy_if_sample-Has type folder d =
      if_Has M (of_types (sample ∷ sample_owner_mode ∷ []) type) _ _
        (λ _. copy_sample-Has folder d _ (parse_sample _)) (λ _. l.idle)

  unpack-Has :
      (total : ℕ) (e : Entry) (s : Spot) (d : Bytes)
      → ((path : Bytes) → M (emit (advanced (s.count + 1) total path)))
      → M (unpack h total e s d)
  unfolding unpack is_quiet
  unpack-Has total e s d f = l.follows (l.attempts _ refl) (
      l.follows (l.attempts _ refl) (
        l.follows
          (l.looks
            (λ t.
              place_found h (file_path h.root s.cwd e.type d) e s
                (h.lstat t.events (file_path h.root s.cwd e.type d)))
            (λ t.
              place_found-Has (file_path h.root s.cwd e.type d) e s _
                (l.not_found t (file_path h.root s.cwd e.type d))))
          (l.follows (copy_if_sample-Has e.type s.cwd d) (f _))))

  unpack_text-Has :
      (total : ℕ) (e : Entry) (s : Spot) (o : Option Bytes)
      → ((path : Bytes) → M (emit (advanced (s.count + 1) total path)))
      → (o ≡ none → M (λ t. undefined))
      → M (unpack_text h total e s o)
  unfolding unpack_text
  unpack_text-Has total e s none f g = g refl
  unpack_text-Has total e s (some d) f g = unpack-Has total e s d f

  pub install_exec-Has :
      (folder : Bytes) (file o : Option Bytes)
      → (o ≡ none → M (λ t. undefined))
      → M (install_exec h folder file o)
  unfolding install_exec is_quiet
  install_exec-Has folder file none g = g refl
  install_exec-Has folder file (some text) g = l.attempts _ refl

  pub place_asset-Has :
      (p : Package) (total : ℕ) (e : Entry) (s : Spot)
      → (of_types dir_types e.type ≡ true
          → is_empty e.mode ≡ false
          → (v : Event) → is_quiet v ≡ true
          → M (attempt_unset h v))
      → (needs_text e.type ≡ true → e.text ≡ none → M (λ t. undefined))
      → (of_types file_types e.type ≡ true
          → (path : Bytes) → M (emit (advanced (s.count + 1) total path)))
      → M (place_asset h p total e s)
  unfolding place_asset place_file is_quiet needs_text
  place_asset-Has p total e s u g f =
      if_Has M (of_types (cwd ∷ []) e.type) _ _ (λ _. l.attempts _ refl)
        (λ _.
          if_Has M (of_types dir_types e.type) _ _ (λ d. place_dir-Has e s (u d))
            (λ _.
              if_Has M (of_types (exec ∷ []) e.type) _ _
                (λ d. install_exec-Has s.cwd s.file e.text (g (first _ _ d)))
                (λ _.
                  if_Has M (of_types file_types e.type) _ _
                    (λ d.
                      l.follows (l.attempts _ refl)
                        (unpack_text-Has total e s e.text (f d) (g (last _ _ d))))
                    (λ _. l.idle))))
    where
      first : (a b : Bool) → a ≡ true → (a || b) ≡ true
      first a b e = ground arith

      last : (a b : Bool) → b ≡ true → (a || b) ≡ true
      last a b e = ground arith
