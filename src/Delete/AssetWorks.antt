-- ===== src/Delete/AssetWorks.antt =====
-- The body of the loop over the assets in libmport/delete_primative.c on a system where every call
-- succeeds.
use mport.Base.{
  ℕ, zero, suc, Bool, true, false, ◌≡◌, refl, Option, none, some, [], ◌∷◌, if◌then◌else◌, length,
  arith,
}
use mport.Base.Text.{Bytes, str_eq}
use mport.Db.{ok, prepared, all_rows}
use mport.Plist.Command.{
  AssetType, file, sample, sample_owner_mode, shell, file_owner_mode, rmempty, unexec, preunexec,
  postunexec, kld, ldconfig, dir, dirrm, dirrmtry, dir_owner_mode,
}
use mport.Preconditions.{filter_rows}
use mport.Store.{
  AssetRow, Host, Tables, Package, Trace, Act, ◌and_then◌, nothing, FileKind, regular, irregular,
  dir_users, cannot_stat, skip_root, skip_prefix,
}
use mport.Store.Works.{
  Healthy, Works, ◌with◌, nothing-Works, emit-Works, or_tell-Works, if-Works, if_ok, select-Works,
}
use mport.Delete.{of_types}
use mport.Delete.Works.{IsComplete, first_of, is}
use mport.Delete.FileWorks.{unlink_or_tell-Works, tell-Works, check_sum-Works, sample_checked}
use mport.Delete.Assets.{
  progress, check_sum, remove_sample_copy, check_regular, unregister, delete_found, delete_file,
  unlink_empty, empty_found, delete_empty, uses_dir, unless_used, if_safe_to_delete_dir, delete_dir,
  exec_or_tell, delete_asset,
}

regular_checked :
    (h : Host) (path : Bytes) (o : Option Bytes) (b : Bool)
    → Healthy h
    → (b ≡ true → (s : Bytes) × (o ≡ some s))
    → Works (check_sum h path o and_then (if b then remove_sample_copy h path o else nothing))
regular_checked h path o false f g = check_sum-Works h path o f with nothing-Works
regular_checked h path (some c) true f g = sample_checked h path c f
regular_checked h path none true f g = let (s, e) = g refl in absurd (ground (arith, e))

check_regular-Works :
    (h : Host) (type : AssetType) (path : Bytes) (o : Option Bytes) (kind : FileKind)
    → Healthy h
    → (of_types (sample ∷ sample_owner_mode ∷ []) type ≡ true → (s : Bytes) × (o ≡ some s))
    → Works (check_regular h type path o kind)
unfolding check_regular
check_regular-Works h type path o irregular f g = record { works = λ t. (t, refl) }
check_regular-Works h type path o (regular n) f g = record {
  works =
      λ t. (regular_checked h path o (of_types (sample ∷ sample_owner_mode ∷ []) type) f g).works t;
}

unregister-Works :
    (h : Host) (type : AssetType) (path : Bytes) → Healthy h → Works (unregister h type path)
unfolding unregister
unregister-Works h type path f =
    if-Works (of_types (shell ∷ []) type) _ _ (λ _. or_tell-Works h _ _ f) (λ _. nothing-Works)

delete_found-Works :
    (h : Host) (type : AssetType) (path : Bytes) (o : Option Bytes) (k : Option FileKind)
    → Healthy h
    → (of_types (sample ∷ sample_owner_mode ∷ []) type ≡ true → (s : Bytes) × (o ≡ some s))
    → Works (delete_found h type path o k)
unfolding delete_found
delete_found-Works h type path o none f g = record {
  works = λ t. (tell-Works cannot_stat path).works t;
}
delete_found-Works h type path o (some kind) f g = record {
  works = λ t.
      (check_regular-Works h type path o kind f g
          with unlink_or_tell-Works h path path f
          with unregister-Works h type path f).works
        t;
}

delete_file-Works :
    (h : Host) (type : AssetType) (path : Bytes) (o : Option Bytes)
    → Healthy h
    → (of_types (sample ∷ sample_owner_mode ∷ []) type ≡ true → (s : Bytes) × (o ≡ some s))
    → Works (delete_file h type path o)
unfolding delete_file
delete_file-Works h type path o f g = record {
  works = λ t. (delete_found-Works h type path o (h.lstat t.events path) f g).works t;
}

unlink_empty-ok :
    (h : Host) (path : Bytes) (kind : FileKind) (t : Trace)
    → Healthy h
    → (v : Trace) × (unlink_empty h path kind t ≡ ok v)
unfolding unlink_empty
unlink_empty-ok h path irregular t f = (t, refl)
unlink_empty-ok h path (regular zero) t f = (unlink_or_tell-Works h path path f).works t
unlink_empty-ok h path (regular (suc n)) t f = (t, refl)

empty_found-ok :
    (h : Host) (path : Bytes) (k : Option FileKind) (t : Trace)
    → Healthy h
    → (v : Trace) × (empty_found h path k t ≡ ok v)
unfolding empty_found
empty_found-ok h path none t f = (tell-Works cannot_stat path).works t
empty_found-ok h path (some kind) t f = unlink_empty-ok h path kind t f

delete_empty-Works : (h : Host) (path : Bytes) → Healthy h → Works (delete_empty h path)
unfolding delete_empty
delete_empty-Works h path f = record {
  works = λ t. empty_found-ok h path (h.lstat t.events path) t f;
}

counted-Works :
    (a b : Act Trace) (n : ℕ)
    → Works a
    → Works b
    → Works (unless_used a b (prepared (all_rows (n ∷ []))))
unfolding unless_used
counted-Works a b zero f g = record { works = λ t. f.works t }
counted-Works a b (suc n) f g = record { works = λ t. g.works t }

if_safe-Works :
    (h : Host) (p : Package) (ts : Tables) (path : Bytes) (a b : Act Trace)
    → Healthy h
    → Works a
    → Works b
    → Works (if_safe_to_delete_dir h p ts path a b)
unfolding if_safe_to_delete_dir
if_safe-Works h p ts path a b f fa fb = record {
  works = λ t. if_ok (str_eq h.root path) _ _ ((tell-Works skip_root path with fb).works t) (
      if_ok (str_eq p.prefix path) _ _ ((tell-Works skip_prefix path with fb).works t) (
        (select-Works h dir_users (length (filter_rows (uses_dir p.name path) ts.assets) ∷ [])
            (unless_used a b) f (counted-Works a b _ fa fb)).works
          t));
}

delete_dir-Works :
    (h : Host) (p : Package) (ts : Tables) (type : AssetType) (path : Bytes)
    → Healthy h
    → Works (delete_dir h p ts type path)
unfolding delete_dir
delete_dir-Works h p ts type path f =
    if_safe-Works h p ts path _ _ f (emit-Works _ with or_tell-Works h _ _ f) (tell-Works _ path)

exec_or_tell-Works :
    (h : Host) (p : Package) (o : Option Bytes) (s path : Bytes)
    → Healthy h
    → o ≡ some s
    → Works (exec_or_tell h p o path)
unfolding exec_or_tell
exec_or_tell-Works h p none s path f e = absurd (ground arith)
exec_or_tell-Works h p (some text) s path f e = record {
  works = λ t. (or_tell-Works h _ _ f).works t;
}

pub progress-Works : (total : ℕ) (path : Bytes) → Works (progress total path)
unfolding progress
progress-Works total path = record { works = λ t. (emit-Works _).works _ }

is_unexec :
    (r : AssetRow)
    → IsComplete r
    → of_types (unexec ∷ []) r.type ≡ true
    → (s : Bytes) × (r.text ≡ some s)
unfolding of_types is
is_unexec r c e =
    c.text
      (first_of (is r.type unexec) (is r.type preunexec) (is r.type postunexec) (is r.type kld) e)

pub delete_asset-Works :
    (h : Host) (p : Package) (ts : Tables) (total : ℕ) (r : AssetRow)
    → Healthy h
    → IsComplete r
    → Works (delete_asset h p ts total r)
unfolding delete_asset
delete_asset-Works h p ts total r f c =
    if-Works (of_types (rmempty ∷ []) r.type) _ _
      (λ _. progress-Works total _ with delete_empty-Works h _ f)
      (λ _.
        if-Works
          (of_types (file_owner_mode ∷ file ∷ shell ∷ sample ∷ sample_owner_mode ∷ []) r.type) _ _
          (λ _. progress-Works total _ with delete_file-Works h r.type _ r.checksum f c.checksum)
          (λ _.
            if-Works (of_types (unexec ∷ []) r.type) _ _
              (λ e. let (s, d) = is_unexec r c e in exec_or_tell-Works h p r.text s _ f d)
              (λ _.
                if-Works (of_types (ldconfig ∷ []) r.type) _ _ (λ _. or_tell-Works h _ _ f)
                  (λ _.
                    if-Works (of_types (dir ∷ dirrm ∷ dirrmtry ∷ dir_owner_mode ∷ []) r.type) _ _
                      (λ _. delete_dir-Works h p ts r.type _ f) (λ _. nothing-Works)))))
