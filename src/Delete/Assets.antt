-- ===== src/Delete/Assets.antt =====
-- libmport/delete_primative.c: the loop of `mport_delete_primative` over the package's assets, and
-- `is_safe_to_delete_dir`.
use mport.Base.{
  ℕ, zero, suc, ◌+◌, Bool, true, false, not, ◌&&◌, Option, none, some, [], ◌∷◌, ◌==◌, if◌then◌else◌,
  length, ltb, leb,
}
use mport.Base.Text.{Bytes, codes, str_eq}
use mport.Db.{row, finished, failed, Query, unprepared, prepared, ok, undefined, select}
use mport.Plist.Command.{
  AssetType, file, sample, sample_owner_mode, shell, file_owner_mode, rmempty, unexec, ldconfig,
  dir, dirrm, dirrmtry, dir_owner_mode,
}
use mport.Preconditions.{filter_rows}
use mport.Store.{
  AssetRow, Tables, Package, Notice, cannot_stat, cannot_unlink, cannot_hash, mismatch,
  cannot_check, unlike_sample, cannot_unregister, cannot_execute, cannot_run_ldconfig,
  cannot_remove_dir, dir_in_use, skip_root, skip_prefix, advanced, told, unlinked,
  unregistered_shell, ran_exec, ran, cleared_flags, removed_dir, FileKind, regular, irregular,
  dir_users, Host, Trace, Act, ◌and_then◌, nothing, emit, or_tell,
}
use mport.Delete.{asset_path, of_types}

unfoldable pub tell : Notice → Bytes → Act Trace
tell n path = emit (told n path)

unfoldable pub unlink_or_tell : Host → Bytes → Bytes → Act Trace
unlink_or_tell h path named = or_tell h (unlinked path) (tell cannot_unlink named)

-- `(mport->progress_step_cb)(++current, total, file)`
unfoldable pub progress : ℕ → Bytes → Act Trace
progress total path t =
    emit (advanced (t.current + 1) total path) (record t { current = t.current + 1 })

unfoldable pub lower : ℕ → ℕ
lower c = if leb b'A' c && leb c b'Z' then c + 32 else c

unfoldable pub has_prefix_nocase : Bytes → Bytes → Bool
has_prefix_nocase [] s = true
has_prefix_nocase (x ∷ pre) [] = false
has_prefix_nocase (x ∷ pre) (y ∷ s) = (lower x == lower y) && has_prefix_nocase pre s

-- the text in front of the first `part`, in capitals or not: strcasestr(3)
unfoldable pub before_nocase : Bytes → Bytes → Option Bytes
before_nocase part [] = none
before_nocase part (c ∷ s) =
    if has_prefix_nocase part (c ∷ s)
    then some []
    else elim (before_nocase part s) [ none ↦ none | some pre ↦ some (c ∷ pre) ]

-- MD5 where the recorded sum has less than 34 bytes, else SHA-256
unfoldable pub hash_of : Host → Bytes → Bytes → Trace → Option Bytes
hash_of h checksum path t =
    if ltb (length checksum) 34 then h.md5 t.events path else h.sha256 t.events path

-- `strcmp(hash, checksum) != 0`; a buffer that was never written is read
unfoldable pub compare_hash : Bytes → Bytes → Option Bytes → Act Trace
compare_hash path checksum none t = undefined
compare_hash path checksum (some x) t = if str_eq x checksum then ok t else tell mismatch path t

-- Where the hash cannot be computed, the buffer keeps what an asset before it has left.
unfoldable pub hashed : Bytes → Bytes → Option Bytes → Act Trace
hashed path checksum (some x) t = compare_hash path checksum (some x) (record t { hash = some x })
hashed path checksum none t = (tell cannot_hash path and_then compare_hash path checksum t.hash) t

unfoldable pub check_sum : Host → Bytes → Option Bytes → Act Trace
check_sum h path none t = tell mismatch path t
check_sum h path (some checksum) t = hashed path checksum (hash_of h checksum path t) t

-- the file that the sample was copied to is removed if it has the hash that the buffer holds
unfoldable pub like_sample : Host → Bytes → Bytes → Bytes → Option Bytes → Act Trace
like_sample h path copy x none t = undefined
like_sample h path copy x (some buffer) t =
    if str_eq x buffer then unlink_or_tell h copy path t else tell unlike_sample copy t

unfoldable pub same_hash : Host → Bytes → Bytes → Option Bytes → Act Trace
same_hash h path copy none t = tell cannot_check copy t
same_hash h path copy (some x) t = like_sample h path copy x t.hash t

unfoldable pub remove_copy : Host → Bytes → Bytes → Option Bytes → Act Trace
remove_copy h path copy none t = undefined
remove_copy h path copy (some checksum) t = same_hash h path copy (hash_of h checksum copy t) t

-- where the name has no `.sample`, there is no copy
unfoldable pub remove_if_copy : Host → Bytes → Option Bytes → Option Bytes → Act Trace
remove_if_copy h path none checksum t = ok t
remove_if_copy h path (some copy) checksum t = remove_copy h path copy checksum t

unfoldable pub remove_sample_copy : Host → Bytes → Option Bytes → Act Trace
remove_sample_copy h path checksum =
    remove_if_copy h path (before_nocase (codes ".sample") path) checksum

unfoldable pub check_regular : Host → AssetType → Bytes → Option Bytes → FileKind → Act Trace
check_regular h type path checksum irregular t = ok t
check_regular h type path checksum (regular n) t =
    (check_sum h path checksum
        and_then (if of_types (sample ∷ sample_owner_mode ∷ []) type
            then remove_sample_copy h path checksum
            else nothing))
      t

unfoldable pub unregister : Host → AssetType → Bytes → Act Trace
unregister h type path =
    if of_types (shell ∷ []) type
    then or_tell h (unregistered_shell path) (tell cannot_unregister path)
    else nothing

-- where lstat(2) fails, the asset is left
unfoldable pub delete_found : Host → AssetType → Bytes → Option Bytes → Option FileKind → Act Trace
delete_found h type path checksum none t = tell cannot_stat path t
delete_found h type path checksum (some kind) t =
    (check_regular h type path checksum kind
        and_then unlink_or_tell h path path
        and_then unregister h type path)
      t

unfoldable pub delete_file : Host → AssetType → Bytes → Option Bytes → Act Trace
delete_file h type path checksum t = delete_found h type path checksum (h.lstat t.events path) t

unfoldable pub unlink_empty : Host → Bytes → FileKind → Act Trace
unlink_empty h path irregular t = ok t
unlink_empty h path (regular zero) t = unlink_or_tell h path path t
unlink_empty h path (regular (suc n)) t = ok t

unfoldable pub empty_found : Host → Bytes → Option FileKind → Act Trace
empty_found h path none t = tell cannot_stat path t
empty_found h path (some kind) t = unlink_empty h path kind t

unfoldable pub delete_empty : Host → Bytes → Act Trace
delete_empty h path t = empty_found h path (h.lstat t.events path) t

-- `pkg!=name and type in (…) and data=path`
unfoldable pub uses_dir : Bytes → Bytes → AssetRow → Bool
uses_dir name path r =
    not (str_eq r.pkg name)
    && of_types (dir ∷ dirrm ∷ dirrmtry ∷ dir_owner_mode ∷ []) r.type
    && elim r.text [ none ↦ false | some s ↦ str_eq s path ]

-- `first` is run where the directory may be removed, `otherwise` where not; an error of SQLite
-- counts as not.
unfoldable pub unless_used : Act Trace → Act Trace → Query ℕ → Act Trace
unless_used first otherwise unprepared t = otherwise t
unless_used first otherwise (prepared finished) t = otherwise t
unless_used first otherwise (prepared failed) t = otherwise t
unless_used first otherwise (prepared (row zero rest)) t = first t
unless_used first otherwise (prepared (row (suc n) rest)) t = otherwise t

-- is_safe_to_delete_dir, with the acts that follow its answer
unfoldable pub if_safe_to_delete_dir :
    Host → Package → Tables → Bytes → Act Trace → Act Trace → Act Trace
if_safe_to_delete_dir h p ts path first otherwise t =
    if str_eq h.root path
    then (tell skip_root path and_then otherwise) t
    else if str_eq p.prefix path
    then (tell skip_prefix path and_then otherwise) t
    else unless_used first otherwise
        (select (h.fault t.events dir_users)
          (length (filter_rows (uses_dir p.name path) ts.assets) ∷ []))
        t

unfoldable pub delete_dir : Host → Package → Tables → AssetType → Bytes → Act Trace
delete_dir h p ts type path =
    if_safe_to_delete_dir h p ts path
      (emit (cleared_flags path)
        and_then or_tell h (removed_dir path (of_types (dirrmtry ∷ []) type))
            (tell cannot_remove_dir path))
      (tell dir_in_use path)

-- mport_run_asset_exec, whose failure is told
unfoldable pub exec_or_tell : Host → Package → Option Bytes → Bytes → Act Trace
exec_or_tell h p none path t = undefined
exec_or_tell h p (some text) path t =
    or_tell h (ran_exec text p.prefix path) (tell cannot_execute text) t

-- the body of the loop: the `switch` on the type
unfoldable pub delete_asset : Host → Package → Tables → ℕ → AssetRow → Act Trace
delete_asset h p ts total r =
    let path = asset_path h.root p.prefix r.text in
    if of_types (rmempty ∷ []) r.type
    then progress total path and_then delete_empty h path
    else if of_types (file_owner_mode ∷ file ∷ shell ∷ sample ∷ sample_owner_mode ∷ []) r.type
    then progress total path and_then delete_file h r.type path r.checksum
    else if of_types (unexec ∷ []) r.type
    then exec_or_tell h p r.text path
    else if of_types (ldconfig ∷ []) r.type
    then or_tell h (ran (codes "/usr/sbin/service ldconfig restart > /dev/null"))
        (tell cannot_run_ldconfig path)
    else if of_types (dir ∷ dirrm ∷ dirrmtry ∷ dir_owner_mode ∷ []) r.type
    then delete_dir h p ts r.type path
    else nothing
