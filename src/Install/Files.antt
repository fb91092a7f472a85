-- ===== src/Install/Files.antt =====
-- libmport/bundle_read_install_pkg.c: what `do_actual_install` does outside the tables with one
-- asset, and `create_sample_file`.
use mport.Base.{
  ℕ, ◌+◌, Bool, true, false, not, ◌&&◌, Option, none, some, List, [], ◌∷◌, ◌++◌, if◌then◌else◌,
}
use mport.Base.Text.{Bytes, codes}
use mport.Db.{ok, err, undefined}
use mport.Plist.Command.{
  AssetType, Entry, cwd, sample, shell, file_owner_mode, sample_owner_mode, dir, dirrm, dirrmtry,
  dir_owner_mode, exec,
}
use mport.Store.{
  Package, Event, advanced, changed_dir, read_entry, found_entry, extracted, statted, parsed_mode,
  registered_shell, made_dirs, copied_file, changed_owner, set_mode, ran_install_exec, FileKind,
  regular, irregular, Host, Trace, unset_error, failed_command, Act, ◌and_then◌, nothing,
  with_event, emit, attempt,
}
use mport.Delete.{take, in_buffer, of_types}
use mport.Delete.Commands.{text_or}
use mport.Delete.Assets.{before_nocase}
use mport.Install.{
  Spot, get_id, ends_field, before_blank, is_absolute, below, file_path, file_types,
}

unfoldable pub is_empty : Bytes → Bool
is_empty [] = true
is_empty (c ∷ s) = false

-- a failure behind which the current error is returned, and no error was set
unfoldable pub attempt_unset : Host → Event → Act Trace
attempt_unset h e t =
    if h.succeeds t.events e then ok (with_event e t) else err (unset_error, with_event e t)

-- the owner and the group, each the asset's own where it has one
unfoldable pub own : Host → Bytes → Entry → Spot → Act Trace
own h path e s = attempt h (
    changed_owner path (if is_empty e.owner then s.owner else get_id h.passwd (some e.owner))
      (if is_empty e.group then s.group else get_id h.groups (some e.group)))

unfoldable pub own_dir : Host → Bytes → Entry → Spot → Act Trace
own_dir h path e s = if is_empty e.owner && is_empty e.group then nothing else own h path e s

unfoldable pub mode_dir : Host → Bytes → Entry → Spot → Act Trace
mode_dir h path e s =
    if is_empty e.mode
    then nothing
    else attempt_unset h (parsed_mode e.mode) and_then attempt_unset h (set_mode path e.mode s.stat)

-- A NULL text stands for the empty path here: the kernel refuses both.
unfoldable pub place_dir : Host → Entry → Spot → Act Trace
place_dir h e s =
    attempt h (made_dirs (text_or [] e.text))
    and_then mode_dir h (text_or [] e.text) e s
    and_then own_dir h (text_or [] e.text) e s

unfoldable pub has_own_mode : AssetType → Bool
has_own_mode t = of_types (file_owner_mode ∷ sample_owner_mode ∷ []) t

unfoldable pub own_file : Host → Bytes → Entry → Spot → Act Trace
own_file h path e s =
    if has_own_mode e.type then own h path e s else attempt h (changed_owner path s.owner s.group)

unfoldable pub change_mode : Host → Bytes → Bytes → Act Trace
change_mode h path mode =
    attempt h (statted path)
    and_then attempt h (parsed_mode mode)
    and_then attempt h (set_mode path mode (some path))

unfoldable pub if_mode : Host → Bytes → Option Bytes → Act Trace
if_mode h path none = nothing
if_mode h path (some mode) = change_mode h path mode

unfoldable pub mode_file : Host → Bytes → Entry → Spot → Act Trace
mode_file h path e s =
    if has_own_mode e.type && not (is_empty e.mode)
    then change_mode h path e.mode
    else if_mode h path s.mode

unfoldable pub register_if_shell : Host → Bytes → AssetType → Act Trace
register_if_shell h path type =
    if of_types (shell ∷ []) type then attempt h (registered_shell path) else nothing

unfoldable pub place_found : Host → Bytes → Entry → Spot → Option FileKind → Act Trace
place_found h path e s none t = err (failed_command, t)
place_found h path e s (some irregular) t = ok t
place_found h path e s (some (regular n)) t =
    (own_file h path e s and_then mode_file h path e s and_then register_if_shell h path e.type) t

-- strsep(3) at blanks
unfoldable pub push : ℕ → List Bytes → List Bytes
push c [] = (c ∷ []) ∷ []
push c (w ∷ ws) = (c ∷ w) ∷ ws

unfoldable pub blank_fields : Bytes → List Bytes
blank_fields [] = [] ∷ []
blank_fields (c ∷ s) = let rest = blank_fields s in if ends_field c then [] ∷ rest else push c rest

unfoldable pub nonempty : List Bytes → List Bytes
nonempty [] = []
nonempty (w ∷ ws) = if is_empty w then nonempty ws else w ∷ nonempty ws

unfoldable pub parse_sample : Bytes → List Bytes
parse_sample s = take 3 (nonempty (blank_fields s))

unfoldable pub copy_unless_there : Host → Bytes → Bytes → Act Trace
copy_unless_there h from to t =
    if h.file_exists t.events to then ok t else attempt h (copied_file from to) t

unfoldable pub copy_single : Host → Bytes → Option Bytes → Act Trace
copy_single h file none = nothing
copy_single h file (some to) = copy_unless_there h file to

-- `buffer` is nonSample, which `parse_sample` has cut at its first blank.
unfoldable pub copy_sample : Host → Bytes → Bytes → Bytes → List Bytes → Act Trace
copy_sample h folder file buffer [] =
    copy_single h file (before_nocase (codes ".sample") (before_blank buffer))
copy_sample h folder file buffer (w ∷ []) =
    copy_single h file (before_nocase (codes ".sample") (before_blank buffer))
copy_sample h folder file buffer (w ∷ second ∷ ws) =
    copy_unless_there h w
      (in_buffer (if is_absolute second then second else below h.root folder second))

unfoldable pub create_sample_file : Host → Bytes → Bytes → Act Trace
create_sample_file h folder file =
    let buffer =
      if is_absolute file then take 2047 file else in_buffer (below h.root folder file) in
    copy_sample h folder file buffer (parse_sample buffer)

unfoldable pub copy_if_sample : Host → AssetType → Bytes → Bytes → Act Trace
copy_if_sample h type folder d =
    if of_types (sample ∷ sample_owner_mode ∷ []) type
    then create_sample_file h folder d
    else nothing

unfoldable pub unpack : Host → ℕ → Entry → Spot → Bytes → Act Trace
unpack h total e s d =
    let path = file_path h.root s.cwd e.type d in
    attempt h found_entry
    and_then attempt h (extracted path)
    and_then (λ t. place_found h path e s (h.lstat t.events path) t)
    and_then copy_if_sample h e.type s.cwd d
    and_then emit (advanced (s.count + 1) total path)

-- a NULL text is read
unfoldable pub unpack_text : Host → ℕ → Entry → Spot → Option Bytes → Act Trace
unpack_text h total e s none = λ t. undefined
unpack_text h total e s (some d) = unpack h total e s d

unfoldable pub place_file : Host → ℕ → Entry → Spot → Act Trace
place_file h total e s = attempt h read_entry and_then unpack_text h total e s e.text

-- mport_run_asset_exec, which reads its text; the file is `none` where the buffer has no value
unfoldable pub install_exec : Host → Bytes → Option Bytes → Option Bytes → Act Trace
install_exec h folder file none = λ t. undefined
install_exec h folder file (some text) = attempt h (ran_install_exec text folder file)

unfoldable pub place_asset : Host → Package → ℕ → Entry → Spot → Act Trace
place_asset h p total e s =
    if of_types (cwd ∷ []) e.type
    then attempt h (changed_dir (h.root ++ in_buffer (text_or p.prefix e.text)))
    else if of_types (dir ∷ dirrm ∷ dirrmtry ∷ dir_owner_mode ∷ []) e.type
    then place_dir h e s
    else if of_types (exec ∷ []) e.type
    then install_exec h s.cwd s.file e.text
    else if of_types file_types e.type
    then place_file h total e s
    else nothing
