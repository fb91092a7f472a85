-- ===== src/Install.antt =====
-- libmport/bundle_read_install_pkg.c: the bundle that is installed, the lists of its assets
-- (`mport_bundle_read_get_assetlist`, `get_file_count`), and the variables of
-- `do_actual_install` that an asset changes.
pub mod Laws
pub mod Files
pub mod Places
pub mod Around
pub mod Phases
pub mod Commands
pub mod Primitive
mod Tests
use mport.Base.{
  map, ℕ, suc, ◌+◌, Bool, true, false, not, ◌||◌, ◌&&◌, Option, none, some, List, [], ◌∷◌, ◌++◌,
  ◌==◌, if◌then◌else◌, length, drop, leb,
}
use mport.Base.Text.{Bytes, codes, str_eq}
use mport.Db.{Steps, row, finished, failed, Query, unprepared, prepared, ok, err, select}
use mport.Plist.Command.{
  AssetType, Entry, cwd, chmod, chown, chgrp, file, sample, shell, file_owner_mode,
  sample_owner_mode, dir, dirrm, dirrmtry, preexec, postexec, ldconfig, ldconfig_linux,
  glib_schemas, info, touch,
}
use mport.Preconditions.{DependRow, filter_rows}
use mport.Store.{
  AssetRow, CategoryRow, Package, Select, count_stub_files, preinstall_assets, actualinstall_assets,
  postinstall_assets, Host, Trace, sql_error, Act, map_rows,
}
use mport.Delete.{take, in_buffer, of_types}
use mport.Delete.Commands.{has_type, first_count, text_or}

-- The fields of mportBundleRead that are used, and the tables of the stub database, which is
-- attached for as long as the bundle is read.
pub record Bundle : Type 0 where
  pub tmpdir : Bytes
  pub assets : List AssetRow
  pub depends : List DependRow
  pub categories : List CategoryRow

-- what `strlcpy` leaves in a zeroed array
unfoldable pub in_array : ℕ → Option Bytes → Bytes
in_array n none = []
in_array n (some s) = take n s

unfoldable pub entry_of : AssetRow → Entry
entry_of r = record {
  type = r.type;
  checksum = in_array 64 r.checksum;
  owner = in_array 32 r.owner;
  group = in_array 65 r.group;
  mode = in_array 4 r.mode;
  text = r.text;
}

pub data Phase : Type 0 where
  preinstall actualinstall postinstall : Phase

unfoldable pub in_phase : Phase → AssetType → Bool
in_phase preinstall t = of_types (cwd ∷ preexec ∷ []) t
in_phase actualinstall t = not (of_types (preexec ∷ postexec ∷ ldconfig ∷ ldconfig_linux ∷ []) t)
in_phase postinstall t =
    of_types (cwd ∷ postexec ∷ ldconfig ∷ ldconfig_linux ∷ glib_schemas ∷ info ∷ touch ∷ []) t

unfoldable pub phase_select : Phase → Select
phase_select preinstall = preinstall_assets
phase_select actualinstall = actualinstall_assets
phase_select postinstall = postinstall_assets

unfoldable pub phase_assets : Phase → Package → Bundle → List Entry
unfolding in_phase entry_of
phase_assets ph p b =
    map entry_of
      (filter_rows (λ (r : AssetRow). str_eq r.pkg p.name && in_phase ph r.type) b.assets)

-- every row is read before the list is used
unfoldable pub read_list : Steps Entry → Act Trace
read_list (row e rest) t = read_list rest t
read_list finished t = ok t
read_list failed t = err (sql_error, t)

unfoldable pub with_list : Query Entry → Act Trace
with_list unprepared t = err (sql_error, t)
with_list (prepared s) t = read_list s t

-- Where the list is read without an error, it is `phase_assets`.
unfoldable pub get_assetlist : Host → Phase → Package → Bundle → Act Trace
unfolding with_list read_list
get_assetlist h ph p b t =
    with_list (select (h.fault t.events (phase_select ph)) (phase_assets ph p b)) t

abbrev pub file_types : List AssetType
file_types = file ∷ sample ∷ shell ∷ file_owner_mode ∷ sample_owner_mode ∷ []

unfoldable pub file_total : Package → Bundle → ℕ
file_total p b = length (filter_rows (has_type p.name file_types) b.assets)

-- the number of the files, which is `file_total` where the statement gives its row
unfoldable pub get_file_count : Host → Package → Bundle → Act Trace
get_file_count h p b t =
    first_count (λ n u. ok u) (select (h.fault t.events count_stub_files) (file_total p b ∷ [])) t

-- mport_get_uid and mport_get_gid: root and wheel where there is no such name
unfoldable pub number_or_0 : Option ℕ → ℕ
number_or_0 none = 0
number_or_0 (some n) = n

unfoldable pub get_id : (Bytes → Option ℕ) → Option Bytes → ℕ
get_id names none = 0
get_id names (some []) = 0
get_id names (some (c ∷ s)) = number_or_0 (names (c ∷ s))

-- The variables of `do_actual_install`; `stat` is the file whose status `sb` holds. `none` is a
-- NULL `mode`, and for `file` and `sb` that they have no value yet.
pub record Spot : Type 0 where
  pub cwd : Bytes
  pub file : Option Bytes
  pub mode : Option Bytes
  pub owner : ℕ
  pub group : ℕ
  pub stat : Option Bytes
  pub count : ℕ

unfoldable pub first_spot : Package → Spot
first_spot p = record {
  cwd = in_buffer p.prefix;
  file = none;
  mode = none;
  owner = 0;
  group = 0;
  stat = none;
  count = 0;
}

unfoldable pub ends_field : ℕ → Bool
ends_field c = c == b' ' || c == b'\t'

-- the text in front of the first blank
unfoldable pub before_blank : Bytes → Bytes
before_blank [] = []
before_blank (c ∷ s) = if ends_field c then [] else c ∷ before_blank s

unfoldable pub is_absolute : Bytes → Bool
is_absolute [] = false
is_absolute (c ∷ s) = c == b'/'

unfoldable pub below : Bytes → Bytes → Bytes → Bytes
below root folder s = root ++ folder ++ b'/' ∷ s

-- the path that a file is extracted to; a sample's text can name a second file
unfoldable pub file_path : Bytes → Bytes → AssetType → Bytes → Bytes
file_path root folder type s =
    let path = in_buffer (if is_absolute s then s else below root folder s) in
    if of_types (sample ∷ sample_owner_mode ∷ []) type then before_blank path else path

-- a file without a text is not reached
unfoldable pub at_file : Bytes → AssetType → Spot → Option Bytes → Spot
at_file root type s none = s
at_file root type s (some d) = record s {
  file = some (file_path root s.cwd type d);
  stat = some (file_path root s.cwd type d);
  count = s.count + 1;
}

-- the variables behind the asset
unfoldable pub spot_after : Host → Package → Entry → Spot → Spot
spot_after h p e s =
    if of_types (AssetType.cwd ∷ []) e.type
    then record s { cwd = in_buffer (text_or p.prefix e.text) }
    else if of_types (chmod ∷ []) e.type
    then record s { mode = e.text }
    else if of_types (chown ∷ []) e.type
    then record s { owner = get_id h.passwd e.text }
    else if of_types (chgrp ∷ []) e.type
    then record s { group = get_id h.groups e.text }
    else if of_types file_types e.type
    then at_file h.root e.type s e.text
    else s

-- `filePtr + strlen(mport->root)`, `none` where it points behind the text
unfoldable pub without_root : Bytes → Bytes → Option Bytes
without_root root path =
    if leb (length root) (length path) then some (drop (length root) path) else none

unfoldable pub bare_row : Bytes → Entry → Option Bytes → AssetRow
bare_row name e text = record {
  pkg = name;
  type = e.type;
  text = text;
  checksum = none;
  owner = none;
  group = none;
  mode = none;
}

unfoldable pub file_row : Bytes → Entry → Option Bytes → Option AssetRow
file_row name e none = none
file_row name e (some path) = some (record (bare_row name e (some path)) {
  checksum = some e.checksum;
  owner = some e.owner;
  group = some e.group;
  mode = some e.mode;
})

unfoldable pub path_row : Bytes → Bytes → Entry → Option Bytes → Option AssetRow
path_row root name e none = none
path_row root name e (some path) = file_row name e (without_root root path)

unfoldable pub dir_text : Bytes → Bytes → Bytes
dir_text folder d = in_buffer (if is_absolute d then d else folder ++ b'/' ∷ d)

-- the row that is inserted for the asset, `none` for undefined behaviour
unfoldable pub row_of : Host → Package → Entry → Spot → Option AssetRow
row_of h p e s =
    if of_types file_types e.type
    then path_row h.root p.name e s.file
    else if of_types (dir ∷ dirrm ∷ dirrmtry ∷ []) e.type
    then some (bare_row p.name e (some (dir_text s.cwd (text_or (codes "(null)") e.text))))
    else some (bare_row p.name e e.text)
