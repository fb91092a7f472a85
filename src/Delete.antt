-- ===== src/Delete.antt =====
-- libmport/delete_primative.c: what its parts share.
pub mod Commands
pub mod Assets
pub mod Works
pub mod CommandWorks
pub mod InfraWorks
pub mod FileWorks
pub mod AssetWorks
pub mod Primitive
use mport.Base.{
  ℕ, zero, suc, Bool, true, false, ◌||◌, Option, none, some, List, [], ◌∷◌, ◌++◌, ◌==◌,
  if◌then◌else◌,
}
use mport.Base.Text.{Bytes}
use mport.Plist.Command.{AssetType}

unfoldable pub take {ℓ} : {A : Type ℓ} → ℕ → List A → List A
take zero xs = []
take (suc n) [] = []
take (suc n) (x ∷ xs) = x ∷ take n xs

-- what `snprintf` and `strlcpy` leave in a buffer of FILENAME_MAX bytes
unfoldable pub in_buffer : Bytes → Bytes
in_buffer s = take 1023 s

-- The path of an asset: the root, with the text behind it, or with the prefix and the text.
unfoldable pub asset_path : Bytes → Bytes → Option Bytes → Bytes
asset_path root prefix none = in_buffer root
asset_path root prefix (some []) = in_buffer (root ++ prefix ++ b'/' ∷ [])
asset_path root prefix (some (c ∷ s)) =
    if c == b'/' then in_buffer (root ++ c ∷ s) else in_buffer (root ++ prefix ++ b'/' ∷ c ∷ s)

-- the value of the enumerator
unfoldable pub type_code : AssetType → ℕ
type_code AssetType.invalid = 0
type_code AssetType.file = 1
type_code AssetType.cwd = 2
type_code AssetType.chmod = 3
type_code AssetType.chown = 4
type_code AssetType.chgrp = 5
type_code AssetType.comment = 6
type_code AssetType.ignore = 7
type_code AssetType.name = 8
type_code AssetType.exec = 9
type_code AssetType.unexec = 10
type_code AssetType.src = 11
type_code AssetType.disply = 12
type_code AssetType.pkgdep = 13
type_code AssetType.conflicts = 14
type_code AssetType.mtree = 15
type_code AssetType.dirrm = 16
type_code AssetType.dirrmtry = 17
type_code AssetType.ignore_inst = 18
type_code AssetType.option = 19
type_code AssetType.origin = 20
type_code AssetType.deporigin = 21
type_code AssetType.noinst = 22
type_code AssetType.display = 23
type_code AssetType.dir = 24
type_code AssetType.sample = 25
type_code AssetType.shell = 26
type_code AssetType.preexec = 27
type_code AssetType.preunexec = 28
type_code AssetType.postexec = 29
type_code AssetType.postunexec = 30
type_code AssetType.file_owner_mode = 31
type_code AssetType.dir_owner_mode = 32
type_code AssetType.sample_owner_mode = 33
type_code AssetType.ldconfig = 34
type_code AssetType.ldconfig_linux = 35
type_code AssetType.rmempty = 36
type_code AssetType.glib_schemas = 37
type_code AssetType.kld = 38
type_code AssetType.desktop_file_utils = 39
type_code AssetType.info = 40
type_code AssetType.touch = 41

unfoldable pub of_types : List AssetType → AssetType → Bool
of_types [] t = false
of_types (u ∷ us) t = type_code t == type_code u || of_types us t
