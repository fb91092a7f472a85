-- ===== src/Plist/File/Words.antt =====
-- The words of the directives of libmport/plist.c, from its manual: each is read as its type.
use mport.Base.{ℕ, Bool, true, ◌&&◌, ◌≡◌, refl, Option, none, some, [], ◌∷◌, leb, String}
use mport.Base.Text.{Bytes, codes}
use mport.Plist.Command.{AssetType, Entry, parse_command, with_owner_mode}
use mport.Plist.File.{with_text, trim_behind_stop}

-- The word of a type that a directive of one word names, but for comments.
abbrev pub word : AssetType → Option String
word AssetType.cwd = some "cwd"
word AssetType.chmod = some "mode"
word AssetType.chown = some "owner"
word AssetType.chgrp = some "group"
word AssetType.ignore = some "ignore"
word AssetType.name = some "name"
word AssetType.exec = some "exec"
word AssetType.unexec = some "unexec"
word AssetType.src = some "srcdir"
word AssetType.pkgdep = some "pkgdep"
word AssetType.conflicts = some "conflicts"
word AssetType.mtree = some "mtree"
word AssetType.dirrm = some "dirrm"
word AssetType.dirrmtry = some "dirrmtry"
word AssetType.ignore_inst = some "ignore_inst"
word AssetType.option = some "option"
word AssetType.noinst = some "noinst"
word AssetType.display = some "display"
word AssetType.dir = some "dir"
word AssetType.sample = some "sample"
word AssetType.shell = some "shell"
word AssetType.preexec = some "preexec"
word AssetType.preunexec = some "preunexec"
word AssetType.postexec = some "postexec"
word AssetType.postunexec = some "postunexec"
word AssetType.ldconfig = some "ldconfig"
word AssetType.ldconfig_linux = some "ldconfig-linux"
word AssetType.rmempty = some "rmempty"
word AssetType.glib_schemas = some "glib-schemas"
word AssetType.kld = some "kld"
word AssetType.desktop_file_utils = some "desktop-file-utils"
word AssetType.info = some "info"
word AssetType.touch = some "touch"
word _ = none

-- no NUL, tab, newline or blank
abbrev pub is_word : Bytes → Bool
is_word [] = true
is_word (c ∷ s) = leb 33 c && is_word s

-- What the reading of a line asks of a word and of the type it names.
abbrev pub IsNamed : AssetType → Option String → Type 0
IsNamed t none = Unit
IsNamed t (some k) =
    (parse_command (codes k) ≡ t)
    × (is_word (codes k) ≡ true)
    × ((n : ℕ) (e : Entry) (cmnd : Bytes) → with_owner_mode n t e cmnd ≡ e)
    × ((e : Entry) (line : Bytes)
        → with_text t e (some line) ≡ record e { text = some (trim_behind_stop line) })
    × ((e : Entry) → with_text t e none ≡ e)

pub word-IsNamed : (t : AssetType) → IsNamed t (word t)
unfolding parse_command with_owner_mode with_text
word-IsNamed AssetType.invalid = tt
word-IsNamed AssetType.file = tt
word-IsNamed AssetType.cwd = (refl, refl, λ n e cmnd. refl, λ e line. refl, λ e. refl)
word-IsNamed AssetType.chmod = (refl, refl, λ n e cmnd. refl, λ e line. refl, λ e. refl)
word-IsNamed AssetType.chown = (refl, refl, λ n e cmnd. refl, λ e line. refl, λ e. refl)
word-IsNamed AssetType.chgrp = (refl, refl, λ n e cmnd. refl, λ e line. refl, λ e. refl)
word-IsNamed AssetType.comment = tt
word-IsNamed AssetType.ignore = (refl, refl, λ n e cmnd. refl, λ e line. refl, λ e. refl)
word-IsNamed AssetType.name = (refl, refl, λ n e cmnd. refl, λ e line. refl, λ e. refl)
word-IsNamed AssetType.exec = (refl, refl, λ n e cmnd. refl, λ e line. refl, λ e. refl)
word-IsNamed AssetType.unexec = (refl, refl, λ n e cmnd. refl, λ e line. refl, λ e. refl)
word-IsNamed AssetType.src = (refl, refl, λ n e cmnd. refl, λ e line. refl, λ e. refl)
word-IsNamed AssetType.disply = tt
word-IsNamed AssetType.pkgdep = (refl, refl, λ n e cmnd. refl, λ e line. refl, λ e. refl)
word-IsNamed AssetType.conflicts = (refl, refl, λ n e cmnd. refl, λ e line. refl, λ e. refl)
word-IsNamed AssetType.mtree = (refl, refl, λ n e cmnd. refl, λ e line. refl, λ e. refl)
word-IsNamed AssetType.dirrm = (refl, refl, λ n e cmnd. refl, λ e line. refl, λ e. refl)
word-IsNamed AssetType.dirrmtry = (refl, refl, λ n e cmnd. refl, λ e line. refl, λ e. refl)
word-IsNamed AssetType.ignore_inst = (refl, refl, λ n e cmnd. refl, λ e line. refl, λ e. refl)
word-IsNamed AssetType.option = (refl, refl, λ n e cmnd. refl, λ e line. refl, λ e. refl)
word-IsNamed AssetType.origin = tt
word-IsNamed AssetType.deporigin = tt
word-IsNamed AssetType.noinst = (refl, refl, λ n e cmnd. refl, λ e line. refl, λ e. refl)
word-IsNamed AssetType.display = (refl, refl, λ n e cmnd. refl, λ e line. refl, λ e. refl)
word-IsNamed AssetType.dir = (refl, refl, λ n e cmnd. refl, λ e line. refl, λ e. refl)
word-IsNamed AssetType.sample = (refl, refl, λ n e cmnd. refl, λ e line. refl, λ e. refl)
word-IsNamed AssetType.shell = (refl, refl, λ n e cmnd. refl, λ e line. refl, λ e. refl)
word-IsNamed AssetType.preexec = (refl, refl, λ n e cmnd. refl, λ e line. refl, λ e. refl)
word-IsNamed AssetType.preunexec = (refl, refl, λ n e cmnd. refl, λ e line. refl, λ e. refl)
word-IsNamed AssetType.postexec = (refl, refl, λ n e cmnd. refl, λ e line. refl, λ e. refl)
word-IsNamed AssetType.postunexec = (refl, refl, λ n e cmnd. refl, λ e line. refl, λ e. refl)
word-IsNamed AssetType.file_owner_mode = tt
word-IsNamed AssetType.dir_owner_mode = tt
word-IsNamed AssetType.sample_owner_mode = tt
word-IsNamed AssetType.ldconfig = (refl, refl, λ n e cmnd. refl, λ e line. refl, λ e. refl)
word-IsNamed AssetType.ldconfig_linux = (refl, refl, λ n e cmnd. refl, λ e line. refl, λ e. refl)
word-IsNamed AssetType.rmempty = (refl, refl, λ n e cmnd. refl, λ e line. refl, λ e. refl)
word-IsNamed AssetType.glib_schemas = (refl, refl, λ n e cmnd. refl, λ e line. refl, λ e. refl)
word-IsNamed AssetType.kld = (refl, refl, λ n e cmnd. refl, λ e line. refl, λ e. refl)
word-IsNamed AssetType.desktop_file_utils =
    (refl, refl, λ n e cmnd. refl, λ e line. refl, λ e. refl)
word-IsNamed AssetType.info = (refl, refl, λ n e cmnd. refl, λ e line. refl, λ e. refl)
word-IsNamed AssetType.touch = (refl, refl, λ n e cmnd. refl, λ e line. refl, λ e. refl)
