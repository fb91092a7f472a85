-- ===== src/Plist/Command.antt =====
-- libmport/plist.c: the entries of a packing list, and its directives.
use mport.Base.{
  ℕ, zero, suc, ◌*◌, Bool, ◌||◌, Option, none, some, List, [], ◌∷◌, ◌==◌, if◌then◌else◌, drop,
  String,
}
use mport.Base.Text.{Bytes, codes, str_eq, has_prefix}

-- enum _AssetListEntryType of libmport/mport.h
pub data AssetType : Type 0 where
  invalid file cwd chmod chown chgrp comment ignore name exec unexec : AssetType
  src disply pkgdep conflicts mtree dirrm dirrmtry ignore_inst option origin : AssetType
  deporigin noinst display dir sample shell preexec preunexec postexec postunexec : AssetType
  file_owner_mode dir_owner_mode sample_owner_mode ldconfig ldconfig_linux : AssetType
  rmempty glib_schemas kld desktop_file_utils info touch : AssetType

-- struct _AssetListEntry of libmport/mport.h; `none` is a NULL pointer
pub record Entry : Type 0 where
  pub type : AssetType
  pub checksum : Bytes
  pub owner : Bytes
  pub group : Bytes
  pub mode : Bytes
  pub text : Option Bytes

-- One test of `parse_command`: `STRING_EQ(s, k)`, or `strncmp(s, k, strlen(k)) == 0`.
pub data Rule : Type 0 where
  exact : String → AssetType → Rule
  starts : String → AssetType → Rule

-- The tests in the order of the source, which returns at the first that holds.
abbrev pub rules : List Rule
rules =
    exact "comment" comment
    ∷ exact "preexec" preexec
    ∷ exact "preunexec" preunexec
    ∷ exact "postexec" postexec
    ∷ exact "postunexec" postunexec
    ∷ exact "exec" exec
    ∷ exact "unexec" unexec
    ∷ exact "dir" dir
    ∷ starts "dir(" dir_owner_mode
    ∷ exact "dirrm" dirrm
    ∷ exact "dirrmtry" dirrmtry
    ∷ exact "cwd" cwd
    ∷ exact "cd" cwd
    ∷ exact "srcdir" src
    ∷ exact "mode" chmod
    ∷ exact "owner" chown
    ∷ exact "group" chgrp
    ∷ exact "noinst" noinst
    ∷ exact "ignore" ignore
    ∷ exact "ignore_inst" ignore_inst
    ∷ exact "info" info
    ∷ exact "name" name
    ∷ exact "display" display
    ∷ exact "pkgdep" pkgdep
    ∷ exact "conflicts" conflicts
    ∷ exact "mtree" mtree
    ∷ exact "option" option
    ∷ exact "sample" sample
    ∷ starts "sample(" sample_owner_mode
    ∷ exact "shell" shell
    ∷ exact "ldconfig-linux" ldconfig_linux
    ∷ exact "ldconfig" ldconfig
    ∷ exact "rmempty" rmempty
    ∷ exact "glib-schemas" glib_schemas
    ∷ exact "kld" kld
    ∷ exact "desktop-file-utils" desktop_file_utils
    ∷ exact "touch" touch
    ∷ []

-- the last test: `s[0] == '('`
unnamed_command : Bytes → AssetType
unnamed_command [] = invalid
unnamed_command (c ∷ s) = if c == b'(' then file_owner_mode else invalid

first_rule : List Rule → Bytes → AssetType
first_rule [] s = unnamed_command s
first_rule (exact k t ∷ rs) s = if str_eq s (codes k) then t else first_rule rs s
first_rule (starts k t ∷ rs) s = if has_prefix (codes k) s then t else first_rule rs s

unfoldable pub parse_command : Bytes → AssetType
unfolding first_rule unnamed_command str_eq has_prefix
parse_command = first_rule rules

-- strsep(3): the text before the first delimiter, and what stands behind it, if there is one
unfoldable pub strsep : (ℕ → Bool) → Bytes → Bytes × Option Bytes
strsep delim [] = ([], none)
strsep delim (c ∷ s) =
    if delim c then ([], some s) else (let (tok, rest) = strsep delim s in (c ∷ tok, rest))

unfoldable pub is_blank : ℕ → Bool
is_blank c = c == 32 || c == 9

is_owner_delimiter : ℕ → Bool
is_owner_delimiter c = c == b'(' || c == b',' || c == b')'

-- strlcpy(dst, s, size)
unfoldable pub strlcpy : Bytes → ℕ → Bytes
strlcpy s zero = []
strlcpy [] (suc size) = []
strlcpy (c ∷ s) (suc zero) = []
strlcpy (c ∷ s) (suc (suc size)) = c ∷ strlcpy s (suc size)

-- The text up to the next delimiter, where `op` still points into the string.
upto_delimiter : Option Bytes → Option Bytes
unfolding strsep is_owner_delimiter
upto_delimiter none = none
upto_delimiter (some op) = some (strsep is_owner_delimiter op).0

behind_delimiter : Option Bytes → Option Bytes
unfolding strsep is_owner_delimiter
behind_delimiter none = none
behind_delimiter (some op) = (strsep is_owner_delimiter op).1

-- what `strlcpy` leaves in a field that is empty before
copied : Option Bytes → ℕ → Bytes
unfolding strlcpy
copied none size = []
copied (some s) size = strlcpy s size

-- The number of bytes of a login name is MAXLOGNAME of the system's sys/param.h.
module _ (max_logname : ℕ) where
  -- `permissions[i]` points behind the delimiter that ends token `i`, and the next call of strsep
  -- ends it at its own delimiter.
  unfoldable pub parse_file_owner_mode : Entry → Bytes → Entry
  unfolding upto_delimiter behind_delimiter copied
  parse_file_owner_mode entry cmd_line =
      let p₀ = behind_delimiter (some cmd_line) in
      let p₁ = behind_delimiter p₀ in
      let p₂ = behind_delimiter p₁ in
      record entry {
        owner = copied (upto_delimiter p₀) max_logname;
        group = copied (upto_delimiter p₁) (2 * max_logname);
        mode = copied (upto_delimiter p₂) 5;
      }

  -- what the type of a directive asks of its word
  unfoldable pub with_owner_mode : AssetType → Entry → Bytes → Entry
  unfolding parse_file_owner_mode
  with_owner_mode file_owner_mode entry cmnd = parse_file_owner_mode entry cmnd
  with_owner_mode dir_owner_mode entry cmnd = parse_file_owner_mode entry (drop 3 cmnd)
  with_owner_mode sample_owner_mode entry cmnd = parse_file_owner_mode entry (drop 6 cmnd)
  with_owner_mode t entry cmnd = entry
