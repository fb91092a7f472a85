-- ===== src/Plist/File.antt =====
-- libmport/plist.c: `mport_parse_plistfile`, line by line.
mod Tests
pub mod Words
pub mod Items
pub mod RoundTrip
use mport.Base.{
  ℕ, ◌+◌, Bool, true, false, ◌&&◌, Option, none, some, List, [], ◌∷◌, ◌++◌, ◌==◌, if◌then◌else◌,
  drop,
}
use mport.Base.Text.{Bytes, codes, has_prefix, cstr, is_space}
use mport.Plist.Command.{
  AssetType, file, comment, origin, deporigin, Entry, parse_command, strsep, is_blank,
  with_owner_mode,
}

-- How the reading of a line ends: with a value, or with a read in front of the line's first byte.
pub data Read {ℓ} (A : Type ℓ) : Type ℓ where
  value : A → Read A
  before_line : Read A

pub attach : ℕ → List Bytes → List Bytes
attach c [] = (c ∷ []) ∷ []
attach c (l ∷ ls) = (c ∷ l) ∷ ls

-- fgetln(3): the lines without their newlines. A newline at the end of the file begins no line.
pub lines : Bytes → List Bytes
unfolding attach
lines [] = []
lines (c ∷ s) = if c == 10 then [] ∷ lines s else attach c (lines s)

-- calloc(3) leaves every field empty
abbrev pub new_entry : AssetType → Entry
new_entry t = record { type = t; checksum = []; owner = []; group = []; mode = []; text = none }

-- The text without the spaces at its end; `none` if it has nothing else.
pub trim : Bytes → Option Bytes
trim [] = none
trim (c ∷ s) = elim (trim s) [
  | some t ↦ some (c ∷ t)
  | none ↦ if is_space c then none else some (c ∷ [])
]

-- `while (isspace(*pos)) { *pos = 0; pos--; }`, from the last byte of the text. It stops in front
-- of the text where a byte that is no space stands there.
pub trim_behind_stop : Bytes → Bytes
unfolding trim
trim_behind_stop s = elim (trim s) [ some t ↦ t | none ↦ [] ]

pub trim_line : Bytes → Read Bytes
unfolding trim
trim_line s = elim (trim s) [ some t ↦ value t | none ↦ before_line ]

-- A comment may name an origin. In front of its text then stands `:`.
pub comment_entry : Entry → Bytes → Entry
comment_entry e line =
    if has_prefix (codes "ORIGIN:") line
    then record e { type = origin; text = some (trim_behind_stop (drop 7 line)) }
    else if has_prefix (codes "DEPORIGIN:") line
    then record e { type = deporigin; text = some (trim_behind_stop (drop 10 line)) }
    else record e { text = some (trim_behind_stop line) }

-- The rest of a directive's line; in front of it stands the NUL that strsep has written.
pub with_text : AssetType → Entry → Option Bytes → Entry
with_text t e none = e
with_text comment e (some line) = comment_entry e line
with_text t e (some line) = record e { text = some (trim_behind_stop line) }

pub file_entry : Read Bytes → Read Entry
file_entry (value s) = value (record (new_entry file) { text = some s })
file_entry before_line = before_line

pub append_entry : List Entry → Read Entry → Read (List Entry)
append_entry es (value e) = value (es ++ e ∷ [])
append_entry es before_line = before_line

module _ (max_logname : ℕ) where
  pub parse_directive : Bytes → Entry
  parse_directive line =
      let (cmnd, rest) = strsep is_blank line in
      let t = parse_command cmnd in
      with_text t (with_owner_mode max_logname t (new_entry t) cmnd) rest

  pub parse_line : Bytes → Read Entry
  parse_line [] = file_entry (trim_line [])
  parse_line (c ∷ s) =
      if c == b'@' then value (parse_directive s) else file_entry (trim_line (c ∷ s))

  -- one turn of the loop: a blank line is skipped, an entry goes to the end of the list
  pub add_line : List Entry → Bytes → Read (List Entry)
  add_line es [] = value es
  add_line es (c ∷ l) = append_entry es (parse_line (cstr (c ∷ l)))

  pub parse_lines : List Bytes → List Entry → Read (List Entry)
  parse_lines [] es = value es
  parse_lines (l ∷ ls) es = elim (add_line es l) [
    | value es' ↦ parse_lines ls es'
    | before_line ↦ before_line
  ]

  pub parse_plistfile : Bytes → Read (List Entry)
  parse_plistfile fp = parse_lines (lines fp) []
