-- ===== src/Plist/File/Items.antt =====
-- What the lines of a packing list say, how they are written, and the entries that they stand for.
use mport.Base.{ℕ, false, ◌≡◌, ◌≢◌, Option, none, some, List, [], ◌∷◌, ◌++◌, String, All}
use mport.Base.Text.{Bytes, codes, has_prefix}
use mport.Plist.Command.{AssetType, file, comment, origin, deporigin, Entry}
use mport.Plist.File.{new_entry, trim}
use mport.Plist.File.Words.{word}

-- What a line of a packing list says.
pub data Item : Type 0 where
  path : ℕ → Bytes → Item
  named : AssetType → String → Option Bytes → Item
  remark : Bytes → Item
  origin_of : Bytes → Item
  deporigin_of : Bytes → Item

abbrev pub argument : Option Bytes → Bytes
argument none = []
argument (some d) = 32 ∷ d

abbrev pub print_item : Item → Bytes
print_item (path c s) = c ∷ s
print_item (named t k rest) = b'@' ∷ (codes k ++ argument rest)
print_item (remark d) = b'@' ∷ (codes "comment" ++ 32 ∷ d)
print_item (origin_of d) = b'@' ∷ (codes "comment" ++ 32 ∷ (codes "ORIGIN:" ++ d))
print_item (deporigin_of d) = b'@' ∷ (codes "comment" ++ 32 ∷ (codes "DEPORIGIN:" ++ d))

abbrev pub item_entry : Item → Entry
item_entry (path c s) = record (new_entry file) { text = some (c ∷ s) }
item_entry (named t k rest) = record (new_entry t) { text = rest }
item_entry (remark d) = record (new_entry comment) { text = some d }
item_entry (origin_of d) = record (new_entry origin) { text = some d }
item_entry (deporigin_of d) = record (new_entry deporigin) { text = some d }

abbrev pub print_items : List Item → Bytes
print_items [] = []
print_items (i ∷ is) = print_item i ++ 10 ∷ print_items is

-- a byte that may stand in a line
abbrev pub IsInLine : ℕ → Type 0
IsInLine c = (c ≢ 0) × (c ≢ 10)

-- not blank, no space at its end, no NUL and no newline
abbrev pub IsText : Bytes → Type 0
IsText d = (trim d ≡ some d) × All IsInLine d

abbrev pub IsArgument : Option Bytes → Type 0
IsArgument none = Unit
IsArgument (some d) = IsText d

abbrev pub IsItem : Item → Type 0
IsItem (path c s) = (c ≢ b'@') × IsText (c ∷ s)
IsItem (named t k rest) = (word t ≡ some k) × IsArgument rest
IsItem (remark d) =
    (has_prefix (codes "ORIGIN:") d ≡ false)
    × (has_prefix (codes "DEPORIGIN:") d ≡ false)
    × IsText d
IsItem (origin_of d) = IsText d
IsItem (deporigin_of d) = IsText d
