-- ===== src/Plist/File/Tests.antt =====
-- A packing list through libmport/plist.c.
use mport.Base.{◌≡◌, refl, none, some, List, [], ◌∷◌, map, arith}
use mport.Base.Text.{codes, is_space, has_prefix, cstr}
use mport.Plist.Command.{cwd, dirrm}
use mport.Plist.File.{
  value, before_line, lines, attach, trim, trim_line, file_entry, parse_line, append_entry,
  add_line, parse_lines, parse_plistfile,
}
use mport.Plist.File.Items.{
  Item, path, named, remark, origin_of, deporigin_of, print_items, item_entry,
}
use mport.Plist.File.RoundTrip.{parse_plistfile-print_items}

abbrev items : List Item
items =
    path b'b' (codes "in/ls")
    ∷ named cwd "cwd" (some (codes "/usr/local"))
    ∷ named dirrm "dirrm" none
    ∷ remark (codes "a note")
    ∷ origin_of (codes "misc/ls")
    ∷ deporigin_of (codes "misc/cat")
    ∷ []

-- a file whose name is only blanks is read in front of the line
blank_file : parse_plistfile 33 (codes "  ") ≡ before_line
unfolding parse_plistfile lines attach parse_lines add_line append_entry parse_line cstr trim_line
    trim is_space file_entry
blank_file = refl

parse_plistfile-print_items_example :
    parse_plistfile 33 (print_items items) ≡ value (map item_entry items)
unfolding trim is_space has_prefix
parse_plistfile-print_items_example = parse_plistfile-print_items 33 items (
  (omega arith, (refl, omega arith)),
  (
    (refl, (refl, omega arith)),
    (
      (refl, tt),
      ((refl, refl, (refl, omega arith)), ((refl, omega arith), ((refl, omega arith), tt))),
    ),
  ),
)
