-- ===== src/Plist/File/RoundTrip.antt =====
-- A packing list that is printed is read back by libmport/plist.c.
use mport.Base.{
  ℕ, true, ◌≡◌, refl, Option, none, some, List, [], ◌∷◌, ◌++◌, String, arith, map, All, All-append,
  All-imp, append-nil, append_assoc, ap, ◌∙◌,
}
use mport.Base.Text.{Bytes, codes, has_prefix, cstr, cstr-Lacks}
use mport.Plist.Command.{
  AssetType, comment, Entry, parse_command, strsep, is_blank, with_owner_mode,
}
use mport.Plist.File.{
  value, lines, new_entry, trim, trim_behind_stop, trim_line, comment_entry, with_text,
  parse_directive, file_entry, parse_line, append_entry, add_line, parse_lines, parse_plistfile,
}
use mport.Plist.File.Words.{word, is_word, IsNamed, word-IsNamed}
use mport.Plist.File.Items.{
  Item, path, named, remark, origin_of, deporigin_of, argument, print_item, item_entry, print_items,
  IsInLine, IsText, IsArgument, IsItem,
}

lines-append : (l rest : Bytes) → All IsInLine l → lines (l ++ 10 ∷ rest) ≡ l ∷ lines rest
unfolding lines
lines-append [] rest h = refl
lines-append (c ∷ l) rest (hc, hl) = ground (arith, lines-append l rest hl)

strsep-word : (k d : Bytes) → is_word k ≡ true → strsep is_blank (k ++ 32 ∷ d) ≡ (k, some d)
unfolding strsep is_blank
strsep-word [] d h = refl
strsep-word (c ∷ k) d h = ground (arith, strsep-word k d)

strsep-word_end : (k : Bytes) → is_word k ≡ true → strsep is_blank k ≡ (k, none)
unfolding strsep is_blank
strsep-word_end [] h = refl
strsep-word_end (c ∷ k) h = ground (arith, strsep-word_end k)

trim_behind_stop-text : (d : Bytes) → trim d ≡ some d → trim_behind_stop d ≡ d
unfolding trim_behind_stop
trim_behind_stop-text d h = rw (h, trim_behind_stop)

IsNamed-of : (t : AssetType) (k : String) → word t ≡ some k → IsNamed t (some k)
IsNamed-of t k h = rw h at (word-IsNamed t)

All-word : (k : Bytes) → is_word k ≡ true → All IsInLine k
All-word [] h = tt
All-word (c ∷ k) h = (ground arith, All-word k (ground arith))

module _ (max_logname : ℕ) where
  parse_directive-argument :
      (t : AssetType) (k : String) (rest : Option Bytes)
      → IsNamed t (some k)
      → IsArgument rest
      → parse_directive max_logname (codes k ++ argument rest)
        ≡ record (new_entry t) { text = rest }
  unfolding parse_directive
  parse_directive-argument t k none (hp, hw, ho, ht, hn) _ =
      rw
        (
          append-nil (codes k),
          strsep-word_end (codes k) hw,
          hp,
          ho max_logname (new_entry t) (codes k),
        )
        (hn (new_entry t))
  parse_directive-argument t k (some d) (hp, hw, ho, ht, hn) hd = rw (
    strsep-word (codes k) d hw,
    hp,
    ho max_logname (new_entry t) (codes k),
    ht (new_entry t) d,
    trim_behind_stop-text d hd.0,
  )

  parse_directive-comment :
      (d : Bytes)
      → parse_directive max_logname (codes "comment" ++ 32 ∷ d)
        ≡ comment_entry (new_entry comment) d
  unfolding parse_directive strsep is_blank parse_command with_owner_mode with_text
  parse_directive-comment d = refl

  comment_entry-remark :
      (d : Bytes) → IsItem (remark d) → comment_entry (new_entry comment) d ≡ item_entry (remark d)
  unfolding comment_entry
  comment_entry-remark d (ho, hd, ht) = rw (ho, hd, trim_behind_stop-text d ht.0)

  comment_entry-origin :
      (d : Bytes)
      → IsText d
      → comment_entry (new_entry comment) (codes "ORIGIN:" ++ d) ≡ item_entry (origin_of d)
  unfolding comment_entry has_prefix
  comment_entry-origin d h = rw (trim_behind_stop-text d h.0)

  comment_entry-deporigin :
      (d : Bytes)
      → IsText d
      → comment_entry (new_entry comment) (codes "DEPORIGIN:" ++ d) ≡ item_entry (deporigin_of d)
  unfolding comment_entry has_prefix
  comment_entry-deporigin d h = rw (trim_behind_stop-text d h.0)

  parse_line-path :
      (c : ℕ) (s : Bytes)
      → IsItem (path c s)
      → parse_line max_logname (c ∷ s) ≡ value (item_entry (path c s))
  unfolding parse_line trim_line file_entry
  parse_line-path c s (hc, ht) = ground (arith, ht.0)

  parse_line-item :
      (i : Item) → IsItem i → parse_line max_logname (print_item i) ≡ value (item_entry i)
  unfolding parse_line
  parse_line-item (path c s) h = parse_line-path c s h
  parse_line-item (named t k rest) (hw, hr) =
      ap value (parse_directive-argument t k rest (IsNamed-of t k hw) hr)
  parse_line-item (remark d) h = ap value (parse_directive-comment d ∙ comment_entry-remark d h)
  parse_line-item (origin_of d) h =
      ap value (parse_directive-comment (codes "ORIGIN:" ++ d) ∙ comment_entry-origin d h)
  parse_line-item (deporigin_of d) h =
      ap value (parse_directive-comment (codes "DEPORIGIN:" ++ d) ∙ comment_entry-deporigin d h)

argument-InLine : (rest : Option Bytes) → IsArgument rest → All IsInLine (argument rest)
argument-InLine none h = tt
argument-InLine (some d) h = (omega arith, h.1)

print_item-InLine : (i : Item) → IsItem i → All IsInLine (print_item i)
print_item-InLine (path c s) h = h.1.1
print_item-InLine (named t k rest) (hw, hr) = (
  omega arith,
  All-append IsInLine (codes k) (argument rest) (All-word (codes k) (IsNamed-of t k hw).1)
      (argument-InLine rest hr),
)
print_item-InLine (remark d) h =
    (omega arith, All-append IsInLine (codes "comment") (32 ∷ d) (omega arith) (omega arith, h.2.1))
print_item-InLine (origin_of d) h =
    (omega arith, All-append IsInLine (codes "comment ORIGIN:") d (omega arith) h.1)
print_item-InLine (deporigin_of d) h =
    (omega arith, All-append IsInLine (codes "comment DEPORIGIN:") d (omega arith) h.1)

module _ (max_logname : ℕ) where
  add_line-item :
      (es : List Entry) (i : Item)
      → IsItem i
      → add_line max_logname es (print_item i) ≡ value (es ++ item_entry i ∷ [])
  add_line-item es i h =
      round es i
      ∙ ap (λ s. append_entry es (parse_line max_logname s))
          (cstr-Lacks (print_item i)
            (All-imp IsInLine _ (print_item i) (λ c k. k.0) (print_item-InLine i h)))
      ∙ ap (append_entry es) (parse_line-item max_logname i h)
      ∙ unfold append_entry in refl
    where
      round :
          (es : List Entry) (i : Item)
          → add_line max_logname es (print_item i)
            ≡ append_entry es (parse_line max_logname (cstr (print_item i)))
      round es (path c s) = unfold add_line in refl
      round es (named t k rest) = unfold add_line in refl
      round es (remark d) = unfold add_line in refl
      round es (origin_of d) = unfold add_line in refl
      round es (deporigin_of d) = unfold add_line in refl

  parse_lines-items :
      (is : List Item) (es : List Entry)
      → All IsItem is
      → parse_lines max_logname (lines (print_items is)) es ≡ value (es ++ map item_entry is)
  unfolding parse_lines
  parse_lines-items [] es h = unfold lines in rw append-nil
  parse_lines-items (i ∷ is) es (hi, his) =
      rw
        (
          lines-append (print_item i) (print_items is) (print_item-InLine i hi),
          parse_lines,
          add_line-item es i hi,
        )
        (parse_lines-items is (es ++ item_entry i ∷ []) his
          ∙ ap value (append_assoc es (item_entry i ∷ []) (map item_entry is)))

  -- A printed packing list is read back, entry for entry and in order: files, the directives of one
  -- word with or without an argument, comments, and the two origins. Each text is not blank, has no
  -- space at its end, and holds no NUL and no newline; a file does not begin with `@`.
  pub parse_plistfile-print_items :
      (is : List Item)
      → All IsItem is
      → parse_plistfile max_logname (print_items is) ≡ value (map item_entry is)
  unfolding parse_plistfile
  parse_plistfile-print_items is h = parse_lines-items is [] h
