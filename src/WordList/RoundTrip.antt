-- ===== src/WordList/RoundTrip.antt =====
-- `mport_parselist` of libmport/util.c reads back a list of words that is written with blanks.
use mport.Base.{
  append_assoc, append-nil, ℕ, suc, false, ◌≡◌, refl, Option, none, some, List, [], ◌∷◌, ◌++◌, All,
  length, arith,
}
use mathlib.Core.Path.{sym}
use mport.Base.Text.{Bytes}
use mport.WordList.{
  is_gap, fields, count_words, copy_words, add_word, with_size, Parsed, null_list, list,
  is_undefined, sized_list, list_of_fields, parselist,
}

-- a word has a byte, and no blank
unfoldable pub IsWord : Bytes → Type 0
IsWord [] = ⊥
IsWord (c ∷ s) = All (λ b. is_gap b ≡ false) (c ∷ s)

-- every word with a blank behind it
unfoldable pub written : List Bytes → Bytes
written [] = []
written (w ∷ ws) = w ++ b' ' ∷ written ws

fields-append :
    (w s : Bytes) → All (λ b. is_gap b ≡ false) w → fields (w ++ b' ' ∷ s) ≡ w ∷ fields s
unfolding fields
fields-append [] s h = refl
fields-append (c ∷ w) s (hc, hw) = simp (hc, fields-append w s hw)

fields_eq : (s t : Bytes) → s ≡ t → fields s ≡ fields t
fields_eq s t e = λ i. fields (e i)

-- the fields of a written list: its words, and the fields of what is behind it
fields-written :
    (ws : List Bytes) (s : Bytes) → All IsWord ws → fields (written ws ++ s) ≡ ws ++ fields s
unfolding written IsWord
fields-written [] s h = refl
fields-written ([] ∷ ws) s (hw, hs) = absurd hw
fields-written ((c ∷ w) ∷ ws) s (hw, hs) = cc (
  fields_eq (written ((c ∷ w) ∷ ws) ++ s) ((c ∷ w) ++ b' ' ∷ (written ws ++ s))
      (append_assoc (c ∷ w) (b' ' ∷ written ws) s),
  fields-append (c ∷ w) (written ws ++ s) hw,
  fields-written ws s hs,
)

-- the words, and empty fields behind them
count-words :
    (ws fs : List Bytes) → All IsWord ws → count_words fs ≡ 0 → count_words (ws ++ fs) ≡ length ws
unfolding count_words IsWord
count-words [] fs h e = e
count-words ([] ∷ ws) fs (hw, hs) e = absurd hw
count-words ((c ∷ w) ∷ ws) fs (hw, hs) e = λ i. suc (count-words ws fs hs e i)

unfoldable pub added : List Bytes → Option (List Bytes) → Option (List Bytes)
added ws none = none
added ws (some us) = some (ws ++ us)

added_word :
    (w : Bytes) (ws : List Bytes) (o : Option (List Bytes))
    → add_word w (added ws o) ≡ added (w ∷ ws) o
unfolding add_word added
added_word w ws none = refl
added_word w ws (some us) = refl

added_none : (o : Option (List Bytes)) → added [] o ≡ o
unfolding added
added_none none = refl
added_none (some us) = refl

add_eq : (w : Bytes) (x y : Option (List Bytes)) → x ≡ y → add_word w x ≡ add_word w y
add_eq w x y e = λ i. add_word w (e i)

copy_cons :
    (c : ℕ) (w : Bytes) (room : ℕ) (fs : List Bytes)
    → copy_words (suc room) ((c ∷ w) ∷ fs) ≡ add_word (c ∷ w) (copy_words room fs)
unfolding copy_words
copy_cons c w room fs = refl

copy-words :
    (ws fs : List Bytes)
    → All IsWord ws
    → copy_words (length ws) (ws ++ fs) ≡ added ws (copy_words 0 fs)
unfolding IsWord
copy-words [] fs h = sym (added_none (copy_words 0 fs))
copy-words ([] ∷ ws) fs (hw, hs) = absurd hw
copy-words ((c ∷ w) ∷ ws) fs (hw, hs) = cc (
  copy_cons c w (length ws) (ws ++ fs),
  add_eq (c ∷ w) (copy_words (length ws) (ws ++ fs)) (added ws (copy_words 0 fs))
      (copy-words ws fs hs),
  added_word (c ∷ w) ws (copy_words 0 fs),
)

size_eq : (n m : ℕ) (fs : List Bytes) → n ≡ m → sized_list n fs ≡ sized_list m fs
size_eq n m fs e = λ i. sized_list (e i) fs

sized :
    (m : ℕ) (fs : List Bytes) (o : Option (List Bytes))
    → copy_words (suc m) fs ≡ o
    → sized_list (suc m) fs ≡ with_size (suc m) o
unfolding sized_list
sized m fs o h = ground (arith, h)

-- the result for words and what is behind them
list_of_fields-words :
    (w : Bytes) (ws fs : List Bytes)
    → All IsWord (w ∷ ws)
    → count_words fs ≡ 0
    → list_of_fields ((w ∷ ws) ++ fs)
      ≡ with_size (suc (length ws)) (added (w ∷ ws) (copy_words 0 fs))
unfolding list_of_fields
list_of_fields-words w ws fs h e = cc (
  size_eq (count_words ((w ∷ ws) ++ fs)) (length (w ∷ ws)) ((w ∷ ws) ++ fs)
      (count-words (w ∷ ws) fs h e),
  sized (length ws) ((w ∷ ws) ++ fs) (added (w ∷ ws) (copy_words 0 fs)) (copy-words (w ∷ ws) fs h),
)

-- the list that is read, NULL where it is empty
unfoldable pub parsed : List Bytes → Parsed
parsed [] = null_list
parsed (w ∷ ws) = list (w ∷ ws) (suc (length ws))

-- with two blanks behind the last word
unfoldable pub freed : List Bytes → Parsed
freed [] = null_list
freed (w ∷ ws) = is_undefined

parsed_eq : (fs gs : List Bytes) → fs ≡ gs → list_of_fields fs ≡ list_of_fields gs
parsed_eq fs gs e = λ i. list_of_fields (e i)

parselist_behind :
    (w : Bytes) (ws : List Bytes) (s : Bytes)
    → All IsWord (w ∷ ws)
    → count_words (fields s) ≡ 0
    → parselist (written (w ∷ ws) ++ s)
      ≡ with_size (suc (length ws)) (added (w ∷ ws) (copy_words 0 (fields s)))
unfolding parselist
parselist_behind w ws s h e = cc (
  parsed_eq (fields (written (w ∷ ws) ++ s)) ((w ∷ ws) ++ fields s) (fields-written (w ∷ ws) s h),
  list_of_fields-words w ws (fields s) h e,
)

read_eq : (s t : Bytes) → s ≡ t → parselist s ≡ parselist t
read_eq s t e = λ i. parselist (e i)

list_eq : (us ws : List Bytes) (n : ℕ) → us ≡ ws → list us n ≡ list ws n
list_eq us ws n e = λ i. list (e i) n

one_blank :
    (w : Bytes) (ws : List Bytes)
    → All IsWord (w ∷ ws)
    → parselist (written (w ∷ ws) ++ []) ≡ list ((w ∷ ws) ++ []) (suc (length ws))
unfolding fields count_words copy_words added with_size
one_blank w ws h = parselist_behind w ws [] h refl

two_blanks :
    (w : Bytes) (ws : List Bytes)
    → All IsWord (w ∷ ws)
    → parselist (written (w ∷ ws) ++ b' ' ∷ []) ≡ is_undefined
unfolding fields count_words copy_words added with_size
two_blanks w ws h = parselist_behind w ws (b' ' ∷ []) h refl

unread : (parselist (written []) ≡ null_list) × (parselist (written [] ++ b' ' ∷ []) ≡ null_list)
unfolding parselist written fields
unread = (refl, refl)

-- A list of words, none of them empty or with a blank, is read back with its length from the text
-- that has each word with one blank behind it, NULL where it is empty; with two blanks behind the
-- last word, the code frees a place inside its copy, which is undefined.
pub parselist-written :
    (ws : List Bytes)
    → All IsWord ws
    → (parselist (written ws) ≡ parsed ws) × (parselist (written ws ++ b' ' ∷ []) ≡ freed ws)
unfolding parsed freed
parselist-written [] h = unread
parselist-written (w ∷ ws) h = (
  cc (
    read_eq (written (w ∷ ws) ++ []) (written (w ∷ ws)) (append-nil (written (w ∷ ws))),
    one_blank w ws h,
    list_eq ((w ∷ ws) ++ []) (w ∷ ws) (suc (length ws)) (append-nil (w ∷ ws)),
  ),
  two_blanks w ws h,
)
