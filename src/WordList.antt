-- ===== src/WordList.antt =====
-- libmport/util.c: `mport_parselist`, which splits a text at blanks.
pub mod RoundTrip
mod Tests
use mport.Base.{ℕ, zero, suc, Bool, ◌||◌, Option, none, some, List, [], ◌∷◌, ◌==◌, if◌then◌else◌}
use mport.Base.Text.{Bytes}

-- a byte of " \t\n"
unfoldable pub is_gap : ℕ → Bool
is_gap c = c == b' ' || c == 9 || c == 10

unfoldable pub extend : ℕ → List Bytes → List Bytes
extend c [] = (c ∷ []) ∷ []
extend c (f ∷ fs) = (c ∷ f) ∷ fs

-- what strsep(3) gives, call after call, up to NULL
unfoldable pub fields : Bytes → List Bytes
unfolding is_gap extend
fields [] = [] ∷ []
fields (c ∷ s) = let rest = fields s in if is_gap c then [] ∷ rest else extend c rest

-- the first loop: the number of fields that are not empty
unfoldable pub count_words : List Bytes → ℕ
count_words [] = 0
count_words ([] ∷ fs) = count_words fs
count_words ((c ∷ f) ∷ fs) = suc (count_words fs)

unfoldable pub add_word : Bytes → Option (List Bytes) → Option (List Bytes)
add_word w none = none
add_word w (some ws) = some (w ∷ ws)

-- The second loop, which stops when `room` words have been copied. strsep has then moved its
-- pointer behind the field it gave, and the code frees that pointer: NULL where the field was the
-- last, and otherwise a place inside the copy, which is undefined, `none`.
unfoldable pub copy_words : ℕ → List Bytes → Option (List Bytes)
unfolding add_word
copy_words room [] = some []
copy_words zero (f ∷ []) = some []
copy_words zero (f ∷ g ∷ fs) = none
copy_words (suc room) ([] ∷ fs) = copy_words (suc room) fs
copy_words (suc room) ((c ∷ f) ∷ fs) = add_word (c ∷ f) (copy_words room fs)

-- How a call ends: with a NULL list of size 0, with a list and its size, or undefined.
pub data Parsed : Type 0 where
  null_list : Parsed
  list : List Bytes → ℕ → Parsed
  is_undefined : Parsed

unfoldable pub with_size : ℕ → Option (List Bytes) → Parsed
with_size size none = is_undefined
with_size size (some ws) = list ws size

unfoldable pub sized_list : ℕ → List Bytes → Parsed
unfolding copy_words with_size
sized_list size fs = if size == 0 then null_list else with_size size (copy_words size fs)

unfoldable pub list_of_fields : List Bytes → Parsed
unfolding count_words sized_list
list_of_fields fs = sized_list (count_words fs) fs

-- mport_parselist
unfoldable pub parselist : Bytes → Parsed
unfolding fields list_of_fields
parselist s = list_of_fields (fields s)
