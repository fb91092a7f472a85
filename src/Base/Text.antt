-- ===== src/Base/Text.antt =====
-- C strings as lists of bytes, and what the C library does with them.
use mport.Base.Tests.{ltb, leb, ◌==◌, if◌then◌else◌}
use mport.Base.Lists.{length, Lacks}
use mport.Base.Int.{ℤ, pos, negsuc, neg_ℕ, long_to_int}
use Prim.Native.Nat.{ℕ, ◌+◌, ◌-◌, ◌*◌, ◌^◌, suc, min}
use Prim.Native.Char.{code}
use Prim.Native.String.{String}
use mathlib.Core.Path.{◌≡◌, refl}
use mathlib.Core.Bool.{Bool, true, false, ◌&&◌, ◌||◌}
use mathlib.Core.List.{List, [], ◌∷◌, ◌++◌}
use mathlib.Core.Logic.{◌↔◌}
use mathlib.Core.Option.{Option, none, some}
use native.Mathlib.Omega.{arith}

abbrev pub Bytes : Type 0
Bytes = List ℕ

-- The bytes of an ASCII literal.
abbrev pub codes : String → Bytes
codes String.[] = []
codes (String.◌∷◌ c s) = code c ∷ codes s

unfoldable pub is_digit : ℕ → Bool
is_digit c = leb b'0' c && leb c b'9'

-- isspace(3) in the C locale
unfoldable pub is_space : ℕ → Bool
is_space c = c == 32 || (leb 9 c && leb c 13)

-- `(int) c` for a `char`, which is signed
abbrev pub signed_char : ℕ → ℤ
signed_char c = if ltb c 128 then pos c else negsuc (255 - c)

-- The text of a buffer up to its first NUL byte.
unfoldable pub cstr : Bytes → Bytes
cstr [] = []
cstr (c ∷ s) = if c == 0 then [] else c ∷ cstr s

-- rindex(3): the place of the last `c`
unfoldable pub rindex : Bytes → ℕ → Option ℕ
rindex [] c = none
rindex (x ∷ s) c = elim (rindex s c) [
  | some i ↦ some (suc i)
  | none ↦ if x == c then some 0 else none
]

-- strcmp(a, b) == 0
unfoldable pub str_eq : Bytes → Bytes → Bool
str_eq [] [] = true
str_eq [] (y ∷ t) = false
str_eq (x ∷ s) [] = false
str_eq (x ∷ s) (y ∷ t) = (x == y) && str_eq s t

-- strncmp(s, pre, strlen(pre)) == 0
unfoldable pub has_prefix : Bytes → Bytes → Bool
has_prefix [] s = true
has_prefix (x ∷ pre) [] = false
has_prefix (x ∷ pre) (y ∷ s) = (x == y) && has_prefix pre s

-- The digits at the front, read in decimal behind `n`, and the text after them.
unfoldable pub scan_digits : ℕ → Bytes → ℕ × Bytes
unfolding is_digit
scan_digits n [] = (n, [])
scan_digits n (c ∷ s) = if is_digit c then scan_digits (n * 10 + (c - b'0')) s else (n, c ∷ s)

-- `(int) strtol(s, &s, 10)` at a digit: strtol stops at LONG_MAX, and the cast keeps 32 bits
unfoldable pub strtol_at_digit : Bytes → ℤ × Bytes
unfolding scan_digits long_to_int
strtol_at_digit s =
    let (n, rest) = scan_digits 0 s in (long_to_int (pos (min n (2 ^ 63 - 1))), rest)

unfoldable pub skip_spaces : Bytes → Bytes
unfolding is_space
skip_spaces [] = []
skip_spaces (c ∷ s) = if is_space c then skip_spaces s else c ∷ s

-- What strtol reads after the blanks: an optional sign, and digits.
unfoldable pub strtol_signed : Bytes → ℤ
unfolding scan_digits
strtol_signed [] = pos 0
strtol_signed (c ∷ s) =
    if c == b'-'
    then neg_ℕ (min (scan_digits 0 s).0 (2 ^ 63))
    else if c == b'+'
    then pos (min (scan_digits 0 s).0 (2 ^ 63 - 1))
    else pos (min (scan_digits 0 (c ∷ s)).0 (2 ^ 63 - 1))

-- `(int) strtol(s, NULL, 10)`
unfoldable pub strtol_int : Bytes → ℤ
unfolding strtol_signed skip_spaces long_to_int
strtol_int s = long_to_int (strtol_signed (skip_spaces s))

pub str_eq_iff : (s t : Bytes) → (str_eq s t ≡ true) ↔ (s ≡ t)
unfolding str_eq
str_eq_iff [] [] = ground arith
str_eq_iff [] (y ∷ t) = ground arith
str_eq_iff (x ∷ s) [] = ground arith
str_eq_iff (x ∷ s) (y ∷ t) = ground (arith, str_eq_iff s t)

-- texts that are one are equal to the same texts
pub str_eq-same : (a n m : Bytes) → str_eq a n ≡ true → str_eq a m ≡ str_eq n m
str_eq-same a n m e = λ i. str_eq ((str_eq_iff a n).0 e i) m

pub rindex-Lacks : (s : Bytes) (c : ℕ) → Lacks c s → rindex s c ≡ none
unfolding rindex
rindex-Lacks [] c h = refl
rindex-Lacks (x ∷ s) c (hx, hs) = ground (arith, rindex-Lacks s c hs)

pub rindex-append :
    (s : Bytes) (c : ℕ) (t : Bytes) → Lacks c t → rindex (s ++ c ∷ t) c ≡ some (length s)
unfolding rindex
rindex-append [] c t h = ground (arith, rindex-Lacks t c h)
rindex-append (x ∷ s) c t h = ground (arith, rindex-append s c t h)

pub cstr-Lacks : (s : Bytes) → Lacks 0 s → cstr s ≡ s
unfolding cstr
cstr-Lacks [] h = refl
cstr-Lacks (x ∷ s) (hx, hs) = ground (arith, cstr-Lacks s hs)

pub cstr-append : (s t : Bytes) → Lacks 0 s → cstr (s ++ 0 ∷ t) ≡ s
unfolding cstr
cstr-append [] t h = refl
cstr-append (x ∷ s) t (hx, hs) = ground (arith, cstr-append s t hs)
