-- ===== src/Version/Compare.antt =====
-- libmport/version_cmp.c: `parse_version`, `cmp_ints`, `cmp_versions` and `mport_version_cmp`.
mod Tests
pub mod Order
pub mod Grammar
pub mod Transitive
pub mod Bounds
use mport.Base.{
  ℕ, zero, suc, ◌+◌, ◌≡◌, refl, Bool, true, false, ◌||◌, Option, none, some, [], ◌∷◌, ◌==◌,
  if◌then◌else◌, length, drop, set,
}
use mport.Base.Int.{ℤ, pos, negsuc, eq_int, lt_int}
use mport.Base.Text.{Bytes, codes, rindex, cstr, strtol_int, strtol_at_digit, is_digit, signed_char}

pub record Version : Type 0 where
  pub version : Bytes
  pub revision : ℤ
  pub epoch : ℤ

-- `*p = '\0'`, if `p` is not NULL
unfoldable pub cut_at : Option ℕ → Bytes → Bytes
cut_at none s = s
cut_at (some i) s = set s i 0

-- the number behind the mark at `p`, once the mark is cut; 0 if there is no mark
unfoldable pub number_at : Option ℕ → Bytes → ℤ
unfolding strtol_int cstr
number_at none s = pos 0
number_at (some i) s = strtol_int (cstr (drop (suc i) s))

unfoldable pub parse_version : Bytes → Version
unfolding cut_at number_at rindex cstr
parse_version s =
    let underscore = rindex s b'_' in
    let comma = rindex s b',' in
    let lessthan = rindex s b'<' in
    let greaterthan = rindex s b'>' in
    let s₁ = cut_at greaterthan (cut_at lessthan s) in
    let s₂ = cut_at comma s₁ in
    let s₃ = cut_at underscore s₂ in
    record { version = cstr s₃; revision = number_at underscore s₃; epoch = number_at comma s₂ }

unfoldable pub cmp_ints : ℤ → ℤ → ℤ
cmp_ints a b = if eq_int a b then pos 0 else if lt_int a b then negsuc 0 else pos 1

-- How a loop over C strings ends: with a result, with a read behind the end of a string, or, in
-- the model only, with no fuel left.
pub data Outcome {ℓ} (A : Type ℓ) : Type ℓ where
  done : A → Outcome A
  out_of_bounds : Outcome A
  no_fuel : Outcome A

-- Where a cursor stands: in a string, with that text before it, or behind the string's NUL.
pub data Cursor : Type 0 where
  at : Bytes → Cursor
  past : Cursor

unfoldable pub is_separator : ℕ → Bool
is_separator c = c == b'.' || c == b'+'

unfoldable pub skip_separators : Bytes → Bytes
unfolding is_separator
skip_separators [] = []
skip_separators (c ∷ s) = if is_separator c then skip_separators s else c ∷ s

-- One part of the string: a number, or the code of one byte. At the NUL the code is 0, and the
-- cursor moves behind it.
unfoldable pub take_part : Bytes → ℤ × Cursor
unfolding strtol_at_digit is_digit
take_part [] = (pos 0, past)
take_part (c ∷ s) =
    if is_digit c
    then (let (n, rest) = strtol_at_digit (c ∷ s) in (n, at rest))
    else (signed_char c, at s)

-- `if (*a) { … } else { a_sub = 0; }`
unfoldable pub next_part : Bytes → ℤ × Cursor
unfolding take_part skip_separators
next_part [] = (pos 0, at [])
next_part (c ∷ s) = take_part (skip_separators (c ∷ s))

-- `if (result == 0) …`: the first result that is not 0 is the answer.
unfoldable pub or_else : ℤ → Outcome ℤ → Outcome ℤ
or_else result rest = if eq_int result (pos 0) then rest else done result

-- The `while` loop. Each of its rounds takes at least one byte from a string that is not at its end.
unfoldable pub cmp_loop : ℕ → Cursor → Cursor → Outcome ℤ
cmp_loop fuel past b = out_of_bounds
cmp_loop fuel (at a) past = out_of_bounds
cmp_loop fuel (at []) (at []) = done (pos 0)
cmp_loop zero (at a) (at b) = no_fuel
cmp_loop (suc fuel) (at a) (at b) =
    let (a_sub, a') = next_part a in
    let (b_sub, b') = next_part b in or_else (cmp_ints a_sub b_sub) (cmp_loop fuel a' b')

unfoldable pub cmp_versions : Bytes → Bytes → Outcome ℤ
cmp_versions a b = cmp_loop (length a + length b) (at a) (at b)

unfoldable pub then_ints : Outcome ℤ → ℤ → Outcome ℤ
then_ints (done r) last = or_else r (done last)
then_ints out_of_bounds last = out_of_bounds
then_ints no_fuel last = no_fuel

unfoldable pub version_cmp : Bytes → Bytes → Outcome ℤ
version_cmp astr bstr =
    let a = parse_version astr in
    let b = parse_version bstr in
    or_else (cmp_ints a.epoch b.epoch)
      (then_ints (cmp_versions a.version b.version) (cmp_ints a.revision b.revision))
