-- ===== src/Version/Compare/Bounds.antt =====
-- The loop of `cmp_versions` in libmport/version_cmp.c ends, and stays inside its strings where
-- no version ends in a separator.
use mport.Base.{
  ℕ, zero, suc, ◌+◌, ◌-◌, ◌*◌, ◌≤◌, ◌≡◌, ◌≢◌, refl, Bool, false, [], ◌∷◌, arith, length, Bool-cases,
  inl, inr,
}
use mport.Base.Int.{ℤ}
use mport.Base.Text.{Bytes, scan_digits, strtol_at_digit}
use mport.Version.Compare.{
  Outcome, done, out_of_bounds, no_fuel, Cursor, at, past, is_separator, skip_separators, take_part,
  next_part, cmp_loop, cmp_versions, or_else, then_ints, version_cmp, parse_version,
}

-- the number of bytes before a cursor
abbrev pub room : Cursor → ℕ
room (at s) = length s
room past = 0

length-scan_digits : (n : ℕ) (s : Bytes) → length (scan_digits n s).1 ≤ length s
unfolding scan_digits
length-scan_digits n [] = omega arith
length-scan_digits n (c ∷ s) = ground (arith, length-scan_digits (n * 10 + (c - b'0')) s)

room-take_part : (s : Bytes) → room (take_part s).1 ≤ length s - 1
unfolding take_part strtol_at_digit scan_digits
room-take_part [] = omega arith
room-take_part (c ∷ s) = ground (arith, length-scan_digits (0 * 10 + (c - b'0')) s)

length-skip_separators : (s : Bytes) → length (skip_separators s) ≤ length s
unfolding skip_separators
length-skip_separators [] = omega arith
length-skip_separators (c ∷ s) = ground (arith, length-skip_separators s)

pub room-next_part : (s : Bytes) → room (next_part s).1 ≤ length s - 1
unfolding next_part
room-next_part [] = omega arith
room-next_part (c ∷ s) =
    omega (arith, room-take_part (skip_separators (c ∷ s)), length-skip_separators (c ∷ s))

or_else-ne-no_fuel : (r : ℤ) (o : Outcome ℤ) → o ≢ no_fuel → or_else r o ≢ no_fuel
unfolding or_else
or_else-ne-no_fuel r o h = ground arith

cmp_loop-ne-no_fuel : (f : ℕ) (a b : Cursor) → room a + room b ≤ f → cmp_loop f a b ≢ no_fuel
unfolding cmp_loop
cmp_loop-ne-no_fuel f past b h = cc
cmp_loop-ne-no_fuel f (at a) past h = cc
cmp_loop-ne-no_fuel f (at []) (at []) h = cc
cmp_loop-ne-no_fuel zero (at []) (at (d ∷ b)) h = absurd (omega arith)
cmp_loop-ne-no_fuel zero (at (c ∷ a)) (at b) h = absurd (omega arith)
cmp_loop-ne-no_fuel (suc f) (at []) (at (d ∷ b)) h = or_else-ne-no_fuel _ _ (
    cmp_loop-ne-no_fuel f (next_part []).1 (next_part (d ∷ b)).1
      (omega (arith, room-next_part [], room-next_part (d ∷ b))))
cmp_loop-ne-no_fuel (suc f) (at (c ∷ a)) (at []) h = or_else-ne-no_fuel _ _ (
    cmp_loop-ne-no_fuel f (next_part (c ∷ a)).1 (next_part []).1
      (omega (arith, room-next_part [], room-next_part (c ∷ a))))
cmp_loop-ne-no_fuel (suc f) (at (c ∷ a)) (at (d ∷ b)) h = or_else-ne-no_fuel _ _ (
    cmp_loop-ne-no_fuel f (next_part (c ∷ a)).1 (next_part (d ∷ b)).1
      (omega (arith, room-next_part (c ∷ a), room-next_part (d ∷ b))))

-- the last byte is a separator
abbrev pub ends_in_separator : Bytes → Bool
ends_in_separator [] = false
ends_in_separator (c ∷ []) = is_separator c
ends_in_separator (c ∷ d ∷ s) = ends_in_separator (d ∷ s)

abbrev pub IsInside : Cursor → Type 0
IsInside (at s) = ends_in_separator s ≡ false
IsInside past = ⊥

tail_inside : (c : ℕ) (s : Bytes) → ends_in_separator (c ∷ s) ≡ false → ends_in_separator s ≡ false
tail_inside c [] h = refl
tail_inside c (d ∷ s) h = h

scan_digits_inside :
    (n : ℕ) (s : Bytes)
    → ends_in_separator s ≡ false
    → ends_in_separator (scan_digits n s).1 ≡ false
unfolding scan_digits
scan_digits_inside n [] h = refl
scan_digits_inside n (c ∷ s) h =
    ground (arith, scan_digits_inside (n * 10 + (c - b'0')) s (tail_inside c s h))

take_part-IsInside :
    (c : ℕ) (s : Bytes) → ends_in_separator (c ∷ s) ≡ false → IsInside (take_part (c ∷ s)).1
unfolding take_part strtol_at_digit scan_digits
take_part-IsInside c s h =
    ground
      (arith, tail_inside c s h, scan_digits_inside (0 * 10 + (c - b'0')) s (tail_inside c s h))

take_part-skip_separators :
    (c : ℕ) (s : Bytes)
    → ends_in_separator (c ∷ s) ≡ false
    → IsInside (take_part (skip_separators (c ∷ s))).1
unfolding skip_separators
take_part-skip_separators c [] h = rw h (take_part-IsInside c [] h)
take_part-skip_separators c (d ∷ s) h = elim (Bool-cases (is_separator c)) [
  | inl e ↦ rw e (take_part-skip_separators d s h)
  | inr e ↦ rw e (take_part-IsInside c (d ∷ s) h)
]

next_part-IsInside : (s : Bytes) → ends_in_separator s ≡ false → IsInside (next_part s).1
unfolding next_part
next_part-IsInside [] h = refl
next_part-IsInside (c ∷ s) h = take_part-skip_separators c s h

or_else-ne-out_of_bounds : (r : ℤ) (o : Outcome ℤ) → o ≢ out_of_bounds → or_else r o ≢ out_of_bounds
unfolding or_else
or_else-ne-out_of_bounds r o h = ground arith

cmp_loop-ne-out_of_bounds :
    (f : ℕ) (a b : Cursor) → IsInside a → IsInside b → cmp_loop f a b ≢ out_of_bounds
unfolding cmp_loop
cmp_loop-ne-out_of_bounds f past b ha hb = absurd ha
cmp_loop-ne-out_of_bounds f (at a) past ha hb = absurd hb
cmp_loop-ne-out_of_bounds f (at []) (at []) ha hb = cc
cmp_loop-ne-out_of_bounds zero (at []) (at (d ∷ b)) ha hb = cc
cmp_loop-ne-out_of_bounds zero (at (c ∷ a)) (at []) ha hb = cc
cmp_loop-ne-out_of_bounds zero (at (c ∷ a)) (at (d ∷ b)) ha hb = cc
cmp_loop-ne-out_of_bounds (suc f) (at []) (at (d ∷ b)) ha hb = or_else-ne-out_of_bounds _ _ (
    cmp_loop-ne-out_of_bounds f (next_part []).1 (next_part (d ∷ b)).1 (next_part-IsInside [] ha)
      (next_part-IsInside (d ∷ b) hb))
cmp_loop-ne-out_of_bounds (suc f) (at (c ∷ a)) (at []) ha hb = or_else-ne-out_of_bounds _ _ (
    cmp_loop-ne-out_of_bounds f (next_part (c ∷ a)).1 (next_part []).1
      (next_part-IsInside (c ∷ a) ha) (next_part-IsInside [] hb))
cmp_loop-ne-out_of_bounds (suc f) (at (c ∷ a)) (at (d ∷ b)) ha hb = or_else-ne-out_of_bounds _ _ (
    cmp_loop-ne-out_of_bounds f (next_part (c ∷ a)).1 (next_part (d ∷ b)).1
      (next_part-IsInside (c ∷ a) ha) (next_part-IsInside (d ∷ b) hb))

done_of_ne : (o : Outcome ℤ) → o ≢ no_fuel → o ≢ out_of_bounds → (r : ℤ) × (o ≡ done r)
done_of_ne (done r) h k = (r, refl)
done_of_ne out_of_bounds h k = absurd (k refl)
done_of_ne no_fuel h k = absurd (h refl)

then_ints-ne-no_fuel : (o : Outcome ℤ) (last : ℤ) → o ≢ no_fuel → then_ints o last ≢ no_fuel
unfolding then_ints
then_ints-ne-no_fuel (done r) last h = or_else-ne-no_fuel r (done last) (cc)
then_ints-ne-no_fuel out_of_bounds last h = cc
then_ints-ne-no_fuel no_fuel last h = absurd (h refl)

then_ints-ne-out_of_bounds :
    (o : Outcome ℤ) (last : ℤ) → o ≢ out_of_bounds → then_ints o last ≢ out_of_bounds
unfolding then_ints
then_ints-ne-out_of_bounds (done r) last h = or_else-ne-out_of_bounds r (done last) (cc)
then_ints-ne-out_of_bounds out_of_bounds last h = absurd (h refl)
then_ints-ne-out_of_bounds no_fuel last h = cc

-- The comparison of any two strings ends: the fuel, one round for each byte, is enough.
pub version_cmp-ne-no_fuel : (a b : Bytes) → version_cmp a b ≢ no_fuel
unfolding version_cmp cmp_versions
version_cmp-ne-no_fuel a b =
    let u = (parse_version a).version in
    let v = (parse_version b).version in
    or_else-ne-no_fuel _ _ (
      then_ints-ne-no_fuel _ _
        (cmp_loop-ne-no_fuel (length u + length v) (at u) (at v) (omega arith)))

version_cmp-ne-out_of_bounds :
    (a b : Bytes)
    → ends_in_separator (parse_version a).version ≡ false
    → ends_in_separator (parse_version b).version ≡ false
    → version_cmp a b ≢ out_of_bounds
unfolding version_cmp cmp_versions
version_cmp-ne-out_of_bounds a b ha hb =
    or_else-ne-out_of_bounds _ _
      (then_ints-ne-out_of_bounds _ _ (cmp_loop-ne-out_of_bounds _ (at _) (at _) ha hb))

-- The comparison ends with a result, and reads no byte behind the end of a string, where neither
-- version (the text before `_` and `,`) ends in `.` or `+`.
pub version_cmp_total :
    (a b : Bytes)
    → ends_in_separator (parse_version a).version ≡ false
    → ends_in_separator (parse_version b).version ≡ false
    → (r : ℤ) × (version_cmp a b ≡ done r)
version_cmp_total a b ha hb =
    done_of_ne (version_cmp a b) (version_cmp-ne-no_fuel a b)
      (version_cmp-ne-out_of_bounds a b ha hb)
