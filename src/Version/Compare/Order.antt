-- ===== src/Version/Compare/Order.antt =====
-- The order of libmport/version_cmp.c, whatever the two strings: it ends, and it is antisymmetric.
use mport.Base.{ℕ, zero, suc, ◌+◌, ◌≡◌, refl, [], ◌∷◌, arith, length}
use native.Mathlib.Nat.{add_comm}
use mport.Base.Int.{ℤ, pos, negsuc, neg}
use mport.Base.Text.{Bytes}
use mport.Version.Compare.{
  Outcome, done, out_of_bounds, no_fuel, Cursor, at, past, next_part, cmp_ints, cmp_loop,
  cmp_versions, or_else, then_ints, version_cmp, parse_version,
}

abbrev pub reversed : Outcome ℤ → Outcome ℤ
reversed (done r) = done (neg r)
reversed out_of_bounds = out_of_bounds
reversed no_fuel = no_fuel

pub cmp_ints_antisymm : (a b : ℤ) → cmp_ints b a ≡ neg (cmp_ints a b)
unfolding cmp_ints
cmp_ints_antisymm (pos m) (pos n) = ground arith
cmp_ints_antisymm (pos m) (negsuc n) = ground arith
cmp_ints_antisymm (negsuc m) (pos n) = ground arith
cmp_ints_antisymm (negsuc m) (negsuc n) = ground arith

or_else-reversed : (r : ℤ) (o : Outcome ℤ) → or_else (neg r) (reversed o) ≡ reversed (or_else r o)
unfolding or_else
or_else-reversed (pos zero) o = refl
or_else-reversed (pos (suc n)) o = ground arith
or_else-reversed (negsuc n) o = ground arith

step :
    (f : ℕ) (a b : Bytes)
    → ((a b : Cursor) → cmp_loop f b a ≡ reversed (cmp_loop f a b))
    → or_else
        (cmp_ints (next_part b).0 (next_part a).0)
        (cmp_loop f (next_part b).1 (next_part a).1)
      ≡ reversed (
          or_else
            (cmp_ints (next_part a).0 (next_part b).0)
            (cmp_loop f (next_part a).1 (next_part b).1))
step f a b ih =
    rw (cmp_ints_antisymm (next_part a).0 (next_part b).0, ih (next_part a).1 (next_part b).1)
      (or_else-reversed _ _)

pub cmp_loop_antisymm : (f : ℕ) (a b : Cursor) → cmp_loop f b a ≡ reversed (cmp_loop f a b)
unfolding cmp_loop
cmp_loop_antisymm f past past = refl
cmp_loop_antisymm f past (at b) = refl
cmp_loop_antisymm f (at a) past = refl
cmp_loop_antisymm f (at []) (at []) = refl
cmp_loop_antisymm zero (at []) (at (d ∷ b)) = refl
cmp_loop_antisymm zero (at (c ∷ a)) (at []) = refl
cmp_loop_antisymm zero (at (c ∷ a)) (at (d ∷ b)) = refl
cmp_loop_antisymm (suc f) (at []) (at (d ∷ b)) = step f [] (d ∷ b) (cmp_loop_antisymm f)
cmp_loop_antisymm (suc f) (at (c ∷ a)) (at []) = step f (c ∷ a) [] (cmp_loop_antisymm f)
cmp_loop_antisymm (suc f) (at (c ∷ a)) (at (d ∷ b)) = step f (c ∷ a) (d ∷ b) (cmp_loop_antisymm f)

cmp_versions_antisymm : (a b : Bytes) → cmp_versions b a ≡ reversed (cmp_versions a b)
unfolding cmp_versions
cmp_versions_antisymm a b =
    rw (add_comm (length b) (length a)) (cmp_loop_antisymm (length a + length b) (at a) (at b))

then_ints-reversed :
    (o : Outcome ℤ) (a b : ℤ)
    → then_ints (reversed o) (cmp_ints b a) ≡ reversed (then_ints o (cmp_ints a b))
unfolding then_ints
then_ints-reversed (done r) a b =
    rw (cmp_ints_antisymm a b) (or_else-reversed r (done (cmp_ints a b)))
then_ints-reversed out_of_bounds a b = refl
then_ints-reversed no_fuel a b = refl

-- Comparing the other way round reverses the result, for any two strings; where one comparison
-- reads behind the end of a string, so does the other.
pub version_cmp_antisymm : (a b : Bytes) → version_cmp b a ≡ reversed (version_cmp a b)
unfolding version_cmp
version_cmp_antisymm a b =
    let u = parse_version a in
    let v = parse_version b in
    rw
      (
        cmp_ints_antisymm u.epoch v.epoch,
        cmp_versions_antisymm u.version v.version,
        then_ints-reversed (cmp_versions u.version v.version) u.revision v.revision,
      )
      (or_else-reversed _ _)
