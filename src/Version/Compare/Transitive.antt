-- ===== src/Version/Compare/Transitive.antt =====
-- The order of libmport/version_cmp.c is transitive, whatever the three strings.
use mport.Base.{ℕ, zero, suc, ◌+◌, ◌≤◌, ◌≡◌, refl, [], ◌∷◌, arith, if◌then◌else◌, ◌⊎◌, inl, ap, ◌∙◌}
use mport.Base.Int.{ℤ, pos, negsuc, eq_int, neg}
use mport.Base.Text.{Bytes}
use mport.Version.Compare.{
  Outcome, done, out_of_bounds, no_fuel, Cursor, at, past, next_part, cmp_ints, cmp_loop,
  cmp_versions, or_else, then_ints, version_cmp, parse_version,
}
use mport.Version.Compare.Order.{reversed, cmp_loop_antisymm}
use mport.Version.Compare.Bounds.{room, room-next_part}

-- The result of a comparison says "not greater".
abbrev pub NotGreater : ℤ → Type 0
NotGreater r = (r ≡ pos 0) ⊎ (r ≡ negsuc 0)

-- two such results, one after the other
abbrev pub join : ℤ → ℤ → ℤ
join r s = if eq_int r (pos 0) then s else r

cmp_ints-join :
    (a b c : ℤ)
    → NotGreater (cmp_ints a b)
    → NotGreater (cmp_ints b c)
    → cmp_ints a c ≡ join (cmp_ints a b) (cmp_ints b c)
unfolding cmp_ints
cmp_ints-join (pos l) (pos m) (pos n) h k = ground arith
cmp_ints-join (pos l) (pos m) (negsuc n) h k = ground arith
cmp_ints-join (pos l) (negsuc m) (pos n) h k = ground arith
cmp_ints-join (pos l) (negsuc m) (negsuc n) h k = ground arith
cmp_ints-join (negsuc l) (pos m) (pos n) h k = ground arith
cmp_ints-join (negsuc l) (pos m) (negsuc n) h k = ground arith
cmp_ints-join (negsuc l) (negsuc m) (pos n) h k = ground arith
cmp_ints-join (negsuc l) (negsuc m) (negsuc n) h k = ground arith

-- the first result of a chain that ends "not greater", and the rest where the first is 0
or_else_inv :
    (x : ℤ) (o : Outcome ℤ) {r : ℤ}
    → or_else x o ≡ done r
    → NotGreater r
    → ((x ≡ pos 0) × (o ≡ done r)) ⊎ ((x ≡ negsuc 0) × (r ≡ negsuc 0))
unfolding or_else
or_else_inv (pos zero) o h n = inl (refl, h)
or_else_inv (pos (suc x)) o h n = ground arith
or_else_inv (negsuc x) o h n = ground arith

module _ (a b c : ℤ) (P Q R : Outcome ℤ) {r s : ℤ} where
  or_else-join :
      ((p q : ℤ) → P ≡ done p → Q ≡ done q → NotGreater p → NotGreater q → R ≡ done (join p q))
      → or_else (cmp_ints a b) P ≡ done r
      → or_else (cmp_ints b c) Q ≡ done s
      → NotGreater r
      → NotGreater s
      → or_else (cmp_ints a c) R ≡ done (join r s)
  unfolding or_else
  or_else-join rest h k nr ns = ground (
    arith,
    or_else_inv (cmp_ints a b) P h nr,
    or_else_inv (cmp_ints b c) Q k ns,
    cmp_ints-join a b c,
    rest r s,
  )

-- One round of the loop, also at the end of both strings, where another round would change nothing.
cmp_loop_round :
    (f : ℕ) (a b : Bytes) {r : ℤ}
    → cmp_loop f (at a) (at b) ≡ done r
    → (g : ℕ) × (or_else
          (cmp_ints (next_part a).0 (next_part b).0)
          (cmp_loop g (next_part a).1 (next_part b).1)
        ≡ done r)
cmp_loop_round f [] [] h = (0, unfold cmp_loop next_part cmp_ints or_else in h)
cmp_loop_round zero [] (d ∷ b) h = unfold cmp_loop in cc
cmp_loop_round zero (c ∷ a) [] h = unfold cmp_loop in cc
cmp_loop_round zero (c ∷ a) (d ∷ b) h = unfold cmp_loop in cc
cmp_loop_round (suc f) [] (d ∷ b) h = (f, unfold cmp_loop in h)
cmp_loop_round (suc f) (c ∷ a) [] h = (f, unfold cmp_loop in h)
cmp_loop_round (suc f) (c ∷ a) (d ∷ b) h = (f, unfold cmp_loop in h)

abbrev Joins : ℕ → Cursor → Cursor → Type 0
Joins n x z =
    (f g : ℕ) (y : Cursor) (r s : ℤ)
    → cmp_loop f x y ≡ done r
    → cmp_loop g y z ≡ done s
    → NotGreater r
    → NotGreater s
    → cmp_loop n x z ≡ done (join r s)

Joins-round :
    (n : ℕ) (a c : Bytes)
    → Joins n (next_part a).1 (next_part c).1
    → (f g : ℕ) (b : Bytes) (r s : ℤ) → cmp_loop f (at a) (at b) ≡ done r
    → cmp_loop g (at b) (at c) ≡ done s
    → NotGreater r
    → NotGreater s
    → or_else
        (cmp_ints (next_part a).0 (next_part c).0)
        (cmp_loop n (next_part a).1 (next_part c).1)
      ≡ done (join r s)
Joins-round n a c ih f g b r s h k nr ns =
    let (f', h') = cmp_loop_round f a b h in
    let (g', k') = cmp_loop_round g b c k in
    or_else-join (next_part a).0 (next_part b).0 (next_part c).0
      (cmp_loop f' (next_part a).1 (next_part b).1) (cmp_loop g' (next_part b).1 (next_part c).1)
      (cmp_loop n (next_part a).1 (next_part c).1) (ih f' g' (next_part b).1) h' k' nr ns

or_else_det :
    (x : ℤ) (P Q : Outcome ℤ) (r s : ℤ)
    → ((p q : ℤ) → P ≡ done p → Q ≡ done q → p ≡ q)
    → or_else x P ≡ done r
    → or_else x Q ≡ done s
    → r ≡ s
unfolding or_else
or_else_det x P Q r s same h k = ground (arith, same r s)

-- Two runs that end do not differ by their fuel.
cmp_loop_det :
    (f g : ℕ) (x y : Cursor) (r s : ℤ) → cmp_loop f x y ≡ done r → cmp_loop g x y ≡ done s → r ≡ s
unfolding cmp_loop
cmp_loop_det f g past y r s h k = cc
cmp_loop_det f g (at a) past r s h k = cc
cmp_loop_det f g (at []) (at []) r s h k = cc
cmp_loop_det zero g (at []) (at (d ∷ b)) r s h k = cc
cmp_loop_det zero g (at (c ∷ a)) (at []) r s h k = cc
cmp_loop_det zero g (at (c ∷ a)) (at (d ∷ b)) r s h k = cc
cmp_loop_det (suc f) zero (at []) (at (d ∷ b)) r s h k = cc
cmp_loop_det (suc f) zero (at (c ∷ a)) (at []) r s h k = cc
cmp_loop_det (suc f) zero (at (c ∷ a)) (at (d ∷ b)) r s h k = cc
cmp_loop_det (suc f) (suc g) (at []) (at (d ∷ b)) r s h k =
    or_else_det _ _ _ r s (cmp_loop_det f g (next_part []).1 (next_part (d ∷ b)).1) h k
cmp_loop_det (suc f) (suc g) (at (c ∷ a)) (at []) r s h k =
    or_else_det _ _ _ r s (cmp_loop_det f g (next_part (c ∷ a)).1 (next_part []).1) h k
cmp_loop_det (suc f) (suc g) (at (c ∷ a)) (at (d ∷ b)) r s h k =
    or_else_det _ _ _ r s (cmp_loop_det f g (next_part (c ∷ a)).1 (next_part (d ∷ b)).1) h k

both_empty :
    (f g : ℕ) (b : Bytes) (r s : ℤ)
    → cmp_loop f (at []) (at b) ≡ done r
    → cmp_loop g (at b) (at []) ≡ done s
    → NotGreater r
    → NotGreater s
    → done (pos 0) ≡ done (join r s)
both_empty f g b r s h k nr ns = ground (
  arith,
  cmp_loop_det f g (at []) (at b) r (neg s) h (cmp_loop_antisymm g (at b) (at []) ∙ ap reversed k),
)

cmp_loop-join : (n : ℕ) (x z : Cursor) → room x + room z ≤ n → Joins n x z
unfolding cmp_loop
cmp_loop-join n past z fits f g y r s h k nr ns = cc
cmp_loop-join n (at a) z fits f g past r s h k nr ns = cc
cmp_loop-join n (at a) past fits f g (at b) r s h k nr ns = cc
cmp_loop-join n (at []) (at []) fits f g (at b) r s h k nr ns = both_empty f g b r s h k nr ns
cmp_loop-join zero (at []) (at (d ∷ c)) fits f g (at b) r s h k nr ns = absurd (omega arith)
cmp_loop-join zero (at (e ∷ a)) (at c) fits f g (at b) r s h k nr ns = absurd (omega arith)
cmp_loop-join (suc n) (at []) (at (d ∷ c)) fits f g (at b) r s h k nr ns =
    Joins-round n [] (d ∷ c)
      (cmp_loop-join n (next_part []).1 (next_part (d ∷ c)).1
        (omega (arith, room-next_part [], room-next_part (d ∷ c))))
      f g b r s h k nr ns
cmp_loop-join (suc n) (at (e ∷ a)) (at []) fits f g (at b) r s h k nr ns =
    Joins-round n (e ∷ a) []
      (cmp_loop-join n (next_part (e ∷ a)).1 (next_part []).1
        (omega (arith, room-next_part [], room-next_part (e ∷ a))))
      f g b r s h k nr ns
cmp_loop-join (suc n) (at (e ∷ a)) (at (d ∷ c)) fits f g (at b) r s h k nr ns =
    Joins-round n (e ∷ a) (d ∷ c)
      (cmp_loop-join n (next_part (e ∷ a)).1 (next_part (d ∷ c)).1
        (omega (arith, room-next_part (d ∷ c), room-next_part (e ∷ a))))
      f g b r s h k nr ns

then_ints_inv :
    (o : Outcome ℤ) (last : ℤ) {r : ℤ}
    → then_ints o last ≡ done r
    → NotGreater r
    → (p : ℤ) × (o ≡ done p) × NotGreater p × (r ≡ join p last)
unfolding then_ints or_else
then_ints_inv (done p) last h n = (p, refl, ground arith, ground arith)
then_ints_inv out_of_bounds last h n = absurd (ground arith)
then_ints_inv no_fuel last h n = absurd (ground arith)

cmp_versions-join :
    (a b c : Bytes) (r s : ℤ)
    → cmp_versions a b ≡ done r
    → cmp_versions b c ≡ done s
    → NotGreater r
    → NotGreater s
    → cmp_versions a c ≡ done (join r s)
unfolding cmp_versions
cmp_versions-join a b c = cmp_loop-join _ (at a) (at c) (omega arith) _ _ (at b)

then_ints-join :
    (a b c : Bytes) (x y z : ℤ) (p q : ℤ)
    → then_ints (cmp_versions a b) (cmp_ints x y) ≡ done p
    → then_ints (cmp_versions b c) (cmp_ints y z) ≡ done q
    → NotGreater p
    → NotGreater q
    → then_ints (cmp_versions a c) (cmp_ints x z) ≡ done (join p q)
unfolding then_ints or_else
then_ints-join a b c x y z p q h k np nq =
    let (u, hu, nu, eu) = then_ints_inv (cmp_versions a b) (cmp_ints x y) h np in
    let (v, hv, nv, ev) = then_ints_inv (cmp_versions b c) (cmp_ints y z) k nq in
    rw (cmp_versions-join a b c u v hu hv nu nv) (ground (arith, eu, ev, cmp_ints-join x y z))

-- The order is transitive, for any three strings: where the first is not greater than the second
-- and the second not greater than the third, comparing the first with the third ends (also where
-- comparing other strings of the kind would read out of bounds), and the first is not greater; it
-- is equal to the third exactly where both results were "equal".
pub version_cmp_trans :
    (a b c : Bytes) (r s : ℤ)
    → version_cmp a b ≡ done r
    → version_cmp b c ≡ done s
    → NotGreater r
    → NotGreater s
    → version_cmp a c ≡ done (join r s)
unfolding version_cmp
version_cmp_trans a b c r s h k nr ns =
    let u = parse_version a in
    let v = parse_version b in
    let w = parse_version c in
    or_else-join u.epoch v.epoch w.epoch _ _ _
      (then_ints-join u.version v.version w.version u.revision v.revision w.revision) h k nr ns
