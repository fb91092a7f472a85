-- ===== src/AssetExec/Expanded.antt =====
-- `mport_run_asset_exec` of libmport/util.c against a plain description of the substitutions.
use mport.Base.{
  ℕ, ◌-◌, ◌<◌, Bool, true, false, Bool-cases, ◌≡◌, refl, inl, inr, Option, none, some, [], ◌∷◌,
  ◌++◌, ◌==◌, if◌then◌else◌, length, length-append, ltb, arith,
}
use mathlib.Core.Path.{sym}
use mport.Base.Text.{Bytes}
use mport.AssetExec.{Place, directive, prepend, put, expand}

unfoldable pub joined : Option Bytes → Option Bytes → Option Bytes
joined none t = none
joined (some s) none = none
joined (some s) (some t) = some (s ++ t)

-- the command, without a limit
unfoldable pub expanded : Place → Bytes → Option Bytes
expanded pl [] = some []
expanded pl (c ∷ []) = if c == b'%' then none else some (c ∷ [])
expanded pl (c ∷ d ∷ fmt) =
    if c == b'%'
    then joined (directive pl d) (expanded pl fmt)
    else joined (some (c ∷ [])) (expanded pl (d ∷ fmt))

-- the command where it fits in `max` bytes with its NUL, and what is left of `max`
unfoldable pub within : Option Bytes → ℕ → Option (Bytes × ℕ)
within none max = none
within (some s) max = if ltb (length s) max then some (s, max - length s) else none

-- a text in front of what fits behind it
prepend-within :
    (s : Bytes) (t : Option Bytes) (max : ℕ)
    → length s < max
    → prepend s (within t (max - length s)) ≡ within (joined (some s) t) max
unfolding prepend within joined
prepend-within s none max h = refl
prepend-within s (some t) max h = ground (arith, length-append s t)

too_long :
    (s : Bytes) (t : Option Bytes) (max : ℕ)
    → ltb (length s) max ≡ false
    → within (joined (some s) t) max ≡ none
unfolding within joined
too_long s none max h = refl
too_long s (some t) max h = ground (arith, length-append s t)

fits : (n max : ℕ) → ltb n max ≡ true → n < max
fits n max e = ground arith

left_over : (n max : ℕ) → n < max → 0 < max - n
left_over n max h = omega arith

prepend_eq : (s : Bytes) (x y : Option (Bytes × ℕ)) → x ≡ y → prepend s x ≡ prepend s y
prepend_eq s x y e = λ i. prepend s (e i)

if_eq {ℓ} :
    {A : Type ℓ} (b : Bool) (x y z : A)
    → (b ≡ true → x ≡ z)
    → (b ≡ false → y ≡ z)
    → (if b then x else y) ≡ z
if_eq true x y z f g = f refl
if_eq false x y z f g = g refl

put-within :
    (s t : Option Bytes) (max : ℕ) (k : ℕ → Option (Bytes × ℕ))
    → ((m : ℕ) → 0 < m → k m ≡ within t m)
    → put s max k ≡ within (joined s t) max
unfolding put within joined
put-within none t max k h = refl
put-within (some s) t max k h =
    if_eq (ltb (length s) max) (prepend s (k (max - length s))) none
      (within (joined (some s) t) max)
      (λ e. cc (
        prepend_eq s (k (max - length s)) (within t (max - length s))
            (h (max - length s) (left_over (length s) max (fits (length s) max e))),
        prepend-within s t max (fits (length s) max e),
      ))
      (λ e. sym (too_long s t max e))

-- For a limit above 0, the loop builds the expanded command where it fits in the buffer with its
-- NUL, and takes its length from the limit; otherwise its behaviour is undefined.
pub expand-within :
    (pl : Place) (fmt : Bytes) (max : ℕ)
    → 0 < max
    → expand pl fmt max ≡ within (expanded pl fmt) max
unfolding expand within expanded
expand-within pl [] max h = ground arith
expand-within pl (c ∷ []) max h = ground arith
expand-within pl (c ∷ d ∷ fmt) max h = elim (Bool-cases (c == b'%')) [
  | inl e ↦
      simp (
        e,
        put-within (directive pl d) (expanded pl fmt) max (expand pl fmt) (expand-within pl fmt),
      )
  | inr e ↦ simp (
    e,
    put-within (some (c ∷ [])) (expanded pl (d ∷ fmt)) max (expand pl (d ∷ fmt))
        (expand-within pl (d ∷ fmt)),
  )
]
