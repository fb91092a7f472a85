-- ===== src/Registry/Rows.antt =====
-- What the changes of the table of the packages are for the set of the packages that are installed.
use mport.Base.{
  Bool, true, false, Bool-cases, not, ◌||◌, ◌&&◌, ◌≡◌, refl, inl, inr, List, [], ◌∷◌, ◌++◌, arith,
}
use mport.Base.Text.{Bytes, codes, str_eq, str_eq_iff, str_eq-same}
use mport.Store.{InstalledRow, without, map_rows, where_pkg}
use mport.Registry.{is_clean}

is_clean-append :
    (m : Bytes) (xs ys : List InstalledRow)
    → is_clean m (xs ++ ys) ≡ (is_clean m xs || is_clean m ys)
unfolding is_clean
is_clean-append m [] ys = refl
is_clean-append m (x ∷ xs) ys = let h = is_clean-append m xs ys in ground (arith, h)

pub is_clean-append_clean :
    (m : Bytes) (xs : List InstalledRow) (r : InstalledRow)
    → r.status ≡ codes "clean"
    → is_clean m (xs ++ r ∷ []) ≡ (str_eq r.pkg m || is_clean m xs)
unfolding is_clean
is_clean-append_clean m xs r e =
    let h = is_clean-append m xs (r ∷ []) in
    let s = (str_eq_iff r.status (codes "clean")).1 e in ground (arith, h, s)

pub is_clean-append_dirty :
    (m : Bytes) (xs : List InstalledRow) (r : InstalledRow)
    → str_eq r.status (codes "clean") ≡ false
    → is_clean m (xs ++ r ∷ []) ≡ is_clean m xs
unfolding is_clean
is_clean-append_dirty m xs r e = let h = is_clean-append m xs (r ∷ []) in ground (arith, h)

differ : (a n m : Bytes) → str_eq a n ≡ false → (str_eq a m && str_eq n m) ≡ false
differ a n m e = elim (Bool-cases (str_eq a m)) [
  | inl d ↦ elim (Bool-cases (str_eq n m)) [
    | inl c ↦ absurd (
        clash (str_eq a n) ((str_eq_iff a n).1 (cc ((str_eq_iff a m).0 d, (str_eq_iff n m).0 c))) e)
    | inr c ↦ ground (arith, c)
  ]
  | inr d ↦ ground (arith, d)
]
  where
    clash : (b : Bool) → b ≡ true → b ≡ false → ⊥
    clash b x y = ground arith

-- the row of another package, before the rest
other_row :
    (a c s k d : Bool)
    → d ≡ (not c && k)
    → (a && c) ≡ false
    → ((a && s) || d) ≡ (not c && ((a && s) || k))
other_row a c s k d e f = ground (arith, e, f)

-- the package's own row, whose test counts for nothing behind it
own_row : (a c s k d : Bool) → d ≡ (not c && k) → a ≡ c → d ≡ (not c && ((a && s) || k))
own_row a c s k d e f = ground (arith, e, f)

own_dirty :
    (a c s s' k d : Bool)
    → d ≡ (not c && k)
    → a ≡ c
    → s' ≡ false
    → ((a && s') || d) ≡ (not c && ((a && s) || k))
own_dirty a c s s' k d e f g = ground (arith, e, f, g)

pub is_clean-without :
    (m n : Bytes) (xs : List InstalledRow)
    → is_clean m (without (λ (r : InstalledRow). r.pkg) n xs) ≡ (not (str_eq n m) && is_clean m xs)
unfolding is_clean
is_clean-without m n [] = ground arith
is_clean-without m n (x ∷ xs) = elim (Bool-cases (str_eq x.pkg n)) [
  | inl e ↦ rw e (
      own_row (str_eq x.pkg m) (str_eq n m) (str_eq x.status (codes "clean")) (is_clean m xs) _
        (is_clean-without m n xs) (str_eq-same x.pkg n m e))
  | inr e ↦ rw e (
      other_row (str_eq x.pkg m) (str_eq n m) (str_eq x.status (codes "clean")) (is_clean m xs) _
        (is_clean-without m n xs) (differ x.pkg n m e))
]

pub is_clean-dirty :
    (m n : Bytes) (xs : List InstalledRow)
    → is_clean m
        (map_rows (where_pkg n (λ (r : InstalledRow). record r { status = codes "dirty" })) xs)
      ≡ (not (str_eq n m) && is_clean m xs)
unfolding is_clean str_eq
is_clean-dirty m n [] = ground arith
is_clean-dirty m n (x ∷ xs) = elim (Bool-cases (str_eq x.pkg n)) [
  | inl e ↦ rw e (
      own_dirty (str_eq x.pkg m) (str_eq n m) (str_eq x.status (codes "clean"))
        (str_eq (codes "dirty") (codes "clean")) (is_clean m xs) _ (is_clean-dirty m n xs)
        (str_eq-same x.pkg n m e) refl)
  | inr e ↦ rw e (
      other_row (str_eq x.pkg m) (str_eq n m) (str_eq x.status (codes "clean")) (is_clean m xs) _
        (is_clean-dirty m n xs) (differ x.pkg n m e))
]
