-- ===== src/Settings/RoundTrip.antt =====
-- A setting that libmport/setting.c has set is read back.
use mathlib.Core.Path.{subst}
use mport.Base.{
  true, false, Bool-cases, ◌≡◌, refl, ◌∙◌, inl, inr, Option, none, some, List, [], ◌∷◌, ◌++◌, arith,
  if◌then◌else◌,
}
use mport.Base.Text.{Bytes, str_eq, str_eq_iff, str_eq-same}
use mport.Db.{runs, Result, ok}
use mport.Settings.{
  SettingRow, setting_get, insert_setting, set_vals, update_setting, stored, set_found, setting_set,
}

-- the value that is read where SQLite runs the statement
unfoldable pub val_of : Bytes → List SettingRow → Option Bytes
unfolding setting_get
val_of n rs = setting_get runs (some n) rs

val_of-cons :
    (n : Bytes) (r : SettingRow) (rs : List SettingRow)
    → val_of n (r ∷ rs) ≡ (if str_eq r.name n then some r.val else val_of n rs)
unfolding val_of
val_of-cons n r rs = elim (Bool-cases (str_eq r.name n)) [ inl e ↦ simp e | inr e ↦ simp e ]

-- the row behind the others counts where none of them has the name
val_of-append :
    (n : Bytes) (rs : List SettingRow) (r : SettingRow)
    → str_eq r.name n ≡ true
    → val_of n rs ≡ none
    → val_of n (rs ++ r ∷ []) ≡ some r.val
val_of-append n [] r e k = rw (val_of-cons n r [], e) refl
val_of-append n (x ∷ xs) r e k = elim (Bool-cases (str_eq x.name n)) [
  | inl d ↦ absurd (none_some x.val (cc (k, first d)))
  | inr d ↦ rw (val_of-cons n x (xs ++ r ∷ []), d) (val_of-append n xs r e (cc (k, rest d)))
]
  where
    none_some : (v : Bytes) → none ≡ some v → ⊥
    none_some v q = cc

    first : str_eq x.name n ≡ true → val_of n (x ∷ xs) ≡ some x.val
    first d = rw (val_of-cons n x xs, d) refl

    rest : str_eq x.name n ≡ false → val_of n (x ∷ xs) ≡ val_of n xs
    rest d = rw (val_of-cons n x xs, d) refl

val_of-other :
    (m : Bytes) (rs : List SettingRow) (r : SettingRow)
    → str_eq r.name m ≡ false
    → val_of m (rs ++ r ∷ []) ≡ val_of m rs
val_of-other m [] r e = rw (val_of-cons m r [], e) refl
val_of-other m (x ∷ xs) r e =
    rw (val_of-cons m x (xs ++ r ∷ []), val_of-cons m x xs, val_of-other m xs r e) refl

none_val : (n u : Bytes) → val_of n [] ≡ some u → ⊥
unfolding val_of
none_val n u q = ground arith

set_vals-same :
    (n v : Bytes) (rs : List SettingRow) (old : Bytes)
    → val_of n rs ≡ some old
    → val_of n (set_vals n v rs) ≡ some v
unfolding set_vals
set_vals-same n v [] old k = absurd (none_val n old k)
set_vals-same n v (x ∷ xs) old k = elim (Bool-cases (str_eq x.name n)) [
  | inl d ↦ rw d (val_of-cons n (record x { val = v }) (set_vals n v xs) ∙ rw d refl)
  | inr d ↦
      rw d (val_of-cons n x (set_vals n v xs) ∙ rw d (set_vals-same n v xs old (cc (k, rest d))))
]
  where
    rest : str_eq x.name n ≡ false → val_of n (x ∷ xs) ≡ val_of n xs
    rest d = rw (val_of-cons n x xs, d) refl

set_vals-other :
    (m n v : Bytes) (rs : List SettingRow)
    → str_eq n m ≡ false
    → val_of m (set_vals n v rs) ≡ val_of m rs
unfolding set_vals
set_vals-other m n v [] k = refl
set_vals-other m n v (x ∷ xs) k = elim (Bool-cases (str_eq x.name n)) [
  | inl d ↦
      let c = str_eq-same x.name n m d in
      rw d (
        val_of-cons m (record x { val = v }) (set_vals n v xs)
        ∙ rw (val_of-cons m x xs, c, k, set_vals-other m n v xs k) refl)
  | inr d ↦
      rw d (
        val_of-cons m x (set_vals n v xs) ∙ rw (val_of-cons m x xs, set_vals-other m n v xs k) refl)
]

-- how a setting is set where SQLite runs all statements
ok_eq :
    (xs ys : List SettingRow) (r : Result (List SettingRow) (List SettingRow))
    → r ≡ ok xs
    → r ≡ ok ys
    → xs ≡ ys
ok_eq xs ys r e f = cc

set_ends :
    (n v : Bytes) (rs rs' : List SettingRow) (o : Option Bytes)
    → val_of n rs ≡ o
    → set_found o true (some n) (some v) rs ≡ ok rs'
    → (val_of n rs' ≡ some v) × ((m : Bytes) → str_eq n m ≡ false → val_of m rs' ≡ val_of m rs)
unfolding set_found stored insert_setting update_setting
set_ends n v rs rs' none e r =
    let q = ok_eq (rs ++ record { name = n; val = v } ∷ []) rs' _ refl r in
    (
      subst (λ (x : List SettingRow). val_of n x ≡ some v) q
          (val_of-append n rs (record { name = n; val = v }) ((str_eq_iff n n).1 refl) e),
      λ m k.
          subst (λ (x : List SettingRow). val_of m x ≡ val_of m rs) q
            (val_of-other m rs (record { name = n; val = v }) k),
    )
set_ends n v rs rs' (some old) e r =
    let q = ok_eq (set_vals n v rs) rs' _ refl r in
    (
      subst (λ (x : List SettingRow). val_of n x ≡ some v) q (set_vals-same n v rs old e),
      λ m k.
          subst (λ (x : List SettingRow). val_of m x ≡ val_of m rs) q (set_vals-other m n v rs k),
    )

-- Where SQLite runs the statements that read, a setting that was set is read back with its new value,
-- whether it was there before or not, and every other setting is read as before.
pub setting_get-setting_set :
    (n v : Bytes) (rs rs' : List SettingRow)
    → setting_set runs true (some n) (some v) rs ≡ ok rs'
    → (setting_get runs (some n) rs' ≡ some v)
      × ((m : Bytes)
          → str_eq n m ≡ false
          → setting_get runs (some m) rs' ≡ setting_get runs (some m) rs)
unfolding setting_set val_of
setting_get-setting_set n v rs rs' e = set_ends n v rs rs' (setting_get runs (some n) rs) refl e
