-- ===== src/Lock/Locked.antt =====
-- What libmport/lock.c and the rows read by libmport/pkgmeta.c have to do with each other.
use mport.Base.{
  ℕ, Bool, true, false, ◌≡◌, refl, ◌⊎◌, inl, inr, some, List, [], ◌∷◌, All, ◌==◌, if◌then◌else◌,
  arith,
}
use mport.Base.Text.{Bytes, str_eq}
use mathlib.Core.Path.{sym, subst}
use mport.Db.{ok}
use mport.Store.{
  InstalledRow, Tables, Package, set_locked, Host, World, changed_by, transaction, map_rows,
  where_pkg, db_do,
}
use mport.Store.Ends.{At, db_do-Triple, ok_Ends}
use mport.Pkgmeta.{package_of}
use mport.Lock.{lock_islocked, lock_lock, lock_unlock}

-- a row of another name, or one whose package has the lock `b`
pub HasLock : Bytes → Bool → InstalledRow → Type 0
HasLock name b r = (str_eq r.pkg name ≡ false) ⊎ (lock_islocked (some (package_of r)) ≡ b)

row-HasLock :
    (name : Bytes) (k : ℕ) (x : InstalledRow) (b : Bool)
    → str_eq x.pkg name ≡ b
    → HasLock name (k == 1) (if b then record x { locked = k } else x)
unfolding HasLock lock_islocked package_of
row-HasLock name k x true e = inr refl
row-HasLock name k x false e = inl e

All-HasLock :
    (name : Bytes) (k : ℕ) (xs : List InstalledRow)
    → All
        (HasLock name (k == 1))
        (map_rows (where_pkg name (λ (r : InstalledRow). record r { locked = k })) xs)
All-HasLock name k [] = tt
All-HasLock name k (x ∷ xs) = (row-HasLock name k x (str_eq x.pkg name) refl, All-HasLock name k xs)

set_locked-ok :
    (h : Host) (k : ℕ) (name : Bytes) (w w' : World)
    → db_do h (set_locked k name) w ≡ ok w'
    → All (HasLock name (k == 1)) w'.tables.packages
unfolding transaction changed_by At
set_locked-ok h k name w w' e =
    let a =
      ok_Ends (At (changed_by (set_locked k name) w.tables) w.saved) (At w.tables w.saved)
        (db_do h (set_locked k name) w) w'
        ((db_do-Triple h (set_locked k name) w.tables w.saved w.saved refl).ends w (refl, refl))
        e in
    subst (λ (t : Tables). All (HasLock name (k == 1)) t.packages) (sym a.0)
      (All-HasLock name k w.tables.packages)

not_run : {A : Type 0} (b : Bool) (x y : A) → b ≡ false → (if b then x else y) ≡ y
not_run true x y e = absurd (ground arith)
not_run false x y e = refl

is_run : {A : Type 0} (b : Bool) (x y : A) → b ≡ true → (if b then x else y) ≡ x
is_run true x y e = refl
is_run false x y e = absurd (ground arith)

-- Where locking a package that is not locked returns MPORT_OK, every package that is read from the
-- rows of its name is locked.
pub lock_lock-HasLock :
    (h : Host) (p : Package) (w w' : World)
    → lock_islocked (some p) ≡ false
    → lock_lock h p w ≡ ok w'
    → All (HasLock p.name true) w'.tables.packages
unfolding lock_lock
lock_lock-HasLock h p w w' l e =
    set_locked-ok h 1 p.name w w'
      (cc (not_run (lock_islocked (some p)) (ok w) (db_do h (set_locked 1 p.name) w) l, e))

-- Where unlocking a locked package returns MPORT_OK, no package that is read from the rows of its
-- name is locked.
pub lock_unlock-HasLock :
    (h : Host) (p : Package) (w w' : World)
    → lock_islocked (some p) ≡ true
    → lock_unlock h p w ≡ ok w'
    → All (HasLock p.name false) w'.tables.packages
unfolding lock_unlock
lock_unlock-HasLock h p w w' l e =
    set_locked-ok h 0 p.name w w'
      (cc (is_run (lock_islocked (some p)) (db_do h (set_locked 0 p.name) w) (ok w) l, e))
