-- ===== src/Autoremove/Loop.antt =====
-- The loop of `mport_autoremove` in libmport/autoremove.c that deletes the packages which need an
-- automatic one.
use mport.Base.{
  ℕ, zero, suc, Bool, true, false, ◌||◌, Bool-cases, Option-cases, ◌≡◌, ◌≢◌, refl, ◌⊎◌, inl, inr,
  none, some, List, [], ◌∷◌, arith,
}
use mport.Db.{Result, ok, err, undefined}
use mport.Store.{Tables, Package, Host, World, Why}
use mport.Store.Ends.{Ends, At, ok_Ends, err_Ends}
use mport.Lock.{lock_islocked}
use mport.Delete.Primitive.{delete_primative}
use mport.Delete.Primitive.Rows.{uninstalled}
use mport.Delete.Primitive.Outcomes.{delete_primative-ok}
use mport.Delete.Primitive.Refused.{delete_primative-locked, delete_primative-in_transaction}
use mport.Delete.Primitive.Others.{delete_primative-others}
use mport.Autoremove.{Run, finishes, again, remove_all}

unfoldable pub any_locked : List Package → Bool
any_locked [] = false
any_locked (p ∷ ps) = lock_islocked (some p) || any_locked ps

-- the tables without the rows of all of the packages
unfoldable pub all_uninstalled : List Package → Tables → Tables
all_uninstalled [] t = t
all_uninstalled (p ∷ ps) t = all_uninstalled ps (uninstalled p.name t)

-- a turn that ends well has deleted the package, or tries it again
again-finishes :
    (r : Result (Why × World) World) (f g : World → Run) (w : World)
    → again r f g ≡ finishes w
    → ((v : World) × (r ≡ ok v) × (f v ≡ finishes w))
      ⊎ ((why : Why) × (v : World) × (r ≡ err (why, v)) × (g v ≡ finishes w))
unfolding again
again-finishes (ok v) f g w e = inl (v, refl, e)
again-finishes (err (why, v)) f g w e = inr (why, v, refl, e)
again-finishes undefined f g w e = absurd (ground arith)

-- a result that is never MPORT_OK
never_ok :
    (E : World → Type 0) (r : Result (Why × World) World) (v : World) → Ends (λ _. ⊥) E r → r ≢ ok v
never_ok E r v h e = ok_Ends (λ _. ⊥) E r v h e

or_rest : (b c : Bool) → (b || c) ≡ true → b ≡ false → c ≡ true
or_rest b c e f = ground arith

-- Where one of the packages is locked, the loop never finishes, whatever the fuel.
pub remove_all-locked :
    (fuel : ℕ) (h : Host) (ps : List Package) (w w' : World)
    → any_locked ps ≡ true
    → remove_all fuel h ps w ≢ finishes w'
unfolding any_locked remove_all
remove_all-locked zero h ps w w' e r = absurd (ground arith)
remove_all-locked (suc fuel) h [] w w' e r = absurd (ground arith)
remove_all-locked (suc fuel) h (p ∷ ps) w w' e r =
    elim (again-finishes (delete_primative h p true w) (remove_all fuel h ps)
      (remove_all fuel h (p ∷ ps)) w' r) [
        | inl (v, d, f) ↦ elim (Bool-cases (lock_islocked (some p))) [
          | inl l ↦
              never_ok (At w.tables w.saved) (delete_primative h p true w) v
                (delete_primative-locked h p true w l) d
          | inr l ↦
              remove_all-locked fuel h ps v w'
                (or_rest (lock_islocked (some p)) (any_locked ps) e l) f
        ]
        | inr (why, v, d, g) ↦ remove_all-locked fuel h (p ∷ ps) v w' e g
      ]

remove_all-in_transaction :
    (fuel : ℕ) (h : Host) (p : Package) (ps : List Package) (w w' : World) (s : Tables)
    → w.saved ≡ some s
    → remove_all fuel h (p ∷ ps) w ≢ finishes w'
unfolding remove_all
remove_all-in_transaction zero h p ps w w' s e r = absurd (ground arith)
remove_all-in_transaction (suc fuel) h p ps w w' s e r =
    elim (again-finishes (delete_primative h p true w) (remove_all fuel h ps)
      (remove_all fuel h (p ∷ ps)) w' r) [
        | inl (v, d, f) ↦
            never_ok (λ v. v.saved ≡ some s) (delete_primative h p true w) v
              (delete_primative-in_transaction h p true w s e) d
        | inr (why, v, d, g) ↦
            remove_all-in_transaction fuel h p ps v w' s
              (err_Ends (λ _. ⊥) (λ v. v.saved ≡ some s) (delete_primative h p true w) why v
                (delete_primative-in_transaction h p true w s e) d)
              g
      ]

uninstalled_after_err :
    (h : Host) (p : Package) (w v : World) (why : Why)
    → delete_primative h p true w ≡ err (why, v)
    → uninstalled p.name v.tables ≡ uninstalled p.name w.tables
uninstalled_after_err h p w v why d =
    err_Ends (λ u. uninstalled p.name u.tables ≡ uninstalled p.name w.tables)
      (λ u. uninstalled p.name u.tables ≡ uninstalled p.name w.tables) (delete_primative h p true w)
      why v (delete_primative-others h p true w) d

-- Where no transaction is open and the loop ends, the tables are those before it without the rows
-- of all of its packages, whatever attempts failed in between, and no transaction is open.
pub remove_all-finishes :
    (fuel : ℕ) (h : Host) (ps : List Package) (w w' : World)
    → w.saved ≡ none
    → remove_all fuel h ps w ≡ finishes w'
    → (w'.tables ≡ all_uninstalled ps w.tables) × (w'.saved ≡ none)
unfolding all_uninstalled remove_all
remove_all-finishes zero h ps w w' s r = absurd (ground arith)
remove_all-finishes (suc fuel) h [] w w' s r = (cc r, cc (r, s))
remove_all-finishes (suc fuel) h (p ∷ ps) w w' s r =
    elim (again-finishes (delete_primative h p true w) (remove_all fuel h ps)
      (remove_all fuel h (p ∷ ps)) w' r) [
        | inl (v, d, f) ↦
            let (ht, hs) = delete_primative-ok h p true w v s d in
            let (gt, gs) = remove_all-finishes fuel h ps v w' hs f in (cc (gt, ht), gs)
        | inr (why, v, d, g) ↦ elim (Option-cases v.saved) [
          | inl hs ↦
              let (gt, gs) = remove_all-finishes fuel h (p ∷ ps) v w' hs g in
              (cc (gt, uninstalled_after_err h p w v why d), gs)
          | inr (s', hs) ↦ absurd (remove_all-in_transaction fuel h p ps v w' s' hs g)
        ]
      ]
