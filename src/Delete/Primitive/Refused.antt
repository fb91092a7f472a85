-- ===== src/Delete/Primitive/Refused.antt =====
-- When `mport_delete_primative` of libmport/delete_primative.c refuses: a locked package, and a
-- transaction that is still open.
use mport.Base.{Bool, true, false, if◌then◌else◌, ◌≡◌, refl, some, arith}
use mport.Db.{ok, err}
use mport.Store.{
  Tables, Package, begin_transaction, mark_dirty, Host, Trace, World, outside, changed_by,
  transaction, locked_package, nothing, emit, started, stopped_service,
}
use mport.Store.Ends.{
  Ends, Triple, weaken, ◌then◌, At, any_Triple, outside-never, bind-Ends, db_do-Triple,
  db_do-refused,
}
use mport.Delete.Commands.{check_for_upwards_depends}
use mport.Lock.{lock_islocked}
use mport.Delete.Primitive.{
  before_delete, delete_files, delete_primative, refuse_locked, count_assets,
}
use mport.Delete.Primitive.Rows.{outside-At}

if_true :
    (b : Bool) (t : Trace)
    → b ≡ true
    → Ends (λ _. ⊥) (λ _. Unit {0}) (if b then err (locked_package, t) else ok t)
unfolding Ends
if_true true t e = tt
if_true false t e = absurd (ground arith)

refuse_locked-Triple :
    (p : Package)
    → lock_islocked (some p) ≡ true
    → Triple (λ _. Unit {0}) (refuse_locked p) (λ _. ⊥) (λ _. Unit {0})
unfolding refuse_locked
refuse_locked-Triple p e = record { ends = λ t _. if_true (lock_islocked (some p)) t e }

before_delete-locked :
    (h : Host) (p : Package) (force : Bool)
    → lock_islocked (some p) ≡ true
    → (t : Tables) → Triple (λ _. Unit {0}) (before_delete h p force t) (λ _. ⊥) (λ _. Unit {0})
unfolding before_delete
before_delete-locked h p force e t =
    any_Triple (if force then nothing else check_for_upwards_depends h p t)
    then any_Triple (emit started)
    then any_Triple (emit stopped_service)
    then any_Triple (count_assets h p t)
    then refuse_locked-Triple p e

-- A locked package is not deleted, forced or not: the call never returns MPORT_OK, and an error
-- leaves the tables and the transaction as they were.
pub delete_primative-locked :
    (h : Host) (p : Package) (force : Bool) (w : World)
    → lock_islocked (some p) ≡ true
    → Ends (λ _. ⊥) (At w.tables w.saved) (delete_primative h p force w)
unfolding delete_primative
delete_primative-locked h p force w e =
    bind-Ends (λ _. ⊥) (λ _. ⊥) (At w.tables w.saved) (outside (before_delete h p force) w) _
      (outside-never (before_delete h p force) w (before_delete-locked h p force e))
      (record { ends = λ s bottom. absurd bottom })

saved_At : (t s : Tables) (v : World) → At t (some s) v → v.saved ≡ some s
unfolding At
saved_At t s v h = h.1

At-start : (w : World) (s : Tables) → w.saved ≡ some s → At w.tables (some s) w
unfolding At
At-start w s e = (refl, e)

-- No deletion succeeds while a transaction is open, and it leaves the transaction open.
pub delete_primative-in_transaction :
    (h : Host) (p : Package) (force : Bool) (w : World) (s : Tables)
    → w.saved ≡ some s
    → Ends (λ _. ⊥) (λ v. v.saved ≡ some s) (delete_primative h p force w)
unfolding delete_primative transaction
delete_primative-in_transaction h p force w s e =
    (weaken (λ v. v.saved ≡ some s) (outside-At (before_delete h p force) t (some s))
          (λ v a. saved_At t s v a)
        then weaken (λ v. v.saved ≡ some s)
            (db_do-Triple h (mark_dirty p.name) t (some s) (some s) refl) (λ v a. saved_At t s v a)
        then weaken (λ v. v.saved ≡ some s) (outside-At (delete_files h p) d (some s))
            (λ v a. saved_At d s v a)
        then weaken (λ v. v.saved ≡ some s) (db_do-refused h begin_transaction d (some s) refl)
            (λ v a. saved_At d s v a)
        then record { ends = λ v bottom. absurd bottom }).ends
      w (At-start w s e)
  where
    t : Tables
    t = w.tables

    d : Tables
    d = changed_by (mark_dirty p.name) w.tables
