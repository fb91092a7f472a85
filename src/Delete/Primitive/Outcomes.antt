-- ===== src/Delete/Primitive/Outcomes.antt =====
-- What a call of `mport_delete_primative` of libmport/delete_primative.c guarantees.
use mport.Base.{Bool, ◌≡◌, ◌⊎◌, inl, inr, none}
use mport.Base.Text.{Bytes}
use mport.Db.{ok, err}
use mport.Store.{Tables, Package, mark_dirty, Host, World, Why, changed_by}
use mport.Store.Ends.{At, durable, rolled_back, ok_Ends, err_Ends}
use mport.Delete.Primitive.{delete_primative}
use mport.Delete.Primitive.Rows.{
  uninstalled, dirty, uninstalled-dirty, Broken, delete_primative-Ends,
}

-- Where no transaction is open and the deletion returns MPORT_OK, the tables are those before it
-- without the package's assets, dependencies, row and categories, and no transaction is open.
pub delete_primative-ok :
    (h : Host) (p : Package) (force : Bool) (w w' : World)
    → w.saved ≡ none
    → delete_primative h p force w ≡ ok w'
    → (w'.tables ≡ uninstalled p.name w.tables) × (w'.saved ≡ none)
unfolding At
delete_primative-ok h p force w w' e r =
    let (ht, hs) =
      ok_Ends (At (uninstalled p.name (dirty p.name w.tables)) none) (Broken p.name w.tables)
        (delete_primative h p force w) w' (delete_primative-Ends h p force w e) r in
    (cc (ht, uninstalled-dirty p.name w.tables), hs)

Broken-durable :
    (n : Bytes) (t : Tables) (w : World)
    → Broken n t w
    → (durable w ≡ t) ⊎ (durable w ≡ changed_by (mark_dirty n) t)
unfolding Broken At dirty durable rolled_back
Broken-durable n t w (inl (ht, hs)) = inl (simp (hs, ht))
Broken-durable n t w (inr (inl (ht, hs))) = inr (simp (hs, ht))
Broken-durable n t w (inr (inr hs)) = inr (simp hs)

-- Where no transaction is open and the deletion ends with an error, a rollback leaves the tables as
-- they were before it, but for the status of the package, which may be dirty.
pub delete_primative-err :
    (h : Host) (p : Package) (force : Bool) (w w' : World) (why : Why)
    → w.saved ≡ none
    → delete_primative h p force w ≡ err (why, w')
    → (durable w' ≡ w.tables) ⊎ (durable w' ≡ changed_by (mark_dirty p.name) w.tables)
delete_primative-err h p force w w' why e r = Broken-durable p.name w.tables w' (
    err_Ends (At (uninstalled p.name (dirty p.name w.tables)) none) (Broken p.name w.tables)
      (delete_primative h p force w) why w' (delete_primative-Ends h p force w e) r)
