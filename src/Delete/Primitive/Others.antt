-- ===== src/Delete/Primitive/Others.antt =====
-- `mport_delete_primative` of libmport/delete_primative.c touches no row of another package.
use mport.Base.{Bool, if◌then◌else◌, ◌≡◌, refl}
use mport.Base.Text.{Bytes}
use mport.Preconditions.{DependRow}
use mport.Store.{
  AssetRow, InstalledRow, CategoryRow, Tables, Package, Sql, begin_transaction, commit_transaction,
  mark_dirty, delete_assets, delete_depends, delete_packages, delete_categories, Host, Trace, World,
  Act, outside, changed_by, db_do,
}
use mport.Store.Ends.{Ends, Triple, ◌then◌, outside-Triple, db_do-Keeps}
use mport.Delete.Primitive.{
  before_delete, delete_files, delete_rows, last_traces, after_delete, delete_primative,
}
use mport.Delete.Primitive.Rows.{uninstalled, dirty, uninstalled-dirty, without-without}

-- the tables without the rows of `n` are `r`
Rest : Bytes → Tables → Tables → Type 0
Rest n r t = uninstalled n t ≡ r

uninstalled-delete_assets :
    (n : Bytes) (t : Tables) → uninstalled n (changed_by (delete_assets n) t) ≡ uninstalled n t
unfolding uninstalled changed_by
uninstalled-delete_assets n t = λ i. record (uninstalled n t) {
  assets = without-without (λ (r : AssetRow). r.pkg) n t.assets i;
}

uninstalled-delete_depends :
    (n : Bytes) (t : Tables) → uninstalled n (changed_by (delete_depends n) t) ≡ uninstalled n t
unfolding uninstalled changed_by
uninstalled-delete_depends n t = λ i. record (uninstalled n t) {
  depends = without-without (λ (r : DependRow). r.pkg) n t.depends i;
}

uninstalled-delete_packages :
    (n : Bytes) (t : Tables) → uninstalled n (changed_by (delete_packages n) t) ≡ uninstalled n t
unfolding uninstalled changed_by
uninstalled-delete_packages n t = λ i. record (uninstalled n t) {
  packages = without-without (λ (r : InstalledRow). r.pkg) n t.packages i;
}

uninstalled-delete_categories :
    (n : Bytes) (t : Tables) → uninstalled n (changed_by (delete_categories n) t) ≡ uninstalled n t
unfolding uninstalled changed_by
uninstalled-delete_categories n t = λ i. record (uninstalled n t) {
  categories = without-without (λ (r : CategoryRow). r.pkg) n t.categories i;
}

-- a statement that keeps the rest of the tables
keeps :
    (h : Host) (s : Sql) (n : Bytes) (r : Tables)
    → ((t : Tables) → uninstalled n (changed_by s t) ≡ uninstalled n t)
    → Triple (λ w. Rest n r w.tables) (db_do h s) (λ w. Rest n r w.tables) (λ w. Rest n r w.tables)
unfolding Rest
keeps h s n r f = db_do-Keeps (λ t. uninstalled n t ≡ r) h s (λ t e. cc (f t, e))

outside_keeps :
    (a : Tables → Act Trace) (n : Bytes) (r : Tables)
    → Triple (λ w. Rest n r w.tables) (outside a) (λ w. Rest n r w.tables) (λ w. Rest n r w.tables)
outside_keeps a n r = outside-Triple (λ t o. Rest n r t) a

delete_primative-Rest :
    (h : Host) (p : Package) (force : Bool) (w : World)
    → Ends
        (λ v. Rest p.name (uninstalled p.name w.tables) v.tables)
        (λ v. Rest p.name (uninstalled p.name w.tables) v.tables)
        (delete_primative h p force w)
unfolding delete_primative delete_rows changed_by Rest dirty
delete_primative-Rest h p force w =
    (outside_keeps (before_delete h p force) n r
        then keeps h (mark_dirty n) n r (uninstalled-dirty n)
        then outside_keeps (delete_files h p) n r
        then keeps h begin_transaction n r (λ t. refl)
        then (keeps h (delete_assets n) n r (uninstalled-delete_assets n)
            then keeps h (delete_depends n) n r (uninstalled-delete_depends n)
            then keeps h (delete_packages n) n r (uninstalled-delete_packages n)
            then keeps h (delete_categories n) n r (uninstalled-delete_categories n))
        then outside_keeps (last_traces h p) n r
        then keeps h commit_transaction n r (λ t. refl)
        then outside_keeps (λ _. after_delete p w.tables) n r).ends
      w refl
  where
    n : Bytes
    n = p.name

    r : Tables
    r = uninstalled p.name w.tables

-- However the deletion ends, with MPORT_OK or an error, and whether a transaction was open or not,
-- the rows of all other packages in the four tables are those before it.
pub delete_primative-others :
    (h : Host) (p : Package) (force : Bool) (w : World)
    → Ends
        (λ v. uninstalled p.name v.tables ≡ uninstalled p.name w.tables)
        (λ v. uninstalled p.name v.tables ≡ uninstalled p.name w.tables)
        (delete_primative h p force w)
unfolding Rest
delete_primative-others h p force w = delete_primative-Rest h p force w
