-- ===== src/Delete/Primitive/Rows.antt =====
-- What `mport_delete_primative` of libmport/delete_primative.c leaves in the tables, on success and
-- on every error.
use mport.Base.{
  Bool, Bool-cases, ◌≡◌, refl, ◌⊎◌, inl, inr, Option, none, some, List, [], ◌∷◌, if◌then◌else◌,
}
use mport.Base.Text.{Bytes, codes, str_eq}
use mport.Preconditions.{DependRow}
use mport.Store.{
  AssetRow, InstalledRow, CategoryRow, Tables, Package, Sql, begin_transaction, commit_transaction,
  mark_dirty, delete_assets, delete_depends, delete_packages, delete_categories, Host, Trace, World,
  Act, outside, changed_by, transaction, without, emit, with_trace, map_rows, where_pkg, db_do,
}
use mport.Store.Ends.{Ends, Triple, weaken, ◌then◌, At, outside-Triple, db_do-Triple}
use mport.Delete.Assets.{progress}
use mport.Delete.Primitive.{
  before_delete, delete_files, delete_rows, last_traces, after_delete, delete_primative,
}

-- the tables without the package's rows
unfoldable pub uninstalled : Bytes → Tables → Tables
uninstalled n t = record {
  assets = without (λ (r : AssetRow). r.pkg) n t.assets;
  depends = without (λ (r : DependRow). r.pkg) n t.depends;
  packages = without (λ (r : InstalledRow). r.pkg) n t.packages;
  categories = without (λ (r : CategoryRow). r.pkg) n t.categories;
}

pub without-without {ℓ} :
    {A : Type ℓ} (f : A → Bytes) (n : Bytes) (xs : List A)
    → without f n (without f n xs) ≡ without f n xs
without-without f n [] = refl
without-without f n (x ∷ xs) = elim (Bool-cases (str_eq (f x) n)) [
  | inl e ↦ simp (e, without-without f n xs)
  | inr e ↦ simp (e, without-without f n xs)
]

-- a change of the package's own row is not seen behind its removal
pub without-map_rows :
    (n : Bytes) (f : InstalledRow → InstalledRow) (xs : List InstalledRow)
    → ((r : InstalledRow) → (f r).pkg ≡ r.pkg)
    → without (λ (r : InstalledRow). r.pkg) n (map_rows (where_pkg n f) xs)
      ≡ without (λ (r : InstalledRow). r.pkg) n xs
without-map_rows n f [] h = refl
without-map_rows n f (x ∷ xs) h = elim (Bool-cases (str_eq x.pkg n)) [
  | inl e ↦ simp (e, h x, without-map_rows n f xs h)
  | inr e ↦ simp (e, without-map_rows n f xs h)
]

unfoldable pub dirty : Bytes → Tables → Tables
dirty n = changed_by (mark_dirty n)

pub uninstalled-dirty : (n : Bytes) (t : Tables) → uninstalled n (dirty n t) ≡ uninstalled n t
unfolding uninstalled dirty changed_by
uninstalled-dirty n t = λ i. record {
  assets = without (λ (r : AssetRow). r.pkg) n t.assets;
  depends = without (λ (r : DependRow). r.pkg) n t.depends;
  packages =
      without-map_rows n (λ (r : InstalledRow). record r { status = codes "dirty" }) t.packages
        (λ r. refl) i;
  categories = without (λ (r : CategoryRow). r.pkg) n t.categories;
}

-- the states in which an error leaves the tables
unfoldable pub Broken : Bytes → Tables → World → Type 0
Broken n t w = At t none w ⊎ At (dirty n t) none w ⊎ (w.saved ≡ some (dirty n t))

-- the last of the errors, with whatever tables the transaction has reached
open-Broken : (n : Bytes) (t u : Tables) (w : World) → At u (some (dirty n t)) w → Broken n t w
unfolding Broken At
open-Broken n t u w h = inr (inr h.1)

pub outside-At :
    (a : Tables → Act Trace) (t : Tables) (o : Option Tables)
    → Triple (At t o) (outside a) (At t o) (At t o)
unfolding At
outside-At a t o = outside-Triple (λ u s. (u ≡ t) × (s ≡ o)) a

open_outside :
    (n : Bytes) (t u : Tables) (a : Tables → Act Trace)
    → Triple (At u (some (dirty n t))) (outside a) (At u (some (dirty n t))) (Broken n t)
open_outside n t u a = weaken (Broken n t) (outside-At a u (some (dirty n t))) (open-Broken n t u)

open_db_do :
    (n : Bytes) (t u : Tables) (h : Host) (s : Sql)
    → transaction s u (some (dirty n t)) ≡ some (some (dirty n t))
    → Triple
        (At u (some (dirty n t)))
        (db_do h s)
        (At (changed_by s u) (some (dirty n t)))
        (Broken n t)
open_db_do n t u h s e =
    weaken (Broken n t) (db_do-Triple h s u (some (dirty n t)) (some (dirty n t)) e)
      (open-Broken n t u)

delete_rows-Triple :
    (h : Host) (p : Package) (n : Bytes) (t u : Tables)
    → Triple
        (At u (some (dirty n t)))
        (delete_rows h p)
        (At (uninstalled p.name u) (some (dirty n t)))
        (Broken n t)
unfolding delete_rows transaction changed_by uninstalled
delete_rows-Triple h p n t u =
    open_db_do n t u h (delete_assets p.name) refl
    then open_db_do n t (changed_by (delete_assets p.name) u) h (delete_depends p.name) refl
    then open_db_do n t (changed_by (delete_depends p.name) (changed_by (delete_assets p.name) u)) h
        (delete_packages p.name) refl
    then open_db_do n t
        (changed_by (delete_packages p.name)
          (changed_by (delete_depends p.name) (changed_by (delete_assets p.name) u)))
        h (delete_categories p.name) refl

-- before the transaction, with the tables as they were or with the package marked
before-Broken : (n : Bytes) (t : Tables) (w : World) → At t none w → Broken n t w
unfolding Broken
before-Broken n t w h = inl h

dirty-Broken : (n : Bytes) (t : Tables) (w : World) → At (dirty n t) none w → Broken n t w
unfolding Broken
dirty-Broken n t w h = inr (inl h)

-- the last steps cannot fail
after_delete-Triple :
    (p : Package) (s t u : Tables) (F : World → Type 0)
    → Triple (At u none) (outside (λ _. after_delete p s)) (At u none) F
unfolding outside with_trace after_delete progress emit Ends At
after_delete-Triple p s t u F = record { ends = λ w h. h }

pub delete_primative-Ends :
    (h : Host) (p : Package) (force : Bool) (w : World)
    → w.saved ≡ none
    → Ends
        (At (uninstalled p.name (dirty p.name w.tables)) none)
        (Broken p.name w.tables)
        (delete_primative h p force w)
unfolding delete_primative transaction changed_by dirty At
delete_primative-Ends h p force w e =
    (weaken (Broken n t) (outside-At (before_delete h p force) t none) (before-Broken n t)
        then weaken (Broken n t) (db_do-Triple h (mark_dirty n) t none none refl)
            (before-Broken n t)
        then weaken (Broken n t) (outside-At (delete_files h p) d none) (dirty-Broken n t)
        then weaken (Broken n t) (db_do-Triple h begin_transaction d none (some d) refl)
            (dirty-Broken n t)
        then delete_rows-Triple h p n t d
        then open_outside n t (uninstalled n d) (last_traces h p)
        then weaken (Broken n t)
            (db_do-Triple h commit_transaction (uninstalled n d) (some d) none refl)
            (open-Broken n t (uninstalled n d))
        then after_delete-Triple p t t (uninstalled n d) (Broken n t)).ends
      w (refl, e)
  where
    n : Bytes
    n = p.name

    t : Tables
    t = w.tables

    d : Tables
    d = dirty p.name w.tables
