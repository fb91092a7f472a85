-- ===== src/Install/Primitive/Others.antt =====
-- `mport_bundle_read_install_pkg` of libmport/bundle_read_install_pkg.c touches no row of another
-- package.
use mport.Base.{
  ℕ, Bool, true, false, Bool-cases, ◌≡◌, refl, inl, inr, Option, none, some, List, [], ◌∷◌, ◌++◌,
  append-nil, if◌then◌else◌, ◌∙◌,
}
use mport.Base.Text.{Bytes, codes, str_eq, str_eq_iff}
use mport.Db.{ok, err, undefined, Result}
use mport.Plist.Command.{Entry, dir, dirrm, dirrmtry}
use mport.Preconditions.{DependRow, filter_rows}
use mport.Store.{
  AssetRow, InstalledRow, CategoryRow, Tables, Package, Sql, begin_transaction, commit_transaction,
  insert_package, insert_depends, insert_categories, insert_asset, mark_clean, Host, Trace, World,
  Why, Act, outside, changed_by, without, new_row, db_do, nothing, ◌and_then◌,
}
use mport.Store.Ends.{Ends, Triple, ◌then◌, outside-Triple, db_do-Keeps}
use mport.Delete.Primitive.Rows.{uninstalled, without-map_rows}
use mport.Delete.{of_types}
use mport.Install.{
  Bundle, Spot, spot_after, without_root, bare_row, file_row, path_row, row_of, file_types,
}
use mport.Install.Primitive.{
  whatever, insert_row, install_asset, install_assets, bundle_depends, bundle_categories,
  create_rows, install_rows, do_actual_install, do_post_install, bundle_read_install_pkg,
}
use mport.Install.Primitive.Transaction.{current_error-Keeps}

without-append {ℓ} :
    {A : Type ℓ} (f : A → Bytes) (n : Bytes) (xs ys : List A)
    → without f n (xs ++ ys) ≡ without f n xs ++ without f n ys
without-append f n [] ys = refl
without-append f n (x ∷ xs) ys = elim (Bool-cases (str_eq (f x) n)) [
  | inl e ↦ simp (e, without-append f n xs ys)
  | inr e ↦ simp (e, without-append f n xs ys)
]

-- rows that are the package's own
unfoldable pub Own {ℓ} : {A : Type ℓ} → (A → Bytes) → Bytes → List A → Type 0
Own f n [] = Unit
Own f n (x ∷ xs) = (str_eq (f x) n ≡ true) × Own f n xs

without-Own {ℓ} :
    {A : Type ℓ} (f : A → Bytes) (n : Bytes) (xs : List A) → Own f n xs → without f n xs ≡ []
unfolding Own
without-Own f n [] k = refl
without-Own f n (x ∷ xs) (k, ks) = simp (k, without-Own f n xs ks)

pub without-append_Own {ℓ} :
    {A : Type ℓ} (f : A → Bytes) (n : Bytes) (xs ys : List A)
    → Own f n ys
    → without f n (xs ++ ys) ≡ without f n xs
without-append_Own f n xs ys k =
    without-append f n xs ys
    ∙ (λ i. without f n xs ++ without-Own f n ys k i)
    ∙ append-nil (without f n xs)

pub filter-Own {ℓ} :
    {A : Type ℓ} (f : A → Bytes) (n : Bytes) (xs : List A)
    → Own f n (filter_rows (λ a. str_eq (f a) n) xs)
unfolding Own
filter-Own f n [] = tt
filter-Own f n (x ∷ xs) = elim (Bool-cases (str_eq (f x) n)) [
  | inl e ↦ rw e (e, filter-Own f n xs)
  | inr e ↦ rw e (filter-Own f n xs)
]

pub same_name : (n : Bytes) → str_eq n n ≡ true
same_name n = (str_eq_iff n n).1 refl

-- a row that is the package's own, if there is one
unfoldable pub OwnRow : Bytes → Option AssetRow → Type 0
OwnRow n none = Unit
OwnRow n (some r) = str_eq r.pkg n ≡ true

file_row-OwnRow : (n : Bytes) (e : Entry) (o : Option Bytes) → OwnRow n (file_row n e o)
unfolding file_row bare_row OwnRow
file_row-OwnRow n e none = tt
file_row-OwnRow n e (some path) = same_name n

path_row-OwnRow : (root n : Bytes) (e : Entry) (o : Option Bytes) → OwnRow n (path_row root n e o)
unfolding path_row OwnRow
path_row-OwnRow root n e none = tt
path_row-OwnRow root n e (some path) = file_row-OwnRow n e (without_root root path)

if_OwnRow :
    (n : Bytes) (c : Bool) (x y : Option AssetRow)
    → OwnRow n x
    → OwnRow n y
    → OwnRow n (if c then x else y)
if_OwnRow n true x y f g = f
if_OwnRow n false x y f g = g

bare_row-OwnRow : (n : Bytes) (e : Entry) (o : Option Bytes) → OwnRow n (some (bare_row n e o))
unfolding bare_row OwnRow
bare_row-OwnRow n e o = same_name n

row_of-OwnRow : (h : Host) (p : Package) (e : Entry) (s : Spot) → OwnRow p.name (row_of h p e s)
unfolding row_of
row_of-OwnRow h p e s =
    if_OwnRow p.name (of_types file_types e.type) _ _ (path_row-OwnRow h.root p.name e s.file) (
      if_OwnRow p.name (of_types (dir ∷ dirrm ∷ dirrmtry ∷ []) e.type) _ _
        (bare_row-OwnRow p.name e _) (bare_row-OwnRow p.name e _))

-- the rows of the other packages are `r`
unfoldable Rest : Bytes → Tables → Tables → Type 0
Rest n r t = uninstalled n t ≡ r

abbrev Kept : Bytes → Tables → Act World → Type 0
Kept n r a = Triple (λ w. Rest n r w.tables) a (λ w. Rest n r w.tables) (λ w. Rest n r w.tables)

module _ (n : Bytes) (r : Tables) where
  db_do-Kept :
      (h : Host) (s : Sql)
      → ((t : Tables) → uninstalled n (changed_by s t) ≡ uninstalled n t)
      → Kept n r (db_do h s)
  unfolding Rest
  db_do-Kept h s f = db_do-Keeps (λ t. uninstalled n t ≡ r) h s (λ t e. cc (f t, e))

  outside-Kept : (a : Tables → Act Trace) → Kept n r (outside a)
  outside-Kept a = outside-Triple (λ t o. Rest n r t) a

  both-Kept : {a b : Act World} → Kept n r a → Kept n r b → Kept n r (a and_then b)
  both-Kept f g = f then g

  nothing-Kept : Kept n r nothing
  unfolding Ends
  nothing-Kept = record { ends = λ w k. k }

  whatever-Ends :
      (q : Result (Why × World) World)
      → Ends (λ w. Rest n r w.tables) (λ w. Rest n r w.tables) q
      → Ends (λ w. Rest n r w.tables) (λ w. Rest n r w.tables) (whatever q)
  unfolding Ends whatever
  whatever-Ends (ok w) k = k
  whatever-Ends (err (why, w)) k = k
  whatever-Ends undefined k = tt

  whatever-Kept : (a : Act World) → Kept n r a → Kept n r (λ w. whatever (a w))
  whatever-Kept a f = record { ends = λ w k. whatever-Ends (a w) (f.ends w k) }

  insert_row-Kept : (h : Host) (o : Option AssetRow) → OwnRow n o → Kept n r (insert_row h o)
  unfolding insert_row OwnRow Ends uninstalled changed_by Own
  insert_row-Kept h none k = record { ends = λ w q. tt }
  insert_row-Kept h (some x) k = record {
    ends =
        (db_do-Kept h (insert_asset x) (λ t i. record (uninstalled n t) {
          assets = without-append_Own (λ (r : AssetRow). r.pkg) n t.assets (x ∷ []) (k, tt) i;
        })).ends;
  }

module _ (h : Host) (p : Package) (r : Tables) where
  install_assets-Kept :
      (total : ℕ) (es : List Entry) (s : Spot) → Kept p.name r (install_assets h p total es s)
  unfolding install_assets install_asset
  install_assets-Kept total [] s = nothing-Kept p.name r
  install_assets-Kept total (e ∷ es) s =
      both-Kept p.name r
        (both-Kept p.name r (outside-Kept p.name r _) (
          insert_row-Kept p.name r h (row_of h p e (spot_after h p e s))
            (row_of-OwnRow h p e (spot_after h p e s))))
        (install_assets-Kept total es (spot_after h p e s))

  create_rows-Kept : (b : Bundle) → Kept p.name r (create_rows h b p)
  unfolding create_rows uninstalled changed_by bundle_depends bundle_categories new_row Own
  create_rows-Kept b =
      both-Kept p.name r
        (db_do-Kept p.name r h (insert_package p) (λ t i. record (uninstalled p.name t) {
          packages =
              without-append_Own (λ (q : InstalledRow). q.pkg) p.name t.packages (new_row p ∷ [])
                (same_name p.name, tt) i;
        }))
        (both-Kept p.name r
          (db_do-Kept p.name r h (insert_depends (bundle_depends p b)) (λ t i.
            record (uninstalled p.name t) {
              depends =
                  without-append_Own (λ (q : DependRow). q.pkg) p.name t.depends
                    (bundle_depends p b) (filter-Own (λ (q : DependRow). q.pkg) p.name b.depends) i;
            }))
          (db_do-Kept p.name r h (insert_categories (bundle_categories p b)) (λ t i.
            record (uninstalled p.name t) {
              categories =
                  without-append_Own (λ (q : CategoryRow). q.pkg) p.name t.categories
                    (bundle_categories p b)
                    (filter-Own (λ (q : CategoryRow). q.pkg) p.name b.categories) i;
            })))

  install_rows-Kept : (b : Bundle) → Kept p.name r (install_rows h b p)
  unfolding install_rows changed_by
  install_rows-Kept b = both-Kept p.name r (outside-Kept p.name r _) (
      both-Kept p.name r (create_rows-Kept b) (
        both-Kept p.name r (outside-Kept p.name r _) (
          both-Kept p.name r
            (whatever-Kept p.name r (db_do h begin_transaction)
              (db_do-Kept p.name r h begin_transaction (λ t. refl)))
            (both-Kept p.name r (install_assets-Kept _ _ _) (
              both-Kept p.name r (db_do-Kept p.name r h commit_transaction (λ t. refl))
                (outside-Kept p.name r _))))))

  do_actual_install-Kept : (b : Bundle) → Kept p.name r (do_actual_install h b p)
  unfolding do_actual_install
  do_actual_install-Kept b = record {
    ends = λ w k.
        current_error-Keeps (λ t o. Rest p.name r t) h (install_rows h b p w)
          ((install_rows-Kept b).ends w k);
  }

  install_pkg-Kept : (b : Bundle) → Kept p.name r (bundle_read_install_pkg h b p)
  unfolding bundle_read_install_pkg do_post_install uninstalled changed_by
  install_pkg-Kept b = both-Kept p.name r (outside-Kept p.name r _) (
      both-Kept p.name r (do_actual_install-Kept b) (
        both-Kept p.name r
          (both-Kept p.name r (outside-Kept p.name r _) (
            db_do-Kept p.name r h (mark_clean p.name) (λ t i. record (uninstalled p.name t) {
              packages =
                  without-map_rows p.name
                    (λ (q : InstalledRow). record q { status = codes "clean" }) t.packages
                    (λ q. refl) i;
            })))
          (outside-Kept p.name r _)))

-- However the installation ends, with MPORT_OK or an error, and whether a transaction was open or
-- not, the rows of all other packages in the four tables are those before it.
pub bundle_read_install_pkg-others :
    (h : Host) (b : Bundle) (p : Package) (w : World)
    → Ends
        (λ v. uninstalled p.name v.tables ≡ uninstalled p.name w.tables)
        (λ v. uninstalled p.name v.tables ≡ uninstalled p.name w.tables)
        (bundle_read_install_pkg h b p w)
unfolding Rest
bundle_read_install_pkg-others h b p w =
    (install_pkg-Kept h p (uninstalled p.name w.tables) b).ends w refl
