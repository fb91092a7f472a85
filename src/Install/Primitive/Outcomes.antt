-- ===== src/Install/Primitive/Outcomes.antt =====
-- What a call of `mport_bundle_read_install_pkg` of libmport/bundle_read_install_pkg.c guarantees.
use mport.Base.{
  Bool, true, false, Bool-cases, ◌≡◌, refl, inl, inr, none, List, [], ◌∷◌, ◌++◌, All, if◌then◌else◌,
  arith, ◌||◌,
}
use mport.Base.Text.{Bytes, codes, str_eq, str_eq_iff}
use mport.Db.{ok}
use mport.Store.{
  InstalledRow, Tables, Package, mark_clean, Host, World, Act, outside, changed_by, has_row,
  new_row, map_rows, where_pkg, transaction, emit, noted, ◌and_then◌,
}
use mport.Store.Ends.{Triple, weaken, ◌then◌, At, ok_Ends, db_do-Triple}
use mport.Delete.Primitive.Rows.{outside-At}
use mport.Install.{Bundle, first_spot, phase_assets, actualinstall}
use mport.Install.Laws.{Sets}
use mport.Install.Primitive.{
  bundle_depends, bundle_categories, install_rows, do_actual_install, do_post_install,
  bundle_read_install_pkg,
}
use mport.Install.Primitive.Rows.{created, add_assets, rows_of}
use mport.Install.Primitive.Ended.{Any, filled, Unfinished, Ended}
use mport.Install.Primitive.Transaction.{
  install_rows-Triple, install_rows-refused, current_error-Ends,
}
use mport.Install.Primitive.Errors.{PlainDir, install_rows-Sets}

unfoldable pub clean_row : Package → InstalledRow
clean_row p = record (new_row p) { status = codes "clean" }

-- the tables with the package: its clean row, what the stub database has of it, and a row for each
-- asset of `do_actual_install`
unfoldable pub installed : Host → Bundle → Package → Tables → Tables
installed h b p t = record {
  assets = t.assets ++ rows_of h p (phase_assets actualinstall p b) (first_spot p);
  depends = t.depends ++ bundle_depends p b;
  packages = t.packages ++ clean_row p ∷ [];
  categories = t.categories ++ bundle_categories p b;
}

either_false : (a b : Bool) → (a || b) ≡ false → (a ≡ false) × (b ≡ false)
either_false false false e = (refl, refl)
either_false false true e = absurd (ground arith)
either_false true b e = absurd (ground arith)

map_rows-absent :
    (n : Bytes) (f : InstalledRow → InstalledRow) (xs : List InstalledRow) (r : InstalledRow)
    → has_row n xs ≡ false
    → map_rows (where_pkg n f) (xs ++ r ∷ []) ≡ xs ++ where_pkg n f r ∷ []
unfolding has_row
map_rows-absent n f [] r e = refl
map_rows-absent n f (x ∷ xs) r e =
    let (a, d) = either_false (str_eq x.pkg n) (has_row n xs) e in
    simp (a, map_rows-absent n f xs r d)

pub installed-filled :
    (h : Host) (b : Bundle) (p : Package) (t : Tables)
    → has_row p.name t.packages ≡ false
    → changed_by (mark_clean p.name) (filled h b p t) ≡ installed h b p t
unfolding changed_by filled installed created add_assets clean_row
installed-filled h b p t e = λ i. record {
  assets = t.assets ++ rows_of h p (phase_assets actualinstall p b) (first_spot p);
  depends = t.depends ++ bundle_depends p b;
  packages = cleaned i;
  categories = t.categories ++ bundle_categories p b;
}
  where
    same : str_eq (new_row p).pkg p.name ≡ true
    same = (str_eq_iff p.name p.name).1 refl

    marked :
        where_pkg p.name (λ (r : InstalledRow). record r { status = codes "clean" }) (new_row p)
        ≡ record (new_row p) { status = codes "clean" }
    marked = simp same

    cleaned :
        map_rows
          (where_pkg p.name (λ (r : InstalledRow). record r { status = codes "clean" }))
          (t.packages ++ new_row p ∷ [])
        ≡ t.packages ++ record (new_row p) { status = codes "clean" } ∷ []
    cleaned = cc (
      map_rows-absent p.name (λ (r : InstalledRow). record r { status = codes "clean" }) t.packages
          (new_row p) e,
      marked,
    )

module _ (h : Host) (b : Bundle) (p : Package) (t : Tables) where
  forget : {P Q E : World → Type 0} {a : Act World} → Triple P a Q E → Triple P a Q Any
  unfolding Any
  forget f = weaken Any f (λ w k. tt)

  actual-Triple :
      (Q : World → Type 0)
      → Sets (install_rows h b p)
      → Triple (At t none) (install_rows h b p) Q (Ended b p t)
      → Triple (At t none) (do_actual_install h b p) Q (Ended b p t)
  unfolding do_actual_install Ended
  actual-Triple Q k f = record {
    ends = λ w a.
        current_error-Ends (Unfinished b p t) h Q (install_rows h b p w) (k.sets w) (f.ends w a);
  }

  whole-Triple :
      Triple (At t none) (do_actual_install h b p) (At (filled h b p t) none) (Ended b p t)
      → Triple
          (At t none)
          (bundle_read_install_pkg h b p)
          (At (changed_by (mark_clean p.name) (filled h b p t)) none)
          Any
  unfolding bundle_read_install_pkg do_post_install transaction
  whole-Triple f =
      forget (outside-At _ t none)
      then forget f
      then (forget (outside-At _ (filled h b p t) none)
          then forget (db_do-Triple h (mark_clean p.name) (filled h b p t) none none refl))
      then forget (outside-At _ (changed_by (mark_clean p.name) (filled h b p t)) none)

  refused-Triple :
      Triple (At t none) (do_actual_install h b p) (λ _. ⊥) (Ended b p t)
      → Triple (At t none) (bundle_read_install_pkg h b p) (λ _. ⊥) Any
  unfolding bundle_read_install_pkg do_post_install
  refused-Triple f = forget (outside-At _ t none) then forget f then never
    where
      never :
          Triple
            (λ _. ⊥)
            (do_post_install h b p
              and_then outside
                  (λ _. emit (noted (p.name ++ b'-' ∷ p.version ++ codes " installed"))))
            (λ _. ⊥)
            Any
      never = record { ends = λ w k. absurd k }

  -- a package that has a row is not installed
  pub no_row :
      (w w' : World)
      → At t none w
      → Sets (install_rows h b p)
      → bundle_read_install_pkg h b p w ≡ ok w'
      → has_row p.name t.packages ≡ false
  no_row w w' a k e = elim (Bool-cases (has_row p.name t.packages)) [
    | inl d ↦ absurd (
        ok_Ends (λ _. ⊥) Any (bundle_read_install_pkg h b p w) w'
          ((refused-Triple (actual-Triple (λ _. ⊥) k (install_rows-refused h b p t d))).ends w a) e)
    | inr d ↦ d
  ]

  pub ok_At :
      (w w' : World)
      → At t none w
      → Sets (install_rows h b p)
      → has_row p.name t.packages ≡ false
      → bundle_read_install_pkg h b p w ≡ ok w'
      → At (installed h b p t) none w'
  unfolding At
  ok_At w w' a k d e =
      let (x, y) =
        ok_Ends (At (changed_by (mark_clean p.name) (filled h b p t)) none) Any
          (bundle_read_install_pkg h b p w) w'
          ((whole-Triple
              (actual-Triple (At (filled h b p t) none) k (install_rows-Triple h b p t d))).ends
            w a)
          e in
      (cc (x, installed-filled h b p t d), y)

-- Where no transaction is open, no directory of the package has a mode of its own, and the call
-- returns MPORT_OK, the package had no row before it, the tables are those before it with a clean row
-- of the package, its dependencies and categories of the bundle, and one row for each of its assets
-- that is not @preexec, @postexec, @ldconfig or @ldconfig-linux, and no transaction is open.
pub bundle_read_install_pkg-ok :
    (h : Host) (b : Bundle) (p : Package) (w w' : World)
    → w.saved ≡ none
    → All PlainDir (phase_assets actualinstall p b)
    → bundle_read_install_pkg h b p w ≡ ok w'
    → (has_row p.name w.tables.packages ≡ false)
      × (w'.tables ≡ installed h b p w.tables)
      × (w'.saved ≡ none)
unfolding At
bundle_read_install_pkg-ok h b p w w' o d e =
    let n = no_row h b p w.tables w w' (refl, o) (install_rows-Sets h p b d) e in
    let (x, y) = ok_At h b p w.tables w w' (refl, o) (install_rows-Sets h p b d) n e in (n, x, y)
