-- ===== src/Install/Primitive/Ended.antt =====
-- How `mport_bundle_read_install_pkg` of libmport/bundle_read_install_pkg.c ends: the states of the
-- tables behind `do_actual_install`, and behind the whole call.
use mport.Base.{true, false, ◌≡◌, refl, ◌⊎◌, inl, inr, Option, none, some, if◌then◌else◌}
use mport.Store.{
  Tables, Package, insert_package, insert_depends, insert_categories, Host, World, Act, ◌and_then◌,
  changed_by, transaction, has_row, db_do,
}
use mport.Store.Ends.{Triple, weaken, ◌then◌, At, db_do-Triple, db_do-refused}
use mport.Install.{Bundle, first_spot, phase_assets, actualinstall}
use mport.Install.Primitive.{bundle_depends, bundle_categories, create_rows}
use mport.Install.Primitive.Rows.{add_assets, created, rows_of, Grown, Stopped, At-Stopped}

unfoldable pub Any : World → Type 0
Any w = Unit

-- the tables behind the last of the assets
unfoldable pub filled : Host → Bundle → Package → Tables → Tables
filled h b p t =
    add_assets (rows_of h p (phase_assets actualinstall p b) (first_spot p)) (created b p t)

pub filled-Stopped :
    (h : Host) (b : Bundle) (p : Package) (t : Tables) (o : Option Tables) (w : World)
    → At (filled h b p t) o w
    → Stopped (created b p t) o w
unfolding At filled Stopped Grown
filled-Stopped h b p t o w (e, k) =
    ((rows_of h p (phase_assets actualinstall p b) (first_spot p), e), k)

-- The states behind an error: no row is inserted, or some of the package's first rows are, or all
-- but the assets, with a part of them in the transaction that is left open.
unfoldable pub Unfinished : Bundle → Package → Tables → Tables → Option Tables → Type 0
Unfinished b p t u o =
    ((u ≡ t) × (o ≡ none))
    ⊎ ((u ≡ changed_by (insert_package p) t) × (o ≡ none))
    ⊎ ((u ≡ changed_by (insert_depends (bundle_depends p b)) (changed_by (insert_package p) t))
        × (o ≡ none))
    ⊎ (Grown (created b p t) u × (o ≡ none))
    ⊎ (o ≡ some (created b p t))

unfoldable pub Ended : Bundle → Package → Tables → World → Type 0
Ended b p t w = Unfinished b p t w.tables w.saved

module _ (b : Bundle) (p : Package) (t : Tables) where
  pub none-Ended : (w : World) → At t none w → Ended b p t w
  unfolding Ended Unfinished At
  none-Ended w k = inl k

  package-Ended : (w : World) → At (changed_by (insert_package p) t) none w → Ended b p t w
  unfolding Ended Unfinished At
  package-Ended w k = inr (inl k)

  depends-Ended :
      (w : World)
      → At
          (changed_by (insert_depends (bundle_depends p b)) (changed_by (insert_package p) t))
          none
          w
      → Ended b p t w
  unfolding Ended Unfinished At
  depends-Ended w k = inr (inr (inl k))

  pub Stopped-Ended : (w : World) → Stopped (created b p t) none w → Ended b p t w
  unfolding Ended Unfinished Stopped
  Stopped-Ended w k = inr (inr (inr (inl k)))

  pub created-Ended : (w : World) → At (created b p t) none w → Ended b p t w
  created-Ended w k = Stopped-Ended w (At-Stopped (created b p t) none w k)

  pub open-Ended : (w : World) → Stopped (created b p t) (some (created b p t)) w → Ended b p t w
  unfolding Ended Unfinished Stopped
  open-Ended w k = inr (inr (inr (inr k.1)))

  pub create_rows-Triple :
      (h : Host)
      → has_row p.name t.packages ≡ false
      → Triple (At t none) (create_rows h b p) (At (created b p t) none) (Ended b p t)
  unfolding create_rows transaction changed_by created
  create_rows-Triple h e =
      weaken (Ended b p t) (db_do-Triple h (insert_package p) t none none (simp e)) none-Ended
      then weaken (Ended b p t)
          (db_do-Triple h (insert_depends (bundle_depends p b)) (changed_by (insert_package p) t)
            none none refl)
          package-Ended
      then weaken (Ended b p t)
          (db_do-Triple h (insert_categories (bundle_categories p b))
            (changed_by (insert_depends (bundle_depends p b)) (changed_by (insert_package p) t))
            none none refl)
          depends-Ended

  never : (a : Act World) (Q : World → Type 0) → Triple (λ _. ⊥) a Q (Ended b p t)
  never a Q = record { ends = λ w k. absurd k }

  -- a package that has a row is refused
  pub create_rows-refused :
      (h : Host)
      → has_row p.name t.packages ≡ true
      → Triple (At t none) (create_rows h b p) (λ _. ⊥) (Ended b p t)
  unfolding create_rows transaction
  create_rows-refused h e =
      weaken (Ended b p t) (db_do-refused h (insert_package p) t none (simp e)) none-Ended
      then never
          (db_do h (insert_depends (bundle_depends p b))
            and_then db_do h (insert_categories (bundle_categories p b)))
          (λ _. ⊥)
