-- ===== src/Install/Primitive/Rows.antt =====
-- What `mport_bundle_read_install_pkg` of libmport/bundle_read_install_pkg.c leaves in the tables, on
-- success and on every error.
use mathlib.Core.Path.{subst}
use mport.Base.{
  ℕ, ◌≡◌, refl, sym, ◌∙◌, Option, none, some, List, [], ◌∷◌, ◌++◌, append_assoc, append-nil,
  if◌then◌else◌,
}
use mport.Plist.Command.{Entry}
use mport.Store.{
  AssetRow, Tables, Package, insert_asset, Host, World, Act, nothing, changed_by, transaction,
  new_row,
}
use mport.Store.Ends.{Ends, Triple, weaken, ◌then◌, At, db_do-Triple}
use mport.Delete.Primitive.Rows.{outside-At}
use mport.Install.{Bundle, Spot, spot_after, row_of}
use mport.Install.Primitive.{
  insert_row, install_asset, install_assets, bundle_depends, bundle_categories,
}

unfoldable pub add_assets : List AssetRow → Tables → Tables
add_assets rs t = record t { assets = t.assets ++ rs }

-- the rows of the package, its dependencies and its categories
unfoldable pub created : Bundle → Package → Tables → Tables
created b p t = record t {
  depends = t.depends ++ bundle_depends p b;
  packages = t.packages ++ new_row p ∷ [];
  categories = t.categories ++ bundle_categories p b;
}

unfoldable pub cons_row : Option AssetRow → List AssetRow → List AssetRow
cons_row none rs = rs
cons_row (some r) rs = r ∷ rs

-- one row for each asset, with the variables of the assets before it
unfoldable pub rows_of : Host → Package → List Entry → Spot → List AssetRow
rows_of h p [] s = []
rows_of h p (e ∷ es) s =
    cons_row (row_of h p e (spot_after h p e s)) (rows_of h p es (spot_after h p e s))

-- tables that differ in assets alone
unfoldable pub Grown : Tables → Tables → Type 0
Grown t u = (rs : List AssetRow) × (u ≡ add_assets rs t)

-- what an error in the loop leaves
unfoldable pub Stopped : Tables → Option Tables → World → Type 0
Stopped t o w = Grown t w.tables × (w.saved ≡ o)

pub add_assets-add_assets :
    (rs ss : List AssetRow) (t : Tables) → add_assets ss (add_assets rs t) ≡ add_assets (rs ++ ss) t
unfolding add_assets
add_assets-add_assets rs ss t = λ i. record t { assets = append_assoc t.assets rs ss i }

pub add_assets-nil : (t : Tables) → add_assets [] t ≡ t
unfolding add_assets
add_assets-nil t = λ i. record t { assets = append-nil t.assets i }

Stopped-later :
    (rs : List AssetRow) (t : Tables) (o : Option Tables) (w : World)
    → Stopped (add_assets rs t) o w
    → Stopped t o w
unfolding Stopped Grown
Stopped-later rs t o w ((ss, e), k) = ((rs ++ ss, e ∙ add_assets-add_assets rs ss t), k)

pub At-Stopped : (t : Tables) (o : Option Tables) (w : World) → At t o w → Stopped t o w
unfolding At Stopped Grown
At-Stopped t o w (e, k) = (([], e ∙ sym (add_assets-nil t)), k)

insert_row-Triple :
    (h : Host) (r : Option AssetRow) (t : Tables) (o : Option Tables)
    → Triple (At t o) (insert_row h r) (At (add_assets (cons_row r []) t) o) (Stopped t o)
unfolding insert_row Ends cons_row transaction changed_by add_assets
insert_row-Triple h none t o = record { ends = λ w k. tt }
insert_row-Triple h (some r) t o = record {
  ends = (weaken (Stopped t o) (db_do-Triple h (insert_asset r) t o o refl) (At-Stopped t o)).ends;
}

pub cons_row-append :
    (o : Option AssetRow) (rs : List AssetRow) → cons_row o [] ++ rs ≡ cons_row o rs
unfolding cons_row
cons_row-append none rs = refl
cons_row-append (some r) rs = refl

-- a triple is one of tables that are the same
move_end :
    {a : Act World} {u u' : Tables} {E : World → Type 0} (t : Tables) (o o' : Option Tables)
    → u ≡ u'
    → Triple (At t o) a (At u o') E
    → Triple (At t o) a (At u' o') E
move_end {a} {u} {u'} {E} t o o' e f = subst (λ v. Triple (At t o) a (At v o') E) e f

nothing-At : (t : Tables) (o : Option Tables) → Triple (At t o) nothing (At t o) (Stopped t o)
unfolding Ends
nothing-At t o = record { ends = λ w k. k }

pub install_assets-Triple :
    (h : Host) (p : Package) (total : ℕ) (es : List Entry) (s : Spot) (t : Tables)
    (o : Option Tables)
    → Triple
        (At t o)
        (install_assets h p total es s)
        (At (add_assets (rows_of h p es s) t) o)
        (Stopped t o)
unfolding install_assets install_asset rows_of
install_assets-Triple h p total [] s t o = move_end t o o (sym (add_assets-nil t)) (nothing-At t o)
install_assets-Triple h p total (e ∷ es) s t o =
    (weaken (Stopped t o) (outside-At _ t o) (At-Stopped t o)
      then insert_row-Triple h (row_of h p e s') t o)
    then move_end t' o o step (
        weaken (Stopped t o) (install_assets-Triple h p total es s' t' o)
          (Stopped-later (cons_row (row_of h p e s') []) t o))
  where
    s' : Spot
    s' = spot_after h p e s

    t' : Tables
    t' = add_assets (cons_row (row_of h p e s') []) t

    step : add_assets (rows_of h p es s') t' ≡ add_assets (rows_of h p (e ∷ es) s) t
    step =
        add_assets-add_assets (cons_row (row_of h p e s') []) (rows_of h p es s') t
        ∙ (λ i. add_assets (cons_row-append (row_of h p e s') (rows_of h p es s') i) t)
