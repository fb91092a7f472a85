-- ===== src/Install/Primitive/RoundTrip.antt =====
-- A deletion by libmport/delete_primative.c undoes an installation by
-- libmport/bundle_read_install_pkg.c.
use mport.Base.{Bool, ◌≡◌, none, All}
use mport.Db.{ok}
use mport.Store.{Package, Host, World}
use mport.Store.Ends.{ok_Ends}
use mport.Delete.Primitive.{delete_primative}
use mport.Delete.Primitive.Rows.{uninstalled}
use mport.Delete.Primitive.Outcomes.{delete_primative-ok}
use mport.Install.{Bundle, phase_assets, actualinstall}
use mport.Install.Primitive.{bundle_read_install_pkg}
use mport.Install.Primitive.Errors.{PlainDir}
use mport.Install.Primitive.Outcomes.{bundle_read_install_pkg-ok}
use mport.Install.Primitive.Others.{bundle_read_install_pkg-others}

-- Where no transaction is open, no table has a row of the package, no directory of the package has a
-- mode of its own, and an installation of the package and then its deletion both return MPORT_OK, the
-- four tables are those before, and no transaction is open.
pub delete_primative-bundle_read_install_pkg :
    (h h' : Host) (b : Bundle) (p : Package) (force : Bool) (w v u : World)
    → w.saved ≡ none
    → uninstalled p.name w.tables ≡ w.tables
    → All PlainDir (phase_assets actualinstall p b)
    → bundle_read_install_pkg h b p w ≡ ok v
    → delete_primative h' p force v ≡ ok u
    → (u.tables ≡ w.tables) × (u.saved ≡ none)
delete_primative-bundle_read_install_pkg h h' b p force w v u o a d e f =
    let (n, x, s) = bundle_read_install_pkg-ok h b p w v o d e in
    let (y, s') = delete_primative-ok h' p force v u s f in
    let k =
      ok_Ends (λ (z : World). uninstalled p.name z.tables ≡ uninstalled p.name w.tables)
        (λ (z : World). uninstalled p.name z.tables ≡ uninstalled p.name w.tables)
        (bundle_read_install_pkg h b p w) v (bundle_read_install_pkg-others h b p w) e in
    (cc (y, k, a), s')
