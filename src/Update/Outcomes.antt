-- ===== src/Update/Outcomes.antt =====
-- What `mport_bundle_read_update_pkg` of libmport/bundle_read_update_pkg.c leaves in the tables.
use mathlib.Core.Path.{subst}
use mport.Base.{
  Bool, true, false, Bool-cases, ◌≡◌, refl, sym, ◌∙◌, inl, inr, none, List, [], ◌∷◌, ◌++◌, All,
  arith,
}
use mport.Base.Text.{Bytes, str_eq}
use mport.Db.{Result, ok, err, undefined, ◌>>=◌}
use mport.Store.{
  InstalledRow, Tables, Package, Host, World, Why, Act, ◌and_then◌, outside, without, new_row,
}
use mport.Store.Ends.{At, ok_Ends}
use mport.Delete.Primitive.{delete_primative}
use mport.Delete.Primitive.Rows.{uninstalled, outside-At}
use mport.Delete.Primitive.Outcomes.{delete_primative-ok}
use mport.Install.{Bundle, phase_assets, actualinstall}
use mport.Install.Primitive.{bundle_read_install_pkg}
use mport.Install.Primitive.Errors.{PlainDir}
use mport.Install.Primitive.Outcomes.{clean_row, installed, bundle_read_install_pkg-ok}
use mport.Update.{
  StubRow, Session, package_of_stub, before_update, with_events, install_backup_bundle, restored,
  or_restore, bundle_read_update_pkg,
}

bind_inv :
    {S : Type 0} (r : Result (Why × S) S) (k : Act S) (w : S)
    → (r >>= k) ≡ ok w
    → (v : S) × (r ≡ ok v) × (k v ≡ ok w)
bind_inv (ok v) k w e = (v, refl, e)
bind_inv (err x) k w e = absurd (ground arith)
bind_inv undefined k w e = absurd (ground arith)

ok_eq : (u w : World) (r : Result (Why × World) World) → r ≡ ok u → r ≡ ok w → w ≡ u
ok_eq u w r e f = cc

restored_never :
    (x : Session) (p : Package) (why : Why) (r : Result (Why × World) World) (w : World)
    → restored x p why r ≡ ok w
    → ⊥
unfolding restored
restored_never x p why (ok v) w e = ground arith
restored_never x p why (err (other, v)) w e = ground arith
restored_never x p why undefined w e = ground arith

-- an update that returns MPORT_OK has not restored anything
or_restore_inv :
    (h : Host) (x : Session) (p : Package) (r : Result (Why × World) World) (w : World)
    → or_restore h x p r ≡ ok w
    → (v : World) × (r ≡ ok v) × (w.tables ≡ v.tables) × (w.saved ≡ v.saved)
unfolding or_restore with_events
or_restore_inv h x p (ok v) w e =
    (v, refl, (λ i. (ok_eq _ w _ refl e i).tables), (λ i. (ok_eq _ w _ refl e i).saved))
or_restore_inv h x p (err (why, v)) w e =
    absurd (restored_never x p why (install_backup_bundle h x v) w e)
or_restore_inv h x p undefined w e = absurd (ground arith)

-- Where no transaction is open, no directory of the new package has a mode of its own, and the update
-- returns MPORT_OK, the tables are those before it without the rows of the package, and then with the
-- new package installed, and no transaction is open.
pub bundle_read_update_pkg-ok :
    (h : Host) (x : Session) (b : Bundle) (p : Package) (w w' : World)
    → w.saved ≡ none
    → All PlainDir (phase_assets actualinstall p b)
    → bundle_read_update_pkg h x b p w ≡ ok w'
    → (w'.tables ≡ installed h b p (uninstalled p.name w.tables)) × (w'.saved ≡ none)
unfolding bundle_read_update_pkg At
bundle_read_update_pkg-ok h x b p w w' o d e =
    let (v, f, g) =
      bind_inv (outside (before_update h x p) w)
        (λ (z : World).
          or_restore h x p ((delete_primative h p true and_then bundle_read_install_pkg h b p) z))
        w' e in
    let (t, s) =
      ok_Ends (At w.tables none) (At w.tables none) (outside (before_update h x p) w) v
        ((outside-At (before_update h x p) w.tables none).ends w (refl, o)) f in
    let (u, r, a, c) =
      or_restore_inv h x p ((delete_primative h p true and_then bundle_read_install_pkg h b p) v) w'
        g in
    let (z, q, k) = bind_inv (delete_primative h p true v) (bundle_read_install_pkg h b p) u r in
    let (y, n) = delete_primative-ok h p true v z s q in
    let (_, m, l) = bundle_read_install_pkg-ok h b p z u n d k in
    (
      a ∙ m ∙ (λ i. installed h b p (y i)) ∙ (λ i. installed h b p (uninstalled p.name (t i))),
      c ∙ l,
    )

-- a row of the name is neither locked nor automatic
unfoldable pub IsPlain : Bytes → InstalledRow → Type 0
IsPlain n r = str_eq r.pkg n ≡ true → (r.locked ≡ 0) × (r.automatic ≡ 0)

IsPlain-rows :
    (n : Bytes) (xs : List InstalledRow) (r : InstalledRow)
    → (r.locked ≡ 0) × (r.automatic ≡ 0)
    → All (IsPlain n) (without (λ (q : InstalledRow). q.pkg) n xs ++ r ∷ [])
unfolding IsPlain
IsPlain-rows n [] r k = ((λ e. k), tt)
IsPlain-rows n (x ∷ xs) r k = elim (Bool-cases (str_eq x.pkg n)) [
  | inl d ↦ rw d (IsPlain-rows n xs r k)
  | inr d ↦ rw d ((λ e. absurd (clash (str_eq x.pkg n) e d)), IsPlain-rows n xs r k)
]
  where
    clash : (b : Bool) → b ≡ true → b ≡ false → ⊥
    clash b x y = ground arith

-- Where no transaction is open, no directory of the new package has a mode of its own, and the update
-- to a package that was read from a stub database returns MPORT_OK, no row of the package is locked
-- or automatic, whatever its rows were before.
pub bundle_read_update_pkg-IsPlain :
    (h : Host) (x : Session) (b : Bundle) (r : StubRow) (w w' : World)
    → w.saved ≡ none
    → All PlainDir (phase_assets actualinstall (package_of_stub r) b)
    → bundle_read_update_pkg h x b (package_of_stub r) w ≡ ok w'
    → All (IsPlain r.name) w'.tables.packages
unfolding package_of_stub installed uninstalled clean_row new_row
bundle_read_update_pkg-IsPlain h x b r w w' o d e =
    let (t, s) = bundle_read_update_pkg-ok h x b (package_of_stub r) w w' o d e in
    subst (λ (u : Tables). All (IsPlain r.name) u.packages) (sym t)
      (IsPlain-rows r.name w.tables.packages (clean_row (package_of_stub r)) (refl, refl))
