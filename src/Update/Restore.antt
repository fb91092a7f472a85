-- ===== src/Update/Restore.antt =====
-- How an update by libmport/bundle_read_update_pkg.c ends where its backup, which
-- libmport/install_primative.c reads, meets a row of the package.
use mathlib.Core.Path.{subst}
use mport.Base.{
  Bool, true, false, ◌≡◌, refl, sym, ◌∙◌, Option, none, some, List, [], ◌∷◌, map, arith,
  if◌then◌else◌,
}
use mport.Base.Text.{Bytes}
use mport.Db.{Result, ok, err, undefined, ◌>>=◌}
use mport.Store.{
  Tables, Package, Event, opened_bundle, Host, World, Why, failed_command, Act, ◌and_then◌, attempt,
  outside, has_row,
}
use mport.Store.Ends.{Ends, ◌then◌, At}
use mport.Delete.Primitive.{delete_primative}
use mport.Delete.Primitive.Rows.{outside-At}
use mport.Install.{Bundle}
use mport.Install.Primitive.{bundle_read_install_pkg}
use mport.Install.Primitive.Refused.{bundle_read_install_pkg-refused}
use mport.Update.{
  StubRow, Archive, Session, package_of_stub, before_update, open_archive, with_packages,
  with_prefix, install_each, with_events, finish_install, install_primative, install_backup_bundle,
  restored, or_restore, bundle_read_update_pkg,
}

-- an error, or undefined behaviour, with the tables and the transaction as they were
unfoldable Refuses : Tables → Option Tables → Result (Why × World) World → Type 0
Refuses t o r = Ends (λ _. ⊥) (At t o) r

module _ (h : Host) (x : Session) (t : Tables) (o : Option Tables) where
  bind-Refuses :
      (r : Result (Why × World) World) (k : Act World) → Refuses t o r → Refuses t o (r >>= k)
  unfolding Refuses Ends
  bind-Refuses (ok v) k e = absurd e
  bind-Refuses (err (why, v)) k e = e
  bind-Refuses undefined k e = tt

  if_Refuses :
      (c : Bool) (r q : Result (Why × World) World)
      → Refuses t o r
      → Refuses t o q
      → Refuses t o (if c then r else q)
  if_Refuses true r q e f = e
  if_Refuses false r q e f = f

  failed-Refuses : (why : Why) (v : World) → At t o v → Refuses t o (err (why, v))
  unfolding Refuses Ends
  failed-Refuses why v a = a

  install_pkg-Refuses :
      (b : Bundle) (p : Package) (v : World)
      → has_row p.name t.packages ≡ true
      → At t o v
      → Refuses t o (bundle_read_install_pkg h b p v)
  unfolding Refuses At
  install_pkg-Refuses b p v n a =
      subst
        (λ (q : Option Tables).
          Ends (λ _. ⊥) (λ (w : World). (w.tables ≡ t) × (w.saved ≡ q))
            (bundle_read_install_pkg h b p v))
        (a.1)
        (subst
          (λ (u : Tables).
            Ends (λ _. ⊥) (λ (w : World). (w.tables ≡ u) × (w.saved ≡ v.saved))
              (bundle_read_install_pkg h b p v))
          (a.0)
          (bundle_read_install_pkg-refused h b p v ((λ i. has_row p.name (a.0 i).packages) ∙ n)))

  install_each-Refuses :
      (b : Bundle) (q : Package) (qs : List Package) (v : World)
      → has_row q.name t.packages ≡ true
      → At t o v
      → Refuses t o (install_each h x none 0 b (q ∷ qs) v)
  unfolding install_each with_prefix
  install_each-Refuses b q qs v n a = bind-Refuses _ _ (
      if_Refuses (x.passes v.tables 7 (record q { automatic = 0 })) _ _
        (install_pkg-Refuses b (record q { automatic = 0 }) v n a)
        (failed-Refuses failed_command v a))

  finish-Refuses :
      (file : Bytes) (r : Result (Why × World) World)
      → Refuses t o r
      → Refuses t o (finish_install h file r)
  unfolding finish_install Refuses Ends At with_events
  finish-Refuses file (ok v) e = absurd e
  finish-Refuses file (err (why, v)) e = e
  finish-Refuses file undefined e = tt

  undefined-Refuses : Refuses t o undefined
  unfolding Refuses Ends
  undefined-Refuses = tt

  packages-Refuses :
      (file : Bytes) (a : Archive) (r : StubRow) (rs : List StubRow) (m : Option Archive)
      (v : World)
      → m ≡ some a
      → a.packages ≡ r ∷ rs
      → has_row r.name t.packages ≡ true
      → At t o v
      → Refuses t o (
          with_packages
            (λ b ps w.
              if x.offline
              then undefined
              else finish_install h file (install_each h x none 0 b ps w))
            m
            v)
  unfolding with_packages package_of_stub
  packages-Refuses file a r rs m v e f n k =
      subst (λ (z : Option Archive). Refuses t o (with_packages act z v)) (sym e)
        (from_list a.packages f)
    where
      act : Bundle → List Package → Act World
      act b ps w =
          if x.offline then undefined else finish_install h file (install_each h x none 0 b ps w)

      from_list :
          (ps : List StubRow)
          → ps ≡ r ∷ rs
          → Refuses t o (elim ps [
            | [] ↦ err (failed_command, v)
            | s ∷ ss ↦ act a.bundle (map package_of_stub (s ∷ ss)) v
          ])
      from_list [] d = absurd (ground arith)
      from_list (s ∷ ss) d = if_Refuses x.offline _ _ undefined-Refuses (
          finish-Refuses file _ (
            install_each-Refuses a.bundle (package_of_stub s) (map package_of_stub ss) v
              ((λ i. has_row (head_name (d i)) t.packages) ∙ n) k))
        where
          head_name : List StubRow → Bytes
          head_name [] = []
          head_name (z ∷ zs) = z.name

  restored-Refuses :
      (p : Package) (why : Why) (r : Result (Why × World) World)
      → Refuses t o r
      → Refuses t o (restored x p why r)
  unfolding restored Refuses Ends At with_events
  restored-Refuses p why (ok v) e = absurd e
  restored-Refuses p why (err (other, v)) e = e
  restored-Refuses p why undefined e = tt

  install_backup-Refuses :
      (a : Archive) (r : StubRow) (rs : List StubRow) (v : World)
      → ((es : List Event) → x.archive es x.tmpfile ≡ some a)
      → a.packages ≡ r ∷ rs
      → has_row r.name t.packages ≡ true
      → At t o v
      → Refuses t o (install_backup_bundle h x v)
  unfolding install_backup_bundle install_primative open_archive Refuses
  install_backup-Refuses a r rs v f g n k =
      (outside-At (λ _. attempt h (opened_bundle x.tmpfile)) t o then record {
        ends = λ w c.
            packages-Refuses x.tmpfile a r rs (x.archive w.trace.events x.tmpfile) w
              (f w.trace.events) g n c;
      }).ends
        v k

bind_ok_eq :
    (r : Result (Why × World) World) (k : Act World) (v : World) → r ≡ ok v → (r >>= k) ≡ k v
bind_ok_eq r k v e = λ i. e i >>= k

-- Where the deletion and the installation of an update end with an error and leave a row of the
-- package that the backup holds first, the backup cannot be restored: the update does not return
-- MPORT_OK, and what it leaves in the tables is what the failure has left.
pub bundle_read_update_pkg-not_restored :
    (h : Host) (x : Session) (b : Bundle) (p : Package) (a : Archive) (r : StubRow)
    (rs : List StubRow) (w v z : World) (why : Why)
    → ((es : List Event) → x.archive es x.tmpfile ≡ some a)
    → a.packages ≡ r ∷ rs
    → outside (before_update h x p) w ≡ ok v
    → (delete_primative h p true and_then bundle_read_install_pkg h b p) v ≡ err (why, z)
    → has_row r.name z.tables.packages ≡ true
    → Ends (λ _. ⊥) (At z.tables z.saved) (bundle_read_update_pkg h x b p w)
unfolding bundle_read_update_pkg or_restore Refuses At
bundle_read_update_pkg-not_restored h x b p a r rs w v z why f g d e n =
    subst (Ends (λ _. ⊥) (At z.tables z.saved))
      (sym (
        bind_ok_eq (outside (before_update h x p) w)
          (λ (u : World).
            or_restore h x p ((delete_primative h p true and_then bundle_read_install_pkg h b p) u))
          v d
        ∙ (λ i. or_restore h x p (e i))))
      (restored-Refuses h x z.tables z.saved p why (install_backup_bundle h x z)
        (install_backup-Refuses h x z.tables z.saved a r rs z f g n (refl, refl)))
