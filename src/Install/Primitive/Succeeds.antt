-- ===== src/Install/Primitive/Succeeds.antt =====
-- `mport_bundle_read_install_pkg` of libmport/bundle_read_install_pkg.c succeeds on a system where
-- every call succeeds.
use mport.Base.{
  Bool, true, false, ◌||◌, ◌&&◌, ◌≡◌, refl, Option, none, some, List, [], ◌∷◌, map, All, arith,
}
use mport.Base.Text.{str_eq}
use mport.Db.{ok}
use mport.Plist.Command.{AssetType, Entry, preexec, postexec}
use mport.Store.{
  AssetRow, Tables, Package, begin_transaction, commit_transaction, insert_package, insert_depends,
  insert_categories, mark_clean, Host, World, Act, changed_by, transaction, has_row, db_do,
}
use mport.Store.Ends.{At}
use mport.Store.Works.{
  Healthy, Works, ◌with◌, emit-Works, attempt-Works, Reaches, ◌next◌, outside-Reaches,
  db_do-Reaches,
}
use mport.Delete.{of_types}
use mport.Delete.Works.{All-filter}
use mport.Install.{
  Bundle, Phase, entry_of, in_phase, first_spot, phase_assets, preinstall, actualinstall,
  postinstall, file_total,
}
use mport.Install.Commands.{do_pre_install, before_complete}
use mport.Install.Laws.{Finds, Works-Laws}
use mport.Install.Places.{needs_text}
use mport.Install.Around.{get_assetlist-Has, get_file_count-Has}
use mport.Install.Phases.{Stuck, do_pre_install-Has, before_complete-Has}
use mport.Install.Primitive.{
  whatever, bundle_depends, bundle_categories, before_rows, create_rows, before_begin, after_commit,
  install_rows, current_error, do_actual_install, do_post_install, bundle_read_install_pkg,
}
use mport.Install.Primitive.Rows.{created}
use mport.Install.Primitive.Ended.{filled}
use mport.Install.Primitive.Outcomes.{installed, installed-filled}
use mport.Install.Primitive.Loop.{IsReady, install_assets-Reaches}

-- an asset of the bundle whose text is there where it is read
unfoldable pub IsReadyRow : AssetRow → Type 0
IsReadyRow r = IsReady (entry_of r)

IsReady-entries : (rows : List AssetRow) → All IsReadyRow rows → All IsReady (map entry_of rows)
unfolding IsReadyRow
IsReady-entries [] k = tt
IsReady-entries (r ∷ rs) (k, ks) = (k, IsReady-entries rs ks)

IsReady-phase :
    (ph : Phase) (p : Package) (b : Bundle)
    → All IsReadyRow b.assets
    → All IsReady (phase_assets ph p b)
unfolding phase_assets
IsReady-phase ph p b k = IsReady-entries _ (
    All-filter IsReadyRow IsReadyRow (λ (r : AssetRow). str_eq r.pkg p.name && in_phase ph r.type)
      b.assets (λ x e q. q) k)

not-Stuck :
    (types : List AssetType) (es : List Entry)
    → ((e : Entry)
        → of_types types e.type ≡ true
        → of_types (preexec ∷ postexec ∷ []) e.type ≡ true)
    → All IsReady es
    → All (Stuck Works types) es
unfolding Stuck IsReady
not-Stuck types [] f k = tt
not-Stuck types (e ∷ es) f (k, ks) =
    ((λ d n. absurd (k (right (needs_text e.type) _ (f e d)) n)), not-Stuck types es f ks)
  where
    right : (a b : Bool) → b ≡ true → (a || b) ≡ true
    right a b d = ground arith

first_of_two : (a b : Bool) → (a || false) ≡ true → (a || (b || false)) ≡ true
first_of_two a b d = ground arith

second_of_two : (a b : Bool) → (b || false) ≡ true → (a || (b || false)) ≡ true
second_of_two a b d = ground arith

whatever-Reaches :
    (a : Act World) (t t' : Tables) (o o' : Option Tables)
    → Reaches t o a t' o'
    → Reaches t o (λ w. whatever (a w)) t' o'
unfolding whatever
whatever-Reaches a t t' o o' f = record {
  reaches = λ w k. let (v, e, q) = f.reaches w k in (v, (λ i. whatever (e i)), q);
}

current_error-Reaches :
    (h : Host) (a : Act World) (t t' : Tables) (o o' : Option Tables)
    → Reaches t o a t' o'
    → Reaches t o (λ w. current_error h (a w)) t' o'
unfolding current_error
current_error-Reaches h a t t' o o' f = record {
  reaches = λ w k. let (v, e, q) = f.reaches w k in (v, (λ i. current_error h (e i)), q);
}

module _ (h : Host) (b : Bundle) (p : Package) (f : Healthy h) (k : Finds h) (z : h.root ≡ [])
    (ready : All IsReadyRow b.assets) where
  pre-Works : Works (do_pre_install h b p)
  unfolding of_types
  pre-Works = do_pre_install-Has h Works (Works-Laws h f k) b p (
      not-Stuck (preexec ∷ []) (phase_assets preinstall p b) (λ e d. first_of_two _ _ d)
        (IsReady-phase preinstall p b ready))

  complete-Works : Works (before_complete h b p)
  unfolding of_types
  complete-Works = before_complete-Has h Works (Works-Laws h f k) b p (
      not-Stuck (postexec ∷ []) (phase_assets postinstall p b) (λ e d. second_of_two _ _ d)
        (IsReady-phase postinstall p b ready))

  before_rows-Works : Works (before_rows h b p)
  unfolding before_rows
  before_rows-Works =
      get_file_count-Has h Works (Works-Laws h f k) p b
      with emit-Works _
      with get_assetlist-Has h Works (Works-Laws h f k) actualinstall p b

  before_begin-Works : Works (before_begin h p)
  unfolding before_begin
  before_begin-Works = attempt-Works h _ f with attempt-Works h _ f

  after_commit-Works : Works after_commit
  unfolding after_commit
  after_commit-Works = emit-Works _ with emit-Works _

  create_rows-Reaches :
      (t : Tables)
      → has_row p.name t.packages ≡ false
      → Reaches t none (create_rows h b p) (created b p t) none
  unfolding create_rows transaction changed_by created
  create_rows-Reaches t n =
      db_do-Reaches h (insert_package p) t none none f (simp n)
      next db_do-Reaches h (insert_depends (bundle_depends p b)) (changed_by (insert_package p) t)
          none none f refl
      next db_do-Reaches h (insert_categories (bundle_categories p b))
          (changed_by (insert_depends (bundle_depends p b)) (changed_by (insert_package p) t)) none
          none f refl

  install_rows-Reaches :
      (t : Tables)
      → has_row p.name t.packages ≡ false
      → Reaches t none (install_rows h b p) (filled h b p t) none
  unfolding install_rows transaction changed_by filled
  install_rows-Reaches t n =
      outside-Reaches (λ _. before_rows h b p) t none before_rows-Works
      next create_rows-Reaches t n
      next outside-Reaches (λ _. before_begin h p) c none before_begin-Works
      next whatever-Reaches (db_do h begin_transaction) c c none (some c)
          (db_do-Reaches h begin_transaction c none (some c) f refl)
      next install_assets-Reaches h p f k (file_total p b) (phase_assets actualinstall p b)
          (first_spot p) c (some c) z (IsReady-phase actualinstall p b ready)
      next db_do-Reaches h commit_transaction (filled h b p t) (some c) none f refl
      next outside-Reaches (λ _. after_commit) (filled h b p t) none after_commit-Works
    where
      c : Tables
      c = created b p t

  pub install_pkg-Reaches :
      (t : Tables)
      → has_row p.name t.packages ≡ false
      → Reaches t none
          (bundle_read_install_pkg h b p)
          (changed_by (mark_clean p.name) (filled h b p t))
          none
  unfolding bundle_read_install_pkg do_actual_install do_post_install transaction
  install_pkg-Reaches t n =
      outside-Reaches (λ _. do_pre_install h b p) t none pre-Works
      next current_error-Reaches h (install_rows h b p) t (filled h b p t) none none
          (install_rows-Reaches t n)
      next (outside-Reaches (λ _. before_complete h b p) (filled h b p t) none complete-Works
          next db_do-Reaches h (mark_clean p.name) (filled h b p t) none none f refl)
      next outside-Reaches _ (changed_by (mark_clean p.name) (filled h b p t)) none (emit-Works _)

-- On a system where every call succeeds, every file that is looked for is there, and the root is
-- empty, a call for a package without a row returns MPORT_OK and installs it, where no transaction is
-- open, and every command and every file among the bundle's assets has its text.
pub bundle_read_install_pkg-succeeds :
    (h : Host) (b : Bundle) (p : Package) (w : World)
    → Healthy h
    → Finds h
    → h.root ≡ []
    → w.saved ≡ none
    → has_row p.name w.tables.packages ≡ false
    → All IsReadyRow b.assets
    → (v : World) × (bundle_read_install_pkg h b p w ≡ ok v) × (v.tables ≡ installed h b p w.tables)
unfolding At
bundle_read_install_pkg-succeeds h b p w f k z o n ready =
    let (v, e, a) = (install_pkg-Reaches h b p f k z ready w.tables n).reaches w (refl, o) in
    (v, e, cc (a.0, installed-filled h b p w.tables n))
