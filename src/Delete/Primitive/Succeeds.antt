-- ===== src/Delete/Primitive/Succeeds.antt =====
-- `mport_delete_primative` of libmport/delete_primative.c succeeds on a system where every call
-- succeeds.
use mport.Base.{Bool, false, ◌≡◌, refl, none, some, [], ◌∷◌, All}
use mport.Base.Text.{codes, str_eq}
use mport.Db.{ok}
use mport.Preconditions.{filter_rows}
use mport.Store.{
  AssetRow, Tables, Package, begin_transaction, commit_transaction, mark_dirty, delete_assets,
  delete_depends, delete_packages, delete_categories, started, stopped_service, shown_message,
  count_files, all_assets, Host, World, nothing, changed_by, transaction,
}
use mport.Store.Ends.{At}
use mport.Store.Works.{
  Healthy, Works, ◌with◌, nothing-Works, emit-Works, attempt-Works, if-Works, select-Works, Reaches,
  ◌next◌, outside-Reaches, db_do-Reaches,
}
use mport.Lock.{lock_islocked}
use mport.Delete.Commands.{first_count, check_for_upwards_depends}
use mport.Delete.Works.{IsComplete, each_row-Works, All-filter}
use mport.Delete.CommandWorks.{
  run_preunexec-Works, run_postunexec-Works, run_unldconfig-Works, run_special_unexec-Works,
}
use mport.Delete.InfraWorks.{
  run_pkg_deinstall-Works, delete_pkg_infra-Works, check_for_upwards_depends-Works,
}
use mport.Delete.Assets.{delete_asset}
use mport.Delete.AssetWorks.{delete_asset-Works, progress-Works}
use mport.Delete.Primitive.{
  total_steps, count_assets, refuse_locked, each_asset, delete_all_assets, before_delete,
  delete_files, delete_rows, last_traces, after_delete, delete_primative,
}
use mport.Delete.Primitive.Rows.{uninstalled, uninstalled-dirty, dirty}

count_assets-Works :
    (h : Host) (p : Package) (ts : Tables) → Healthy h → Works (count_assets h p ts)
unfolding count_assets first_count
count_assets-Works h p ts f = record {
  works =
      (select-Works h count_files (total_steps p ts ∷ [])
        (first_count (λ n u. ok (record u { current = 0 }))) f
        (record { works = λ t. (record t { current = 0 }, refl) })).works;
}

refuse_locked-Works : (p : Package) → lock_islocked (some p) ≡ false → Works (refuse_locked p)
unfolding refuse_locked
refuse_locked-Works p e = record { works = λ t. (t, simp e) }

delete_all_assets-Works :
    (h : Host) (p : Package) (ts : Tables)
    → Healthy h
    → All IsComplete ts.assets
    → Works (delete_all_assets h p ts)
unfolding delete_all_assets each_asset
delete_all_assets-Works h p ts f c = record {
  works =
      (select-Works h all_assets (filter_rows (λ (r : AssetRow). str_eq r.pkg p.name) ts.assets)
        (each_asset (delete_asset h p ts (total_steps p ts))) f
        (record {
          works =
              (each_row-Works (delete_asset h p ts (total_steps p ts))
                (filter_rows (λ (r : AssetRow). str_eq r.pkg p.name) ts.assets)
                (All-filter IsComplete
                  (λ (r : AssetRow). Works (delete_asset h p ts (total_steps p ts) r))
                  (λ (r : AssetRow). str_eq r.pkg p.name) ts.assets
                  (λ r e k. delete_asset-Works h p ts (total_steps p ts) r f k) c)).works;
        })).works;
}

before_delete-Works :
    (h : Host) (p : Package) (force : Bool) (ts : Tables)
    → Healthy h
    → lock_islocked (some p) ≡ false
    → Works (before_delete h p force ts)
unfolding before_delete
before_delete-Works h p force ts f e =
    if-Works force nothing (check_for_upwards_depends h p ts) (λ _. nothing-Works)
      (λ _. check_for_upwards_depends-Works h p ts f)
    with emit-Works started
    with emit-Works stopped_service
    with count_assets-Works h p ts f
    with refuse_locked-Works p e

delete_files-Works :
    (h : Host) (p : Package) (ts : Tables)
    → Healthy h
    → All IsComplete ts.assets
    → Works (delete_files h p ts)
unfolding delete_files
delete_files-Works h p ts f c =
    run_preunexec-Works h p ts f c
    with run_unldconfig-Works h p ts f
    with run_pkg_deinstall-Works h p (codes "DEINSTALL") f
    with delete_all_assets-Works h p ts f c
    with run_postunexec-Works h p ts f c
    with run_special_unexec-Works h p ts f c
    with run_pkg_deinstall-Works h p (codes "POST-DEINSTALL") f

last_traces-Works : (h : Host) (p : Package) (ts : Tables) → Healthy h → Works (last_traces h p ts)
unfolding last_traces
last_traces-Works h p ts f = attempt-Works h shown_message f with delete_pkg_infra-Works h p f

after_delete-Works : (p : Package) (ts : Tables) → Works (after_delete p ts)
unfolding after_delete
after_delete-Works p ts = progress-Works _ _ with emit-Works _

delete_rows-Reaches :
    (h : Host) (p : Package) (t : Tables) (o : Tables)
    → Healthy h
    → Reaches t (some o) (delete_rows h p) (uninstalled p.name t) (some o)
unfolding delete_rows transaction changed_by uninstalled
delete_rows-Reaches h p t o f =
    db_do-Reaches h (delete_assets p.name) t (some o) (some o) f refl
    next db_do-Reaches h (delete_depends p.name) (changed_by (delete_assets p.name) t) (some o)
        (some o) f refl
    next db_do-Reaches h (delete_packages p.name)
        (changed_by (delete_depends p.name) (changed_by (delete_assets p.name) t)) (some o) (some o)
        f refl
    next db_do-Reaches h (delete_categories p.name)
        (changed_by (delete_packages p.name)
          (changed_by (delete_depends p.name) (changed_by (delete_assets p.name) t)))
        (some o) (some o) f refl

delete_primative-Reaches :
    (h : Host) (p : Package) (force : Bool) (w : World)
    → Healthy h
    → lock_islocked (some p) ≡ false
    → All IsComplete w.tables.assets
    → At w.tables none w
    → (v : World) × (delete_primative h p force w ≡ ok v)
      × At (uninstalled p.name (dirty p.name w.tables)) none v
unfolding delete_primative transaction changed_by dirty
delete_primative-Reaches h p force w f l c a =
    (outside-Reaches (before_delete h p force) t none (before_delete-Works h p force t f l)
        next db_do-Reaches h (mark_dirty p.name) t none none f refl
        next outside-Reaches (delete_files h p) d none (delete_files-Works h p d f c)
        next db_do-Reaches h begin_transaction d none (some d) f refl
        next delete_rows-Reaches h p d d f
        next outside-Reaches (last_traces h p) (uninstalled p.name d) (some d)
            (last_traces-Works h p (uninstalled p.name d) f)
        next db_do-Reaches h commit_transaction (uninstalled p.name d) (some d) none f refl
        next outside-Reaches (λ _. after_delete p t) (uninstalled p.name d) none
            (after_delete-Works p t)).reaches
      w a
  where
    t : Tables
    t = w.tables

    d : Tables
    d = changed_by (mark_dirty p.name) w.tables

-- On a system where every call succeeds, with every hash known, the deletion of a package that is
-- not locked returns MPORT_OK and removes its rows, where no transaction is open, every command and
-- kernel module among the assets has its text, and every sample its checksum.
pub delete_primative-succeeds :
    (h : Host) (p : Package) (force : Bool) (w : World)
    → Healthy h
    → lock_islocked (some p) ≡ false
    → w.saved ≡ none
    → All IsComplete w.tables.assets
    → (v : World) × (delete_primative h p force w ≡ ok v) × (v.tables ≡ uninstalled p.name w.tables)
unfolding At
delete_primative-succeeds h p force w f l s c =
    let (v, e, a) = delete_primative-Reaches h p force w f l c (refl, s) in
    (v, e, cc (a.0, uninstalled-dirty p.name w.tables))
