-- ===== src/Install/Primitive/Progress.antt =====
-- The progress meter of `do_actual_install` in libmport/bundle_read_install_pkg.c: no step is beyond
-- the total that `get_file_count` has read.
use mport.Base.{
  ℕ, suc, ◌+◌, ◌≤◌, Bool, true, false, ◌≡◌, refl, Option, none, some, List, [], ◌∷◌, All, arith,
  if◌then◌else◌,
}
use mport.Db.{ok, err, undefined, Result}
use mport.Plist.Command.{AssetType, Entry}
use mport.Store.{
  AssetRow, Tables, Package, Sql, executed, Event, advanced, progress_done, no_error_set,
  begin_transaction, Host, Trace, World, Why, unset_error, sql_error, locked_package,
  needed_by_others, failed_command, Act, nothing, with_event, outside, with_trace, transaction,
  settle, db_do, insert_asset, mark_clean, commit_transaction,
}
use mport.Store.Ends.{Ends, Triple, ◌then◌}
use mport.Delete.{of_types}
use mport.Install.{
  Bundle, Spot, first_spot, spot_after, row_of, file_types, phase_assets, actualinstall, file_total,
}
use mport.Install.Files.{attempt_unset, place_asset}
use mport.Install.Laws.{is_quiet, Every, Keeps, Laws, emit-Keeps, Keeps-Laws}
use mport.Install.Places.{place_asset-Has}
use mport.Install.Around.{get_assetlist-Has, get_file_count-Has}
use mport.Install.Primitive.{
  whatever, insert_row, install_asset, install_assets, before_rows, create_rows, before_begin,
  after_commit, install_rows, current_error, do_actual_install, do_post_install,
  bundle_read_install_pkg,
}
use mport.Install.Commands.{do_pre_install, before_complete}
use mport.Install.Phases.{Stuck, do_pre_install-Has, before_complete-Has}
use mport.Install.Primitive.Counts.{
  Within, quiet-Within, count_files, count_files-map, spot_after-count,
}

abbrev Bound : Act World → Type 0
Bound a =
    Triple (λ (w : World). Every Within w.trace.events) a
      (λ (w : World). Every Within w.trace.events) (λ (w : World). Every Within w.trace.events)

with_trace-Ends :
    (w : World) (r : Result (Why × Trace) Trace)
    → Ends (λ (t : Trace). Every Within t.events) (λ (t : Trace). Every Within t.events) r
    → Ends
        (λ (v : World). Every Within v.trace.events)
        (λ (v : World). Every Within v.trace.events)
        (with_trace w r)
unfolding Ends with_trace
with_trace-Ends w (ok t) k = k
with_trace-Ends w (err (why, t)) k = k
with_trace-Ends w undefined k = tt

outside-Bound : (a : Tables → Act Trace) → ((t : Tables) → Keeps Within (a t)) → Bound (outside a)
unfolding outside Keeps
outside-Bound a f = record {
  ends = λ w k. with_trace-Ends w (a w.tables w.trace) ((f w.tables).ends w.trace k);
}

settle-Bound :
    (s : Sql) (w : World) (x : Option (Option Tables))
    → Every Within w.trace.events
    → Ends
        (λ (v : World). Every Within v.trace.events)
        (λ (v : World). Every Within v.trace.events)
        (settle s w x)
unfolding Ends settle Every Within
settle-Bound s w none k = (tt, k)
settle-Bound s w (some o) k = (tt, k)

db_do-Bound : (h : Host) (s : Sql) → Bound (db_do h s)
unfolding db_do
db_do-Bound h s = record {
  ends = λ w k.
      settle-Bound s w
        (if h.succeeds w.trace.events (executed s) then transaction s w.tables w.saved else none) k;
}

whatever-Bound : (a : Act World) → Bound a → Bound (λ w. whatever (a w))
unfolding whatever Ends
whatever-Bound a f = record { ends = λ w k. go (a w) (f.ends w k) }
  where
    go :
        (r : Result (Why × World) World)
        → Ends
            (λ (v : World). Every Within v.trace.events)
            (λ (v : World). Every Within v.trace.events)
            r
        → Ends
            (λ (v : World). Every Within v.trace.events)
            (λ (v : World). Every Within v.trace.events)
            (whatever r)
    go (ok w) k = k
    go (err (why, w)) k = k
    go undefined k = tt

insert_row-Bound : (h : Host) (o : Option AssetRow) → Bound (insert_row h o)
unfolding insert_row Ends
insert_row-Bound h none = record { ends = λ w k. tt }
insert_row-Bound h (some r) = record { ends = (db_do-Bound h (insert_asset r)).ends }

attempt_unset-Keeps : (h : Host) (e : Event) → is_quiet e ≡ true → Keeps Within (attempt_unset h e)
unfolding attempt_unset Keeps Every Ends
attempt_unset-Keeps h e q = record {
  ends = λ t k. go (h.succeeds t.events e) (with_event e t) (quiet-Within e q, k);
}
  where
    go :
        (b : Bool) (t : Trace)
        → Every Within t.events
        → Ends
            (λ (u : Trace). Every Within u.events)
            (λ (u : Trace). Every Within u.events)
            (if b then ok t else err (unset_error, t))
    go true t k = k
    go false t k = k

undefined-Keeps : Keeps Within (λ (t : Trace). undefined)
unfolding Keeps Ends
undefined-Keeps = record { ends = λ t k. tt }

module _ (h : Host) (p : Package) where
  place_asset-Keeps :
      (total : ℕ) (e : Entry) (s : Spot)
      → (of_types file_types e.type ≡ true → s.count + 1 ≤ total)
      → Keeps Within (place_asset h p total e s)
  unfolding Within
  place_asset-Keeps total e s f =
      place_asset-Has h (Keeps Within) (Keeps-Laws Within h quiet-Within) p total e s
        (λ u m v q. attempt_unset-Keeps h v q) (λ u n. undefined-Keeps)
        (λ d path. emit-Keeps Within (advanced (s.count + 1) total path) (f d))

  nothing-Bound : Bound nothing
  unfolding Ends
  nothing-Bound = record { ends = λ w k. k }

  install_assets-Bound :
      (total : ℕ) (es : List Entry) (s : Spot)
      → s.count + count_files es ≤ total
      → Bound (install_assets h p total es s)
  unfolding install_assets install_asset count_files
  install_assets-Bound total [] s k = nothing-Bound
  install_assets-Bound total (e ∷ es) s k =
      (outside-Bound (λ _. place_asset h p total e s)
          (λ _.
            place_asset-Keeps total e s
              (λ d. here (of_types file_types e.type) (count_files es) d k))
        then insert_row-Bound h (row_of h p e (spot_after h p e s)))
      then install_assets-Bound total es (spot_after h p e s) (
          next (of_types file_types e.type) (count_files es) ((spot_after h p e s).count) k
            (spot_after-count h p e s))
    where
      here :
          (c : Bool) (n : ℕ)
          → c ≡ true
          → s.count + (if c then suc n else n) ≤ total
          → s.count + 1 ≤ total
      here true n d k = omega (arith, k)
      here false n d k = absurd (ground arith)

      next :
          (c : Bool) (n m : ℕ)
          → s.count + (if c then suc n else n) ≤ total
          → m ≤ s.count + (if c then 1 else 0)
          → m + n ≤ total
      next true n m k f = omega (arith, k, f)
      next false n m k f = omega (arith, k, f)

  create_rows-Bound : (b : Bundle) → Bound (create_rows h b p)
  unfolding create_rows
  create_rows-Bound b = db_do-Bound h _ then db_do-Bound h _ then db_do-Bound h _

  install_rows-Bound : (b : Bundle) → Bound (install_rows h b p)
  unfolding install_rows before_rows before_begin after_commit is_quiet first_spot file_total
      phase_assets
  install_rows-Bound b =
      outside-Bound (λ _. before_rows h b p)
        (λ _.
          l.follows (get_file_count-Has h (Keeps Within) l p b)
            (l.follows (l.emits _ refl) (get_assetlist-Has h (Keeps Within) l actualinstall p b)))
      then create_rows-Bound b
      then outside-Bound (λ _. before_begin h p)
          (λ _. l.follows (l.attempts _ refl) (l.attempts _ refl))
      then whatever-Bound (db_do h begin_transaction) (db_do-Bound h begin_transaction)
      then install_assets-Bound (file_total p b) (phase_assets actualinstall p b) (first_spot p)
          (let k = count_files-map p.name b.assets in omega (arith, k))
      then db_do-Bound h commit_transaction
      then outside-Bound (λ _. after_commit) (λ _. l.follows (l.emits _ refl) (l.emits _ refl))
    where
      l : Laws h (Keeps Within)
      l = Keeps-Laws Within h quiet-Within

current_error-Bound :
    (h : Host) (r : Result (Why × World) World)
    → Ends
        (λ (v : World). Every Within v.trace.events)
        (λ (v : World). Every Within v.trace.events)
        r
    → Ends
        (λ (v : World). Every Within v.trace.events)
        (λ (v : World). Every Within v.trace.events)
        (current_error h r)
unfolding current_error Ends Every Within
current_error-Bound h (ok w) k = k
current_error-Bound h undefined k = tt
current_error-Bound h (err (unset_error, w)) k =
    go (h.succeeds (progress_done ∷ w.trace.events) no_error_set)
      (record w { trace = with_event progress_done w.trace }) (tt, k)
  where
    go :
        (b : Bool) (v : World)
        → Every Within v.trace.events
        → Ends
            (λ (v : World). Every Within v.trace.events)
            (λ (v : World). Every Within v.trace.events)
            (if b then ok v else err (unset_error, v))
    go true v k = k
    go false v k = k
current_error-Bound h (err (sql_error, w)) k = (tt, k)
current_error-Bound h (err (locked_package, w)) k = (tt, k)
current_error-Bound h (err (needed_by_others, w)) k = (tt, k)
current_error-Bound h (err (failed_command, w)) k = (tt, k)

never-Stuck : (types : List AssetType) (es : List Entry) → All (Stuck (Keeps Within) types) es
unfolding Stuck
never-Stuck types [] = tt
never-Stuck types (e ∷ es) = ((λ d n. undefined-Keeps), never-Stuck types es)

install_pkg-Bound : (h : Host) (b : Bundle) (p : Package) → Bound (bundle_read_install_pkg h b p)
unfolding bundle_read_install_pkg do_actual_install do_post_install is_quiet
install_pkg-Bound h b p =
    outside-Bound (λ _. do_pre_install h b p)
      (λ _. do_pre_install-Has h (Keeps Within) l b p (never-Stuck _ _))
    then record {
      ends =
          λ w k. current_error-Bound h (install_rows h b p w) ((install_rows-Bound h p b).ends w k);
    }
    then (outside-Bound (λ _. before_complete h b p)
          (λ _. before_complete-Has h (Keeps Within) l b p (never-Stuck _ _))
        then db_do-Bound h (mark_clean p.name))
    then outside-Bound _ (λ _. l.emits _ refl)
  where
    l : Laws h (Keeps Within)
    l = Keeps-Laws Within h quiet-Within

-- However an installation ends, no step that it has told the progress meter is beyond the total that
-- was told with it, where that holds of the steps before the call.
pub bundle_read_install_pkg-Within :
    (h : Host) (b : Bundle) (p : Package) (w : World)
    → Every Within w.trace.events
    → Ends
        (λ (v : World). Every Within v.trace.events)
        (λ (v : World). Every Within v.trace.events)
        (bundle_read_install_pkg h b p w)
bundle_read_install_pkg-Within h b p w k = (install_pkg-Bound h b p).ends w k
