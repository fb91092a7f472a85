-- ===== src/Delete/Primitive.antt =====
-- libmport/delete_primative.c: `mport_delete_primative`.
pub mod Rows
pub mod Outcomes
pub mod Refused
pub mod Others
pub mod Succeeds
mod Tests
use mport.Base.{
  ℕ, zero, suc, ◌+◌, Bool, true, false, Option, some, List, [], ◌∷◌, if◌then◌else◌, length,
}
use mport.Base.Text.{Bytes, codes, str_eq}
use mport.Db.{
  Steps, row, finished, failed, Query, unprepared, prepared, ok, err, undefined, ◌>>=◌, select,
}
use mport.Plist.Command.{
  file, sample, sample_owner_mode, shell, file_owner_mode, preunexec, postunexec,
}
use mport.Preconditions.{filter_rows}
use mport.Store.{
  AssetRow, Tables, Package, Sql, begin_transaction, commit_transaction, mark_dirty, delete_assets,
  delete_depends, delete_packages, delete_categories, started, stopped_service, shown_message,
  logged, Select, count_files, all_assets, Host, Trace, World, locked_package, sql_error, Act,
  ◌and_then◌, nothing, with_event, emit, attempt, outside, db_do,
}
use mport.Lock.{lock_islocked}
use mport.Delete.Commands.{
  each_row, has_type, run_unexec, run_unldconfig, run_pkg_deinstall, run_special_unexec,
  delete_pkg_infra, first_count, check_for_upwards_depends,
}
use mport.Delete.Assets.{progress, delete_asset}

-- The files of the package, as the progress meter counts them, with one step for the database.
unfoldable pub total_steps : Package → Tables → ℕ
total_steps p ts =
    length (
      filter_rows
        (has_type p.name (file ∷ sample ∷ sample_owner_mode ∷ shell ∷ file_owner_mode ∷ []))
        ts.assets)
    + 1

-- The statement gives one row; the number is read again by `total_steps`, from the same tables.
unfoldable pub count_assets : Host → Package → Tables → Act Trace
count_assets h p ts t =
    first_count (λ n u. ok (record u { current = 0 }))
      (select (h.fault t.events count_files) (total_steps p ts ∷ [])) t

unfoldable pub refuse_locked : Package → Act Trace
refuse_locked p t = if lock_islocked (some p) then err (locked_package, t) else ok t

unfoldable pub each_asset : (AssetRow → Act Trace) → Query AssetRow → Act Trace
each_asset f unprepared t = err (sql_error, t)
each_asset f (prepared s) t = each_row f s t

unfoldable pub delete_all_assets : Host → Package → Tables → Act Trace
delete_all_assets h p ts t =
    each_asset (delete_asset h p ts (total_steps p ts))
      (select (h.fault t.events all_assets)
        (filter_rows (λ (r : AssetRow). str_eq r.pkg p.name) ts.assets))
      t

-- up to the statement that marks the package
unfoldable pub before_delete : Host → Package → Bool → Tables → Act Trace
before_delete h p force ts =
    (if force then nothing else check_for_upwards_depends h p ts)
    and_then emit started
    and_then emit stopped_service
    and_then count_assets h p ts
    and_then refuse_locked p

unfoldable pub delete_files : Host → Package → Tables → Act Trace
delete_files h p ts =
    run_unexec h p preunexec ts
    and_then run_unldconfig h p ts
    and_then run_pkg_deinstall h p (codes "DEINSTALL")
    and_then delete_all_assets h p ts
    and_then run_unexec h p postunexec ts
    and_then run_special_unexec h p ts
    and_then run_pkg_deinstall h p (codes "POST-DEINSTALL")

-- the four statements inside the transaction
unfoldable pub delete_rows : Host → Package → Act World
delete_rows h p =
    db_do h (delete_assets p.name)
    and_then db_do h (delete_depends p.name)
    and_then db_do h (delete_packages p.name)
    and_then db_do h (delete_categories p.name)

unfoldable pub last_traces : Host → Package → Tables → Act Trace
last_traces h p ts = attempt h shown_message and_then delete_pkg_infra h p

unfoldable pub after_delete : Package → Tables → Act Trace
after_delete p ts =
    progress (total_steps p ts) (codes "DB Updated")
    and_then emit (logged (some (codes "Package deleted")))

unfoldable pub delete_primative : Host → Package → Bool → Act World
unfolding before_delete delete_files delete_rows last_traces after_delete
delete_primative h p force w0 =
    (outside (before_delete h p force)
        and_then db_do h (mark_dirty p.name)
        and_then outside (delete_files h p)
        and_then db_do h begin_transaction
        and_then delete_rows h p
        and_then outside (last_traces h p)
        and_then db_do h commit_transaction
        and_then outside (λ _. after_delete p w0.tables))
      w0
