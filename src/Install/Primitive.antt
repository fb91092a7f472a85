-- ===== src/Install/Primitive.antt =====
-- libmport/bundle_read_install_pkg.c: `do_actual_install`, `mark_complete` and
-- `mport_bundle_read_install_pkg`.
pub mod Rows
pub mod Ended
pub mod Transaction
pub mod Errors
pub mod Outcomes
pub mod Failed
pub mod Refused
pub mod Loop
pub mod Succeeds
pub mod Others
pub mod RoundTrip
pub mod Counts
pub mod Progress
use mport.Base.{ℕ, Option, none, some, List, [], ◌∷◌, ◌++◌, if◌then◌else◌}
use mport.Base.Text.{codes, str_eq}
use mport.Db.{Result, ok, err, undefined}
use mport.Plist.Command.{Entry}
use mport.Preconditions.{DependRow, filter_rows}
use mport.Store.{
  AssetRow, CategoryRow, Package, begin_transaction, commit_transaction, insert_package,
  insert_depends, insert_categories, insert_asset, mark_clean, started, changed_dir, logged,
  progress_done, prepared_insert, noted, no_error_set, Host, Trace, World, Why, unset_error,
  sql_error, locked_package, needed_by_others, failed_command, Act, ◌and_then◌, nothing, with_event,
  emit, attempt, outside, db_do,
}
use mport.Delete.{in_buffer}
use mport.Install.{
  Bundle, actualinstall, phase_assets, get_assetlist, file_total, get_file_count, Spot, first_spot,
  spot_after, row_of,
}
use mport.Install.Files.{place_asset}
use mport.Install.Commands.{do_pre_install, before_complete}

-- a call whose result is not read
unfoldable pub whatever : Result (Why × World) World → Result (Why × World) World
whatever (ok w) = ok w
whatever (err (why, w)) = ok w
whatever undefined = undefined

unfoldable pub insert_row : Host → Option AssetRow → Act World
insert_row h none w = undefined
insert_row h (some r) w = db_do h (insert_asset r) w

-- one turn of the loop: the asset is placed, and its row follows with the variables behind it
unfoldable pub install_asset : Host → Package → ℕ → Entry → Spot → Act World
install_asset h p total e s =
    outside (λ _. place_asset h p total e s)
    and_then insert_row h (row_of h p e (spot_after h p e s))

unfoldable pub install_assets : Host → Package → ℕ → List Entry → Spot → Act World
install_assets h p total [] s = nothing
install_assets h p total (e ∷ es) s =
    install_asset h p total e s and_then install_assets h p total es (spot_after h p e s)

-- the rows that the stub database has of the package
unfoldable pub bundle_depends : Package → Bundle → List DependRow
bundle_depends p b = filter_rows (λ (r : DependRow). str_eq r.pkg p.name) b.depends

unfoldable pub bundle_categories : Package → Bundle → List CategoryRow
bundle_categories p b = filter_rows (λ (r : CategoryRow). str_eq r.pkg p.name) b.categories

unfoldable pub before_rows : Host → Bundle → Package → Act Trace
before_rows h b p =
    get_file_count h p b and_then emit started and_then get_assetlist h actualinstall p b

-- create_package_row, create_depends and create_categories, outside the transaction
unfoldable pub create_rows : Host → Bundle → Package → Act World
create_rows h b p =
    db_do h (insert_package p)
    and_then db_do h (insert_depends (bundle_depends p b))
    and_then db_do h (insert_categories (bundle_categories p b))

unfoldable pub before_begin : Host → Package → Act Trace
before_begin h p =
    attempt h prepared_insert and_then attempt h (changed_dir (h.root ++ in_buffer p.prefix))

unfoldable pub after_commit : Act Trace
after_commit = emit (logged (some (codes "Installed"))) and_then emit progress_done

unfoldable pub install_rows : Host → Bundle → Package → Act World
install_rows h b p =
    outside (λ _. before_rows h b p)
    and_then create_rows h b p
    and_then outside (λ _. before_begin h p)
    and_then (λ w. whatever (db_do h begin_transaction w))
    and_then install_assets h p (file_total p b) (phase_assets actualinstall p b) (first_spot p)
    and_then db_do h commit_transaction
    and_then outside (λ _. after_commit)

-- The label ERROR: the current error is returned, which is MPORT_OK where no error was ever set.
unfoldable pub current_error : Host → Result (Why × World) World → Result (Why × World) World
current_error h (ok w) = ok w
current_error h undefined = undefined
current_error h (err (why, w)) =
    let v = record w { trace = with_event progress_done w.trace } in
    elim why [
      | unset_error ↦ if h.succeeds v.trace.events no_error_set then ok v else err (unset_error, v)
      | sql_error ↦ err (sql_error, v)
      | locked_package ↦ err (locked_package, v)
      | needed_by_others ↦ err (needed_by_others, v)
      | failed_command ↦ err (failed_command, v)
    ]

unfoldable pub do_actual_install : Host → Bundle → Package → Act World
do_actual_install h b p w = current_error h (install_rows h b p w)

unfoldable pub do_post_install : Host → Bundle → Package → Act World
do_post_install h b p = outside (λ _. before_complete h b p) and_then db_do h (mark_clean p.name)

unfoldable pub bundle_read_install_pkg : Host → Bundle → Package → Act World
bundle_read_install_pkg h b p =
    outside (λ _. do_pre_install h b p)
    and_then do_actual_install h b p
    and_then do_post_install h b p
    and_then outside (λ _. emit (noted (p.name ++ b'-' ∷ p.version ++ codes " installed")))
