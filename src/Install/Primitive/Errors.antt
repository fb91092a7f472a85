-- ===== src/Install/Primitive/Errors.antt =====
-- `do_actual_install` of libmport/bundle_read_install_pkg.c: where no directory has a mode of its
-- own, every error of the loop is set before the current error is returned.
use mport.Base.{
  ℕ, Bool, true, false, ◌≡◌, Option, none, some, List, [], ◌∷◌, ◌+◌, All, arith, if◌then◌else◌,
}
use mport.Db.{ok, err, undefined, Result}
use mport.Plist.Command.{Entry}
use mport.Store.{
  AssetRow, Tables, Package, Sql, executed, Event, advanced, begin_transaction, Host, Trace, World,
  Why, unset_error, sql_error, locked_package, needed_by_others, failed_command, Act, emit, outside,
  with_trace, transaction, settle, db_do, insert_asset,
}
use mport.Delete.{of_types}
use mport.Install.{
  Bundle, Spot, first_spot, spot_after, row_of, phase_assets, actualinstall, file_total,
}
use mport.Install.Files.{is_empty, place_asset}
use mport.Install.Laws.{
  IsReported, Sets, both-Sets, ok-Sets, attempt-Sets, emit-Sets, Sets-Laws, is_quiet,
}
use mport.Install.Places.{dir_types, place_asset-Has}
use mport.Install.Around.{get_assetlist-Has, get_file_count-Has}
use mport.Install.Primitive.{
  whatever, insert_row, install_asset, install_assets, before_rows, create_rows, before_begin,
  after_commit, install_rows,
}

-- a directory among the entries has no mode of its own
unfoldable pub PlainDir : Entry → Type 0
PlainDir e = of_types dir_types e.type ≡ true → is_empty e.mode ≡ true

with_trace-IsReported :
    (w : World) (r : Result (Why × Trace) Trace) → IsReported r → IsReported (with_trace w r)
unfolding IsReported with_trace
with_trace-IsReported w (ok t) k = tt
with_trace-IsReported w undefined k = tt
with_trace-IsReported w (err (unset_error, t)) k = absurd k
with_trace-IsReported w (err (sql_error, t)) k = tt
with_trace-IsReported w (err (locked_package, t)) k = tt
with_trace-IsReported w (err (needed_by_others, t)) k = tt
with_trace-IsReported w (err (failed_command, t)) k = tt

pub outside-Sets : (a : Tables → Act Trace) → ((t : Tables) → Sets (a t)) → Sets (outside a)
unfolding outside
outside-Sets a f = record {
  sets = λ w. with_trace-IsReported w (a w.tables w.trace) ((f w.tables).sets w.trace);
}

settle-IsReported : (s : Sql) (w : World) (x : Option (Option Tables)) → IsReported (settle s w x)
unfolding IsReported settle
settle-IsReported s w none = tt
settle-IsReported s w (some o) = tt

db_do-Sets : (h : Host) (s : Sql) → Sets (db_do h s)
unfolding db_do
db_do-Sets h s = record {
  sets = λ w.
      settle-IsReported s w
        (if h.succeeds w.trace.events (executed s) then transaction s w.tables w.saved else none);
}

whatever-IsReported : (r : Result (Why × World) World) → IsReported (whatever r)
unfolding IsReported whatever
whatever-IsReported (ok w) = tt
whatever-IsReported (err (why, w)) = tt
whatever-IsReported undefined = tt

insert_row-Sets : (h : Host) (r : Option AssetRow) → Sets (insert_row h r)
unfolding insert_row IsReported
insert_row-Sets h none = record { sets = λ w. tt }
insert_row-Sets h (some r) = record { sets = (db_do-Sets h (insert_asset r)).sets }

module _ (h : Host) (p : Package) where
  place_asset-Sets :
      (total : ℕ) (e : Entry) (s : Spot) → PlainDir e → Sets (place_asset h p total e s)
  unfolding PlainDir IsReported
  place_asset-Sets total e s d =
      place_asset-Has h Sets (Sets-Laws h) p total e s
        (λ u m v q. absurd (clash (is_empty e.mode) (d u) m)) (λ u n. record { sets = λ t. tt })
        (λ u path. step (advanced (s.count + 1) total path))
    where
      clash : (b : Bool) → b ≡ true → b ≡ false → ⊥
      clash b x y = ground arith

      step : (v : Event) → Sets (emit v)
      step v = emit-Sets v

  install_assets-Sets :
      (total : ℕ) (es : List Entry) (s : Spot)
      → All PlainDir es
      → Sets (install_assets h p total es s)
  unfolding install_assets install_asset
  install_assets-Sets total [] s k = ok-Sets (λ w. w)
  install_assets-Sets total (e ∷ es) s (k, ks) =
      both-Sets
        (both-Sets
          (outside-Sets (λ _. place_asset h p total e s) (λ _. place_asset-Sets total e s k))
          (insert_row-Sets h (row_of h p e (spot_after h p e s))))
        (install_assets-Sets total es (spot_after h p e s) ks)

  pub install_rows-Sets :
      (b : Bundle) → All PlainDir (phase_assets actualinstall p b) → Sets (install_rows h b p)
  unfolding install_rows create_rows before_rows before_begin after_commit is_quiet
  install_rows-Sets b k =
      both-Sets
        (outside-Sets _ (λ _.
          both-Sets (get_file_count-Has h Sets (Sets-Laws h) p b)
            (both-Sets (emit-Sets _) (get_assetlist-Has h Sets (Sets-Laws h) actualinstall p b))))
        (both-Sets (both-Sets (db_do-Sets h _) (both-Sets (db_do-Sets h _) (db_do-Sets h _))) (
          both-Sets (outside-Sets _ (λ _. both-Sets (attempt-Sets h _) (attempt-Sets h _))) (
            both-Sets (record { sets = λ w. whatever-IsReported (db_do h begin_transaction w) })
              (both-Sets
                (install_assets-Sets (file_total p b) (phase_assets actualinstall p b)
                  (first_spot p) k)
                (both-Sets (db_do-Sets h _)
                  (outside-Sets _ (λ _. both-Sets (emit-Sets _) (emit-Sets _))))))))
