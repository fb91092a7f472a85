-- ===== src/Install/Primitive/Transaction.antt =====
-- `do_actual_install` of libmport/bundle_read_install_pkg.c around its transaction: the BEGIN whose
-- result is not read, the loop, the COMMIT, and the return of the current error.
use mport.Base.{Bool, true, false, ◌≡◌, refl, ◌⊎◌, inl, inr, Option, none, some, ◌∷◌, if◌then◌else◌}
use mport.Db.{ok, err, undefined, Result}
use mport.Store.{
  Tables, Package, begin_transaction, commit_transaction, progress_done, no_error_set, Host, World,
  Why, unset_error, sql_error, locked_package, needed_by_others, failed_command, Act, ◌and_then◌,
  with_event, emit, outside, with_trace, changed_by, transaction, has_row, db_do,
}
use mport.Store.Ends.{Ends, Triple, weaken, ◌then◌, At, db_do-Triple, db_do-refused}
use mport.Delete.Primitive.Rows.{outside-At}
use mport.Install.{Bundle, first_spot, phase_assets, actualinstall, file_total}
use mport.Install.Laws.{IsReported}
use mport.Install.Primitive.{
  whatever, install_assets, before_begin, after_commit, install_rows, current_error,
}
use mport.Install.Primitive.Rows.{created, install_assets-Triple}
use mport.Install.Primitive.Ended.{
  filled, filled-Stopped, Ended, create_rows-Triple, create_rows-refused, none-Ended, created-Ended,
  open-Ended, Stopped-Ended,
}

-- the transaction is open, or BEGIN was refused and none is
unfoldable Begun : Tables → World → Type 0
Begun c w = At c (some c) w ⊎ At c none w

whatever-Ends :
    (P E Q : World → Type 0) (r : Result (Why × World) World)
    → Ends P E r
    → ((w : World) → P w → Q w)
    → ((w : World) → E w → Q w)
    → Ends Q (λ _. ⊥) (whatever r)
unfolding Ends whatever
whatever-Ends P E Q (ok w) k f g = f w k
whatever-Ends P E Q (err (why, w)) k f g = g w k
whatever-Ends P E Q undefined k f g = tt

begin-Triple :
    (h : Host) (c : Tables)
    → Triple (At c none) (λ w. whatever (db_do h begin_transaction w)) (Begun c) (λ _. ⊥)
unfolding transaction changed_by Begun
begin-Triple h c = record {
  ends = λ w k.
      whatever-Ends (At c (some c)) (At c none) (Begun c) (db_do h begin_transaction w)
        ((db_do-Triple h begin_transaction c none (some c) refl).ends w k) (λ v q. inl q)
        (λ v q. inr q);
}

either :
    (P Q R E : World → Type 0) (a : Act World)
    → Triple P a R E
    → Triple Q a R E
    → Triple (λ w. P w ⊎ Q w) a R E
either P Q R E a f g = record { ends = λ w k. split w k }
  where
    split : (w : World) → P w ⊎ Q w → Ends R E (a w)
    split w (inl k) = f.ends w k
    split w (inr k) = g.ends w k

-- the last steps cannot fail
after_commit-Triple :
    (u : Tables) (F : World → Type 0)
    → Triple (At u none) (outside (λ _. after_commit)) (At u none) F
unfolding outside with_trace after_commit emit Ends At
after_commit-Triple u F = record { ends = λ w h. h }

module _ (h : Host) (b : Bundle) (p : Package) (t : Tables) where
  from_begin : Act World
  from_begin =
      install_assets h p (file_total p b) (phase_assets actualinstall p b) (first_spot p)
      and_then db_do h commit_transaction
      and_then outside (λ _. after_commit)

  -- where the transaction is open
  opened-Triple :
      Triple
        (At (created b p t) (some (created b p t)))
        (from_begin)
        (At (filled h b p t) none)
        (Ended b p t)
  unfolding from_begin filled transaction changed_by
  opened-Triple =
      weaken (Ended b p t)
        (install_assets-Triple h p (file_total p b) (phase_assets actualinstall p b) (first_spot p)
          (created b p t) (some (created b p t)))
        (open-Ended b p t)
      then weaken (Ended b p t)
          (db_do-Triple h commit_transaction (filled h b p t) (some (created b p t)) none refl)
          (λ w k. open_At w k)
      then after_commit-Triple (filled h b p t) (Ended b p t)
    where
      open_At : (w : World) → At (filled h b p t) (some (created b p t)) w → Ended b p t w
      open_At w k = open-Ended b p t w (filled-Stopped h b p t (some (created b p t)) w k)

  -- where BEGIN was refused, COMMIT is refused too
  refused-Triple :
      Triple (At (created b p t) none) (from_begin) (At (filled h b p t) none) (Ended b p t)
  unfolding from_begin filled transaction changed_by
  refused-Triple =
      weaken (Ended b p t)
        (install_assets-Triple h p (file_total p b) (phase_assets actualinstall p b) (first_spot p)
          (created b p t) none)
        (Stopped-Ended b p t)
      then weaken (Ended b p t) (db_do-refused h commit_transaction (filled h b p t) none refl)
          (λ w k. Stopped-Ended b p t w (filled-Stopped h b p t none w k))
      then record { ends = λ w k. absurd k }

  from_begin-Triple :
      Triple (Begun (created b p t)) from_begin (At (filled h b p t) none) (Ended b p t)
  unfolding Begun
  from_begin-Triple =
      either (At (created b p t) (some (created b p t))) (At (created b p t) none)
        (At (filled h b p t) none) (Ended b p t) from_begin opened-Triple refused-Triple

  from_created : Act World
  from_created =
      outside (λ _. before_begin h p)
      and_then (λ w. whatever (db_do h begin_transaction w))
      and_then from_begin

  from_created-Triple :
      Triple (At (created b p t) none) from_created (At (filled h b p t) none) (Ended b p t)
  unfolding from_created
  from_created-Triple =
      weaken (Ended b p t) (outside-At _ (created b p t) none) (created-Ended b p t)
      then weaken (Ended b p t) (begin-Triple h (created b p t)) (λ w k. absurd k)
      then from_begin-Triple

  pub install_rows-Triple :
      has_row p.name t.packages ≡ false
      → Triple (At t none) (install_rows h b p) (At (filled h b p t) none) (Ended b p t)
  unfolding install_rows from_created from_begin
  install_rows-Triple e =
      weaken (Ended b p t) (outside-At _ t none) (none-Ended b p t)
      then create_rows-Triple b p t h e
      then from_created-Triple

  pub install_rows-refused :
      has_row p.name t.packages ≡ true
      → Triple (At t none) (install_rows h b p) (λ _. ⊥) (Ended b p t)
  unfolding install_rows from_created from_begin
  install_rows-refused e =
      weaken (Ended b p t) (outside-At _ t none) (none-Ended b p t)
      then create_rows-refused b p t h e
      then never
    where
      never : Triple (λ _. ⊥) from_created (λ _. ⊥) (Ended b p t)
      never = record { ends = λ w k. absurd k }

-- a predicate of the tables and the transaction of a state
module _ (R : Tables → Option Tables → Type 0) where
  if_Ends :
      (c : Bool) (v : World)
      → R v.tables v.saved
      → Ends
          (λ w. R w.tables w.saved)
          (λ w. R w.tables w.saved)
          (if c then ok v else err (unset_error, v))
  unfolding Ends
  if_Ends true v k = k
  if_Ends false v k = k

  -- whatever the current error is, the tables are those behind the error
  pub current_error-Keeps :
      (h : Host) (r : Result (Why × World) World)
      → Ends (λ w. R w.tables w.saved) (λ w. R w.tables w.saved) r
      → Ends (λ w. R w.tables w.saved) (λ w. R w.tables w.saved) (current_error h r)
  unfolding Ends current_error
  current_error-Keeps h (ok w) k = k
  current_error-Keeps h undefined k = tt
  current_error-Keeps h (err (unset_error, w)) k =
      if_Ends (h.succeeds (progress_done ∷ w.trace.events) no_error_set)
        (record w { trace = with_event progress_done w.trace }) k
  current_error-Keeps h (err (sql_error, w)) k = k
  current_error-Keeps h (err (locked_package, w)) k = k
  current_error-Keeps h (err (needed_by_others, w)) k = k
  current_error-Keeps h (err (failed_command, w)) k = k

  -- an error that was set is returned
  pub current_error-Ends :
      (h : Host) (Q : World → Type 0) (r : Result (Why × World) World)
      → IsReported r
      → Ends Q (λ w. R w.tables w.saved) r
      → Ends Q (λ w. R w.tables w.saved) (current_error h r)
  unfolding Ends current_error IsReported
  current_error-Ends h Q (ok w) s k = k
  current_error-Ends h Q undefined s k = tt
  current_error-Ends h Q (err (unset_error, w)) s k = absurd s
  current_error-Ends h Q (err (sql_error, w)) s k = k
  current_error-Ends h Q (err (locked_package, w)) s k = k
  current_error-Ends h Q (err (needed_by_others, w)) s k = k
  current_error-Ends h Q (err (failed_command, w)) s k = k
