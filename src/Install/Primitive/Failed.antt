-- ===== src/Install/Primitive/Failed.antt =====
-- What an error of `mport_bundle_read_install_pkg` of libmport/bundle_read_install_pkg.c leaves: the
-- package is never marked clean.
use mport.Base.{
  Bool-cases, ◌≡◌, refl, ◌⊎◌, inl, inr, Option, none, some, [], ◌∷◌, ◌++◌, if◌then◌else◌,
}
use mport.Base.Text.{codes}
use mport.Db.{ok, err, undefined, Result}
use mport.Store.{
  Tables, Package, Event, Sql, executed, mark_clean, Host, World, Why, Act, outside, changed_by,
  has_row, new_row, transaction, settle, db_do, emit, noted, with_trace, Trace,
}
use mport.Store.Ends.{
  Ends, Triple, weaken, ◌then◌, At, durable, rolled_back, err_Ends, outside-Triple,
}
use mport.Delete.Primitive.Rows.{outside-At}
use mport.Install.{Bundle}
use mport.Install.Commands.{do_pre_install, before_complete}
use mport.Install.Primitive.{
  install_rows, do_actual_install, do_post_install, bundle_read_install_pkg,
}
use mport.Install.Primitive.Rows.{created, add_assets, Grown}
use mport.Install.Primitive.Ended.{
  Any, filled, Unfinished, Ended, none-Ended, filled-Stopped, Stopped-Ended,
}
use mport.Install.Primitive.Transaction.{
  install_rows-Triple, install_rows-refused, current_error-Keeps,
}

Ends-both :
    (Q E : World → Type 0) (r : Result (Why × World) World)
    → Ends Q E r
    → ((w : World) → Q w → E w)
    → Ends E E r
unfolding Ends
Ends-both Q E (ok w) k f = f w k
Ends-both Q E (err (why, w)) k f = k
Ends-both Q E undefined k f = tt

settle-err :
    (R : Tables → Option Tables → Type 0) (s : Sql) (w : World) (x : Option (Option Tables))
    → R w.tables w.saved
    → Ends Any (λ v. R v.tables v.saved) (settle s w x)
unfolding settle Ends Any
settle-err R s w none k = k
settle-err R s w (some o) k = tt

-- a statement that fails changes nothing
db_do-err :
    (R : Tables → Option Tables → Type 0) (h : Host) (s : Sql)
    → Triple (λ w. R w.tables w.saved) (db_do h s) Any (λ w. R w.tables w.saved)
unfolding db_do
db_do-err R h s = record {
  ends = λ w k.
      settle-err R s w
        (if h.succeeds w.trace.events (executed s) then transaction s w.tables w.saved else none) k;
}

emits_ok : (F : World → Type 0) (e : Event) → Triple Any (outside (λ _. emit e)) Any F
unfolding outside with_trace emit Ends Any
emits_ok F e = record { ends = λ w k. tt }

module _ (h : Host) (b : Bundle) (p : Package) (t : Tables) where
  install_rows-Ended : Triple (At t none) (install_rows h b p) (Ended b p t) (Ended b p t)
  install_rows-Ended = elim (Bool-cases (has_row p.name t.packages)) [
    | inl d ↦ record {
      ends = λ w a.
          Ends-both (λ _. ⊥) (Ended b p t) (install_rows h b p w)
            ((install_rows-refused h b p t d).ends w a) (λ v k. absurd k);
    }
    | inr d ↦ record {
      ends = λ w a.
          Ends-both (At (filled h b p t) none) (Ended b p t) (install_rows h b p w)
            ((install_rows-Triple h b p t d).ends w a)
            (λ v k. Stopped-Ended b p t v (filled-Stopped h b p t none v k));
    }
  ]

  do_actual_install-Ended : Triple (At t none) (do_actual_install h b p) (Ended b p t) (Ended b p t)
  unfolding do_actual_install Ended
  do_actual_install-Ended = record {
    ends = λ w a.
        current_error-Keeps (Unfinished b p t) h (install_rows h b p w)
          (install_rows-Ended.ends w a);
  }

  outside-Ended :
      (a : Tables → Act Trace) → Triple (Ended b p t) (outside a) (Ended b p t) (Ended b p t)
  unfolding Ended
  outside-Ended a = outside-Triple (Unfinished b p t) a

  mark_clean-Ended : Triple (Ended b p t) (db_do h (mark_clean p.name)) Any (Ended b p t)
  unfolding Ended
  mark_clean-Ended = db_do-err (Unfinished b p t) h (mark_clean p.name)

  start-Ended : Triple (At t none) (outside (λ _. do_pre_install h b p)) (At t none) (Ended b p t)
  start-Ended = weaken (Ended b p t) (outside-At _ t none) (none-Ended b p t)

  pub bundle_read_install_pkg-Ended :
      Triple (At t none) (bundle_read_install_pkg h b p) Any (Ended b p t)
  unfolding bundle_read_install_pkg do_post_install
  bundle_read_install_pkg-Ended =
      start-Ended
      then do_actual_install-Ended
      then (outside-Ended (λ _. before_complete h b p) then mark_clean-Ended)
      then emits_ok (Ended b p t) (noted (p.name ++ b'-' ∷ p.version ++ codes " installed"))

  Ended-durable :
      (w : World)
      → Ended b p t w
      → ((durable w).packages ≡ t.packages) ⊎ ((durable w).packages ≡ t.packages ++ new_row p ∷ [])
  unfolding Ended Unfinished durable rolled_back changed_by Grown add_assets created
  Ended-durable w (inl (e, k)) = inl (simp (k, e))
  Ended-durable w (inr (inl (e, k))) = inr (simp (k, e))
  Ended-durable w (inr (inr (inl (e, k)))) = inr (simp (k, e))
  Ended-durable w (inr (inr (inr (inl ((rs, e), k))))) = inr (simp (k, e))
  Ended-durable w (inr (inr (inr (inr k)))) = inr (simp k)

-- Where no transaction is open and the call ends with an error, a rollback leaves the table of the
-- packages as it was before it, or with one more row, of the package, whose status is dirty.
pub bundle_read_install_pkg-err :
    (h : Host) (b : Bundle) (p : Package) (w w' : World) (why : Why)
    → w.saved ≡ none
    → bundle_read_install_pkg h b p w ≡ err (why, w')
    → ((durable w').packages ≡ w.tables.packages)
      ⊎ ((durable w').packages ≡ w.tables.packages ++ new_row p ∷ [])
unfolding At
bundle_read_install_pkg-err h b p w w' why o e = Ended-durable h b p w.tables w' (
    err_Ends Any (Ended b p w.tables) (bundle_read_install_pkg h b p w) why w'
      ((bundle_read_install_pkg-Ended h b p w.tables).ends w (refl, o)) e)
