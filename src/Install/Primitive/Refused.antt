-- ===== src/Install/Primitive/Refused.antt =====
-- `mport_bundle_read_install_pkg` of libmport/bundle_read_install_pkg.c refuses a package that has a
-- row, whatever its status and whether a transaction is open or not.
use mathlib.Core.Path.{subst}
use mport.Base.{Bool, true, false, ◌≡◌, refl, sym, ◌∙◌, arith, Option, none, some, if◌then◌else◌}
use mport.Db.{Result, ok, err, undefined, ◌>>=◌}
use mport.Store.{
  Tables, Package, Sql, executed, insert_package, insert_depends, insert_categories, Host, World,
  Why, sql_error, Act, ◌and_then◌, with_event, outside, transaction, has_row, settle, db_do,
}
use mport.Store.Ends.{Ends, Triple, ◌then◌, At}
use mport.Delete.Primitive.Rows.{outside-At}
use mport.Install.{Bundle, actualinstall}
use mport.Install.Laws.{IsReported, Sets, Sets-Laws, both-Sets, emit-Sets}
use mport.Install.Around.{get_assetlist-Has, get_file_count-Has}
use mport.Install.Commands.{do_pre_install}
use mport.Install.Primitive.{
  bundle_depends, bundle_categories, before_rows, create_rows, install_rows, do_actual_install,
  bundle_read_install_pkg,
}
use mport.Install.Primitive.Transaction.{current_error-Ends}
use mport.Install.Primitive.Errors.{outside-Sets}

-- an error that is set, with the tables as they were
Fails : Tables → Option Tables → Result (Why × World) World → Type 0
Fails t o r = IsReported r × Ends (λ _. ⊥) (At t o) r

bind-Fails :
    (t : Tables) (o : Option Tables) (r : Result (Why × World) World) (k : Act World)
    → IsReported r
    → Ends (At t o) (At t o) r
    → ((v : World) → At t o v → Fails t o (k v))
    → Fails t o (r >>= k)
unfolding Fails Ends IsReported
bind-Fails t o (ok v) k s e f = f v e
bind-Fails t o (err (why, v)) k s e f = (s, e)
bind-Fails t o undefined k s e f = (tt, tt)

refused_row :
    (s : Sql) (v : World) (b : Bool) (x : Option (Option Tables))
    → x ≡ none
    → settle s v (if b then x else none)
      ≡ err (sql_error, record v { trace = with_event (executed s) v.trace })
unfolding settle
refused_row s v true none e = refl
refused_row s v true (some y) e = absurd (ground arith)
refused_row s v false x e = refl

failed_binds :
    (t : Tables) (o : Option Tables) (r : Result (Why × World) World) (v : World) (k l : Act World)
    → At t o v
    → r ≡ err (sql_error, v)
    → Fails t o (r >>= k >>= l)
unfolding Fails Ends IsReported
failed_binds t o r v k l a e =
    subst (λ (q : Result (Why × World) World). Fails t o (q >>= k >>= l)) (sym e) (tt, a)

module _ (h : Host) (b : Bundle) (p : Package) where
  create_rows-Fails :
      (t : Tables) (o : Option Tables) (k : Act World) (v : World)
      → has_row p.name t.packages ≡ true
      → At t o v
      → Fails t o ((create_rows h b p and_then k) v)
  unfolding create_rows db_do transaction At
  create_rows-Fails t o k v n a =
      failed_binds t o (db_do h (insert_package p) v)
        (record v { trace = with_event (executed (insert_package p)) v.trace })
        (db_do h (insert_depends (bundle_depends p b))
          and_then db_do h (insert_categories (bundle_categories p b)))
        k a
        (refused_row (insert_package p) v (h.succeeds v.trace.events (executed (insert_package p)))
          (transaction (insert_package p) v.tables v.saved)
          (refuses (has_row p.name v.tables.packages) ((λ i. has_row p.name (a.0 i).packages) ∙ n)))
    where
      refuses : (c : Bool) → c ≡ true → (if c then none else some v.saved) ≡ none
      refuses true e = refl
      refuses false e = absurd (ground arith)

  before_rows-Sets : Sets (before_rows h b p)
  unfolding before_rows
  before_rows-Sets =
      both-Sets (get_file_count-Has h Sets (Sets-Laws h) p b)
        (both-Sets (emit-Sets _) (get_assetlist-Has h Sets (Sets-Laws h) actualinstall p b))

  install_rows-Fails :
      (t : Tables) (o : Option Tables) (w : World)
      → has_row p.name t.packages ≡ true
      → At t o w
      → Fails t o (install_rows h b p w)
  unfolding install_rows
  install_rows-Fails t o w n a =
      bind-Fails t o (outside (λ _. before_rows h b p) w) _
        ((outside-Sets (λ _. before_rows h b p) (λ _. before_rows-Sets)).sets w)
        ((outside-At (λ _. before_rows h b p) t o).ends w a) (λ v c. create_rows-Fails t o _ v n c)

  do_actual_install-refused :
      (t : Tables) (o : Option Tables)
      → has_row p.name t.packages ≡ true
      → Triple (At t o) (do_actual_install h b p) (λ _. ⊥) (At t o)
  unfolding do_actual_install Fails At
  do_actual_install-refused t o n = record {
    ends = λ w a.
        let (s, e) = install_rows-Fails t o w n a in
        current_error-Ends (λ u q. (u ≡ t) × (q ≡ o)) h (λ _. ⊥) (install_rows h b p w) s e;
  }

-- A package that has a row, clean or dirty, is not installed: the call does not return MPORT_OK, and
-- its error leaves the tables and the transaction as they were.
pub bundle_read_install_pkg-refused :
    (h : Host) (b : Bundle) (p : Package) (w : World)
    → has_row p.name w.tables.packages ≡ true
    → Ends (λ _. ⊥) (At w.tables w.saved) (bundle_read_install_pkg h b p w)
unfolding bundle_read_install_pkg At
bundle_read_install_pkg-refused h b p w n =
    (outside-At (λ _. do_pre_install h b p) w.tables w.saved
        then do_actual_install-refused h b p w.tables w.saved n
        then never _).ends
      w (refl, refl)
  where
    never : (a : Act World) → Triple (λ _. ⊥) a (λ _. ⊥) (At w.tables w.saved)
    never a = record { ends = λ v k. absurd k }
