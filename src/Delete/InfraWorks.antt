-- ===== src/Delete/InfraWorks.antt =====
-- The deinstall script, the removal of the package's own files, and the question about dependent
-- packages of libmport/delete_primative.c on a system where every call succeeds.
use mport.Base.{ℕ, zero, suc, refl, [], ◌∷◌, length}
use mport.Base.Text.{Bytes}
use mport.Db.{ok}
use mport.Store.{Host, Tables, Package, upwards_depends, confirmed, with_event}
use mport.Store.Works.{Healthy, Works, ◌with◌, attempt-Works, or_tell-Works, if_ok, select-Works}
use mport.Delete.Commands.{
  run_pkg_deinstall, unlink_if_there, remove_infra_tree, delete_pkg_infra, confirm_needed,
  first_count, check_for_upwards_depends, needed_by,
}

pub run_pkg_deinstall-Works :
    (h : Host) (p : Package) (mode : Bytes) → Healthy h → Works (run_pkg_deinstall h p mode)
unfolding run_pkg_deinstall
run_pkg_deinstall-Works h p mode f = record {
  works = λ t.
      if_ok (h.file_exists t.events _) _ (ok t)
        ((attempt-Works h _ f with attempt-Works h _ f).works t) (t, refl);
}

unlink_if_there-Works : (h : Host) (path : Bytes) → Healthy h → Works (unlink_if_there h path)
unfolding unlink_if_there
unlink_if_there-Works h path f = record {
  works =
      λ t. if_ok (h.file_exists t.events path) _ (ok t) ((or_tell-Works h _ _ f).works t) (t, refl);
}

remove_infra_tree-Works : (h : Host) (path : Bytes) → Healthy h → Works (remove_infra_tree h path)
unfolding remove_infra_tree
remove_infra_tree-Works h path f = record {
  works =
      λ t. if_ok (h.file_exists t.events path) _ (ok t) ((attempt-Works h _ f).works t) (t, refl);
}

pub delete_pkg_infra-Works : (h : Host) (p : Package) → Healthy h → Works (delete_pkg_infra h p)
unfolding delete_pkg_infra
delete_pkg_infra-Works h p f =
    unlink_if_there-Works h _ f with unlink_if_there-Works h _ f with remove_infra_tree-Works h _ f

confirm_needed-Works : (h : Host) (n : ℕ) → Healthy h → Works (confirm_needed h n)
unfolding confirm_needed
confirm_needed-Works h zero f = record { works = λ t. (t, refl) }
confirm_needed-Works h (suc n) f = record {
  works = λ t. (with_event confirmed t, simp (f.all_succeed t.events confirmed));
}

pub check_for_upwards_depends-Works :
    (h : Host) (p : Package) (ts : Tables) → Healthy h → Works (check_for_upwards_depends h p ts)
unfolding check_for_upwards_depends first_count
check_for_upwards_depends-Works h p ts f = record {
  works =
      (select-Works h upwards_depends (length (needed_by p.name ts.packages ts.depends) ∷ [])
        (first_count (confirm_needed h)) f
        (record {
          works =
              (confirm_needed-Works h (length (needed_by p.name ts.packages ts.depends)) f).works;
        })).works;
}
