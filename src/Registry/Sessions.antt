-- ===== src/Registry/Sessions.antt =====
-- A session of calls of libmport/bundle_read_install_pkg.c and libmport/delete_primative.c refines
-- the abstract set: behind each call, what the database holds durably is one step further.
use mathlib.Core.Path.{subst}
use mport.Base.{
  Bool, true, false, ◌||◌, ◌&&◌, ◌≡◌, refl, sym, ◌∙◌, ◌⊎◌, inl, inr, Option, none, some, List, [],
  ◌∷◌, ◌++◌, All, arith,
}
use mport.Base.Text.{Bytes, codes, str_eq}
use mport.Db.{Result, ok, err, undefined}
use mport.Store.{
  InstalledRow, Tables, Package, mark_dirty, Host, World, Why, changed_by, has_row, new_row,
}
use mport.Store.Ends.{durable, rolled_back}
use mport.Delete.Primitive.{delete_primative}
use mport.Delete.Primitive.Rows.{uninstalled}
use mport.Delete.Primitive.Outcomes.{delete_primative-ok, delete_primative-err}
use mport.Install.{Bundle, phase_assets, actualinstall}
use mport.Install.Primitive.{bundle_read_install_pkg}
use mport.Install.Primitive.Errors.{PlainDir}
use mport.Install.Primitive.Outcomes.{clean_row, installed, bundle_read_install_pkg-ok}
use mport.Install.Primitive.Failed.{bundle_read_install_pkg-err}
use mport.Registry.{
  Registry, is_clean, registry, added, removed, Call, installs, deletes, call, Step, adds, removes,
  stays, Steps, closed, state_behind, session,
}
use mport.Registry.Rows.{
  is_clean-append_clean, is_clean-append_dirty, is_clean-without, is_clean-dirty,
}

-- no directory of a bundle that is installed has a mode of its own
unfoldable pub PlainCall : Call → Type 0
PlainCall (installs b p) = All PlainDir (phase_assets actualinstall p b)
PlainCall (deletes p force) = Unit

is_clean-absent :
    (n : Bytes) (xs : List InstalledRow) → has_row n xs ≡ false → is_clean n xs ≡ false
unfolding has_row is_clean
is_clean-absent n [] e = refl
is_clean-absent n (x ∷ xs) e =
    both (str_eq x.pkg n) (str_eq x.status (codes "clean")) (has_row n xs) (is_clean n xs) e
      (is_clean-absent n xs)
  where
    both : (a s c k : Bool) → (a || c) ≡ false → (c ≡ false → k ≡ false) → ((a && s) || k) ≡ false
    both false s false k e f = f refl
    both false s true k e f = absurd (ground arith)
    both true s c k e f = absurd (ground arith)

some_eq : (v w : World) → some v ≡ some w → v ≡ w
some_eq v w e = cc

Step-state_behind :
    (c : Call) (r : Registry) (q : Result (Why × World) World) (v : World)
    → ((w : World) → q ≡ ok w → Step c r (registry (durable w)))
    → ((why : Why) (w : World) → q ≡ err (why, w) → Step c r (registry (durable w)))
    → state_behind q ≡ some v
    → Step c r (registry v.tables)
unfolding state_behind closed
Step-state_behind c r (ok w) v f g e =
    subst (λ (u : World). Step c r (registry u.tables)) (some_eq (closed w) v e) (f w refl)
Step-state_behind c r (err (why, w)) v f g e =
    subst (λ (u : World). Step c r (registry u.tables)) (some_eq (closed w) v e) (g why w refl)
Step-state_behind c r undefined v f g e = absurd (ground arith)

Step-to : (c : Call) (r q q' : Registry) → q ≡ q' → Step c r q → Step c r q'
Step-to c r q q' e s = subst (Step c r) e s

registry-installed :
    (h : Host) (b : Bundle) (p : Package) (t : Tables)
    → registry (installed h b p t) ≡ added p.name (registry t)
unfolding registry added installed clean_row new_row
registry-installed h b p t = λ i m. is_clean-append_clean m t.packages (clean_row p) refl i

registry-uninstalled :
    (n : Bytes) (t : Tables) → registry (uninstalled n t) ≡ removed n (registry t)
unfolding registry removed uninstalled
registry-uninstalled n t = λ i m. is_clean-without m n t.packages i

registry-dirty :
    (n : Bytes) (t : Tables) → registry (changed_by (mark_dirty n) t) ≡ removed n (registry t)
unfolding registry removed changed_by
registry-dirty n t = λ i m. is_clean-dirty m n t.packages i

-- a new row is not clean
registry-new_row :
    (p : Package) (t u : Tables)
    → u.packages ≡ t.packages ++ new_row p ∷ []
    → registry u ≡ registry t
unfolding registry new_row str_eq
registry-new_row p t u e =
    (λ i m. is_clean m (e i)) ∙ (λ i m. is_clean-append_dirty m t.packages (new_row p) refl i)

registry-same : (t u : Tables) → u.packages ≡ t.packages → registry u ≡ registry t
unfolding registry
registry-same t u e = λ i m. is_clean m (e i)

durable-none : (w : World) → w.saved ≡ none → durable w ≡ w.tables
unfolding durable rolled_back
durable-none w e = simp e

installs-Step :
    (h : Host) (b : Bundle) (p : Package) (w v : World)
    → w.saved ≡ none
    → All PlainDir (phase_assets actualinstall p b)
    → state_behind (bundle_read_install_pkg h b p w) ≡ some v
    → Step (installs b p) (registry w.tables) (registry v.tables)
unfolding registry
installs-Step h b p w v o d =
    Step-state_behind (installs b p) (registry w.tables) (bundle_read_install_pkg h b p w) v
      (λ u e.
        let (n, x, y) = bundle_read_install_pkg-ok h b p w u o d e in
        Step-to (installs b p) (registry w.tables) (added p.name (registry w.tables))
          (registry (durable u))
          (sym (registry-installed h b p w.tables)
            ∙ (λ i. registry (sym x i))
            ∙ (λ i. registry (sym (durable-none u y) i)))
          (adds b p (registry w.tables) (is_clean-absent p.name w.tables.packages n)))
      (λ why u e.
        Step-to (installs b p) (registry w.tables) (registry w.tables) (registry (durable u))
          (sym (kept (durable u) (bundle_read_install_pkg-err h b p w u why o e)))
          (stays (installs b p) (registry w.tables)))
  where
    kept :
        (u : Tables)
        → (u.packages ≡ w.tables.packages) ⊎ (u.packages ≡ w.tables.packages ++ new_row p ∷ [])
        → registry u ≡ registry w.tables
    kept u (inl e) = registry-same w.tables u e
    kept u (inr e) = registry-new_row p w.tables u e

deletes-Step :
    (h : Host) (p : Package) (force : Bool) (w v : World)
    → w.saved ≡ none
    → state_behind (delete_primative h p force w) ≡ some v
    → Step (deletes p force) (registry w.tables) (registry v.tables)
deletes-Step h p force w v o =
    Step-state_behind (deletes p force) (registry w.tables) (delete_primative h p force w) v
      (λ u e.
        let (x, y) = delete_primative-ok h p force w u o e in
        Step-to (deletes p force) (registry w.tables) (removed p.name (registry w.tables))
          (registry (durable u))
          (sym (registry-uninstalled p.name w.tables)
            ∙ (λ i. registry (sym x i))
            ∙ (λ i. registry (sym (durable-none u y) i)))
          (removes p force (registry w.tables)))
      (λ why u e. failed u (delete_primative-err h p force w u why o e))
  where
    failed :
        (u : World)
        → (durable u ≡ w.tables) ⊎ (durable u ≡ changed_by (mark_dirty p.name) w.tables)
        → Step (deletes p force) (registry w.tables) (registry (durable u))
    failed u (inl e) =
        Step-to (deletes p force) (registry w.tables) (registry w.tables) (registry (durable u))
          (λ i. registry (sym e i)) (stays (deletes p force) (registry w.tables))
    failed u (inr e) =
        Step-to (deletes p force) (registry w.tables) (removed p.name (registry w.tables))
          (registry (durable u)) (sym (registry-dirty p.name w.tables) ∙ (λ i. registry (sym e i)))
          (removes p force (registry w.tables))

call-Step :
    (h : Host) (c : Call) (w v : World)
    → w.saved ≡ none
    → PlainCall c
    → state_behind (call h c w) ≡ some v
    → Step c (registry w.tables) (registry v.tables)
unfolding call PlainCall
call-Step h (installs b p) w v o d e = installs-Step h b p w v o d e
call-Step h (deletes p force) w v o d e = deletes-Step h p force w v o e

state_behind-saved :
    (q : Result (Why × World) World) (v : World) → state_behind q ≡ some v → v.saved ≡ none
unfolding state_behind closed
state_behind-saved (ok w) v e = λ i. (sym (some_eq (closed w) v e) i).saved
state_behind-saved (err (why, w)) v e = λ i. (sym (some_eq (closed w) v e) i).saved
state_behind-saved undefined v e = absurd (ground arith)

session_from :
    (h : Host) (c : Call) (cs : List Call) (w v : World) (o : Option World)
    → ((u : World)
        → o ≡ some u
        → session h cs u ≡ some v
        → Steps (c ∷ cs) (registry w.tables) (registry v.tables))
    → elim o as (λ _. Option World) [ none ↦ none | some u ↦ session h cs u ] ≡ some v
    → Steps (c ∷ cs) (registry w.tables) (registry v.tables)
session_from h c cs w v none f e = absurd (ground arith)
session_from h c cs w v (some u) f e = f u refl e

-- From a database without an open transaction, any sequence of installations and deletions, each on
-- a connection of its own and with whatever outcome, takes the set of the installed packages through
-- one step for each call: an installation adds its package, which was not in the set, or changes
-- nothing, and a deletion removes its package or changes nothing. No directory of a bundle that is
-- installed has a mode of its own.
pub session-Steps :
    (h : Host) (cs : List Call) (w v : World)
    → w.saved ≡ none
    → All PlainCall cs
    → session h cs w ≡ some v
    → Steps cs (registry w.tables) (registry v.tables)
unfolding session Steps
session-Steps h [] w v o d e = λ i. registry (some_eq w v e i).tables
session-Steps h (c ∷ cs) w v o (d, ds) e =
    session_from h c cs w v (state_behind (call h c w))
      (λ u b k. (
        registry u.tables,
        call-Step h c w u o d b,
        session-Steps h cs u v (state_behind-saved (call h c w) u b) ds k,
      ))
      e
