-- ===== src/Autoremove/Enough.antt =====
-- The loop of `mport_autoremove` in libmport/autoremove.c that deletes ends where no deletion fails.
use mport.Base.{
  suc, Bool, true, false, ◌≡◌, refl, none, some, List, [], ◌∷◌, All, not, length, ◌||◌, arith,
}
use mathlib.Core.Path.{sym, subst}
use mport.Base.Text.{Bytes, str_eq}
use mport.Db.{Result, ok}
use mport.Store.{AssetRow, Tables, Package, Host, World, Why}
use mport.Store.Works.{Healthy}
use mport.Lock.{lock_islocked}
use mport.Delete.Works.{IsComplete, All-filter}
use mport.Delete.Primitive.{delete_primative}
use mport.Delete.Primitive.Rows.{uninstalled}
use mport.Delete.Primitive.Outcomes.{delete_primative-ok}
use mport.Delete.Primitive.Succeeds.{delete_primative-succeeds}
use mport.Autoremove.{Run, finishes, again, remove_all}
use mport.Autoremove.Loop.{any_locked, all_uninstalled}

again_ok :
    (r : Result (Why × World) World) (f g : World → Run) (v : World) → r ≡ ok v → again r f g ≡ f v
unfolding again
again_ok r f g v e = λ i. again (e i) f g

-- the assets that are left by a deletion are complete if all were
IsComplete-rest :
    (n : Bytes) (t u : Tables)
    → u ≡ uninstalled n t
    → All IsComplete t.assets
    → All IsComplete u.assets
unfolding uninstalled
IsComplete-rest n t u e c =
    subst (λ (x : Tables). All IsComplete x.assets) (sym e)
      (All-filter IsComplete IsComplete (λ (r : AssetRow). not (str_eq r.pkg n)) t.assets
        (λ r _ k. k) c)

none_first : (b c : Bool) → (b || c) ≡ false → b ≡ false
none_first b c e = ground arith

none_rest : (b c : Bool) → (b || c) ≡ false → c ≡ false
none_rest b c e = ground arith

-- On a system where every call succeeds, with every hash known, where no transaction is open, no
-- package of the loop is locked, every command and kernel module among the assets has its text,
-- and every sample its checksum, one turn for each package and one more are enough, and the rows
-- of all packages are removed.
pub remove_all-enough :
    (h : Host) (ps : List Package) (w : World)
    → Healthy h
    → any_locked ps ≡ false
    → w.saved ≡ none
    → All IsComplete w.tables.assets
    → (v : World) × (remove_all (suc (length ps)) h ps w ≡ finishes v)
      × (v.tables ≡ all_uninstalled ps w.tables)
unfolding any_locked remove_all all_uninstalled
remove_all-enough h [] w f l s c = (w, refl, refl)
remove_all-enough h (p ∷ ps) w f l s c =
    let (v, d, t) =
      delete_primative-succeeds h p true w f (none_first (lock_islocked (some p)) (any_locked ps) l)
        s c in
    let (t', s') = delete_primative-ok h p true w v s d in
    let (u, e, k) =
      remove_all-enough h ps v f (none_rest (lock_islocked (some p)) (any_locked ps) l) s'
        (IsComplete-rest p.name w.tables v.tables t c) in
    (
      u,
      cc (
        again_ok (delete_primative h p true w) (remove_all (suc (length ps)) h ps)
            (remove_all (suc (length ps)) h (p ∷ ps)) v d,
        e,
      ),
      cc (k, t),
    )
