-- ===== src/Autoremove.antt =====
-- libmport/autoremove.c: `mport_autoremove`.
pub mod Loop
pub mod Leaves
pub mod Enough
mod Tests
use mport.Base.{
  ℕ, zero, suc, Bool, true, false, ◌||◌, Option, none, some, List, [], ◌∷◌, ◌==◌, if◌then◌else◌,
}
use mport.Db.{Result, ok, err, undefined}
use mport.Store.{InstalledRow, Package, Host, World, Why}
use mport.Pkgmeta.{pkgmeta_list, pkgmeta_get_updepends}
use mport.Delete.Primitive.{delete_primative}

-- How the loops end: with a state, in undefined behaviour, or, in the model only, with no fuel left.
pub data Run : Type 0 where
  finishes : World → Run
  fails : Why → World → Run
  is_undefined : Run
  no_fuel : Run

abbrev pub run_then : Run → (World → Run) → Run
run_then (finishes w) f = f w
run_then (fails why w) f = fails why w
run_then is_undefined f = is_undefined
run_then no_fuel f = no_fuel

-- `automatic == MPORT_EXPLICIT`
unfoldable pub is_explicit : Package → Bool
is_explicit p = p.automatic == 0

unfoldable pub any_explicit : List Package → Bool
unfolding is_explicit
any_explicit [] = false
any_explicit (p ∷ ps) = is_explicit p || any_explicit ps

unfoldable pub again : Result (Why × World) World → (World → Run) → (World → Run) → Run
again (ok w) f g = f w
again (err (why, w)) f g = g w
again undefined f g = is_undefined

-- The loop that deletes. After an error `continue` keeps the cursor where it is, so that the same
-- package is tried again; the fuel counts the turns.
unfoldable pub remove_all : ℕ → Host → List Package → World → Run
unfolding again
remove_all zero h ps w = no_fuel
remove_all (suc fuel) h [] w = finishes w
remove_all (suc fuel) h (p ∷ ps) w =
    again (delete_primative h p true w) (remove_all fuel h ps) (remove_all fuel h (p ∷ ps))

-- what is done for the packages that need an automatic one
unfoldable pub remove_updepends : ℕ → Host → Result Why (Option (List Package)) → World → Run
unfolding any_explicit remove_all
remove_updepends fuel h (err why) w = finishes w
remove_updepends fuel h undefined w = is_undefined
remove_updepends fuel h (ok none) w = finishes w
remove_updepends fuel h (ok (some ps)) w =
    if any_explicit ps then finishes w else remove_all fuel h ps w

unfoldable pub autoremove_package : ℕ → Host → Package → World → Run
unfolding is_explicit remove_updepends
autoremove_package fuel h p w =
    if is_explicit p
    then finishes w
    else remove_updepends fuel h (pkgmeta_get_updepends h p w.tables w.trace) w

unfoldable pub autoremove_loop : ℕ → Host → List Package → World → Run
unfolding autoremove_package
autoremove_loop fuel h [] w = finishes w
autoremove_loop fuel h (p ∷ ps) w =
    run_then (autoremove_package fuel h p w) (autoremove_loop fuel h ps)

unfoldable pub autoremove_listed : ℕ → Host → Result Why (Option (List Package)) → World → Run
unfolding autoremove_loop
autoremove_listed fuel h (err why) w = fails why w
autoremove_listed fuel h undefined w = is_undefined
autoremove_listed fuel h (ok none) w = finishes w
autoremove_listed fuel h (ok (some ps)) w = autoremove_loop fuel h ps w

-- mport_autoremove; `fuel` bounds each run of the loop that deletes
unfoldable pub autoremove : ℕ → (List InstalledRow → List InstalledRow) → Host → World → Run
unfolding autoremove_listed
autoremove fuel order h w = autoremove_listed fuel h (pkgmeta_list order h w.tables w.trace) w
