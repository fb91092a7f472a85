-- ===== src/Upgrade/Cycles.antt =====
-- The recursion of `mport_update_down` in libmport/upgrade.c for a package that depends on itself.
use mport.Base.{ℕ, zero, suc, ◌≡◌, refl, false, none, some, List, ◌∷◌}
use mport.Store.{Package}
use mport.Upgrade.{Calls, Progress, has_name, and_after, each_depend, behind_depends, update_down}

-- Where the list of the packages that a package depends on begins with itself, and its name is not in
-- the table, every fuel is used up.
pub update_down-endless :
    {S : Type 0} (c : Calls S) (n : ℕ) (p : Package) (ps : List Package) (d : Progress S)
    → ((s : S) → c.downdepends s p ≡ some (some (p ∷ ps)))
    → has_name p.name d.names ≡ false
    → update_down n c p d ≡ none
unfolding update_down behind_depends each_depend and_after
update_down-endless c zero p ps d f k = refl
update_down-endless c (suc n) p ps d f k =
    rw (f d.state, k, update_down-endless c n p ps d f k) refl
