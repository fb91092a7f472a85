-- ===== src/Upgrade/Tests.antt =====
-- Upgrades by libmport/upgrade.c of two packages, one of which depends on the other.
use mport.Base.{
  ℕ, ◌<◌, Bool, true, false, ◌≡◌, refl, Option, none, some, List, [], ◌∷◌, All, arith,
  if◌then◌else◌,
}
use mathlib.Core.Path.{subst}
use mport.Base.Text.{Bytes, codes, str_eq}
use mport.Store.{Package}
use mport.Upgrade.{
  Calls, Progress, has_name, insert_name, after_update, update_if_newer, update_leaf, and_after,
  each_depend, behind_depends, update_down, nonempty_text, moved_one, moved_each, update_rest,
  upgrades, upgraded, upgrade,
}
use mport.Upgrade.Enough.{Ranked, upgrade-enough}

abbrev pkg_of : Bytes → Package
pkg_of name = record {
  name = name;
  version = codes "1.0";
  prefix = codes "/usr/local";
  locked = 0;
  automatic = 0;
}

abbrev app : Package
app = pkg_of (codes "app")

abbrev lib : Package
lib = pkg_of (codes "lib")

-- app depends on lib
abbrev depends_of : Package → Option (Option (List Package))
depends_of p = if str_eq p.name (codes "app") then some (some (lib ∷ [])) else some none

-- the state is the list of the names that were updated, the last first
abbrev calls : Calls (List Bytes)
calls = record {
  downdepends = λ s p. depends_of p;
  is_newer = λ s p. true;
  moved = λ s p. none;
  confirm = λ s p. false;
  delete = λ p s. s;
  install = λ name p s. s;
  update = λ name s. (name ∷ s, true);
  reinsert = λ name names. name ∷ names;
}

-- the dependency is updated twice, and counted twice
updates_twice :
    upgrade 2 calls (some (app ∷ lib ∷ [])) []
    ≡ upgrades (record {
      updated = 3;
      names = codes "app" ∷ codes "lib" ∷ codes "lib" ∷ [];
      state = codes "app" ∷ codes "lib" ∷ codes "lib" ∷ [];
    })
unfolding has_name insert_name after_update update_if_newer update_leaf and_after each_depend
    behind_depends update_down nonempty_text moved_one moved_each update_rest upgraded upgrade
    str_eq
updates_twice = refl

abbrev rank : Package → ℕ
rank p = if str_eq p.name (codes "app") then 1 else 0

calls-Ranked : Ranked calls rank
unfolding Ranked str_eq
calls-Ranked s p ps e = ranked (str_eq p.name (codes "app")) ps e
  where
    ranked :
        (b : Bool) (ps : List Package)
        → (if b then some (some (lib ∷ [])) else some none) ≡ some (some ps)
        → All (λ d. rank d < (if b then 1 else 0)) ps
    ranked true ps e =
        let same : lib ∷ [] ≡ ps = cc in
        subst (λ qs. All (λ d. rank d < 1) qs) same (omega arith, tt)
    ranked false ps e = absurd (ground arith)

upgrade-enough_example :
    (d : Progress (List Bytes)) × (upgrade 2 calls (some (app ∷ lib ∷ [])) [] ≡ upgrades d)
unfolding str_eq
upgrade-enough_example =
    upgrade-enough calls rank 2 (app ∷ lib ∷ []) [] calls-Ranked (omega arith, (omega arith, tt))
