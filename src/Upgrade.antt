-- ===== src/Upgrade.antt =====
-- libmport/upgrade.c: the upgrade of all packages, and of a package behind those that it depends on.
pub mod Enough
pub mod Cycles
mod Tests
use mport.Base.{
  ℕ, zero, suc, ◌+◌, Bool, true, false, ◌||◌, Option, none, some, List, [], ◌∷◌, if◌then◌else◌,
}
use mport.Base.Text.{Bytes, str_eq}
use mport.Moved.{MovedEntry}
use mport.Store.{Package}

-- What the upgrade calls, over a state of the system: the list of the packages that a package depends
-- on (`none` for an error, `some none` for NULL), mport_index_check, which knows the package by the
-- struct that was read and reads the tables for its OS release, the first entry of
-- mport_moved_lookup, the question to the user, mport_delete_primative, mport_install, and
-- mport_update, which tells whether it succeeded. The last is what the hash table holds after an
-- insertion at a slot that was looked up before another one, which the documentation of the table
-- does not define.
pub record Calls (S : Type 0) : Type 0 where
  pub downdepends : S → Package → Option (Option (List Package))
  pub is_newer : S → Package → Bool
  pub moved : S → Package → Option MovedEntry
  pub confirm : S → Package → Bool
  pub delete : Package → S → S
  pub install : Bytes → Package → S → S
  pub update : Bytes → S → S × Bool
  pub reinsert : Bytes → List Bytes → List Bytes

-- the number of updates, the names in the hash table, and the state of the system
pub record Progress (S : Type 0) : Type 0 where
  pub updated : ℕ
  pub names : List Bytes
  pub state : S

unfoldable pub has_name : Bytes → List Bytes → Bool
has_name n [] = false
has_name n (m ∷ ms) = str_eq m n || has_name n ms

unfoldable pub insert_name : Bytes → List Bytes → List Bytes
insert_name n ms = if has_name n ms then ms else n ∷ ms

unfoldable pub after_update : {S : Type 0} → List Bytes → Progress S → S × Bool → Progress S
after_update names d (s, ok) =
    if ok
    then record { updated = d.updated + 1; names = names; state = s }
    else record d { state = s }

-- where the index has a newer version
unfoldable pub update_if_newer :
    {S : Type 0} → Calls S → Package → List Bytes → Progress S → Progress S
update_if_newer c p names d =
    if c.is_newer d.state p then after_update names d (c.update p.name d.state) else d

-- a package that depends on none
unfoldable pub update_leaf : {S : Type 0} → Calls S → Package → Progress S → Progress S
update_leaf c p d = if has_name p.name d.names then d else update_if_newer c p (p.name ∷ d.names) d

unfoldable pub and_after :
    {S : Type 0} → Option (Progress S) → (Progress S → Option (Progress S)) → Option (Progress S)
and_after none k = none
and_after (some d) k = k d

-- Each package that is not in the table is first upgraded by the recursive call, and then once more
-- by its struct, which still has the old version.
unfoldable pub each_depend :
    {S : Type 0}
    → Calls S
    → (Package → Progress S → Option (Progress S))
    → List Package
    → Progress S
    → Option (Progress S)
unfolding and_after
each_depend c f [] d = some d
each_depend c f (p ∷ ps) d =
    if has_name p.name d.names
    then each_depend c f ps d
    else and_after (f p d)
        (λ e. each_depend c f ps (update_if_newer c p (c.reinsert p.name e.names) e))

unfoldable pub behind_depends :
    {S : Type 0}
    → Calls S
    → (Package → Progress S → Option (Progress S))
    → Package
    → Option (Option (List Package))
    → Progress S
    → Option (Progress S)
behind_depends c f p none d = some d
behind_depends c f p (some none) d = some (update_leaf c p d)
behind_depends c f p (some (some ps)) d =
    and_after (each_depend c f ps d)
      (λ e. some (update_if_newer c p (insert_name p.name e.names) e))

-- mport_update_down; the depth of the recursion is bounded by fuel, and `none` is a call that is deeper
unfoldable pub update_down : {S : Type 0} → ℕ → Calls S → Package → Progress S → Option (Progress S)
update_down zero c p d = none
update_down (suc n) c p d = behind_depends c (update_down n c) p (c.downdepends d.state p) d

unfoldable pub nonempty_text : Bytes → Bool
nonempty_text [] = false
nonempty_text (x ∷ s) = true

unfoldable pub moved_one :
    {S : Type 0} → Calls S → Package → Option MovedEntry → Progress S → Progress S
moved_one c p none d = d
moved_one c p (some e) d =
    if nonempty_text e.date
    then (if c.confirm d.state p
        then record d { names = p.name ∷ d.names; state = c.delete p d.state }
        else d)
    else if nonempty_text e.moved_to_pkgname
    then record d {
      names = c.reinsert e.moved_to_pkgname (p.name ∷ d.names);
      state = c.install e.moved_to_pkgname p (c.delete p d.state);
    }
    else d

-- the first loop of mport_upgrade
unfoldable pub moved_each : {S : Type 0} → Calls S → List Package → Progress S → Progress S
moved_each c [] d = d
moved_each c (p ∷ ps) d =
    moved_each c ps (if has_name p.name d.names then d else moved_one c p (c.moved d.state p) d)

-- the second loop
unfoldable pub update_rest :
    {S : Type 0} → ℕ → Calls S → List Package → Progress S → Option (Progress S)
update_rest n c [] d = some d
update_rest n c (p ∷ ps) d =
    if has_name p.name d.names
    then update_rest n c ps d
    else if c.is_newer d.state p
    then and_after (update_down n c p d) (update_rest n c ps)
    else update_rest n c ps d

-- How mport_upgrade ends: with the number of updates, with an error where the list of the packages is
-- not read or is empty, or in a recursion that is too deep.
pub data Upgraded (S : Type 0) : Type 0 where
  upgrades : Progress S → Upgraded S
  no_packages : Upgraded S
  too_deep : Upgraded S

unfoldable pub upgraded : {S : Type 0} → Option (Progress S) → Upgraded S
upgraded none = too_deep
upgraded (some d) = upgrades d

unfoldable pub upgrade : {S : Type 0} → ℕ → Calls S → Option (List Package) → S → Upgraded S
upgrade n c none s = no_packages
upgrade n c (some ps) s =
    upgraded (update_rest n c ps (moved_each c ps (record { updated = 0; names = []; state = s })))
