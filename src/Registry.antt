-- ===== src/Registry.antt =====
-- An abstract view of the master database: which packages are installed, a set of names that knows
-- neither their order nor their rows. libmport/bundle_read_install_pkg.c and
-- libmport/delete_primative.c change the set by steps.
pub mod Rows
pub mod Sessions
mod Tests
use mport.Base.{Bool, true, false, not, ◌||◌, ◌&&◌, ◌≡◌, Option, none, some, List, [], ◌∷◌}
use mport.Base.Text.{Bytes, codes, str_eq}
use mport.Db.{Result, ok, err, undefined}
use mport.Store.{InstalledRow, Tables, Package, Host, World, Why, Act}
use mport.Store.Ends.{durable}
use mport.Delete.Primitive.{delete_primative}
use mport.Install.{Bundle}
use mport.Install.Primitive.{bundle_read_install_pkg}

abbrev pub Registry : Type 0
Registry = Bytes → Bool

-- a row of the name whose status is clean
unfoldable pub is_clean : Bytes → List InstalledRow → Bool
is_clean n [] = false
is_clean n (r ∷ rs) = (str_eq r.pkg n && str_eq r.status (codes "clean")) || is_clean n rs

unfoldable pub registry : Tables → Registry
registry t n = is_clean n t.packages

unfoldable pub added : Bytes → Registry → Registry
added n r m = str_eq n m || r m

unfoldable pub removed : Bytes → Registry → Registry
removed n r m = not (str_eq n m) && r m

-- the calls that change the set
pub data Call : Type 0 where
  installs : Bundle → Package → Call
  deletes : Package → Bool → Call

unfoldable pub call : Host → Call → Act World
call h (installs b p) = bundle_read_install_pkg h b p
call h (deletes p force) = delete_primative h p force

-- A step of the set for a call: its package is added or removed, or nothing is changed.
pub data Step : Call → Registry → Registry → Type 0 where
  adds :
      (b : Bundle) (p : Package) (r : Registry)
      → r p.name ≡ false
      → Step (installs b p) r (added p.name r)
  removes :
      (p : Package) (force : Bool) (r : Registry) → Step (deletes p force) r (removed p.name r)
  stays : (c : Call) (r : Registry) → Step c r r

-- one step for each call
unfoldable pub Steps : List Call → Registry → Registry → Type 0
Steps [] r r' = r ≡ r'
Steps (c ∷ cs) r r' = (m : Registry) × Step c r m × Steps cs m r'

-- The connection is closed behind a call, and what it has left open is rolled back.
unfoldable pub closed : World → World
closed w = record w { tables = durable w; saved = none }

unfoldable pub state_behind : Result (Why × World) World → Option World
state_behind (ok w) = some (closed w)
state_behind (err (why, w)) = some (closed w)
state_behind undefined = none

-- calls one after the other, each on a connection of its own, whether they succeed or not
unfoldable pub session : Host → List Call → World → Option World
session h [] w = some w
session h (c ∷ cs) w = elim (state_behind (call h c w)) [ none ↦ none | some v ↦ session h cs v ]
