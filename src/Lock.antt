-- ===== src/Lock.antt =====
-- libmport/lock.c: a locked package is neither updated nor deleted.
pub mod Locked
mod Tests
use mport.Base.{Bool, true, Option, none, some, ◌==◌, if◌then◌else◌}
use mport.Db.{ok}
use mport.Store.{Package, set_locked, Host, World, Act, db_do}

-- mport_lock_islocked, true for MPORT_LOCKED; `none` is a NULL pointer
unfoldable pub lock_islocked : Option Package → Bool
lock_islocked none = true
lock_islocked (some p) = p.locked == 1

-- mport_lock_lock
unfoldable pub lock_lock : Host → Package → Act World
unfolding lock_islocked db_do
lock_lock h p w = if lock_islocked (some p) then ok w else db_do h (set_locked 1 p.name) w

-- mport_lock_unlock
unfoldable pub lock_unlock : Host → Package → Act World
unfolding lock_islocked db_do
lock_unlock h p w = if lock_islocked (some p) then db_do h (set_locked 0 p.name) w else ok w
