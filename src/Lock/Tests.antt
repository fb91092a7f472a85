-- ===== src/Lock/Tests.antt =====
-- libmport/lock.c on a small system.
use mport.Base.{true, false, ◌≡◌, refl, none, [], ◌∷◌, All}
use mport.Base.Text.{codes, str_eq}
use mport.Db.{ok, runs}
use mport.Store.{
  Tables, Package, Host, World, executed, set_locked, changed_by, db_do, settle, transaction,
}
use mport.Lock.{lock_islocked, lock_lock, lock_unlock}
use mport.Lock.Locked.{HasLock, lock_lock-HasLock}

abbrev host : Host
host = record {
  root = [];
  succeeds = λ es e. true;
  fault = λ es q. runs;
  lstat = λ es path. none;
  md5 = λ es path. none;
  sha256 = λ es path. none;
  file_exists = λ es path. false;
  passwd = λ _. none;
  groups = λ _. none;
}

abbrev foo : Package
foo = record {
  name = codes "foo";
  version = codes "1.0";
  prefix = codes "/usr/local";
  locked = 0;
  automatic = 0;
}

abbrev tables : Tables
tables = record {
  assets = [];
  depends = [];
  packages =
      record {
        pkg = codes "foo";
        version = codes "1.0";
        prefix = codes "/usr/local";
        status = codes "clean";
        locked = 0;
        automatic = 0;
      }
      ∷ [];
  categories = [];
}

abbrev world : World
world = record {
  tables = tables;
  saved = none;
  trace = record { events = []; hash = none; current = 0 };
}

abbrev locked_world : World
locked_world = record {
  tables = record tables {
    packages =
        record {
          pkg = codes "foo";
          version = codes "1.0";
          prefix = codes "/usr/local";
          status = codes "clean";
          locked = 1;
          automatic = 0;
        }
        ∷ [];
  };
  saved = none;
  trace = record { events = executed (set_locked 1 (codes "foo")) ∷ []; hash = none; current = 0 };
}

foo-locked : lock_lock host foo world ≡ ok locked_world
unfolding lock_lock lock_islocked db_do settle transaction changed_by str_eq
foo-locked = refl

lock_lock-HasLock_example : All (HasLock (codes "foo") true) locked_world.tables.packages
unfolding lock_islocked
lock_lock-HasLock_example = lock_lock-HasLock host foo world locked_world refl foo-locked

abbrev unlocked_world : World
unlocked_world = record {
  tables = tables;
  saved = none;
  trace = record {
    events = executed (set_locked 0 (codes "foo")) ∷ executed (set_locked 1 (codes "foo")) ∷ [];
    hash = none;
    current = 0;
  };
}

abbrev locked_foo : Package
locked_foo = record foo { locked = 1 }

foo-unlocked : lock_unlock host locked_foo locked_world ≡ ok unlocked_world
unfolding lock_unlock lock_islocked db_do settle transaction changed_by str_eq
foo-unlocked = refl
