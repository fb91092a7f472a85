-- ===== src/Store.antt =====
-- The state that an operation on the system changes: the master database's tables, with the
-- transaction of libmport/db.c that may be open, and everything that is done outside of them, as
-- the list of events. What the system answers to an event depends on the events before it.
pub mod Ends
pub mod Works
use mport.Base.{ℕ, Bool, false, ◌||◌, ◌++◌, not, Option, none, some, List, [], ◌∷◌, if◌then◌else◌}
use mport.Base.Text.{Bytes, codes, str_eq}
use mport.Db.{Fault, Result, ok, err, undefined, ◌>>=◌}
use mport.Plist.Command.{AssetType}
use mport.Preconditions.{DependRow, filter_rows}

-- rows of the tables assets (whose column `data` is `text`, and `grp` is `group`), packages and
-- categories; `none` is NULL
pub record AssetRow : Type 0 where
  pub pkg : Bytes
  pub type : AssetType
  pub text : Option Bytes
  pub checksum : Option Bytes
  pub owner : Option Bytes
  pub group : Option Bytes
  pub mode : Option Bytes

pub record InstalledRow : Type 0 where
  pub pkg : Bytes
  pub version : Bytes
  pub prefix : Bytes
  pub status : Bytes
  pub locked : ℕ
  pub automatic : ℕ

pub record CategoryRow : Type 0 where
  pub pkg : Bytes
  pub category : Bytes

pub record Tables : Type 0 where
  pub assets : List AssetRow
  pub depends : List DependRow
  pub packages : List InstalledRow
  pub categories : List CategoryRow

-- the fields of mportPackageMeta that an operation on an installed package reads
pub record Package : Type 0 where
  pub name : Bytes
  pub version : Bytes
  pub prefix : Bytes
  pub locked : ℕ
  pub automatic : ℕ

-- The statements that are run by `mport_db_do`, and the insertion of an asset. A statement that
-- copies from the attached stub database has the rows that it finds there.
pub data Sql : Type 0 where
  begin_transaction commit_transaction : Sql
  mark_dirty delete_assets delete_depends delete_packages delete_categories : Bytes → Sql
  set_locked : ℕ → Bytes → Sql
  insert_package : Package → Sql
  insert_depends : List DependRow → Sql
  insert_categories : List CategoryRow → Sql
  insert_asset : AssetRow → Sql
  mark_clean : Bytes → Sql

-- what is told to the user by `mport_call_msg_cb`
pub data Notice : Type 0 where
  cannot_stat cannot_unlink cannot_hash mismatch cannot_check unlike_sample : Notice
  cannot_unregister cannot_execute cannot_run_ldconfig cannot_remove_dir : Notice
  dir_in_use skip_root skip_prefix : Notice
  unable_to_install unable_to_update unable_to_restore locked_update : Notice

-- What the library does outside its tables. The text that is logged is `none` where it hangs on a
-- variable without a value.
pub data Event : Type 0 where
  executed : Sql → Event
  started stopped_service shown_message confirmed : Event
  advanced : ℕ → ℕ → Bytes → Event
  told : Notice → Bytes → Event
  unlinked : Bytes → Event
  unregistered_shell : Bytes → Event
  ran_exec : Bytes → Bytes → Bytes → Event
  ran : Bytes → Event
  cleared_flags : Bytes → Event
  removed_dir : Bytes → Bool → Event
  removed_tree : Bytes → Event
  changed_dir : Bytes → Event
  changed_mode : Bytes → Event
  logged : Option Bytes → Event
  started_service progress_done prepared_insert : Event
  noted : Bytes → Event
  made_temporary made_backup restored_backup : Bytes → Event
  opened_bundle closed_bundle : Bytes → Event
  read_entry found_entry no_error_set : Event
  extracted statted parsed_mode registered_shell made_dir made_dirs : Bytes → Event
  copied_file : Bytes → Bytes → Event
  changed_owner : Bytes → ℕ → ℕ → Event
  set_mode : Bytes → Bytes → Option Bytes → Event
  ran_install_exec : Bytes → Bytes → Option Bytes → Event

-- the statements that are advanced through
pub data Select : Type 0 where
  upwards_depends count_files all_assets dir_users ldconfig_assets special_assets : Select
  count_packages list_packages count_updepends list_updepends : Select
  exec_assets : AssetType → Select
  count_stub_files preinstall_assets actualinstall_assets postinstall_assets : Select
  backup_assets count_depends backup_depends installed_prefix : Select

-- what lstat(2) finds: a regular file of so many bytes, or another kind of file
pub data FileKind : Type 0 where
  regular : ℕ → FileKind
  irregular : FileKind

-- What is outside the program: the file system, the hashes of files, the processes, and SQLite.
-- Each answer is a function of the events before it, the last of them first.
pub record Host : Type 0 where
  pub root : Bytes
  pub succeeds : List Event → Event → Bool
  pub fault : List Event → Select → Fault
  pub lstat : List Event → Bytes → Option FileKind
  pub md5 : List Event → Bytes → Option Bytes
  pub sha256 : List Event → Bytes → Option Bytes
  pub file_exists : List Event → Bytes → Bool
  pub passwd : Bytes → Option ℕ
  pub groups : Bytes → Option ℕ

-- What an operation leaves outside the tables: the events, the contents of its buffer for a hash
-- (`none` before it is written), and the steps of the progress meter.
pub record Trace : Type 0 where
  pub events : List Event
  pub hash : Option Bytes
  pub current : ℕ

-- `saved` holds the tables at the BEGIN of a transaction that is open.
pub record World : Type 0 where
  pub tables : Tables
  pub saved : Option Tables
  pub trace : Trace

-- The errors, all with the code MPORT_ERR_FATAL, but for `unset_error`: a path to the return of the
-- current error on which no error is set.
pub data Why : Type 0 where
  unset_error : Why
  sql_error locked_package needed_by_others failed_command : Why

-- `ok s` for MPORT_OK; an error keeps the state that it leaves.
abbrev pub Act : Type 0 → Type 0
Act S = S → Result (Why × S) S

infixr 5 ◌and_then◌
abbrev pub ◌and_then◌ : {S : Type 0} → Act S → Act S → Act S
(a and_then b) s = a s >>= b

abbrev pub nothing : {S : Type 0} → Act S
nothing s = ok s

abbrev pub with_event : Event → Trace → Trace
with_event e t = record t { events = e ∷ t.events }

-- an event whose result the code does not read
unfoldable pub emit : Event → Act Trace
emit e t = ok (with_event e t)

-- an event whose failure is returned
unfoldable pub attempt : Host → Event → Act Trace
attempt h e t =
    if h.succeeds t.events e then ok (with_event e t) else err (failed_command, with_event e t)

-- an event whose failure is followed by another act
unfoldable pub or_tell : Host → Event → Act Trace → Act Trace
or_tell h e f t = if h.succeeds t.events e then ok (with_event e t) else f (with_event e t)

unfoldable pub with_trace : World → Result (Why × Trace) Trace → Result (Why × World) World
with_trace w (ok t) = ok (record w { trace = t })
with_trace w (err (why, t)) = err (why, record w { trace = t })
with_trace w undefined = undefined

-- an act that reads the tables and leaves them as they are
unfoldable pub outside : (Tables → Act Trace) → Act World
unfolding with_trace
outside a w = with_trace w (a w.tables w.trace)

abbrev pub without {ℓ} : {A : Type ℓ} → (A → Bytes) → Bytes → List A → List A
without f name = filter_rows (λ a. not (str_eq (f a) name))

abbrev pub map_rows {ℓ} : {A : Type ℓ} → (A → A) → List A → List A
map_rows f [] = []
map_rows f (x ∷ xs) = f x ∷ map_rows f xs

-- `UPDATE packages SET … WHERE pkg=name`
abbrev pub where_pkg : Bytes → (InstalledRow → InstalledRow) → InstalledRow → InstalledRow
where_pkg name f r = if str_eq r.pkg name then f r else r

-- the row of a package that is new, with the column's default for its status
unfoldable pub new_row : Package → InstalledRow
new_row p = record {
  pkg = p.name;
  version = p.version;
  prefix = p.prefix;
  status = codes "dirty";
  locked = 0;
  automatic = p.automatic;
}

-- `packages` has a unique index on `pkg`
unfoldable pub has_row : Bytes → List InstalledRow → Bool
has_row n [] = false
has_row n (r ∷ rs) = str_eq r.pkg n || has_row n rs

-- The effect of a statement on the tables.
unfoldable pub changed_by : Sql → Tables → Tables
unfolding new_row
changed_by begin_transaction t = t
changed_by commit_transaction t = t
changed_by (mark_dirty n) t = record t {
  packages =
      map_rows (where_pkg n (λ (r : InstalledRow). record r { status = codes "dirty" })) t.packages;
}
changed_by (delete_assets n) t = record t { assets = without (λ (r : AssetRow). r.pkg) n t.assets }
changed_by (delete_depends n) t = record t {
  depends = without (λ (r : DependRow). r.pkg) n t.depends;
}
changed_by (delete_packages n) t = record t {
  packages = without (λ (r : InstalledRow). r.pkg) n t.packages;
}
changed_by (delete_categories n) t = record t {
  categories = without (λ (r : CategoryRow). r.pkg) n t.categories;
}
changed_by (set_locked k n) t = record t {
  packages = map_rows (where_pkg n (λ (r : InstalledRow). record r { locked = k })) t.packages;
}
changed_by (insert_package p) t = record t { packages = t.packages ++ new_row p ∷ [] }
changed_by (insert_depends rs) t = record t { depends = t.depends ++ rs }
changed_by (insert_categories rs) t = record t { categories = t.categories ++ rs }
changed_by (insert_asset r) t = record t { assets = t.assets ++ r ∷ [] }
changed_by (mark_clean n) t = record t {
  packages =
      map_rows (where_pkg n (λ (r : InstalledRow). record r { status = codes "clean" })) t.packages;
}

-- The transaction behind a statement that SQLite runs, `none` where it refuses: transactions do not
-- nest, COMMIT needs one, and no package has two rows.
unfoldable pub transaction : Sql → Tables → Option Tables → Option (Option Tables)
unfolding has_row
transaction begin_transaction t none = some (some t)
transaction begin_transaction t (some s) = none
transaction commit_transaction t none = none
transaction commit_transaction t (some s) = some none
transaction (mark_dirty n) t s = some s
transaction (delete_assets n) t s = some s
transaction (delete_depends n) t s = some s
transaction (delete_packages n) t s = some s
transaction (delete_categories n) t s = some s
transaction (set_locked k n) t s = some s
transaction (insert_package p) t s = if has_row p.name t.packages then none else some s
transaction (insert_depends rs) t s = some s
transaction (insert_categories rs) t s = some s
transaction (insert_asset r) t s = some s
transaction (mark_clean n) t s = some s

unfoldable pub settle : Sql → World → Option (Option Tables) → Result (Why × World) World
unfolding changed_by
settle s w none = err (sql_error, record w { trace = with_event (executed s) w.trace })
settle s w (some saved) = ok (record {
  tables = changed_by s w.tables;
  saved = saved;
  trace = with_event (executed s) w.trace;
})

-- mport_db_do
unfoldable pub db_do : Host → Sql → Act World
unfolding settle transaction
db_do h s w =
    settle s w
      (if h.succeeds w.trace.events (executed s) then transaction s w.tables w.saved else none)
