-- ===== src/Index/Load.antt =====
-- libmport/index.c: `mport_index_load` and `mport_index_get`, which attach and refresh the index.
pub mod Attached
use mport.Base.{
  ℕ, zero, suc, ◌+◌, ◌*◌, ◌/◌, ◌%◌, ◌^◌, ◌-◌, Bool, true, false, not, ◌&&◌, ◌||◌, Option, none,
  some, List, [], ◌∷◌, ltb, if◌then◌else◌,
}
use mport.Base.Int.{ℤ, pos, negsuc}
use mport.Base.Text.{Bytes, codes, str_eq, has_prefix, strtol_int}
use mport.Db.{Fault, Result, ok, err, undefined}
use mport.Settings.{SettingRow, setting_get, setting_set}

unfoldable pub has_dots : Bytes → Bool
has_dots [] = false
has_dots (c ∷ s) = has_prefix (codes "..") (c ∷ s) || has_dots s

-- mport_index_file_path, for the value of PKG_DB; a path with dots is refused
unfoldable pub index_file_path : Option Bytes → Bytes
index_file_path none = codes "/var/db/mport/index.db"
index_file_path (some []) = codes "/var/db/mport/index.db"
index_file_path (some (c ∷ s)) = if has_dots (c ∷ s) then codes "/var/db/mport/index.db" else c ∷ s

-- What the functions find outside: the flag noIndex of the instance, the birth of the index file
-- (`none` where stat fails), the clock, whether the file can be written, whether each download
-- succeeds and whether the file exists after it, and what SQLite does with ATTACH, DETACH and the
-- statements on the settings.
pub record Outside : Type 0 where
  pub no_index : Bool
  pub birthtime : Option ℕ
  pub now : ℕ
  pub writable : Bool
  pub fetch_bootstrap_index : Bool × Bool
  pub fetch_index : Bool × Bool
  pub attach_runs : Bool
  pub detach_runs : Bool
  pub get_fault : Bytes → Fault
  pub set_runs : Bool

-- the flag MPORT_INST_HAVE_INDEX, whether SQLite has idx, whether the file exists, and the settings
pub record IndexState : Type 0 where
  pub have_index : Bool
  pub attached : Bool
  pub file : Bool
  pub settings : List SettingRow

pub data LoadEnd : Type 0 where
  load_ok load_error load_undefined : LoadEnd

unfoldable pub and_load :
    IndexState × LoadEnd → (IndexState → IndexState × LoadEnd) → IndexState × LoadEnd
and_load (s, load_ok) k = k s
and_load (s, load_error) k = (s, load_error)
and_load (s, load_undefined) k = (s, load_undefined)

-- attach_index_db; a second idx is an error
unfoldable pub attach_index_db : Outside → IndexState → IndexState × LoadEnd
attach_index_db h s =
    if s.attached
    then (s, load_error)
    else if h.attach_runs
    then (record s { attached = true }, load_ok)
    else (s, load_error)

unfoldable pub detach_index_db : Outside → IndexState → IndexState × LoadEnd
detach_index_db h s =
    if s.attached && h.detach_runs
    then (record s { attached = false }, load_ok)
    else (s, load_error)

-- index_is_recentish
unfoldable pub index_is_recentish : Outside → Option ℕ → Bool
index_is_recentish h none = false
index_is_recentish h (some birth) = not (ltb (birth + 3600 * 24 * 7) h.now)

abbrev pub last_check_key : Bytes
last_check_key = codes "index_last_check"

-- `now < last + MPORT_DAY`, with a sum of two ints; `none` where it overflows
unfoldable pub before_limit : ℕ → ℤ → Option Bool
before_limit now (pos n) =
    if ltb (2 ^ 31 - 1) (n + 3600 * 24) then none else some (ltb now (n + 3600 * 24))
before_limit now (negsuc n) = some (ltb (now + suc n) (3600 * 24))

-- index_last_checked_recentish
unfoldable pub checked_recentish : Outside → Option Bytes → Option Bool
checked_recentish h none = some false
checked_recentish h (some recent) = before_limit h.now (strtol_int recent)

-- `%jd`; as many rounds as the number says are enough
unfoldable pub decimal : ℕ → ℕ → Bytes → Bytes
decimal zero n s = s
decimal (suc fuel) n s =
    if ltb n 10 then (48 + n) ∷ s else decimal fuel (n / 10) ((48 + n % 10) ∷ s)

unfoldable pub settings_set :
    IndexState → Result (List SettingRow) (List SettingRow) → IndexState × LoadEnd
settings_set s (ok rs) = (record s { settings = rs }, load_ok)
settings_set s (err rs) = (record s { settings = rs }, load_error)
settings_set s undefined = (s, load_undefined)

-- index_update_last_checked
unfoldable pub update_last_checked : Outside → IndexState → IndexState × LoadEnd
update_last_checked h s = settings_set s (
    setting_set (h.get_fault last_check_key) h.set_runs (some last_check_key)
      (some (decimal (suc h.now) h.now [])) s.settings)

-- a download: whether it succeeds, and whether the file exists after it
unfoldable pub fetched : Bool × Bool → IndexState → IndexState × LoadEnd
fetched (good, exists) s = (record s { file = exists }, if good then load_ok else load_error)

unfoldable pub reattach : Outside → IndexState → IndexState × LoadEnd
reattach h s =
    if s.have_index
    then and_load (detach_index_db h s) (λ t.
      and_load (attach_index_db h (record t { have_index = false }))
        (λ u. (record u { have_index = true }, load_ok)))
    else (s, load_ok)

-- mport_index_get
unfoldable pub index_get : Outside → IndexState → IndexState × LoadEnd
index_get h s =
    and_load (fetched (if s.have_index then h.fetch_index else h.fetch_bootstrap_index) s)
      (λ t. and_load (reattach h t) (update_last_checked h))

unfoldable pub is_off : Option Bytes → Bool
is_off none = false
is_off (some v) =
    str_eq (codes "FALSE") v
    || str_eq (codes "false") v
    || str_eq (codes "NO") v
    || str_eq (codes "no") v

-- where the index is old: nothing is done if it was checked in the last day
unfoldable pub get_unless_checked : Outside → IndexState → Option Bool → IndexState × LoadEnd
get_unless_checked h s none = (s, load_undefined)
get_unless_checked h s (some true) = (s, load_ok)
get_unless_checked h s (some false) = index_get h s

unfoldable pub refresh : Outside → Bool → IndexState → IndexState × LoadEnd
refresh h no_index s =
    if not (index_is_recentish h h.birthtime) && not no_index && h.writable
    then get_unless_checked h s (
        checked_recentish h
          (setting_get (h.get_fault last_check_key) (some last_check_key) s.settings))
    else (s, load_ok)

unfoldable pub attach_fetched : Outside → IndexState → IndexState × LoadEnd
attach_fetched h s =
    if s.file
    then and_load (attach_index_db h s)
        (λ t. update_last_checked h (record t { have_index = true }))
    else (s, load_error)

unfoldable pub auto_off : Outside → IndexState → Bool
auto_off h s =
    h.no_index
    || is_off (
        setting_get (h.get_fault (codes "index_autoupdate")) (some (codes "index_autoupdate"))
          s.settings)

-- mport_index_load
unfoldable pub index_load : Outside → IndexState → IndexState × LoadEnd
index_load h s =
    if s.file
    then and_load (attach_index_db h s)
        (λ t. refresh h (auto_off h s) (record t { have_index = true }))
    else and_load (fetched h.fetch_bootstrap_index s) (attach_fetched h)
