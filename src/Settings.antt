-- ===== src/Settings.antt =====
-- libmport/setting.c: the table of the settings, which has no unique index.
pub mod RoundTrip
mod Tests
use mport.Base.{ℕ, zero, suc, Bool, Option, none, some, List, [], ◌∷◌, ◌++◌, if◌then◌else◌, length}
use mport.Base.Text.{Bytes, str_eq}
use mport.Db.{
  Fault, Steps, row, finished, failed, Query, unprepared, prepared, Result, ok, err, ◌>>=◌, select,
}
use mport.Moved.{IndexError, index_sql, db_count}

pub record SettingRow : Type 0 where
  pub name : Bytes
  pub val : Bytes

unfoldable pub vals_of : Bytes → List SettingRow → List Bytes
vals_of n [] = []
vals_of n (r ∷ rs) = let rest = vals_of n rs in if str_eq r.name n then r.val ∷ rest else rest

unfoldable pub first_val : Query Bytes → Option Bytes
first_val unprepared = none
first_val (prepared (row v rest)) = some v
first_val (prepared finished) = none
first_val (prepared failed) = none

-- mport_setting_get; `none` is a NULL pointer
unfoldable pub setting_get : Fault → Option Bytes → List SettingRow → Option Bytes
unfolding first_val vals_of
setting_get f none rs = none
setting_get f (some n) rs = first_val (select f (vals_of n rs))

-- `INSERT INTO settings`, whose columns are NOT NULL
unfoldable pub insert_setting :
    Option Bytes → Option Bytes → List SettingRow → Option (List SettingRow)
insert_setting none v rs = none
insert_setting (some n) none rs = none
insert_setting (some n) (some v) rs = some (rs ++ record { name = n; val = v } ∷ [])

unfoldable pub set_vals : Bytes → Bytes → List SettingRow → List SettingRow
set_vals n v [] = []
set_vals n v (r ∷ rs) = (if str_eq r.name n then record r { val = v } else r) ∷ set_vals n v rs

unfoldable pub refuse_null : List Bytes → List SettingRow → Option (List SettingRow)
refuse_null [] rs = some rs
refuse_null (v ∷ vs) rs = none

-- `UPDATE settings set val=… where name=…`; no name equals NULL
unfoldable pub update_setting :
    Option Bytes → Option Bytes → List SettingRow → Option (List SettingRow)
unfolding set_vals refuse_null vals_of
update_setting none v rs = some rs
update_setting (some n) none rs = refuse_null (vals_of n rs) rs
update_setting (some n) (some v) rs = some (set_vals n v rs)

-- mport_db_do: a statement that SQLite does not run leaves the table
unfoldable pub stored :
    List SettingRow → Option (List SettingRow) → Result (List SettingRow) (List SettingRow)
stored rs none = err rs
stored rs (some rs') = ok rs'

unfoldable pub set_found :
    Option Bytes
    → Bool
    → Option Bytes
    → Option Bytes
    → List SettingRow
    → Result (List SettingRow) (List SettingRow)
unfolding stored insert_setting update_setting
set_found none runs n v rs = stored rs (if runs then insert_setting n v rs else none)
set_found (some old) runs n v rs = stored rs (if runs then update_setting n v rs else none)

-- mport_setting_set; the flag says whether SQLite runs the statement
unfoldable pub setting_set :
    Fault
    → Bool
    → Option Bytes
    → Option Bytes
    → List SettingRow
    → Result (List SettingRow) (List SettingRow)
unfolding set_found setting_get
setting_set f runs n v rs = set_found (setting_get f n rs) runs n v rs

-- the texts `name=val`, as many as were counted; the array holds NULL behind a break
unfoldable pub list_steps : ℕ → Steps SettingRow → List Bytes
list_steps zero s = []
list_steps (suc n) (row r rest) = (r.name ++ b'=' ∷ r.val) ∷ list_steps n rest
list_steps (suc n) finished = []
list_steps (suc n) failed = []

unfoldable pub list_query : ℕ → Query SettingRow → Result IndexError (List Bytes)
unfolding list_steps
list_query n unprepared = err index_sql
list_query n (prepared s) = ok (list_steps n s)

-- mport_setting_list, whose NULL is an error; the first fault is that of the count, which may stay
-- without a value
unfoldable pub setting_list : Fault → Fault → List SettingRow → Result IndexError (List Bytes)
unfolding list_query
setting_list f g rs = db_count f (length rs) >>= λ n. list_query n (select g rs)
