-- ===== src/Settings/Tests.antt =====
-- Settings that libmport/setting.c sets and lists.
use mport.Base.{true, false, some, List, [], ◌∷◌, ◌≡◌, refl}
use mport.Base.Text.{Bytes, codes, str_eq}
use mport.Db.{runs, refused, ok}
use mport.Moved.{db_count}
use mport.Settings.{
  SettingRow, vals_of, first_val, setting_get, insert_setting, set_vals, update_setting, stored,
  set_found, setting_set, list_steps, list_query, setting_list,
}
use mport.Settings.RoundTrip.{setting_get-setting_set}

abbrev autoupdate : Bytes → SettingRow
autoupdate v = record { name = codes "repo_autoupdate"; val = v }

abbrev before_set : List SettingRow
before_set =
    record { name = codes "handle_rc_scripts"; val = codes "yes" } ∷ autoupdate (codes "yes") ∷ []

abbrev after_set : List SettingRow
after_set =
    record { name = codes "handle_rc_scripts"; val = codes "yes" } ∷ autoupdate (codes "no") ∷ []

was_set :
    setting_set runs true (some (codes "repo_autoupdate")) (some (codes "no")) before_set
    ≡ ok after_set
unfolding vals_of first_val setting_get insert_setting set_vals update_setting stored set_found
    setting_set str_eq
was_set = refl

setting_get-setting_set_example :
    (setting_get runs (some (codes "repo_autoupdate")) after_set ≡ some (codes "no"))
    × ((m : Bytes)
        → str_eq (codes "repo_autoupdate") m ≡ false
        → setting_get runs (some m) after_set ≡ setting_get runs (some m) before_set)
setting_get-setting_set_example =
    setting_get-setting_set (codes "repo_autoupdate") (codes "no") before_set after_set was_set

-- Where the statement that reads is refused, a second row is inserted, and the first is still read.
set_twice :
    setting_set refused true
      (some (codes "repo_autoupdate"))
      (some (codes "no"))
      (autoupdate (codes "yes") ∷ [])
    ≡ ok (autoupdate (codes "yes") ∷ autoupdate (codes "no") ∷ [])
unfolding vals_of first_val setting_get insert_setting set_vals update_setting stored set_found
    setting_set str_eq
set_twice = refl

listed :
    setting_list runs runs (autoupdate (codes "no") ∷ []) ≡ ok (codes "repo_autoupdate=no" ∷ [])
unfolding list_steps list_query setting_list db_count
listed = refl
