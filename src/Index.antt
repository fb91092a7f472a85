-- ===== src/Index.antt =====
-- libmport/index.c and libmport/index_depends.c: what is looked up in the tables of the index, which
-- are attached to the database as idx.
pub mod Check
pub mod Load
pub mod Newer
mod Tests
use mport.Base.{
  ℕ, zero, suc, Bool, true, false, ◌&&◌, ◌||◌, Option, none, some, List, [], ◌∷◌, if◌then◌else◌,
  length,
}
use mport.Base.Text.{Bytes, codes, str_eq}
use mport.Plist.Command.{strlcpy}
use mport.Db.{
  Fault, runs, refused, breaks_after, Steps, row, finished, failed, Query, unprepared, prepared,
  Result, ok, err, undefined, ◌>>=◌, select,
}
unfoldable pub use mport.Moved.{text_of, equals}
use mport.Moved.{IndexError, index_not_loaded, index_sql, db_count}
use mport.Preconditions.{filter_rows}
use mport.Settings.{SettingRow, setting_get}

-- rows of idx.packages, idx.aliases, idx.mirrors and idx.depends, whose schema is not in the
-- repository; `none` is NULL
pub record EntryRow : Type 0 where
  pub pkg : Option Bytes
  pub version : Option Bytes
  pub comment : Option Bytes
  pub bundlefile : Option Bytes
  pub license : Option Bytes
  pub hash : Option Bytes

pub record AliasRow : Type 0 where
  pub alias : Option Bytes
  pub pkg : Option Bytes

pub record MirrorRow : Type 0 where
  pub country : Option Bytes
  pub mirror : Option Bytes

pub record IndexDependRow : Type 0 where
  pub pkg : Option Bytes
  pub version : Option Bytes
  pub d_pkg : Option Bytes
  pub d_version : Option Bytes

-- mportIndexEntry, without its type
pub record IndexEntry : Type 0 where
  pub pkgname : Bytes
  pub version : Bytes
  pub comment : Bytes
  pub bundlefile : Bytes
  pub license : Bytes
  pub hash : Bytes

-- mportMirrorEntry
pub record MirrorEntry : Type 0 where
  pub country : Bytes
  pub url : Bytes

-- mportDependsEntry
pub record DependsEntry : Type 0 where
  pub pkgname : Bytes
  pub version : Bytes
  pub d_pkgname : Bytes
  pub d_version : Bytes

pub data IndexStatement : Type 0 where
  alias_of count_packages select_packages count_mirrors select_mirrors count_depends
        select_depends :
      IndexStatement

-- The index: whether it is attached, its tables, SQLite's GLOB (the text first) and ORDER BY country,
-- and what SQLite does with each statement.
pub record Catalog : Type 0 where
  pub loaded : Bool
  pub packages : List EntryRow
  pub aliases : List AliasRow
  pub mirrors : List MirrorRow
  pub depends : List IndexDependRow
  pub glob : Bytes → Bytes → Bool
  pub by_country : List MirrorRow → List MirrorRow
  pub fault : IndexStatement → Fault

-- a table of idx is only there where the index is attached
unfoldable pub fault_of : Catalog → IndexStatement → Fault
fault_of ix s = if ix.loaded then ix.fault s else refused

unfoldable pub populate_row : EntryRow → Result IndexError IndexEntry
populate_row r = do
  pkgname ← text_of r.pkg
  version ← text_of r.version
  comment ← text_of r.comment
  bundlefile ← text_of r.bundlefile
  license ← text_of r.license
  hash ← text_of r.hash
  ok (record {
    pkgname = pkgname;
    version = version;
    comment = comment;
    bundlefile = bundlefile;
    license = license;
    hash = hash;
  })

-- the loop over the rows of a statement
unfoldable pub each_entry :
    {A B : Type 0} → (A → Result IndexError B) → Steps A → Result IndexError (List B)
each_entry read finished = ok []
each_entry read failed = err index_sql
each_entry read (row r rest) = do e ← read r; es ← each_entry read rest; ok (e ∷ es)

unfoldable pub read_query :
    {A B : Type 0} → (A → Result IndexError B) → Query A → Result IndexError (List B)
read_query read unprepared = err index_sql
read_query read (prepared s) = each_entry read s

-- nothing is selected where the count is 0
unfoldable pub rows_if_any :
    {A : Type 0} → ℕ → Result IndexError (List A) → Result IndexError (List A)
rows_if_any zero r = ok []
rows_if_any (suc n) r = r

-- the count of the rows, and then the rows, where there are any
unfoldable pub searched :
    {A B : Type 0} → Fault → Fault → (A → Result IndexError B) → List A → Result IndexError (List B)
searched f g read found = do
  count ← db_count f (length found)
  rows_if_any count (read_query read (select g found))

unfoldable pub alias_step : Bytes → Query AliasRow → Result IndexError Bytes
alias_step query unprepared = err index_sql
alias_step query (prepared (row r rest)) = text_of r.pkg
alias_step query (prepared finished) = ok query
alias_step query (prepared failed) = err index_sql

unfoldable pub lookup_alias : Catalog → Bytes → Result IndexError Bytes
lookup_alias ix query = alias_step query (
    select (fault_of ix alias_of) (filter_rows (λ (r : AliasRow). equals r.alias query) ix.aliases))

-- `column GLOB pattern`; NULL matches nothing
unfoldable pub matches : Catalog → Bytes → Option Bytes → Bool
matches ix pattern none = false
matches ix pattern (some s) = ix.glob s pattern

unfoldable pub search_rows : Catalog → (EntryRow → Bool) → Result IndexError (List IndexEntry)
search_rows ix p =
    searched (fault_of ix count_packages) (fault_of ix select_packages) populate_row
      (filter_rows p ix.packages)

-- mport_index_lookup_pkgname
unfoldable pub lookup_pkgname : Catalog → Bytes → Result IndexError (List IndexEntry)
lookup_pkgname ix pkgname =
    if ix.loaded
    then (do lookup ← lookup_alias ix pkgname; search_rows ix (λ r. matches ix lookup r.pkg))
    else err index_not_loaded

-- mport_index_search_term
unfoldable pub search_term : Catalog → Bytes → Result IndexError (List IndexEntry)
search_term ix term = search_rows ix (λ r. matches ix term r.pkg || matches ix term r.comment)

-- mport_index_search; the condition is `none` where it could not be built
unfoldable pub index_search :
    Catalog → Option (EntryRow → Bool) → Result IndexError (List IndexEntry)
index_search ix none = err index_sql
index_search ix (some p) = search_rows ix p

-- mport_index_list
unfoldable pub index_list : Catalog → Result IndexError (List IndexEntry)
index_list ix = search_rows ix (λ r. true)

unfoldable pub mirror_entry : MirrorRow → Result IndexError MirrorEntry
mirror_entry r = do
  country ← text_of r.country
  url ← text_of r.mirror
  ok (record { country = strlcpy country 5; url = strlcpy url 256 })

-- what mport_index_mirror_list returns: MPORT_OK where there is no mirror, and otherwise the code of
-- the last step, SQLITE_DONE
unfoldable pub mirror_code : List MirrorEntry → ℕ × List MirrorEntry
mirror_code [] = (0, [])
mirror_code (e ∷ es) = (101, e ∷ es)

-- mport_index_mirror_list
unfoldable pub mirror_list : Catalog → Result IndexError (ℕ × List MirrorEntry)
mirror_list ix =
    if ix.loaded
    then (do
      es ←
          searched (fault_of ix count_mirrors) (fault_of ix select_mirrors) mirror_entry
            (ix.by_country ix.mirrors)
      ok (mirror_code es))
    else err index_not_loaded

unfoldable pub region_of : Option Bytes → Bytes
region_of none = codes "us"
region_of (some r) = r

-- mport_index_get_mirror_list, which reads the region in the settings; the second statement is run
-- also where the count is 0
unfoldable pub get_mirror_list : Catalog → Fault → List SettingRow → Result IndexError (List Bytes)
get_mirror_list ix f settings =
    let region = region_of (setting_get f (some (codes "mirror_region")) settings) in
    let found = filter_rows (λ (r : MirrorRow). equals r.country region) ix.mirrors in
    (do
      count ← db_count (fault_of ix count_mirrors) (length found)
      read_query (λ (r : MirrorRow). text_of r.mirror) (select (fault_of ix select_mirrors) found))

unfoldable pub depends_entry : IndexDependRow → Result IndexError DependsEntry
depends_entry r = do
  pkgname ← text_of r.pkg
  version ← text_of r.version
  d_pkgname ← text_of r.d_pkg
  d_version ← text_of r.d_version
  ok (record { pkgname = pkgname; version = version; d_pkgname = d_pkgname; d_version = d_version })

-- the count of mport_index_depends_list, whose error is looked at
unfoldable pub depends_count : Fault → ℕ → Result IndexError ℕ
depends_count runs n = ok n
depends_count refused n = err index_sql
depends_count (breaks_after zero) n = err index_sql
depends_count (breaks_after (suc k)) n = ok n

-- mport_index_depends_list
unfoldable pub depends_list : Catalog → Bytes → Bytes → Result IndexError (List DependsEntry)
depends_list ix pkgname version =
    let found =
      filter_rows (λ (r : IndexDependRow). equals r.pkg pkgname && equals r.version version)
        ix.depends in
    if ix.loaded
    then (do
      count ← depends_count (fault_of ix count_depends) (length found)
      rows_if_any count (read_query depends_entry (select (fault_of ix select_depends) found)))
    else err index_not_loaded
