-- ===== src/Moved.antt =====
-- libmport/index.c: `mport_moved_lookup` and `lookup_alias_inverse`, with `mport_db_count` of
-- libmport/db.c, which counts the rows.
pub mod Lookup
use mport.Base.{ℕ, zero, suc, Bool, false, Option, none, some, List, [], ◌∷◌, if◌then◌else◌, length}
use mport.Base.Text.{Bytes, str_eq}
use mport.Plist.Command.{strlcpy}
use mport.Db.{
  Fault, runs, refused, breaks_after, Steps, row, finished, failed, Query, unprepared, prepared,
  Result, ok, err, undefined, ◌>>=◌, select,
}

-- a row of idx.moved, whose schema is not in the repository; `none` is NULL
pub record MovedRow : Type 0 where
  pub port : Option Bytes
  pub moved_to : Option Bytes
  pub why : Option Bytes
  pub date : Option Bytes

-- mportIndexMovedEntry of libmport/mport.h
pub record MovedEntry : Type 0 where
  pub port : Bytes
  pub moved_to : Bytes
  pub why : Bytes
  pub date : Bytes
  pub pkgname : Bytes
  pub moved_to_pkgname : Bytes

pub data IndexError : Type 0 where
  index_not_loaded : IndexError
  index_sql : IndexError

-- The index as the lookup reads it, with what SQLite does with each of its statements.
pub record Index : Type 0 where
  pub loaded : Bool
  pub moved : List MovedRow
  pub alias_packages : List Bytes
  pub count_fault : Fault
  pub moved_fault : Fault
  pub alias_fault : Bytes → Fault

pub equal_rows : Bytes → List Bytes → List Bytes
equal_rows query [] = []
equal_rows query (x ∷ xs) =
    let rest = equal_rows query xs in if str_eq x query then x ∷ rest else rest

-- strdup or strlcpy of a column, which reads through NULL
unfoldable pub text_of : Option Bytes → Result IndexError Bytes
text_of none = undefined
text_of (some s) = ok s

-- `column = %Q`; NULL equals nothing
unfoldable pub equals : Option Bytes → Bytes → Bool
equals none t = false
equals (some s) t = str_eq s t

unfoldable pub rows_of_port : Bytes → List MovedRow → List MovedRow
rows_of_port origin [] = []
rows_of_port origin (r ∷ rs) =
    let rest = rows_of_port origin rs in if equals r.port origin then r ∷ rest else rest

-- The first step decides: both the row and the end of the rows give the query back.
pub first_alias : Bytes → Query Bytes → Result IndexError Bytes
first_alias query unprepared = err index_sql
first_alias query (prepared (row pkg rest)) = ok pkg
first_alias query (prepared finished) = ok query
first_alias query (prepared failed) = err index_sql

pub lookup_alias_inverse : Index → Bytes → Result IndexError Bytes
lookup_alias_inverse ix query =
    first_alias query (select (ix.alias_fault query) (equal_rows query ix.alias_packages))

-- `mport_db_count`: where the statement is prepared and its step fails, the count is never set, and
-- the caller reads it all the same
unfoldable pub db_count : Fault → ℕ → Result IndexError ℕ
db_count runs n = ok n
db_count refused n = err index_sql
db_count (breaks_after zero) n = undefined
db_count (breaks_after (suc k)) n = ok n

-- `strlcpy(e->pkgname, orig_pkg, 128)` after a lookup whose error is not looked at: `orig_pkg` is
-- NULL then
pub original_name : Result IndexError Bytes → Result IndexError Bytes
original_name (ok pkg) = ok (strlcpy pkg 128)
original_name (err e) = undefined
original_name undefined = undefined

pub moved_name : Index → Bytes → Result IndexError Bytes
moved_name ix [] = ok []
moved_name ix (c ∷ s) = do pkg ← lookup_alias_inverse ix (c ∷ s); ok (strlcpy pkg 128)

pub moved_entry : Index → Bytes → MovedRow → Result IndexError MovedEntry
moved_entry ix origin r = do
  port ← text_of r.port
  moved_to ← text_of r.moved_to
  why ← text_of r.why
  date ← text_of r.date
  pkgname ← original_name (lookup_alias_inverse ix origin)
  moved_to_pkgname ← moved_name ix (strlcpy moved_to 128)
  ok (record {
    port = strlcpy port 128;
    moved_to = strlcpy moved_to 128;
    why = strlcpy why 128;
    date = strlcpy date 32;
    pkgname = pkgname;
    moved_to_pkgname = moved_to_pkgname;
  })

pub moved_entries : Index → Bytes → Steps MovedRow → Result IndexError (List MovedEntry)
moved_entries ix origin finished = ok []
moved_entries ix origin failed = err index_sql
moved_entries ix origin (row r rest) = do
  e ← moved_entry ix origin r
  es ← moved_entries ix origin rest
  ok (e ∷ es)

pub stepped : Index → Bytes → Query MovedRow → Result IndexError (List MovedEntry)
stepped ix origin unprepared = err index_sql
stepped ix origin (prepared s) = moved_entries ix origin s

-- nothing is selected where the count is 0
pub if_any : ℕ → Result IndexError (List MovedEntry) → Result IndexError (List MovedEntry)
if_any zero r = ok []
if_any (suc n) r = r

-- The vector of entries; it is allocated, and ends with NULL, also where no row is found.
pub moved_lookup : Index → Bytes → Result IndexError (List MovedEntry)
moved_lookup ix origin =
    let found = rows_of_port origin ix.moved in
    if ix.loaded
    then (do
      count ← db_count ix.count_fault (length found)
      if_any count (stepped ix origin (select ix.moved_fault found)))
    else err index_not_loaded
