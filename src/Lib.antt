-- ===== src/Lib.antt =====
-- Verification of mport, the package manager of MidnightBSD.
--
-- The library libmport installs, updates and deletes packages, which it keeps in an SQLite
-- database. A package's bundle holds a packing list and a stub database with its dependencies
-- and conflicts. Before a package is installed or updated, the preconditions hold the stub's
-- tables against the installed packages, and versions against requirements.
--
-- Base: numbers, lists, C's signed integers, C strings as lists of bytes, and the functions of
--   the C library that the code calls (strtol, rindex, isdigit, isspace, strcmp).
-- Version/Compare (libmport/version_cmp.c): parse_version, cmp_ints, cmp_versions and
--   mport_version_cmp (version_cmp). A string is the list of its bytes without the NUL; a
--   cursor of the loop stands in a string or behind its NUL, and a read from there is the
--   outcome out_of_bounds. The loop's fuel is the number of bytes of both strings, and each
--   round takes one at least.
-- Version/Require (libmport/version_cmp.c): mport_version_require_check (require_check).
-- Plist (libmport/plist.c): parse_command, parse_file_owner_mode and mport_parse_plistfile
--   (parse_plistfile). MAXLOGNAME is a parameter. A read in front of a line is the outcome
--   before_line.
-- Db: what SQLite does with a statement, as a parameter Fault, and the results of calls.
--   undefined stands for behaviour that C leaves undefined.
-- Moved (libmport/index.c): mport_moved_lookup (moved_lookup), lookup_alias_inverse, and
--   mport_db_count of libmport/db.c (db_count).
-- Preconditions (libmport/check_preconditions.c): the seven checks, and
--   mport_check_preconditions (check_preconditions). The tables are lists of rows, and each
--   SQL condition is a function on rows.
-- Store: the master database's tables with the transaction that may be open, mport_db_do of
--   libmport/db.c (db_do), and everything else that an operation does, as a list of events,
--   the last first. Host says what each file, process and statement answers, from the events
--   before it. Store/Ends: triples for sequences of such acts.
-- Lock (libmport/lock.c): mport_lock_islocked, mport_lock_lock and mport_lock_unlock.
-- Delete (libmport/delete_primative.c): Commands (run_unexec, run_unldconfig,
--   run_special_unexec, run_pkg_deinstall, delete_pkg_infra, check_for_upwards_depends),
--   Assets (the loop over the assets, is_safe_to_delete_dir) and Primitive
--   (mport_delete_primative, as delete_primative). The buffer for a hash is part of the state,
--   since it outlives an asset whose hash fails. is_safe_to_delete_dir takes the acts that
--   follow each answer.
-- Pkgmeta (libmport/pkgmeta.c): mport_pkgmeta_list (pkgmeta_list), mport_pkgmeta_count and
--   mport_pkgmeta_get_updepends. A write behind the vector is undefined; SQLite's ORDER BY is
--   a parameter.
-- Autoremove (libmport/autoremove.c): mport_autoremove. Its loop that deletes runs on fuel,
--   one unit for each turn; the result no_fuel stands for a loop that has used it up.
-- AssetExec (libmport/util.c): mport_run_asset_exec (run_asset_exec) up to the command, with
--   the static limit that its calls share.
-- Store/Works: systems on which every call succeeds (Healthy), acts that always return
--   MPORT_OK there, and what they make of the tables. Delete/Works, CommandWorks, InfraWorks,
--   FileWorks and AssetWorks say so of the parts of a deletion.
-- WordList (libmport/util.c): mport_parselist (parselist).
-- Install (libmport/bundle_read_install_pkg.c): the lists of a bundle's assets and the
--   variables of do_actual_install (Install), what it does with each asset (Files, with
--   create_sample_file), the steps before and behind the files (Commands: do_pre_install,
--   run_mtree, run_pkg_install, run_postexec, copy_metafile), and Primitive:
--   do_actual_install, do_post_install and mport_bundle_read_install_pkg
--   (bundle_read_install_pkg). The variables are values, with none where C has not set them;
--   the error that is returned where no error was set asks the host whether one is. Laws,
--   Places, Around and Phases: what every part of an installation has, for any property with
--   the laws of acts.
-- Registry: the set of the installed packages, as an abstract view that forgets rows and
--   order, and sessions of installations and deletions as sequences of steps on it.
-- Update: mport_bundle_read_update_pkg of libmport/bundle_read_update_pkg.c
--   (bundle_read_update_pkg) with its backup, mport_install_primative of
--   libmport/install_primative.c and mport_update_primative of libmport/update_primative.c.
--   What a bundle's file holds, the name of the temporary file and the result of
--   mport_check_preconditions are the parameter Session. The stub database that is attached is
--   what the events say: one connection has one, and a backup that is restored takes it.
--   Outcomes, Restore and Detached: what an update leaves, and how a call ends where a package
--   fails behind its backup.
-- Settings (libmport/setting.c): mport_setting_get, mport_setting_set and mport_setting_list
--   (setting_get, setting_set and setting_list).
-- Upgrade (libmport/upgrade.c): mport_upgrade (upgrade) and mport_update_down (update_down),
--   with fuel for the depth of the recursion (Enough and Cycles). The functions of other files
--   that they call are the record Calls.
-- Index (libmport/index.c, libmport/index_depends.c): the tables of the index and what is
--   looked up in them (lookup_pkgname, search_term, index_search, index_list, mirror_list,
--   get_mirror_list and depends_list). Check: mport_index_check (index_check). Load:
--   mport_index_load and mport_index_get (index_load, index_get), whose downloads and clock
--   are the record Outside. The schema of the index is not in the repository, so that its
--   columns may be NULL.
-- ByName (libmport/install.c, libmport/update.c): mport_install, mport_install_depends and
--   mport_update (install_name, install_depends and update_name), with mport_download of
--   libmport/fetch.c for one package (download), which call each other, with fuel for the
--   depth of the recursion (Ranks, Enough). What they do to the system is the record Actions.
--   Changes, Downloads and Verified: the steps by which they change it.
--
-- Not modelled: failing allocations; the texts of error messages; the network, archives and
-- the programs under mport and libexec; SQLite itself, whose GLOB and errors are parameters.
-- Columns that the schema declares NOT NULL are bytes.
pub mod Base
pub mod Version
pub mod Plist
pub mod Db
pub mod Moved
pub mod Preconditions
pub mod Store
pub mod WordList
pub mod Lock
pub mod AssetExec
pub mod Delete
pub mod Index
pub mod Install
pub mod Registry
pub mod Update
pub mod Settings
pub mod ByName
pub mod Upgrade
pub mod Pkgmeta
pub mod Autoremove
