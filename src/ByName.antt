-- ===== src/ByName.antt =====
-- libmport/install.c, libmport/update.c and mport_download of libmport/fetch.c: a package of the index
-- is installed or updated by its name, behind those that it depends on.
pub mod Changes
pub mod Downloads
pub mod Verified
pub mod Ranks
pub mod Enough
mod Tests
use mport.Base.{
  ℕ, zero, suc, Bool, true, false, Option, none, some, List, [], ◌∷◌, ◌++◌, if◌then◌else◌, length,
  ◌&&◌,
}
use mport.Base.Text.{Bytes, codes, str_eq}
use mport.Db.{
  Fault, Steps, row, finished, failed, Query, unprepared, prepared, Result, ok, err, undefined,
  ◌>>=◌, select,
}
use mport.Moved.{IndexError}
use mport.Preconditions.{filter_rows}
use mport.Index.{
  IndexDependRow, IndexEntry, DependsEntry, Catalog, select_depends, count_depends, fault_of,
  equals, depends_entry, depends_count, depends_list, lookup_pkgname,
}

-- What the functions call, over a state of the system: whether a file exists, mport_fetch_bundle
-- into a directory,
-- mport_hash_file (`none` for NULL), unlink, mport_install_primative, whether
-- mport_pkgmeta_search_master finds a package of a name (`none` for an error), the check for an
-- upgrade of it, the directory for downloads, and mport_update_primative.
pub record Actions (S : Type 0) : Type 0 where
  pub file_exists : S → Bytes → Bool
  pub fetch_bundle : Bytes → Bytes → S → S × Bool
  pub hash_file : S → Bytes → Option Bytes
  pub unlink : Bytes → S → S × Bool
  pub primative_install : Bytes → Option Bytes → Bool → S → S × Bool
  pub installed : S → Bytes → Option Bool
  pub upgradeable : S → Bytes → Bool
  pub output_path : Bytes
  pub primative_update : Bytes → S → S × Bool

-- How a call ends: with MPORT_OK, with an error, with behaviour that C leaves undefined, or in a
-- recursion that is too deep.
pub data CallEnd (S : Type 0) : Type 0 where
  good bad : S → CallEnd S
  crashed too_deep : CallEnd S

unfoldable pub ended : {S : Type 0} → S × Bool → CallEnd S
ended (s, true) = good s
ended (s, false) = bad s

unfoldable pub if_good : {S : Type 0} → CallEnd S → (S → CallEnd S) → CallEnd S
if_good (good s) k = k s
if_good (bad s) k = bad s
if_good crashed k = crashed
if_good too_deep k = too_deep

unfoldable pub cut_to : ℕ → Bytes → Bytes
cut_to zero s = []
cut_to (suc n) [] = []
cut_to (suc n) (c ∷ s) = c ∷ cut_to n s

-- mport_verify_hash, `strncmp(filehash, hash, 65) == 0`
unfoldable pub verify_hash : Option Bytes → Bytes → Option Bool
verify_hash none hash = none
verify_hash (some h) hash = some (str_eq (cut_to 65 h) (cut_to 65 hash))

unfoldable pub staged : IndexEntry → Bytes
staged e = codes "/var/db/mport/downloads/" ++ e.bundlefile

-- behind the test of the hash: a bundle that fails it is removed
unfoldable pub after_verify :
    {S : Type 0} → Actions S → IndexEntry → Option Bytes → Bool → S → Option Bool → CallEnd S
after_verify a e prefix automatic s none = crashed
after_verify a e prefix automatic s (some false) = bad (a.unlink (staged e) s).0
after_verify a e prefix automatic s (some true) =
    ended (a.primative_install (staged e) prefix automatic s)

unfoldable pub install_fetched :
    {S : Type 0} → Actions S → IndexEntry → Option Bytes → Bool → S → CallEnd S
install_fetched a e prefix automatic s =
    after_verify a e prefix automatic s (verify_hash (a.hash_file s (staged e)) e.hash)

unfoldable pub install_entry :
    {S : Type 0} → Actions S → IndexEntry → Option Bytes → Bool → S → CallEnd S
install_entry a e prefix automatic s =
    if a.file_exists s (staged e)
    then install_fetched a e prefix automatic s
    else if_good (ended (a.fetch_bundle (codes "/var/db/mport/downloads") e.bundlefile s))
        (install_fetched a e prefix automatic)

-- the first entry that has the version
unfoldable pub of_version : Bytes → List IndexEntry → Option IndexEntry
of_version v [] = none
of_version v (e ∷ es) = if str_eq e.version v then some e else of_version v es

-- The entry that is installed: the only one, whatever version is asked for, or the first of several
-- that has the version; `ok none` is an error. Where there is none, `e[1]` is read behind the vector.
unfoldable pub chosen : Option Bytes → List IndexEntry → Result IndexError (Option IndexEntry)
chosen version [] = undefined
chosen version (e ∷ []) = ok (some e)
chosen none (e ∷ f ∷ es) = ok none
chosen (some v) (e ∷ f ∷ es) = ok (of_version v (e ∷ f ∷ es))

unfoldable pub install_chosen :
    {S : Type 0}
    → Actions S
    → Option Bytes
    → Bool
    → S
    → Result IndexError (Option IndexEntry)
    → CallEnd S
install_chosen a prefix automatic s (ok none) = bad s
install_chosen a prefix automatic s (ok (some e)) = install_entry a e prefix automatic s
install_chosen a prefix automatic s (err x) = bad s
install_chosen a prefix automatic s undefined = crashed

-- mport_install
unfoldable pub install_name :
    {S : Type 0} → Catalog → Actions S → Bytes → Option Bytes → Option Bytes → Bool → S → CallEnd S
install_name ix a pkgname version prefix automatic s =
    install_chosen a prefix automatic s (lookup_pkgname ix pkgname >>= chosen version)

-- the entries that were read when the loop stopped
unfoldable pub entries_before : Steps IndexDependRow → Result IndexError (List DependsEntry)
entries_before finished = ok []
entries_before failed = ok []
entries_before (row r rest) = do e ← depends_entry r; es ← entries_before rest; ok (e ∷ es)

unfoldable pub query_before : Query IndexDependRow → Result IndexError (List DependsEntry)
query_before unprepared = ok []
query_before (prepared s) = entries_before s

unfoldable pub counted_before :
    Query IndexDependRow → Result IndexError ℕ → Result IndexError (List DependsEntry)
counted_before q (ok zero) = ok []
counted_before q (ok (suc n)) = query_before q
counted_before q (err x) = ok []
counted_before q undefined = undefined

-- What mport_install_depends finds in its vector behind mport_index_depends_list, whose result it
-- does not look at: the entries up to an error. NULL, and a vector without entries, are the same to
-- it, since it installs the package in both cases.
unfoldable pub depends_vec : Catalog → Bytes → Bytes → Result IndexError (List DependsEntry)
depends_vec ix pkgname version =
    let found =
      filter_rows (λ (r : IndexDependRow). equals r.pkg pkgname && equals r.version version)
        ix.depends in
    if ix.loaded
    then counted_before (select (fault_of ix select_depends) found)
        (depends_count (fault_of ix count_depends) (length found))
    else ok []

-- the loop over the dependencies, which stops at the first that fails
unfoldable pub each_depends :
    {S : Type 0} → (DependsEntry → S → CallEnd S) → List DependsEntry → S → CallEnd S
each_depends f [] s = good s
each_depends f (d ∷ ds) s = if_good (f d s) (each_depends f ds)

unfoldable pub all_entries :
    {S : Type 0}
    → (DependsEntry → S → CallEnd S)
    → Result IndexError (List DependsEntry)
    → S
    → CallEnd S
all_entries f (ok ds) s = each_depends f ds s
all_entries f (err x) s = bad s
all_entries f undefined s = crashed

-- what mport_update installs first; a name that is not in the index has nothing
unfoldable pub update_depends :
    {S : Type 0}
    → Catalog
    → (DependsEntry → S → CallEnd S)
    → Bytes
    → Result IndexError (List IndexEntry)
    → S
    → CallEnd S
update_depends ix f name (ok []) s = good s
update_depends ix f name (ok (e ∷ es)) s = all_entries f (depends_list ix name e.version) s
update_depends ix f name (err x) s = good s
update_depends ix f name undefined s = crashed

unfoldable pub output : {S : Type 0} → Actions S → IndexEntry → Bytes
output a e = a.output_path ++ b'/' ∷ e.bundlefile

-- behind the removal of a file that failed the test of its hash
unfoldable pub after_unlink : {S : Type 0} → S × Bool → (S → CallEnd S) → CallEnd S
after_unlink (s, true) k = k s
after_unlink (s, false) k = bad s

-- The test of the hash: a file that was there before is removed, and what follows is tried.
unfoldable pub checked :
    {S : Type 0} → Actions S → IndexEntry → Bool → (S → CallEnd S) → S → Option Bool → CallEnd S
checked a e existed k s none = crashed
checked a e existed k s (some true) = good s
checked a e existed k s (some false) =
    if existed then after_unlink (a.unlink (output a e) s) k else bad s

unfoldable pub check_hash :
    {S : Type 0} → Actions S → IndexEntry → Bool → (S → CallEnd S) → S → CallEnd S
check_hash a e existed k s =
    checked a e existed k s (verify_hash (a.hash_file s (output a e)) e.hash)

-- what stands behind the label getfile, with the number of times that it is tried again
unfoldable pub get_file : {S : Type 0} → ℕ → Actions S → IndexEntry → S → CallEnd S
get_file zero a e s =
    if a.file_exists s (output a e)
    then check_hash a e true bad s
    else if_good (ended (a.fetch_bundle a.output_path e.bundlefile s)) (check_hash a e false bad)
get_file (suc n) a e s =
    if a.file_exists s (output a e)
    then check_hash a e true (get_file n a e) s
    else if_good (ended (a.fetch_bundle a.output_path e.bundlefile s)) (check_hash a e false bad)

-- mport_download of one package without its dependencies, and what follows it for the path
unfoldable pub download :
    {S : Type 0}
    → Actions S
    → Result IndexError (List IndexEntry)
    → (Bytes → S → CallEnd S)
    → S
    → CallEnd S
download a (ok []) k s = bad s
download a (ok (e ∷ es)) k s = if_good (get_file 1 a e s) (k (output a e))
download a (err x) k s = bad s
download a undefined k s = crashed

unfoldable pub update_downloaded :
    {S : Type 0}
    → Catalog
    → Actions S
    → (DependsEntry → S → CallEnd S)
    → Bytes
    → Bytes
    → S
    → CallEnd S
update_downloaded ix a f name path s =
    if_good (update_depends ix f name (lookup_pkgname ix name) s)
      (λ t. ended (a.primative_update path t))

-- mport_update, with what installs a dependency
unfoldable pub update_by :
    {S : Type 0} → Catalog → Actions S → (DependsEntry → S → CallEnd S) → Bytes → S → CallEnd S
update_by ix a f name s = download a (lookup_pkgname ix name) (update_downloaded ix a f name) s

-- mport_install_depends behind its search for an installed package
unfoldable pub depends_or_update :
    {S : Type 0}
    → Catalog
    → Actions S
    → (DependsEntry → S → CallEnd S)
    → Bytes
    → Bytes
    → Bool
    → List DependsEntry
    → S
    → Option Bool
    → CallEnd S
depends_or_update ix a f name version automatic ds s none = bad s
depends_or_update ix a f name version automatic ds s (some false) =
    if_good (each_depends f ds s) (install_name ix a name (some version) none automatic)
depends_or_update ix a f name version automatic ds s (some true) =
    if a.upgradeable s name then update_by ix a f name s else good s

-- the vector of the dependencies is read in front of that search
unfoldable pub with_vec :
    {S : Type 0}
    → Result IndexError (List DependsEntry)
    → (List DependsEntry → CallEnd S)
    → CallEnd S
with_vec (ok ds) k = k ds
with_vec (err x) k = k []
with_vec undefined k = crashed

-- mport_install_depends; the depth of the recursion, which mport_update takes part in, is bounded
unfoldable pub install_depends :
    {S : Type 0} → ℕ → Catalog → Actions S → Bytes → Bytes → Bool → S → CallEnd S
install_depends zero ix a name version automatic s = too_deep
install_depends (suc n) ix a name version automatic s =
    with_vec (depends_vec ix name version) (λ ds.
      depends_or_update ix a (λ d t. install_depends n ix a d.d_pkgname d.d_version true t) name
        version automatic ds s (a.installed s name))

-- mport_install_depends with the test of its arguments, which may be NULL
unfoldable pub install_depends_of :
    {S : Type 0} → ℕ → Catalog → Actions S → Option Bytes → Option Bytes → Bool → S → CallEnd S
install_depends_of n ix a none version automatic s = bad s
install_depends_of n ix a (some name) none automatic s = bad s
install_depends_of n ix a (some name) (some version) automatic s =
    install_depends n ix a name version automatic s

-- mport_update, whose name may be NULL
unfoldable pub update_name : {S : Type 0} → ℕ → Catalog → Actions S → Option Bytes → S → CallEnd S
update_name n ix a none s = bad s
update_name n ix a (some name) s =
    update_by ix a (λ d t. install_depends n ix a d.d_pkgname d.d_version true t) name s
