-- ===== src/ByName/Enough.antt =====
-- The depth of the recursion of `mport_install_depends` in libmport/install.c, and the fuel for it.
use mport.Base.{
  ℕ, zero, suc, ◌<◌, Bool, true, false, Option, none, some, List, [], ◌∷◌, All, All-imp, arith,
  if◌then◌else◌,
}
use mport.Base.Text.{Bytes}
use mport.Db.{Result, ok, err, undefined}
use mport.Moved.{IndexError}
use mport.Index.{IndexEntry, DependsEntry, Catalog, depends_list, lookup_pkgname}
use mport.ByName.{
  Actions, CallEnd, good, bad, crashed, too_deep, ended, if_good, staged, after_verify,
  install_fetched, install_entry, install_chosen, install_name, depends_vec, each_depends,
  all_entries, update_depends, output, after_unlink, checked, check_hash, get_file, download,
  with_vec, update_downloaded, update_by, depends_or_update, install_depends,
}
use mport.ByName.Ranks.{Ranked, AllRead, depends_list-Below, depends_vec-Below}

-- the recursion is not too deep
unfoldable pub Ends : {S : Type 0} → CallEnd S → Type 0
Ends (good s) = Unit
Ends (bad s) = Unit
Ends crashed = Unit
Ends too_deep = ⊥

module _ {S : Type 0} where
  then-Ends :
      (r : CallEnd S) (k : S → CallEnd S) → Ends r → ((s : S) → Ends (k s)) → Ends (if_good r k)
  unfolding Ends if_good
  then-Ends (good s) k e f = f s
  then-Ends (bad s) k e f = tt
  then-Ends crashed k e f = tt
  then-Ends too_deep k e f = absurd e

  either-Ends : (b : Bool) (x y : CallEnd S) → Ends x → Ends y → Ends (if b then x else y)
  either-Ends true x y p q = p
  either-Ends false x y p q = q

  ended-Ends : (r : S × Bool) → Ends (ended r)
  unfolding Ends ended
  ended-Ends (s, true) = tt
  ended-Ends (s, false) = tt

  module _ (f : DependsEntry → S → CallEnd S) where
    each-Ends :
        (ds : List DependsEntry)
        → All (λ d. (s : S) → Ends (f d s)) ds
        → (s : S) → Ends (each_depends f ds s)
    unfolding Ends each_depends
    each-Ends [] k s = tt
    each-Ends (d ∷ ds) (k, ks) s = then-Ends (f d s) (each_depends f ds) (k s) (each-Ends ds ks)

    all-Ends :
        (r : Result IndexError (List DependsEntry)) (s : S)
        → AllRead (λ d. (t : S) → Ends (f d t)) r
        → Ends (all_entries f r s)
    unfolding Ends all_entries AllRead
    all-Ends (ok ds) s k = each-Ends ds k s
    all-Ends (err x) s k = tt
    all-Ends undefined s k = tt

AllRead-imp :
    (P Q : DependsEntry → Type 0) (r : Result IndexError (List DependsEntry))
    → ((d : DependsEntry) → P d → Q d)
    → AllRead P r
    → AllRead Q r
unfolding AllRead
AllRead-imp P Q (ok ds) f k = All-imp P Q ds f k
AllRead-imp P Q (err x) f k = tt
AllRead-imp P Q undefined f k = tt

module _ {S : Type 0} (ix : Catalog) (a : Actions S) where
  verify-Ends :
      (e : IndexEntry) (prefix : Option Bytes) (automatic : Bool) (s : S) (o : Option Bool)
      → Ends (after_verify a e prefix automatic s o)
  unfolding Ends after_verify
  verify-Ends e prefix automatic s none = tt
  verify-Ends e prefix automatic s (some false) = tt
  verify-Ends e prefix automatic s (some true) = ended-Ends _

  unlinked-Ends :
      (r : S × Bool) (k : S → CallEnd S) → ((t : S) → Ends (k t)) → Ends (after_unlink r k)
  unfolding Ends after_unlink
  unlinked-Ends (t, true) k f = f t
  unlinked-Ends (t, false) k f = tt

  checked-Ends :
      (e : IndexEntry) (existed : Bool) (k : S → CallEnd S) (s : S) (o : Option Bool)
      → ((t : S) → Ends (k t))
      → Ends (checked a e existed k s o)
  unfolding Ends checked
  checked-Ends e existed k s none f = tt
  checked-Ends e existed k s (some true) f = tt
  checked-Ends e existed k s (some false) f =
      either-Ends existed _ _ (unlinked-Ends (a.unlink (output a e) s) k f) tt

  get_file-Ends : (e : IndexEntry) (n : ℕ) (s : S) → Ends (get_file n a e s)
  unfolding get_file check_hash Ends
  get_file-Ends e zero s =
      either-Ends (a.file_exists s (output a e)) _ _ (checked-Ends e true bad s _ (λ t. tt))
        (then-Ends _ _ (ended-Ends _) (λ u. checked-Ends e false bad u _ (λ t. tt)))
  get_file-Ends e (suc n) s =
      either-Ends (a.file_exists s (output a e)) _ _
        (checked-Ends e true (get_file n a e) s _ (get_file-Ends e n))
        (then-Ends _ _ (ended-Ends _) (λ u. checked-Ends e false bad u _ (λ t. tt)))

  chosen-Ends :
      (prefix : Option Bytes) (automatic : Bool) (s : S) (o : Result IndexError (Option IndexEntry))
      → Ends (install_chosen a prefix automatic s o)
  unfolding Ends install_chosen install_entry install_fetched
  chosen-Ends prefix automatic s (ok none) = tt
  chosen-Ends prefix automatic s (ok (some e)) =
      either-Ends (a.file_exists s (staged e)) _ _ (verify-Ends e prefix automatic s _)
        (then-Ends _ _ (ended-Ends _) (λ t. verify-Ends e prefix automatic t _))
  chosen-Ends prefix automatic s (err x) = tt
  chosen-Ends prefix automatic s undefined = tt

  module _ (rank : Bytes → ℕ) (ranked : Ranked ix rank) (f : DependsEntry → S → CallEnd S)
      (name : Bytes)
      (g : (d : DependsEntry) → rank d.d_pkgname < rank name → (s : S) → Ends (f d s)) where
    depends-Ends :
        (r : Result IndexError (List IndexEntry)) (s : S) → Ends (update_depends ix f name r s)
    unfolding Ends update_depends
    depends-Ends (ok []) s = tt
    depends-Ends (ok (e ∷ es)) s = all-Ends f (depends_list ix name e.version) s (
        AllRead-imp _ _ (depends_list ix name e.version) g
          (depends_list-Below ix rank ranked name e.version))
    depends-Ends (err x) s = tt
    depends-Ends undefined s = tt

    downloaded-Ends : (path : Bytes) (s : S) → Ends (update_downloaded ix a f name path s)
    unfolding update_downloaded
    downloaded-Ends path s =
        then-Ends _ _ (depends-Ends (lookup_pkgname ix name) s) (λ u. ended-Ends _)

    download-Ends :
        (r : Result IndexError (List IndexEntry)) (s : S)
        → Ends (download a r (update_downloaded ix a f name) s)
    unfolding Ends download
    download-Ends (ok []) s = tt
    download-Ends (ok (e ∷ es)) s =
        then-Ends _ _ (get_file-Ends e 1 s) (downloaded-Ends (output a e))
    download-Ends (err x) s = tt
    download-Ends undefined s = tt

    or_update-Ends :
        (version : Bytes) (automatic : Bool) (ds : List DependsEntry) (s : S) (o : Option Bool)
        → All (λ d. (t : S) → Ends (f d t)) ds
        → Ends (depends_or_update ix a f name version automatic ds s o)
    unfolding Ends depends_or_update update_by install_name
    or_update-Ends version automatic ds s none k = tt
    or_update-Ends version automatic ds s (some false) k =
        then-Ends _ _ (each-Ends f ds k s) (λ t. chosen-Ends none automatic t _)
    or_update-Ends version automatic ds s (some true) k =
        either-Ends (a.upgradeable s name) _ _ (download-Ends (lookup_pkgname ix name) s) tt

    vec-Ends :
        (version : Bytes) (automatic : Bool) (s : S) (r : Result IndexError (List DependsEntry))
        → AllRead (λ d. (t : S) → Ends (f d t)) r
        → Ends (
            with_vec r
              (λ ds. depends_or_update ix a f name version automatic ds s (a.installed s name)))
    unfolding AllRead with_vec Ends
    vec-Ends version automatic s (ok ds) k = or_update-Ends version automatic ds s _ k
    vec-Ends version automatic s (err x) k = or_update-Ends version automatic [] s _ tt
    vec-Ends version automatic s undefined k = tt

    list-Ends :
        (version : Bytes) (automatic : Bool) (s : S)
        → Ends (
            with_vec
              (depends_vec ix name version)
              (λ ds. depends_or_update ix a f name version automatic ds s (a.installed s name)))
    list-Ends version automatic s = vec-Ends version automatic s (depends_vec ix name version) (
        AllRead-imp _ _ (depends_vec ix name version) g
          (depends_vec-Below ix rank ranked name version))

-- Where every row of idx.depends goes to a package of a smaller rank, and the package has a rank below
-- the fuel, mport_install_depends is never too deep, whatever the system does.
pub install_depends-Ends :
    {S : Type 0} (n : ℕ) (ix : Catalog) (a : Actions S) (rank : Bytes → ℕ)
    → Ranked ix rank
    → (name version : Bytes) (automatic : Bool) (s : S) → rank name < n
    → Ends (install_depends n ix a name version automatic s)
unfolding install_depends
install_depends-Ends zero ix a rank r name version automatic s k = absurd (omega (arith, k))
install_depends-Ends (suc n) ix a rank r name version automatic s k =
    list-Ends ix a rank r _ name
      (λ d b t.
        install_depends-Ends n ix a rank r d.d_pkgname d.d_version true t (omega (arith, b, k)))
      version automatic s
