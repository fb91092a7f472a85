-- ===== src/ByName/Verified.antt =====
-- What libmport/install.c and libmport/update.c install and update, behind the test of its hash.
use mport.Base.{
  ℕ, zero, suc, Bool, true, false, ◌≡◌, refl, inl, inr, Bool-cases, Option, none, some, List, [],
  ◌∷◌, Exists, arith,
}
use mport.Base.Text.{Bytes, str_eq}
use mport.Db.{Result, ok, err, undefined, ◌>>=◌}
use mport.Moved.{IndexError}
use mport.Index.{IndexEntry, DependsEntry, Catalog, depends_list, lookup_pkgname}
use mport.ByName.{
  Actions, CallEnd, good, ended, verify_hash, staged, after_verify, install_fetched, install_entry,
  of_version, chosen, install_chosen, install_name, depends_vec, each_depends, all_entries,
  update_depends, output, get_file, download, with_vec, update_downloaded, update_by,
  depends_or_update, install_depends,
}
use mport.ByName.Changes.{
  InIndex, fetches, unlinks, installs, stays, then_updates, Reaches, one, then-Reaches,
  either-Reaches, ended-Steps, ended-Reaches, then-Steps,
}
use mport.ByName.Downloads.{then-Fetched, get_file-Fetched}

of_version_in :
    (v : Bytes) (es : List IndexEntry) (e : IndexEntry)
    → of_version v es ≡ some e
    → Exists (λ f. f ≡ e) es
unfolding of_version
of_version_in v [] e k = absurd (ground (arith, k))
of_version_in v (x ∷ xs) e k = elim (Bool-cases (str_eq x.version v)) [
  | inl d ↦ inl (same d)
  | inr d ↦ inr (of_version_in v xs e (later d))
]
  where
    same : str_eq x.version v ≡ true → x ≡ e
    same d = cc (k, taken d)
      where
        taken : str_eq x.version v ≡ true → of_version v (x ∷ xs) ≡ some x
        taken c = rw c refl

    later : str_eq x.version v ≡ false → of_version v xs ≡ some e
    later d = cc (k, passed d)
      where
        passed : str_eq x.version v ≡ false → of_version v (x ∷ xs) ≡ of_version v xs
        passed c = rw c refl

chosen_in :
    (version : Option Bytes) (es : List IndexEntry) (e : IndexEntry)
    → chosen version es ≡ ok (some e)
    → Exists (λ f. f ≡ e) es
unfolding chosen
chosen_in version [] e k = absurd (ground (arith, k))
chosen_in version (x ∷ []) e k = inl cc
chosen_in none (x ∷ y ∷ xs) e k = absurd (ground (arith, k))
chosen_in (some v) (x ∷ y ∷ xs) e k = of_version_in v (x ∷ y ∷ xs) e cc

module _ {S : Type 0} (ix : Catalog) (a : Actions S) where
  verify-Reaches :
      (e : IndexEntry) (prefix : Option Bytes) (automatic : Bool) (s : S) (o : Option Bool)
      → InIndex ix e
      → verify_hash (a.hash_file s (staged e)) e.hash ≡ o
      → Reaches ix a s (after_verify a e prefix automatic s o)
  unfolding Reaches after_verify
  verify-Reaches e prefix automatic s none i k = tt
  verify-Reaches e prefix automatic s (some false) i k = one ix a s _ (unlinks (staged e) s)
  verify-Reaches e prefix automatic s (some true) i k =
      ended-Reaches ix a s _ (installs e prefix automatic s i k)

  install_entry-Reaches :
      (e : IndexEntry) (prefix : Option Bytes) (automatic : Bool) (s : S)
      → InIndex ix e
      → Reaches ix a s (install_entry a e prefix automatic s)
  unfolding install_entry install_fetched
  install_entry-Reaches e prefix automatic s i =
      either-Reaches ix a s (a.file_exists s (staged e)) _ _
        (verify-Reaches e prefix automatic s _ i refl)
        (then-Reaches ix a s _ (install_fetched a e prefix automatic)
          (ended-Reaches ix a s _ (fetches _ e.bundlefile s))
          (λ t. verify-Reaches e prefix automatic t _ i refl))

  chosen-Reaches :
      (prefix : Option Bytes) (automatic : Bool) (s : S) (o : Result IndexError (Option IndexEntry))
      → ((e : IndexEntry) → o ≡ ok (some e) → InIndex ix e)
      → Reaches ix a s (install_chosen a prefix automatic s o)
  unfolding Reaches install_chosen
  chosen-Reaches prefix automatic s (ok none) f = stays s
  chosen-Reaches prefix automatic s (ok (some e)) f =
      install_entry-Reaches e prefix automatic s (f e refl)
  chosen-Reaches prefix automatic s (err x) f = stays s
  chosen-Reaches prefix automatic s undefined f = tt

  looked_up :
      (name : Bytes) (version : Option Bytes) (r : Result IndexError (List IndexEntry))
      (e : IndexEntry)
      → lookup_pkgname ix name ≡ r
      → (r >>= chosen version) ≡ ok (some e)
      → InIndex ix e
  unfolding InIndex
  looked_up name version (ok es) e q k = (name, (es, q, chosen_in version es e k))
  looked_up name version (err x) e q k = absurd (ground (arith, k))
  looked_up name version undefined e q k = absurd (ground (arith, k))

  install_name-Reaches :
      (name : Bytes) (version prefix : Option Bytes) (automatic : Bool) (s : S)
      → Reaches ix a s (install_name ix a name version prefix automatic s)
  unfolding install_name
  install_name-Reaches name version prefix automatic s =
      chosen-Reaches prefix automatic s _ (λ e k. looked_up name version _ e refl k)

  module _ (f : DependsEntry → S → CallEnd S)
      (g : (d : DependsEntry) (s : S) → Reaches ix a s (f d s)) where
    each-Reaches : (ds : List DependsEntry) (s : S) → Reaches ix a s (each_depends f ds s)
    unfolding Reaches each_depends
    each-Reaches [] s = stays s
    each-Reaches (d ∷ ds) s =
        then-Reaches ix a s (f d s) (each_depends f ds) (g d s) (each-Reaches ds)

    all-Reaches :
        (r : Result IndexError (List DependsEntry)) (s : S) → Reaches ix a s (all_entries f r s)
    unfolding Reaches all_entries
    all-Reaches (ok ds) s = each-Reaches ds s
    all-Reaches (err x) s = stays s
    all-Reaches undefined s = tt

    depends-Reaches :
        (name : Bytes) (r : Result IndexError (List IndexEntry)) (s : S)
        → Reaches ix a s (update_depends ix f name r s)
    unfolding Reaches update_depends
    depends-Reaches name (ok []) s = stays s
    depends-Reaches name (ok (e ∷ es)) s = all-Reaches (depends_list ix name e.version) s
    depends-Reaches name (err x) s = stays s
    depends-Reaches name undefined s = tt

    downloaded-Reaches :
        (name : Bytes) (e : IndexEntry) (t : S)
        → InIndex ix e
        → verify_hash (a.hash_file t (output a e)) e.hash ≡ some true
        → Reaches ix a t (update_downloaded ix a f name (output a e) t)
    unfolding update_downloaded
    downloaded-Reaches name e t i v =
        then-Steps ix a t _ (λ u. ended (a.primative_update (output a e) u))
          (depends-Reaches name (lookup_pkgname ix name) t)
          (λ u p. ended-Steps ix a t _ (then_updates e t t u i (stays t) v p))

    download-Reaches :
        (name : Bytes) (r : Result IndexError (List IndexEntry)) (s : S)
        → lookup_pkgname ix name ≡ r
        → Reaches ix a s (download a r (update_downloaded ix a f name) s)
    unfolding Reaches download InIndex
    download-Reaches name (ok []) s k = stays s
    download-Reaches name (ok (e ∷ es)) s k =
        then-Fetched ix a e s (get_file 1 a e s) _ (get_file-Fetched ix a e 1 s)
          (λ t v. downloaded-Reaches name e t (name, (e ∷ es, k, inl refl)) v)
    download-Reaches name (err x) s k = stays s
    download-Reaches name undefined s k = tt

    update_by-Reaches : (name : Bytes) (s : S) → Reaches ix a s (update_by ix a f name s)
    unfolding update_by
    update_by-Reaches name s = download-Reaches name (lookup_pkgname ix name) s refl

    or_update-Reaches :
        (name version : Bytes) (automatic : Bool) (ds : List DependsEntry) (s : S) (o : Option Bool)
        → Reaches ix a s (depends_or_update ix a f name version automatic ds s o)
    unfolding Reaches depends_or_update
    or_update-Reaches name version automatic ds s none = stays s
    or_update-Reaches name version automatic ds s (some false) =
        then-Reaches ix a s _ (install_name ix a name (some version) none automatic)
          (each-Reaches ds s) (install_name-Reaches name (some version) none automatic)
    or_update-Reaches name version automatic ds s (some true) =
        either-Reaches ix a s (a.upgradeable s name) _ (good s) (update_by-Reaches name s) (stays s)

  vec-Reaches :
      (s : S) (r : Result IndexError (List DependsEntry)) (k : List DependsEntry → CallEnd S)
      → ((ds : List DependsEntry) → Reaches ix a s (k ds))
      → Reaches ix a s (with_vec r k)
  unfolding Reaches with_vec
  vec-Reaches s (ok ds) k f = f ds
  vec-Reaches s (err x) k f = f []
  vec-Reaches s undefined k f = tt

-- Whatever state mport_install_depends ends in, with MPORT_OK or with an error, is reached by steps
-- in which every bundle that is installed has the hash of an entry of the index, and every bundle
-- that is used for an update had one when it was downloaded.
pub install_depends-Reaches :
    {S : Type 0} (n : ℕ) (ix : Catalog) (a : Actions S) (name version : Bytes) (automatic : Bool)
    (s : S)
    → Reaches ix a s (install_depends n ix a name version automatic s)
unfolding Reaches install_depends
install_depends-Reaches zero ix a name version automatic s = tt
install_depends-Reaches (suc n) ix a name version automatic s =
    vec-Reaches ix a s (depends_vec ix name version) _ (λ ds.
      or_update-Reaches ix a _
        (λ d t. install_depends-Reaches n ix a d.d_pkgname d.d_version true t) name version
        automatic ds s (a.installed s name))
