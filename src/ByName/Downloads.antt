-- ===== src/ByName/Downloads.antt =====
-- mport_download of libmport/fetch.c: where it ends with MPORT_OK, the file has the hash of its entry.
use mathlib.Core.Path.{subst}
use mport.Base.{
  ℕ, zero, suc, Bool, true, false, ◌≡◌, refl, Option, none, some, arith, if◌then◌else◌,
}
use mport.Index.{IndexEntry, Catalog}
use mport.ByName.{
  Actions, CallEnd, good, bad, crashed, too_deep, ended, if_good, verify_hash, output, after_unlink,
  checked, check_hash, get_file,
}
use mport.ByName.Changes.{Step, fetches, unlinks, stays, Reaches, one, Reaches-trans, ended-Reaches}

module _ {S : Type 0} (ix : Catalog) (a : Actions S) where
  -- the file of the entry is there with its hash where a download ends with MPORT_OK
  abbrev pub Fetched : IndexEntry → S → CallEnd S → Type 0
  Fetched e s r =
      Reaches ix a s r
      × ((t : S) → r ≡ good t → verify_hash (a.hash_file t (output a e)) e.hash ≡ some true)

  pub then-Fetched :
      (e : IndexEntry) (s : S) (r : CallEnd S) (k : S → CallEnd S)
      → Fetched e s r
      → ((t : S)
          → verify_hash (a.hash_file t (output a e)) e.hash ≡ some true
          → Reaches ix a t (k t))
      → Reaches ix a s (if_good r k)
  unfolding Reaches if_good
  then-Fetched e s (good t) k (p, v) f = Reaches-trans ix a s t (k t) p (f t (v t refl))
  then-Fetched e s (bad t) k (p, v) f = p
  then-Fetched e s crashed k (p, v) f = tt
  then-Fetched e s too_deep k (p, v) f = tt

  behind-Fetched :
      (e : IndexEntry) (s : S) (r : CallEnd S) (k : S → CallEnd S)
      → Reaches ix a s r
      → ((t : S) → Fetched e t (k t))
      → Fetched e s (if_good r k)
  unfolding Reaches if_good
  behind-Fetched e s (good t) k p f = let (q, v) = f t in (Reaches-trans ix a s t (k t) p q, v)
  behind-Fetched e s (bad t) k p f = (p, λ t q. absurd (ground (arith, q)))
  behind-Fetched e s crashed k p f = (tt, λ t q. absurd (ground (arith, q)))
  behind-Fetched e s too_deep k p f = (tt, λ t q. absurd (ground (arith, q)))

  either-Fetched :
      (e : IndexEntry) (s : S) (b : Bool) (x y : CallEnd S)
      → Fetched e s x
      → Fetched e s y
      → Fetched e s (if b then x else y)
  either-Fetched e s true x y p q = p
  either-Fetched e s false x y p q = q

  bad-Fetched : (e : IndexEntry) (s : S) → Fetched e s (bad s)
  unfolding Reaches
  bad-Fetched e s = (stays s, λ t q. absurd (ground (arith, q)))

  unlinked-Fetched :
      (e : IndexEntry) (s : S) (r : S × Bool) (k : S → CallEnd S)
      → Step ix a s r.0
      → ((t : S) → Fetched e t (k t))
      → Fetched e s (after_unlink r k)
  unfolding Reaches after_unlink
  unlinked-Fetched e s (t, true) k p f =
      let (q, v) = f t in (Reaches-trans ix a s t (k t) (one ix a s t p) q, v)
  unlinked-Fetched e s (t, false) k p f = (one ix a s t p, λ t q. absurd (ground (arith, q)))

  checked-Fetched :
      (e : IndexEntry) (existed : Bool) (k : S → CallEnd S) (s : S) (o : Option Bool)
      → verify_hash (a.hash_file s (output a e)) e.hash ≡ o
      → ((t : S) → Fetched e t (k t))
      → Fetched e s (checked a e existed k s o)
  unfolding Reaches checked
  checked-Fetched e existed k s none v f = (tt, λ t q. absurd (ground (arith, q)))
  checked-Fetched e existed k s (some true) v f = (
    stays s,
    λ t q.
        let same : s ≡ t = cc in
        subst (λ u. verify_hash (a.hash_file u (output a e)) e.hash ≡ some true) same v,
  )
  checked-Fetched e existed k s (some false) v f =
      either-Fetched e s existed _ _
        (unlinked-Fetched e s (a.unlink (output a e) s) k (unlinks (output a e) s) f)
        (bad-Fetched e s)

  tried-Fetched :
      (e : IndexEntry) (k : S → CallEnd S) (s : S)
      → ((t : S) → Fetched e t (k t))
      → Fetched e s (
          if a.file_exists s (output a e)
          then check_hash a e true k s
          else if_good
              (ended (a.fetch_bundle a.output_path e.bundlefile s))
              (check_hash a e false bad))
  unfolding check_hash
  tried-Fetched e k s f =
      either-Fetched e s (a.file_exists s (output a e)) _ _ (checked-Fetched e true k s _ refl f) (
        behind-Fetched e s _ (check_hash a e false bad)
          (ended-Reaches ix a s _ (fetches _ e.bundlefile s))
          (λ t. checked-Fetched e false bad t _ refl (bad-Fetched e)))

  pub get_file-Fetched : (e : IndexEntry) (n : ℕ) (s : S) → Fetched e s (get_file n a e s)
  unfolding get_file
  get_file-Fetched e zero s = tried-Fetched e bad s (bad-Fetched e)
  get_file-Fetched e (suc n) s = tried-Fetched e (get_file n a e) s (get_file-Fetched e n)
