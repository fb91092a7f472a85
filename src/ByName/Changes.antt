-- ===== src/ByName/Changes.antt =====
-- What libmport/install.c and libmport/update.c do to the system, as steps, in which a bundle is
-- installed behind the test of its hash.
use mport.Base.{Bool, true, false, ◌≡◌, Option, some, List, Exists, if◌then◌else◌}
use mport.Base.Text.{Bytes}
use mport.Db.{ok}
use mport.Index.{IndexEntry, Catalog, lookup_pkgname}
use mport.ByName.{
  Actions, CallEnd, good, bad, crashed, too_deep, ended, if_good, verify_hash, staged, output,
}

-- the entry is one that the index has for some name
unfoldable pub InIndex : Catalog → IndexEntry → Type 0
InIndex ix e =
    (name : Bytes) × ((es : List IndexEntry) × (lookup_pkgname ix name ≡ ok es)
      × Exists (λ f. f ≡ e) es)

-- What may happen to the system in one step: a bundle is fetched or removed, or is installed where
-- its file has the hash of an entry of the index.
pub data Step {S : Type 0} (ix : Catalog) (a : Actions S) : S → S → Type 0 where
  fetches : (directory file : Bytes) (s : S) → Step ix a s (a.fetch_bundle directory file s).0
  unlinks : (path : Bytes) (s : S) → Step ix a s (a.unlink path s).0
  installs :
      (e : IndexEntry) (prefix : Option Bytes) (automatic : Bool) (s : S)
      → InIndex ix e
      → verify_hash (a.hash_file s (staged e)) e.hash ≡ some true
      → Step ix a s (a.primative_install (staged e) prefix automatic s).0

-- Sequences of steps; a bundle is used for an update where its file had the hash of an entry of the
-- index in a state before, `t`.
pub data Steps {S : Type 0} (ix : Catalog) (a : Actions S) : S → S → Type 0 where
  stays : (s : S) → Steps ix a s s
  then_steps : (s t u : S) → Steps ix a s t → Step ix a t u → Steps ix a s u
  then_updates :
      (e : IndexEntry) (s t u : S)
      → InIndex ix e
      → Steps ix a s t
      → verify_hash (a.hash_file t (output a e)) e.hash ≡ some true
      → Steps ix a t u
      → Steps ix a s (a.primative_update (output a e) u).0

-- the state in which the call ends is reached by such steps
unfoldable pub Reaches : {S : Type 0} → Catalog → Actions S → S → CallEnd S → Type 0
Reaches ix a s (good t) = Steps ix a s t
Reaches ix a s (bad t) = Steps ix a s t
Reaches ix a s crashed = Unit
Reaches ix a s too_deep = Unit

module _ {S : Type 0} (ix : Catalog) (a : Actions S) where
  trans_Steps : {s t u : S} → Steps ix a s t → Steps ix a t u → Steps ix a s u
  trans_Steps p (stays x) = p
  trans_Steps p (then_steps x y z ps q) = then_steps _ y z (trans_Steps p ps) q
  trans_Steps p (then_updates e x y z i ps v qs) = then_updates e _ y z i (trans_Steps p ps) v qs

  pub one : (s t : S) → Step ix a s t → Steps ix a s t
  one s t p = then_steps s s t (stays s) p

  pub Reaches-trans :
      (s t : S) (r : CallEnd S) → Steps ix a s t → Reaches ix a t r → Reaches ix a s r
  unfolding Reaches
  Reaches-trans s t (good u) p q = trans_Steps p q
  Reaches-trans s t (bad u) p q = trans_Steps p q
  Reaches-trans s t crashed p q = tt
  Reaches-trans s t too_deep p q = tt

  pub then-Reaches :
      (s : S) (r : CallEnd S) (k : S → CallEnd S)
      → Reaches ix a s r
      → ((t : S) → Reaches ix a t (k t))
      → Reaches ix a s (if_good r k)
  unfolding Reaches if_good
  then-Reaches s (good t) k p f = Reaches-trans s t (k t) p (f t)
  then-Reaches s (bad t) k p f = p
  then-Reaches s crashed k p f = tt
  then-Reaches s too_deep k p f = tt

  pub either-Reaches :
      (s : S) (b : Bool) (x y : CallEnd S)
      → Reaches ix a s x
      → Reaches ix a s y
      → Reaches ix a s (if b then x else y)
  either-Reaches s true x y p q = p
  either-Reaches s false x y p q = q

  pub ended-Steps : (s : S) (r : S × Bool) → Steps ix a s r.0 → Reaches ix a s (ended r)
  unfolding Reaches ended
  ended-Steps s (t, true) p = p
  ended-Steps s (t, false) p = p

  pub ended-Reaches : (s : S) (r : S × Bool) → Step ix a s r.0 → Reaches ix a s (ended r)
  ended-Reaches s r p = ended-Steps s r (one s r.0 p)

  -- what follows may use how its state was reached
  pub then-Steps :
      (s : S) (r : CallEnd S) (k : S → CallEnd S)
      → Reaches ix a s r
      → ((t : S) → Steps ix a s t → Reaches ix a s (k t))
      → Reaches ix a s (if_good r k)
  unfolding Reaches if_good
  then-Steps s (good t) k p f = f t p
  then-Steps s (bad t) k p f = p
  then-Steps s crashed k p f = tt
  then-Steps s too_deep k p f = tt
