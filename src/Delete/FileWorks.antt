-- ===== src/Delete/FileWorks.antt =====
-- The loop over the assets in libmport/delete_primative.c on a system where every call succeeds.
use mport.Base.{
  Bool, true, false, Bool-cases, ◌≡◌, refl, inl, inr, Option, none, some, if◌then◌else◌, length,
  ltb, arith,
}
use mport.Base.Text.{Bytes, codes, str_eq}
use mport.Db.{ok}
use mport.Store.{Host, Trace, ◌and_then◌, emit, told, mismatch, Notice, unlike_sample, with_event}
use mport.Store.Works.{Healthy, Works, emit-Works, or_tell-Works, if_ok, bind_ok}
use mport.Delete.Assets.{
  tell, unlink_or_tell, before_nocase, hash_of, compare_hash, hashed, same_hash, remove_if_copy,
  check_sum, like_sample, remove_copy, remove_sample_copy,
}

hash_found :
    (h : Host) (c path : Bytes) (t : Trace)
    → Healthy h
    → (x : Bytes) × (hash_of h c path t ≡ some x)
unfolding hash_of
hash_found h c path t f =
    either (ltb (length c) 34) (h.md5 t.events path) (h.sha256 t.events path)
      (f.has_md5 t.events path) (f.has_sha256 t.events path)
  where
    either :
        (b : Bool) (x y : Option Bytes)
        → (u : Bytes) × (x ≡ some u)
        → (u : Bytes) × (y ≡ some u)
        → (u : Bytes) × ((if b then x else y) ≡ some u)
    either true x y p q = p
    either false x y p q = q

pub unlink_or_tell-Works :
    (h : Host) (path named : Bytes) → Healthy h → Works (unlink_or_tell h path named)
unfolding unlink_or_tell
unlink_or_tell-Works h path named f = or_tell-Works h _ _ f

pub tell-Works : (n : Notice) (path : Bytes) → Works (tell n path)
unfolding tell
tell-Works n path = emit-Works _

-- after a comparison of hashes, the buffer is filled
compare-hash :
    (path c x : Bytes) (t : Trace)
    → t.hash ≡ some x
    → (v : Trace) × (compare_hash path c (some x) t ≡ ok v) × (v.hash ≡ some x)
unfolding compare_hash tell emit
compare-hash path c x t e = elim (Bool-cases (str_eq x c)) [
  | inl b ↦ (t, simp b, e)
  | inr b ↦ (with_event (told mismatch path) t, simp b, e)
]

hashed-hash :
    (path c x : Bytes) (o : Option Bytes) (t : Trace)
    → o ≡ some x
    → (v : Trace) × (hashed path c o t ≡ ok v) × (v.hash ≡ some x)
unfolding hashed
hashed-hash path c x none t e = absurd (ground arith)
hashed-hash path c x (some y) t e =
    let (v, d, k) = compare-hash path c y (record t { hash = some y }) refl in (v, d, cc (k, e))

check_sum-hash :
    (h : Host) (path c : Bytes) (t : Trace)
    → Healthy h
    → (v : Trace) × (x : Bytes) × (check_sum h path (some c) t ≡ ok v) × (v.hash ≡ some x)
unfolding check_sum
check_sum-hash h path c t f =
    let (x, e) = hash_found h c path t f in
    let (v, d, k) = hashed-hash path c x (hash_of h c path t) t e in (v, x, d, k)

pub check_sum-Works :
    (h : Host) (path : Bytes) (o : Option Bytes) → Healthy h → Works (check_sum h path o)
unfolding check_sum
check_sum-Works h path none f = record { works = λ t. (tell-Works mismatch path).works t }
check_sum-Works h path (some c) f = record {
  works = λ t. let (v, x, d, k) = check_sum-hash h path c t f in (v, d);
}

like_sample-ok :
    (h : Host) (path copy x y : Bytes) (o : Option Bytes) (t : Trace)
    → Healthy h
    → o ≡ some y
    → (v : Trace) × (like_sample h path copy x o t ≡ ok v)
unfolding like_sample
like_sample-ok h path copy x y none t f e = absurd (ground arith)
like_sample-ok h path copy x y (some z) t f e =
    if_ok (str_eq x z) _ _ ((unlink_or_tell-Works h copy path f).works t)
      ((tell-Works unlike_sample copy).works t)

same_hash-ok :
    (h : Host) (path copy x y : Bytes) (o : Option Bytes) (t : Trace)
    → Healthy h
    → o ≡ some x
    → t.hash ≡ some y
    → (v : Trace) × (same_hash h path copy o t ≡ ok v)
unfolding same_hash
same_hash-ok h path copy x y none t f e k = absurd (ground arith)
same_hash-ok h path copy x y (some z) t f e k = like_sample-ok h path copy z y t.hash t f k

remove_if_copy-ok :
    (h : Host) (path c y : Bytes) (o : Option Bytes) (t : Trace)
    → Healthy h
    → t.hash ≡ some y
    → (v : Trace) × (remove_if_copy h path o (some c) t ≡ ok v)
unfolding remove_if_copy remove_copy
remove_if_copy-ok h path c y none t f k = (t, refl)
remove_if_copy-ok h path c y (some copy) t f k =
    let (x, e) = hash_found h c copy t f in
    same_hash-ok h path copy x y (hash_of h c copy t) t f e k

pub sample_checked :
    (h : Host) (path c : Bytes)
    → Healthy h
    → Works (check_sum h path (some c) and_then remove_sample_copy h path (some c))
unfolding remove_sample_copy
sample_checked h path c f = record {
  works = λ t.
      let (v, x, d, k) = check_sum-hash h path c t f in
      let (u, e) = remove_if_copy-ok h path c x (before_nocase (codes ".sample") path) v f k in
      (
        u,
        cc (
          bind_ok (check_sum h path (some c) t)
              (remove_if_copy h path (before_nocase (codes ".sample") path) (some c)) v d,
          e,
        ),
      );
}
