-- ===== src/ByName/Ranks.antt =====
-- The entries that libmport/index_depends.c reads, where each row goes to a package of a smaller rank.
use mport.Base.{
  ℕ, zero, suc, ◌<◌, Bool, true, false, ◌&&◌, ◌≡◌, refl, inl, inr, Bool-cases, some, List, [], ◌∷◌,
  All, arith, if◌then◌else◌,
}
use mport.Base.Text.{Bytes}
use mport.Db.{
  Fault, runs, refused, breaks_after, Steps, row, finished, failed, Query, Result, ok, err,
  undefined, ◌>>=◌, select, all_rows, rows_until,
}
use mport.Moved.{IndexError}
use mport.Preconditions.{filter_rows}
use mport.Index.{
  IndexDependRow, DependsEntry, Catalog, text_of, each_entry, read_query, rows_if_any, equals,
  depends_entry, depends_list, fault_of, count_depends, select_depends, depends_count,
}
use mport.ByName.{entries_before, query_before, counted_before, depends_vec}

-- the rank of the dependency of a row is below that of each name that the row's package equals
unfoldable pub Lower : (Bytes → ℕ) → IndexDependRow → Type 0
Lower rank r = (n d : Bytes) → equals r.pkg n ≡ true → r.d_pkg ≡ some d → rank d < rank n

-- every row of idx.depends goes to a smaller rank
unfoldable pub Ranked : Catalog → (Bytes → ℕ) → Type 0
Ranked ix rank = All (Lower rank) ix.depends

-- the entries that are read, if any, have the property
unfoldable pub AllRead : (DependsEntry → Type 0) → Result IndexError (List DependsEntry) → Type 0
AllRead Q (ok ds) = All Q ds
AllRead Q (err x) = Unit
AllRead Q undefined = Unit

module _ (Q : DependsEntry → Type 0) where
  -- what a row gives has the property
  abbrev Gives : IndexDependRow → Type 0
  Gives r = (d : DependsEntry) → depends_entry r ≡ ok d → Q d

  cons-AllRead :
      (m : Result IndexError DependsEntry) (o : Result IndexError (List DependsEntry))
      → ((d : DependsEntry) → m ≡ ok d → Q d)
      → AllRead Q o
      → AllRead Q (m >>= (λ d. o >>= (λ ds. ok (d ∷ ds))))
  unfolding AllRead
  cons-AllRead (ok d) (ok ds) f k = (f d refl, k)
  cons-AllRead (ok d) (err x) f k = tt
  cons-AllRead (ok d) undefined f k = tt
  cons-AllRead (err x) o f k = tt
  cons-AllRead undefined o f k = tt

  module _ (g : Steps IndexDependRow → Result IndexError (List DependsEntry))
      (done : AllRead Q (g finished)) (stopped : AllRead Q (g failed))
      (more : (r : IndexDependRow) (rest : Steps IndexDependRow)
        → Gives r
        → AllRead Q (g rest)
        → AllRead Q (g (row r rest))) where
    rows-AllRead : (rs : List IndexDependRow) → All Gives rs → AllRead Q (g (all_rows rs))
    rows-AllRead [] k = done
    rows-AllRead (r ∷ rs) (k, ks) = more r (all_rows rs) k (rows-AllRead rs ks)

    until-AllRead :
        (n : ℕ) (rs : List IndexDependRow) → All Gives rs → AllRead Q (g (rows_until n rs))
    until-AllRead zero rs k = stopped
    until-AllRead (suc n) [] k = stopped
    until-AllRead (suc n) (r ∷ rs) (k, ks) = more r (rows_until n rs) k (until-AllRead n rs ks)

  read-AllRead :
      (f : Fault) (rs : List IndexDependRow)
      → All Gives rs
      → AllRead Q (read_query depends_entry (select f rs))
  unfolding read_query each_entry AllRead
  read-AllRead runs rs k =
      rows-AllRead (each_entry depends_entry) tt tt
        (λ r rest x y. cons-AllRead (depends_entry r) _ x y) rs k
  read-AllRead refused rs k = tt
  read-AllRead (breaks_after n) rs k =
      until-AllRead (each_entry depends_entry) tt tt
        (λ r rest x y. cons-AllRead (depends_entry r) _ x y) n rs k

  before-AllRead :
      (f : Fault) (rs : List IndexDependRow) → All Gives rs → AllRead Q (query_before (select f rs))
  unfolding query_before entries_before AllRead
  before-AllRead runs rs k =
      rows-AllRead entries_before tt tt (λ r rest x y. cons-AllRead (depends_entry r) _ x y) rs k
  before-AllRead refused rs k = tt
  before-AllRead (breaks_after n) rs k =
      until-AllRead entries_before tt tt (λ r rest x y. cons-AllRead (depends_entry r) _ x y) n rs k

  counted-AllRead :
      (q : Query IndexDependRow) (c : Result IndexError ℕ)
      → AllRead Q (query_before q)
      → AllRead Q (counted_before q c)
  unfolding counted_before AllRead
  counted-AllRead q (ok zero) k = tt
  counted-AllRead q (ok (suc n)) k = k
  counted-AllRead q (err x) k = tt
  counted-AllRead q undefined k = tt

  if_any-AllRead :
      (c : Result IndexError ℕ) (o : Result IndexError (List DependsEntry))
      → AllRead Q o
      → AllRead Q (c >>= (λ n. rows_if_any n o))
  unfolding rows_if_any AllRead
  if_any-AllRead (ok zero) o k = tt
  if_any-AllRead (ok (suc n)) o k = k
  if_any-AllRead (err x) o k = tt
  if_any-AllRead undefined o k = tt

if-AllRead :
    (Q : DependsEntry → Type 0) (b : Bool) (x y : Result IndexError (List DependsEntry))
    → AllRead Q x
    → AllRead Q y
    → AllRead Q (if b then x else y)
if-AllRead Q true x y k l = k
if-AllRead Q false x y k l = l

-- an entry names the dependency of its row
d_pkg-depends_entry :
    (r : IndexDependRow) (d : DependsEntry) → depends_entry r ≡ ok d → r.d_pkg ≡ some d.d_pkgname
unfolding depends_entry text_of
d_pkg-depends_entry r d k = ground (arith, k)

module _ (ix : Catalog) (rank : Bytes → ℕ) (ranked : Ranked ix rank) (name version : Bytes) where
  abbrev pub Below : DependsEntry → Type 0
  Below d = rank d.d_pkgname < rank name

  abbrev of_name : IndexDependRow → Bool
  of_name r = equals r.pkg name && equals r.version version

  found-Below :
      (rs : List IndexDependRow) → All (Lower rank) rs → All (Gives Below) (filter_rows of_name rs)
  unfolding Lower
  found-Below [] k = tt
  found-Below (r ∷ rs) (k, ks) = elim (Bool-cases (of_name r)) [
    | inl e ↦ rw e (
      (λ d x. k name d.d_pkgname (ground (arith, e)) (d_pkg-depends_entry r d x)),
      found-Below rs ks,
    )
    | inr e ↦ rw e (found-Below rs ks)
  ]

  pub depends_list-Below : AllRead Below (depends_list ix name version)
  unfolding depends_list AllRead Ranked
  depends_list-Below =
      if-AllRead Below ix.loaded _ _
        (if_any-AllRead Below (depends_count (fault_of ix count_depends) _) _
          (read-AllRead Below (fault_of ix select_depends) _ (found-Below ix.depends ranked)))
        tt

  pub depends_vec-Below : AllRead Below (depends_vec ix name version)
  unfolding depends_vec AllRead Ranked
  depends_vec-Below =
      if-AllRead Below ix.loaded _ _
        (counted-AllRead Below _ (depends_count (fault_of ix count_depends) _)
          (before-AllRead Below (fault_of ix select_depends) _ (found-Below ix.depends ranked)))
        tt
