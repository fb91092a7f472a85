-- ===== src/Update/Detached.antt =====
-- The stub database of libmport/update_primative.c behind an update whose backup was read.
use mport.Base.{true, ◌≡◌, none, some, List, ◌∷◌}
use mport.Base.Text.{Bytes}
use mport.Db.{Result}
use mport.Store.{Event, opened_bundle, Host, World, Why}
use mport.Store.Ends.{Ends}
use mport.Install.{Bundle}
use mport.Update.{StubRow, Archive, Session, stub_after}

-- no stub database is attached
unfoldable pub IsStubless : Host → Session → World → Type 0
IsStubless h x w = stub_after h x w.trace.events ≡ none

-- the file of the backup can be opened and has packages, and a closing detaches
pub record Reopens (h : Host) (x : Session) : Type 0 where
  pub archive : Archive
  pub first : StubRow
  pub others : List StubRow
  pub is_archive : (es : List Event) → x.archive es x.tmpfile ≡ some archive
  pub has_packages : archive.packages ≡ first ∷ others
  pub opens : (es : List Event) → h.succeeds es (opened_bundle x.tmpfile) ≡ true
  pub detaches : (es : List Event) (f : Bytes) → x.detaches es f ≡ true

module _ (h : Host) (x : Session) (again : Reopens h x) where
  -- it is detached however the call ends
  unfoldable Detaches : Result (Why × World) World → Type 0
  Detaches r = Ends (IsStubless h x) (IsStubless h x) r

  -- an error behind which no stub database is attached
  unfoldable Fails : Result (Why × World) World → Type 0
  Fails r = Ends (λ _. ⊥) (IsStubless h x) r

-- without a stub database no package is updated, and the loop ends
module _ (h : Host) (x : Session) (file : Bytes) (b : Bundle) where
  unfoldable Idle : World → Result (Why × World) World → Type 0
  Idle w r = Ends (λ (v : World). IsStubless h x v × (v.tables ≡ w.tables)) (λ _. ⊥) r

  -- the result of the first package, and the end of the call behind it
  unfoldable Ruined : Result (Why × World) World → Result (Why × World) World → Type 0
  Ruined one r =
      Ends (λ _. ⊥) (λ (u : World). Ends (λ (v : World). u.tables ≡ v.tables) (λ _. ⊥) one) r
