-- ===== src/Install/Primitive/Loop.antt =====
-- The loop of `do_actual_install` of libmport/bundle_read_install_pkg.c on a system where every call
-- succeeds.
use mathlib.Core.Path.{subst}
use mport.Base.{
  ℕ, Bool, true, false, ◌||◌, ◌==◌, Bool-cases, ◌≡◌, ◌≢◌, inl, inr, refl, sym, ◌∙◌, Option, none,
  some, List, [], ◌∷◌, All, length, leb, if◌then◌else◌, arith,
}
use mport.Base.Text.{Bytes}
use mport.Db.{undefined}
use mport.Plist.Command.{Entry, preexec, postexec, dir, dirrm, dirrmtry}
use mport.Store.{
  AssetRow, Tables, Package, Event, insert_asset, Host, World, Trace, Act, nothing, with_event,
  changed_by, transaction,
}
use mport.Store.Works.{Healthy, Works, emit-Works, Reaches, ◌next◌, outside-Reaches, db_do-Reaches}
use mport.Delete.{of_types, type_code}
use mport.Install.{
  Spot, file_path, at_file, spot_after, without_root, file_row, path_row, row_of, file_types,
}
use mport.Install.Files.{attempt_unset, place_asset}
use mport.Install.Laws.{Finds, Works-Laws}
use mport.Install.Places.{needs_text, place_asset-Has}
use mport.Install.Primitive.{insert_row, install_asset, install_assets}
use mport.Install.Primitive.Rows.{
  add_assets, cons_row, rows_of, add_assets-nil, add_assets-add_assets, cons_row-append,
}

-- commands and files among the entries have their text
unfoldable pub IsReady : Entry → Type 0
IsReady e = (needs_text e.type || of_types (preexec ∷ postexec ∷ []) e.type) ≡ true → e.text ≢ none

file_alone :
    (n : ℕ)
    → (n == 1 || (n == 25 || (n == 26 || (n == 31 || (n == 33 || false))))) ≡ true
    → ((n == 2 || false) ≡ false)
      × ((n == 3 || false) ≡ false)
      × ((n == 4 || false) ≡ false)
      × ((n == 5 || false) ≡ false)
file_alone n e = (ground arith, ground arith, ground arith, ground arith)

leb_0 : (n : ℕ) → leb 0 n ≡ true
leb_0 n = ground arith

-- the path of a file is below an empty root
file_row-ready :
    (h : Host) (p : Package) (e : Entry) (s : Spot) (o : Option Bytes)
    → h.root ≡ []
    → o ≢ none
    → (r : AssetRow) × (path_row h.root p.name e (at_file h.root e.type s o).file ≡ some r)
unfolding path_row file_row at_file without_root
file_row-ready h p e s none z k = absurd (k refl)
file_row-ready h p e s (some d) z k =
    (_, λ i. file_row p.name e (without_root_nil (file_path h.root s.cwd e.type d) i))
  where
    without_root_nil : (f : Bytes) → without_root h.root f ≡ some f
    without_root_nil f = rw z (simp (leb_0 (length f)))

row_of-ready :
    (h : Host) (p : Package) (e : Entry) (s : Spot)
    → h.root ≡ []
    → (of_types file_types e.type ≡ true → e.text ≢ none)
    → (r : AssetRow) × (row_of h p e (spot_after h p e s) ≡ some r)
unfolding row_of spot_after of_types type_code
row_of-ready h p e s z k = elim (Bool-cases (of_types file_types e.type)) [
  | inl d ↦
      let (a, b, c, f) = file_alone (type_code e.type) d in
      let (r, g) = file_row-ready h p e s e.text z (k d) in (r, simp (d, a, b, c, f, g))
  | inr d ↦ simp d (other (of_types (dir ∷ dirrm ∷ dirrmtry ∷ []) e.type) _ _)
]
  where
    other : (c : Bool) (x y : AssetRow) → (r : AssetRow) × ((if c then some x else some y) ≡ some r)
    other true x y = (x, refl)
    other false x y = (y, refl)

pub move_tables :
    {a : Act World} {u u' : Tables} (t : Tables) (o o' : Option Tables)
    → u ≡ u'
    → Reaches t o a u o'
    → Reaches t o a u' o'
move_tables {a} {u} {u'} t o o' e f = subst (λ v. Reaches t o a v o') e f

module _ (h : Host) (p : Package) (f : Healthy h) (k : Finds h) where
  attempt_unset-Works : (e : Event) → Works (attempt_unset h e)
  unfolding attempt_unset
  attempt_unset-Works e = record { works = λ t. (with_event e t, simp (f.all_succeed t.events e)) }

  no_text :
      (e : Entry) (c : Bool)
      → (c ≡ true → e.text ≢ none)
      → c ≡ true
      → e.text ≡ none
      → Works {S = Trace} (λ t. undefined)
  no_text e c g d n = absurd (g d n)

  place_asset-Works :
      (total : ℕ) (e : Entry) (s : Spot) → IsReady e → Works (place_asset h p total e s)
  unfolding IsReady
  place_asset-Works total e s r =
      place_asset-Has h Works (Works-Laws h f k) p total e s (λ u m v q. attempt_unset-Works v)
        (λ d n. absurd (r (left (needs_text e.type) _ d) n)) (λ u path. emit-Works _)
    where
      left : (a b : Bool) → a ≡ true → (a || b) ≡ true
      left a b d = ground arith

  insert_row-Reaches :
      (r : Option AssetRow) (q : AssetRow) (t : Tables) (o : Option Tables)
      → r ≡ some q
      → Reaches t o (insert_row h r) (add_assets (cons_row r []) t) o
  unfolding insert_row cons_row add_assets changed_by transaction
  insert_row-Reaches none q t o e = absurd (ground arith)
  insert_row-Reaches (some r) q t o e = record {
    reaches = (db_do-Reaches h (insert_asset r) t o o f refl).reaches;
  }

  nothing-Reaches : (t : Tables) (o : Option Tables) → Reaches t o nothing t o
  nothing-Reaches t o = record { reaches = λ w a. (w, refl, a) }

  file_text : (e : Entry) → IsReady e → of_types file_types e.type ≡ true → e.text ≢ none
  unfolding IsReady needs_text
  file_text e r d = r (among _ _ _ d)
    where
      among : (a b c : Bool) → b ≡ true → ((a || b) || c) ≡ true
      among a b c d = ground arith

  pub install_assets-Reaches :
      (total : ℕ) (es : List Entry) (s : Spot) (t : Tables) (o : Option Tables)
      → h.root ≡ []
      → All IsReady es
      → Reaches t o (install_assets h p total es s) (add_assets (rows_of h p es s) t) o
  unfolding install_assets install_asset rows_of
  install_assets-Reaches total [] s t o z rs =
      move_tables t o o (sym (add_assets-nil t)) (nothing-Reaches t o)
  install_assets-Reaches total (e ∷ es) s t o z (r, rs) =
      let (q, d) = row_of-ready h p e s z (file_text e r) in
      (outside-Reaches (λ _. place_asset h p total e s) t o (place_asset-Works total e s r)
        next insert_row-Reaches (row_of h p e s') q t o d)
      next move_tables t' o o step (install_assets-Reaches total es s' t' o z rs)
    where
      s' : Spot
      s' = spot_after h p e s

      t' : Tables
      t' = add_assets (cons_row (row_of h p e s') []) t

      step :
          add_assets (rows_of h p es s') t'
          ≡ add_assets (cons_row (row_of h p e s') (rows_of h p es s')) t
      step =
          add_assets-add_assets (cons_row (row_of h p e s') []) (rows_of h p es s') t
          ∙ (λ i. add_assets (cons_row-append (row_of h p e s') (rows_of h p es s') i) t)
