-- ===== src/Store/Ends.antt =====
-- How an act on the tables can end, and what its parts leave: triples for sequences of acts.
use mport.Base.{
  Bool, true, false, ◌≡◌, refl, ◌⊎◌, inl, inr, Option, none, some, if◌then◌else◌, arith,
}
use mathlib.Core.Path.{subst}
use mport.Db.{Result, ok, err, undefined, ◌>>=◌}
use mport.Store.{
  Tables, Sql, executed, Host, Trace, World, Why, Act, ◌and_then◌, with_trace, outside, changed_by,
  transaction, settle, db_do,
}

-- `P` holds of the state behind MPORT_OK, `E` of the state behind an error.
unfoldable pub Ends {ℓ} : {S : Type 0} (P E : S → Type ℓ) → Result (Why × S) S → Type ℓ
Ends P E (ok s) = P s
Ends P E (err (why, s)) = E s
Ends P E undefined = Unit

-- an act between a condition before it and conditions behind it
pub record Triple {ℓ} {S : Type 0} (P : S → Type ℓ) (a : Act S) (Q E : S → Type ℓ) : Type ℓ where
  pub ends : (s : S) → P s → Ends Q E (a s)

module _ {ℓ} {S : Type 0} where
  pub bind-Ends :
      (P Q E : S → Type ℓ) (r : Result (Why × S) S) (k : Act S)
      → Ends P E r
      → Triple P k Q E
      → Ends Q E (r >>= k)
  unfolding Ends
  bind-Ends P Q E (ok s) k h f = f.ends s h
  bind-Ends P Q E (err e) k h f = h
  bind-Ends P Q E undefined k h f = tt

  infixr 5 ◌then◌
  pub ◌then◌ :
      {P Q R E : S → Type ℓ} {a b : Act S}
      → Triple P a Q E
      → Triple Q b R E
      → Triple P (a and_then b) R E
  ◌then◌ {P} {Q} {R} {E} {a} {b} f g = record {
    ends = λ s h. bind-Ends Q R E (a s) b (f.ends s h) g;
  }

  pub Ends-imp :
      (P Q E F : S → Type ℓ) (r : Result (Why × S) S)
      → Ends P E r
      → ((s : S) → P s → Q s)
      → ((s : S) → E s → F s)
      → Ends Q F r
  unfolding Ends
  Ends-imp P Q E F (ok s) h f g = f s h
  Ends-imp P Q E F (err (why, s)) h f g = g s h
  Ends-imp P Q E F undefined h f g = tt

  pub weaken :
      {P Q E : S → Type ℓ} (F : S → Type ℓ) {a : Act S}
      → Triple P a Q E
      → ((s : S) → E s → F s)
      → Triple P a Q F
  weaken {P} {Q} {E} F {a} h g = record {
    ends = λ s p. Ends-imp Q Q E F (a s) (h.ends s p) (λ _ q. q) g;
  }

-- the tables and the open transaction of a state
unfoldable pub At : Tables → Option Tables → World → Type 0
At t s w = (w.tables ≡ t) × (w.saved ≡ s)

unfoldable pub rolled_back : Option Tables → Tables → Tables
rolled_back none t = t
rolled_back (some s) t = s

-- what a rollback leaves, which SQLite does when the connection is closed
unfoldable pub durable : World → Tables
unfolding rolled_back
durable w = rolled_back w.saved w.tables

with_trace-Ends {ℓ} :
    (P : Tables → Option Tables → Type ℓ) (w : World) (r : Result (Why × Trace) Trace)
    → P w.tables w.saved
    → Ends (λ v. P v.tables v.saved) (λ v. P v.tables v.saved) (with_trace w r)
unfolding Ends with_trace
with_trace-Ends P w (ok t) h = h
with_trace-Ends P w (err (why, t)) h = h
with_trace-Ends P w undefined h = tt

-- an act outside the tables keeps whatever is said of the tables alone
pub outside-Triple {ℓ} :
    (P : Tables → Option Tables → Type ℓ) (a : Tables → Act Trace)
    → Triple
        (λ w. P w.tables w.saved)
        (outside a)
        (λ w. P w.tables w.saved)
        (λ w. P w.tables w.saved)
unfolding outside
outside-Triple P a = record { ends = λ w h. with_trace-Ends P w (a w.tables w.trace) h }

settle-Ends :
    (s : Sql) (w : World) (t : Tables) (o o' : Option Tables) (x : Option (Option Tables))
    → (x ≡ some o') ⊎ (x ≡ none)
    → At t o w
    → Ends (At (changed_by s t) o') (At t o) (settle s w x)
unfolding Ends At settle
settle-Ends s w t o o' none (inl e) h = absurd (ground arith)
settle-Ends s w t o o' none (inr e) h = h
settle-Ends s w t o o' (some v) (inl e) (ht, ho) = (λ i. changed_by s (ht i), cc)
settle-Ends s w t o o' (some v) (inr e) h = absurd (ground arith)

if_run :
    (b : Bool) (x y : Option (Option Tables))
    → x ≡ y
    → ((if b then x else none) ≡ y) ⊎ ((if b then x else none) ≡ none)
if_run true x y e = inl e
if_run false x y e = inr refl

pub db_do-Triple :
    (h : Host) (s : Sql) (t : Tables) (o o' : Option Tables)
    → transaction s t o ≡ some o'
    → Triple (At t o) (db_do h s) (At (changed_by s t) o') (At t o)
unfolding db_do At
db_do-Triple h s t o o' e = record {
  ends = λ w hw.
      settle-Ends s w t o o'
        (if h.succeeds w.trace.events (executed s) then transaction s w.tables w.saved else none)
        (if_run (h.succeeds w.trace.events (executed s)) (transaction s w.tables w.saved) (some o')
          (cc (hw.0, hw.1, e)))
        hw;
}

if_none : (b : Bool) (x : Option (Option Tables)) → x ≡ none → (if b then x else none) ≡ none
if_none true x e = e
if_none false x e = refl

settle-none :
    (s : Sql) (w : World) (t : Tables) (o : Option Tables) (x : Option (Option Tables))
    → x ≡ none
    → At t o w
    → Ends (λ _. ⊥) (At t o) (settle s w x)
unfolding settle Ends At
settle-none s w t o none e h = h
settle-none s w t o (some v) e h = absurd (ground arith)

-- a statement that SQLite refuses in a state fails there
pub db_do-refused :
    (h : Host) (s : Sql) (t : Tables) (o : Option Tables)
    → transaction s t o ≡ none
    → Triple (At t o) (db_do h s) (λ _. ⊥) (At t o)
unfolding db_do At
db_do-refused h s t o e = record {
  ends = λ w hw.
      settle-none s w t o
        (if h.succeeds w.trace.events (executed s) then transaction s w.tables w.saved else none)
        (if_none (h.succeeds w.trace.events (executed s)) (transaction s w.tables w.saved)
          (cc (hw.0, hw.1, e)))
        hw;
}

settle-Keeps {ℓ} :
    (P : Tables → Type ℓ) (s : Sql) (w : World) (x : Option (Option Tables))
    → ((t : Tables) → P t → P (changed_by s t))
    → P w.tables
    → Ends (λ v. P v.tables) (λ v. P v.tables) (settle s w x)
unfolding settle Ends
settle-Keeps P s w none f p = p
settle-Keeps P s w (some v) f p = f w.tables p

pub db_do-Keeps {ℓ} :
    (P : Tables → Type ℓ) (h : Host) (s : Sql)
    → ((t : Tables) → P t → P (changed_by s t))
    → Triple (λ w. P w.tables) (db_do h s) (λ w. P w.tables) (λ w. P w.tables)
unfolding db_do
db_do-Keeps P h s f = record {
  ends = λ w p.
      settle-Keeps P s w
        (if h.succeeds w.trace.events (executed s) then transaction s w.tables w.saved else none) f
        p;
}

module _ {ℓ} {S : Type 0} (P E : S → Type ℓ) where
  pub ok_Ends : (r : Result (Why × S) S) (s : S) → Ends P E r → r ≡ ok s → P s
  unfolding Ends
  ok_Ends r s h e = subst (Ends P E) e h

  pub err_Ends : (r : Result (Why × S) S) (why : Why) (s : S) → Ends P E r → r ≡ err (why, s) → E s
  unfolding Ends
  err_Ends r why s h e = subst (Ends P E) e h

any_Ends : {S : Type 0} (r : Result (Why × S) S) → Ends (λ _. Unit {0}) (λ _. Unit {0}) r
unfolding Ends
any_Ends (ok s) = tt
any_Ends (err (why, s)) = tt
any_Ends undefined = tt

pub any_Triple : {S : Type 0} (a : Act S) → Triple (λ _. Unit {0}) a (λ _. Unit {0}) (λ _. Unit {0})
any_Triple a = record { ends = λ s _. any_Ends (a s) }

with_trace-never :
    (w : World) (r : Result (Why × Trace) Trace)
    → Ends (λ _. ⊥) (λ _. Unit {0}) r
    → Ends (λ _. ⊥) (At w.tables w.saved) (with_trace w r)
unfolding Ends with_trace At
with_trace-never w (ok t) h = h
with_trace-never w (err (why, t)) h = (refl, refl)
with_trace-never w undefined h = tt

-- an act outside the tables that never returns MPORT_OK leaves them as they are
pub outside-never :
    (a : Tables → Act Trace) (w : World)
    → ((t : Tables) → Triple (λ _. Unit {0}) (a t) (λ _. ⊥) (λ _. Unit {0}))
    → Ends (λ _. ⊥) (At w.tables w.saved) (outside a w)
unfolding outside
outside-never a w h = with_trace-never w (a w.tables w.trace) ((h w.tables).ends w.trace tt)
