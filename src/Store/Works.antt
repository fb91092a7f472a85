-- ===== src/Store/Works.antt =====
-- Acts that always return MPORT_OK, on a system where every call succeeds.
use mport.Base.{Bool, true, false, ◌≡◌, refl, Option, none, some, List, if◌then◌else◌, arith}
use mport.Base.Text.{Bytes}
use mport.Db.{Fault, runs, Result, ok, ◌>>=◌, all_rows, Query, prepared, select}
use mport.Store.Ends.{At}
use mport.Store.{
  Event, Select, Host, Tables, Sql, executed, Trace, World, Why, Act, ◌and_then◌, nothing,
  with_event, emit, attempt, or_tell, with_trace, outside, transaction, settle, db_do, changed_by,
}

-- every call succeeds, SQLite reports no error, and every file has its hashes
pub record Healthy (h : Host) : Type 0 where
  pub all_succeed : (es : List Event) (e : Event) → h.succeeds es e ≡ true
  pub all_run : (es : List Event) (q : Select) → h.fault es q ≡ runs
  pub has_md5 : (es : List Event) (p : Bytes) → (x : Bytes) × (h.md5 es p ≡ some x)
  pub has_sha256 : (es : List Event) (p : Bytes) → (x : Bytes) × (h.sha256 es p ≡ some x)

pub record Works {S : Type 0} (a : Act S) : Type 0 where
  pub works : (s : S) → (t : S) × (a s ≡ ok t)

pub bind_ok : {S : Type 0} (r : Result (Why × S) S) (k : Act S) (s : S) → r ≡ ok s → (r >>= k) ≡ k s
bind_ok r k s e = λ i. e i >>= k

infixr 5 ◌with◌
pub ◌with◌ : {S : Type 0} {a b : Act S} → Works a → Works b → Works (a and_then b)
◌with◌ {S} {a} {b} f g = record {
  works = λ s. let (t, e) = f.works s in let (u, d) = g.works t in (u, cc (bind_ok (a s) b t e, d));
}

pub nothing-Works : {S : Type 0} → Works (nothing {S = S})
nothing-Works = record { works = λ s. (s, refl) }

pub emit-Works : (e : Event) → Works (emit e)
unfolding emit
emit-Works e = record { works = λ t. (with_event e t, refl) }

pub attempt-Works : (h : Host) (e : Event) → Healthy h → Works (attempt h e)
unfolding attempt
attempt-Works h e f = record { works = λ t. (with_event e t, simp (f.all_succeed t.events e)) }

pub or_tell-Works : (h : Host) (e : Event) (a : Act Trace) → Healthy h → Works (or_tell h e a)
unfolding or_tell
or_tell-Works h e a f = record { works = λ t. (with_event e t, simp (f.all_succeed t.events e)) }

pub if-Works :
    {S : Type 0} (b : Bool) (x y : Act S)
    → (b ≡ true → Works x)
    → (b ≡ false → Works y)
    → Works (if b then x else y)
if-Works true x y f g = f refl
if-Works false x y f g = g refl

-- the same for an act that looks at the state first
pub if_ok :
    {S : Type 0} (b : Bool) (x y : Result (Why × S) S)
    → (v : S) × (x ≡ ok v)
    → (v : S) × (y ≡ ok v)
    → (v : S) × ((if b then x else y) ≡ ok v)
if_ok true x y f g = f
if_ok false x y f g = g

select_runs :
    {A : Type 0} (f : Fault) (xs : List A) (g : Query A → Act Trace) (t : Trace)
    → f ≡ runs
    → g (select f xs) t ≡ g (prepared (all_rows xs)) t
select_runs f xs g t e = λ i. g (select (e i) xs) t

-- an act on a statement that SQLite runs without an error
pub select-Works :
    {A : Type 0} (h : Host) (q : Select) (xs : List A) (g : Query A → Act Trace)
    → Healthy h
    → Works (g (prepared (all_rows xs)))
    → Works (λ (t : Trace). g (select (h.fault t.events q) xs) t)
select-Works h q xs g f k = record {
  works = λ t.
      let (v, e) = k.works t in
      (v, cc (select_runs (h.fault t.events q) xs g t (f.all_run t.events q), e));
}

-- an act that returns MPORT_OK from all states with the given tables, and what it makes of them
pub record Reaches (t : Tables) (o : Option Tables) (a : Act World) (t' : Tables)
    (o' : Option Tables) : Type 0 where
  pub reaches : (w : World) → At t o w → (v : World) × (a w ≡ ok v) × At t' o' v

infixr 5 ◌next◌
pub ◌next◌ :
    {t t' t'' : Tables} {o o' o'' : Option Tables} {a b : Act World}
    → Reaches t o a t' o'
    → Reaches t' o' b t'' o''
    → Reaches t o (a and_then b) t'' o''
◌next◌ {t} {t'} {t''} {o} {o'} {o''} {a} {b} f g = record {
  reaches = λ w h.
      let (v, e, k) = f.reaches w h in
      let (u, d, l) = g.reaches v k in (u, cc (bind_ok (a w) b v e, d), l);
}

with_trace-ok :
    (w : World) (r : Result (Why × Trace) Trace) (x : Trace)
    → r ≡ ok x
    → with_trace w r ≡ ok (record w { trace = x })
unfolding with_trace
with_trace-ok w r x e = λ i. with_trace w (e i)

same_ok : (r q : Result (Why × Trace) Trace) (x : Trace) → r ≡ q → q ≡ ok x → r ≡ ok x
same_ok r q x e f = cc

pub outside-Reaches :
    (a : Tables → Act Trace) (t : Tables) (o : Option Tables)
    → Works (a t)
    → Reaches t o (outside a) t o
unfolding outside At
outside-Reaches a t o f = record {
  reaches = λ w h.
      let (x, e) = f.works w.trace in
      (
        record w { trace = x },
        with_trace-ok w (a w.tables w.trace) x
            (same_ok (a w.tables w.trace) (a t w.trace) x (λ i. a (h.0 i) w.trace) e),
        h,
      );
}

some_eq : (y o : Option Tables) → some y ≡ some o → y ≡ o
some_eq y o e = cc

if_run_some :
    (b : Bool) (x : Option (Option Tables)) (o : Option Tables)
    → b ≡ true
    → x ≡ some o
    → (if b then x else none) ≡ some o
if_run_some true x o e f = f
if_run_some false x o e f = absurd (ground arith)

settle-ok :
    (s : Sql) (w : World) (x : Option (Option Tables)) (o : Option Tables)
    → x ≡ some o
    → settle s w x
      ≡ ok (record {
        tables = changed_by s w.tables;
        saved = o;
        trace = with_event (executed s) w.trace;
      })
unfolding settle
settle-ok s w none o e = absurd (ground arith)
settle-ok s w (some y) o e = λ i. ok (record {
  tables = changed_by s w.tables;
  saved = some_eq y o e i;
  trace = with_event (executed s) w.trace;
})

pub db_do-Reaches :
    (h : Host) (s : Sql) (t : Tables) (o o' : Option Tables)
    → Healthy h
    → transaction s t o ≡ some o'
    → Reaches t o (db_do h s) (changed_by s t) o'
unfolding db_do At
db_do-Reaches h s t o o' f e = record {
  reaches = λ w k. (
    record { tables = changed_by s w.tables; saved = o'; trace = with_event (executed s) w.trace },
    settle-ok s w
        (if h.succeeds w.trace.events (executed s) then transaction s w.tables w.saved else none) o'
        (if_run_some (h.succeeds w.trace.events (executed s)) (transaction s w.tables w.saved) o'
          (f.all_succeed w.trace.events (executed s)) (cc (k.0, k.1, e))),
    ((λ i. changed_by s (k.0 i)), refl),
  );
}
