-- ===== src/Install/Laws.antt =====
-- What the parts of libmport/bundle_read_install_pkg.c have in common is shown once, for every
-- property of acts that has these laws: that they work, that their errors are set, and that they
-- keep what the events before them have.
use mport.Base.{◌≢◌, Bool, true, false, ◌≡◌, none, some, List, [], ◌∷◌, if◌then◌else◌}
use mport.Base.Text.{Bytes}
use mport.Db.{runs, Result, ok, err, undefined, ◌>>=◌}
use mport.Store.{
  Event, advanced, Select, FileKind, Host, Trace, Why, unset_error, sql_error, locked_package,
  needed_by_others, failed_command, Act, ◌and_then◌, nothing, with_event, emit, attempt,
}
use mport.Store.Ends.{Ends, Triple, ◌then◌}
use mport.Store.Works.{Healthy, Works, ◌with◌, nothing-Works, emit-Works, attempt-Works}

-- the events that are not steps of the progress meter
unfoldable pub is_quiet : Event → Bool
is_quiet (advanced n total path) = false
is_quiet e = true

-- a property of acts with the laws that carry it from the parts of an act to the whole
pub record Laws (h : Host) (M : Act Trace → Type 0) : Type 0 where
  pub idle : M nothing
  pub emits : (e : Event) → is_quiet e ≡ true → M (emit e)
  pub attempts : (e : Event) → is_quiet e ≡ true → M (attempt h e)
  pub follows : {a b : Act Trace} → M a → M b → M (a and_then b)
  pub looks : (g : Trace → Act Trace) → ((t : Trace) → M (g t)) → M (λ t. g t t)
  pub not_found :
      (t : Trace) (path : Bytes) → h.lstat t.events path ≡ none → M (λ u. err (failed_command, u))
  pub not_run : (t : Trace) (q : Select) → h.fault t.events q ≢ runs → M (λ u. err (sql_error, u))

-- every file that is looked for is there
pub record Finds (h : Host) : Type 0 where
  pub finds : (es : List Event) (path : Bytes) → (k : FileKind) × (h.lstat es path ≡ some k)

pub looks-Works : (g : Trace → Act Trace) → ((t : Trace) → Works (g t)) → Works (λ t. g t t)
looks-Works g f = record { works = λ t. (f t).works t }

pub Works-Laws : (h : Host) → Healthy h → Finds h → Laws h Works
Works-Laws h f k = record {
  idle = nothing-Works;
  emits = λ e _. emit-Works e;
  attempts = λ e _. attempt-Works h e f;
  follows = λ a b. a with b;
  looks = looks-Works;
  not_run = λ t q e. absurd (e (f.all_run t.events q));
  not_found = λ t path e. let (x, d) = k.finds t.events path in absurd (none_some x (cc (e, d)));
}
  where
    none_some : (x : FileKind) → none ≡ some x → ⊥
    none_some x e = cc

-- an error, if there is one, has been set
unfoldable pub IsReported : {S : Type 0} → Result (Why × S) S → Type 0
IsReported (ok s) = Unit
IsReported undefined = Unit
IsReported (err (unset_error, s)) = ⊥
IsReported (err (sql_error, s)) = Unit
IsReported (err (locked_package, s)) = Unit
IsReported (err (needed_by_others, s)) = Unit
IsReported (err (failed_command, s)) = Unit

pub record Sets {S : Type 0} (a : Act S) : Type 0 where
  pub sets : (s : S) → IsReported (a s)

bind-IsReported :
    {S : Type 0} (r : Result (Why × S) S) (k : Act S) → IsReported r → Sets k → IsReported (r >>= k)
unfolding IsReported
bind-IsReported (ok s) k h f = f.sets s
bind-IsReported undefined k h f = tt
bind-IsReported (err e) k h f = h

pub both-Sets : {S : Type 0} {a b : Act S} → Sets a → Sets b → Sets (a and_then b)
both-Sets {S} {a} {b} f g = record { sets = λ s. bind-IsReported (a s) b (f.sets s) g }

attempt-IsReported :
    (b : Bool) (t : Trace) → IsReported (if b then ok t else err (failed_command, t))
unfolding IsReported
attempt-IsReported true t = tt
attempt-IsReported false t = tt

pub attempt-Sets : (h : Host) (e : Event) → Sets (attempt h e)
unfolding attempt
attempt-Sets h e = record {
  sets = λ t. attempt-IsReported (h.succeeds t.events e) (with_event e t);
}

pub ok-Sets : {S : Type 0} (f : S → S) → Sets (λ s. ok (f s))
unfolding IsReported
ok-Sets f = record { sets = λ s. tt }

fail-Sets : Sets (λ (u : Trace). err (failed_command, u))
unfolding IsReported
fail-Sets = record { sets = λ u. tt }

sql-Sets : Sets (λ (u : Trace). err (sql_error, u))
unfolding IsReported
sql-Sets = record { sets = λ u. tt }

pub emit-Sets : (e : Event) → Sets (emit e)
unfolding emit
emit-Sets e = ok-Sets (with_event e)

pub Sets-Laws : (h : Host) → Laws h Sets
Sets-Laws h = record {
  idle = ok-Sets (λ s. s);
  emits = λ e _. emit-Sets e;
  attempts = λ e _. attempt-Sets h e;
  follows = λ a b. both-Sets a b;
  looks = λ g f. record { sets = λ t. (f t).sets t };
  not_found = λ t path e. fail-Sets;
  not_run = λ t q e. sql-Sets;
}

-- every event is such
unfoldable pub Every : (Event → Type 0) → List Event → Type 0
Every B [] = Unit
Every B (e ∷ es) = B e × Every B es

-- an act that only has such events
unfoldable pub Keeps : (Event → Type 0) → Act Trace → Type 0
Keeps B a = Triple (λ t. Every B t.events) a (λ t. Every B t.events) (λ t. Every B t.events)

pub emit-Keeps : (B : Event → Type 0) (e : Event) → B e → Keeps B (emit e)
unfolding emit Keeps Every Ends
emit-Keeps B e b = record { ends = λ t k. (b, k) }

attempt-Ends :
    (B : Event → Type 0) (b : Bool) (why : Why) (t : Trace)
    → Every B t.events
    → Ends (λ u. Every B u.events) (λ u. Every B u.events) (if b then ok t else err (why, t))
unfolding Ends
attempt-Ends B true why t k = k
attempt-Ends B false why t k = k

pub attempt-Keeps : (B : Event → Type 0) (h : Host) (e : Event) → B e → Keeps B (attempt h e)
unfolding attempt Keeps Every
attempt-Keeps B h e b = record {
  ends = λ t k. attempt-Ends B (h.succeeds t.events e) failed_command (with_event e t) (b, k);
}

pub Keeps-Laws :
    (B : Event → Type 0) (h : Host) → ((e : Event) → is_quiet e ≡ true → B e) → Laws h (Keeps B)
unfolding Keeps Ends
Keeps-Laws B h q = record {
  idle = record { ends = λ t k. k };
  emits = λ e d. emit-Keeps B e (q e d);
  attempts = λ e d. attempt-Keeps B h e (q e d);
  follows = λ a b. a then b;
  looks = λ g f. record { ends = λ t k. (f t).ends t k };
  not_found = λ t path e. record { ends = λ u k. k };
  not_run = λ t q e. record { ends = λ u k. k };
}
