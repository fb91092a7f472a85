-- ===== src/Db.antt =====
-- The database as the code sees it: SQLite prepares a statement and steps through its rows. Which
-- statement fails, and where, is a parameter of every model that reads the database.
use mport.Base.{ℕ, zero, suc, List, [], ◌∷◌}

-- What SQLite does with a statement: it runs it, refuses to prepare it, or stops with an error
-- after so many rows.
pub data Fault : Type 0 where
  runs : Fault
  refused : Fault
  breaks_after : ℕ → Fault

-- The results of sqlite3_step: SQLITE_ROW, SQLITE_DONE, or any other code.
pub data Steps {ℓ} (A : Type ℓ) : Type ℓ where
  row : A → Steps A → Steps A
  finished : Steps A
  failed : Steps A

pub data Query {ℓ} (A : Type ℓ) : Type ℓ where
  unprepared : Query A
  prepared : Steps A → Query A

-- How a call ends: with a value, with an error of the program, or with behaviour that C leaves
-- undefined (a NULL pointer or a byte outside its object is read).
pub data Result {ℓ κ} (E : Type ℓ) (A : Type κ) : Type (ℓ ⊔ κ) where
  ok : A → Result E A
  err : E → Result E A
  undefined : Result E A

infixl 5 ◌>>=◌ ◌>>◌
abbrev pub ◌>>=◌ {ℓ κ μ} :
    {E : Type ℓ} {A : Type κ} {B : Type μ} → Result E A → (A → Result E B) → Result E B
ok a >>= f = f a
err e >>= f = err e
undefined >>= f = undefined

abbrev pub ◌>>◌ {ℓ κ} : {E : Type ℓ} {B : Type κ} → Result E (Unit {0}) → Result E B → Result E B
m >> k = m >>= λ _. k

module _ {ℓ} {A : Type ℓ} where
  abbrev pub all_rows : List A → Steps A
  all_rows [] = finished
  all_rows (x ∷ xs) = row x (all_rows xs)

  abbrev pub rows_until : ℕ → List A → Steps A
  rows_until zero xs = failed
  rows_until (suc n) [] = failed
  rows_until (suc n) (x ∷ xs) = row x (rows_until n xs)

  abbrev pub select : Fault → List A → Query A
  select runs xs = prepared (all_rows xs)
  select refused xs = unprepared
  select (breaks_after n) xs = prepared (rows_until n xs)
