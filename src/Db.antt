-- ===== src/Db.antt =====
-- A call of the database, and programs of such calls on the tables of Tables. The SQL
-- texts in the handlers are modelled where they stand, as functions on these tables; what Postgres
-- does with an identifier in text form is a parameter, and whether a call arrives is an input.
pub mod Moves
pub mod Rows
pub mod Calls
pub mod Tx
pub mod Committed
use bully.Prelude.{
  Bool, List, Option, String, [], drop, false, if◌then◌else◌, none, some, take, ℕ, ◌++◌, ◌||◌, ◌∷◌,
  ◌≡◌,
}
use bully.Tables.{Db}

-- Instants and durations are counts of nanoseconds.
abbrev pub second : ℕ
second = 1000000000

-- An identifier is a text in Go and a UUID, here a number, in the tables. A text that is no UUID
-- makes the statement fail; the text of a UUID that the database hands out reads back as that UUID.
pub record Uuids : Type 0 where
  pub parse : String → Option ℕ
  pub print : ℕ → String
  pub parse-print : (u : ℕ) → parse (print u) ≡ some u

-- The errors that the handlers tell apart.
pub data Error : Type 0 where
  no_rows db_failed session_too_new invalid_policy : Error

pub data Reply {ℓ} (A : Type ℓ) : Type ℓ where
  ok : A → Reply A
  err : Error → Reply A

-- What happens to a call: it never arrives, it is done, or it is done and its answer is lost.
pub data Fate : Type 0 where
  refused done lost : Fate

-- What the database brings to one call: its clock, the UUID it would generate, the fate, after how many
-- rows the connection breaks while they are read, if it does, and which of the rows it takes first where
-- a LIMIT has no order.
pub record Call : Type 0 where
  pub now : ℕ
  pub fresh : ℕ
  pub fate : Fate
  pub break_after : Option ℕ
  pub pick : ℕ

pub record World : Type 0 where
  pub db : Db
  pub calls : List Call

abbrev pub DbM {ℓ} : Type ℓ → Type ℓ
DbM A = World → Reply A × World

module _ {ℓ} {A : Type ℓ} where
  unfoldable pub pure : A → DbM A
  pure a w = (ok a, w)

  unfoldable pub raise : Error → DbM A
  raise e w = (err e, w)

  -- The answer that comes back.
  unfoldable pub answer : Fate → Reply A × Db → Db → Reply A × Db
  answer refused r db = (err db_failed, db)
  answer done r db = r
  answer lost r db = (err db_failed, r.1)

  -- One statement. With no call left the connection is gone.
  unfoldable pub issue : (Call → Db → Reply A × Db) → Db → List Call → Reply A × World
  unfolding answer
  issue stmt db [] = (err db_failed, record { db = db; calls = [] })
  issue stmt db (c ∷ cs) =
      let (r, after) = answer c.fate (stmt c db) db in (r, record { db = after; calls = cs })

  unfoldable pub statement : (Call → Db → Reply A × Db) → DbM A
  unfolding issue
  statement stmt w = issue stmt w.db w.calls

module _ {ℓ κ} {A : Type ℓ} {B : Type κ} where
  infixl 5 ◌>>=◌ ◌>>◌
  unfoldable pub continue : Reply A → (A → DbM B) → DbM B
  continue (ok a) f w = f a w
  continue (err e) f w = (err e, w)

  unfoldable pub ◌>>=◌ : DbM A → (A → DbM B) → DbM B
  unfolding continue
  ◌>>=◌ m f w = let (r, after) = m w in continue r f after

  abbrev pub ◌>>◌ : DbM A → DbM B → DbM B
  m >> n = m >>= λ _. n

-- What a function makes of the error of a call, or of its answer.
unfoldable pub recover {ℓ κ} : {A : Type ℓ} {B : Type κ} → (Reply A → Reply B) → DbM A → DbM B
recover f m w = let (r, after) = m w in (f r, after)

module _ {ℓ} {A : Type ℓ} where
  -- UPDATE … SET … WHERE …
  unfoldable pub update_where : (A → Bool) → (A → A) → List A → List A
  update_where test change [] = []
  update_where test change (r ∷ rows) =
      (if test r then change r else r) ∷ update_where test change rows

  -- SELECT … WHERE …, in the order of the table.
  unfoldable pub select : (A → Bool) → List A → List A
  select test [] = []
  select test (r ∷ rows) = let rest = select test rows in if test r then r ∷ rest else rest

  -- SELECT EXISTS
  unfoldable pub any_row : (A → Bool) → List A → Bool
  any_row test [] = false
  any_row test (r ∷ rows) = test r || any_row test rows

  -- What the loop `for rows.Next()` gets to see. It ends as well when the connection breaks, and no
  -- caller asks `rows.Err()`.
  abbrev pub arrived : Option ℕ → List A → List A
  arrived none rows = rows
  arrived (some n) rows = take n rows

  -- The rows in the order in which a SELECT without one finds them: any of them may be the first.
  abbrev pub rotate : ℕ → List A → List A
  rotate n rows = drop n rows ++ take n rows

  -- What `QueryRow` reads: the first row, or `pgx.ErrNoRows`.
  unfoldable pub first_row : List A → Reply A
  first_row [] = err no_rows
  first_row (r ∷ rows) = ok r

-- A text parameter at a place where the statement wants a UUID.
unfoldable pub with_uuid {ℓ} :
    {A : Type ℓ} → Uuids → String → Db → (ℕ → Reply A × Db) → Reply A × Db
with_uuid pg text db f = elim (pg.parse text) [ none ↦ (err db_failed, db) | some u ↦ f u ]
