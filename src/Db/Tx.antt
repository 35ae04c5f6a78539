-- ===== src/Db/Tx.antt =====
-- Transactions: `Begin`, statements on a view of the tables, `Commit`, and the deferred `Rollback`.
use bully.Prelude.{List, [], ◌∷◌}
use bully.Db.{Call, DbM, Fate, Reply, World, db_failed, done, err, lost, ok, refused}
use bully.Tables.{Db}

-- `Commit`, from the tables as they were at `Begin` to those of the transaction.
unfoldable pub settle : Fate → Db → Db → Db
settle refused old new = old
settle done old new = new
settle lost old new = new

module _ {ℓ} {A : Type ℓ} where
  unfoldable pub settled : Fate → A → Reply A
  settled refused a = err db_failed
  settled done a = ok a
  settled lost a = err db_failed

  unfoldable pub commit_calls : A → Db → Db → List Call → Reply A × World
  unfolding settle settled
  commit_calls a old new [] = (err db_failed, record { db = old; calls = [] })
  commit_calls a old new (c ∷ cs) =
      (settled c.fate a, record { db = settle c.fate old new; calls = cs })

  -- The end of the transaction: an error returns before `Commit`, and is rolled back.
  unfoldable pub finish : Db → Reply A → World → Reply A × World
  unfolding commit_calls
  finish old (ok a) w = commit_calls a old w.db w.calls
  finish old (err e) w = (err e, record w { db = old })

  unfoldable pub begin : Fate → DbM A → World → Reply A × World
  unfolding finish
  begin done m w = let (r, after) = m w in finish w.db r after
  begin refused m w = (err db_failed, w)
  begin lost m w = (err db_failed, w)

  unfoldable pub transaction_calls : DbM A → Db → List Call → Reply A × World
  unfolding begin
  transaction_calls m db [] = (err db_failed, record { db = db; calls = [] })
  transaction_calls m db (c ∷ cs) = begin c.fate m (record { db = db; calls = cs })

  -- Every statement of `m` sees what those before it did; others see nothing of it until `Commit`.
  unfoldable pub transaction : DbM A → DbM A
  unfolding transaction_calls
  transaction m w = transaction_calls m w.db w.calls
