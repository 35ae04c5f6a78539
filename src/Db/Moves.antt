-- ===== src/Db/Moves.antt =====
-- What every run of a program does to the tables, whatever happens to its calls: one rule for each way
-- to build a program.
-- `R before after` holds of the tables before and after `m`.
use bully.Prelude.{
  Bool, List, Option-cases, String, [], false, if◌then◌else◌, inl, inr, true, ℕ, ◌∷◌,
}
use bully.Db.{
  Call, DbM, Error, Fate, Reply, Uuids, World, answer, continue, done, err, issue, lost, ok, pure,
  raise, recover, refused, statement, with_uuid, ◌>>=◌,
}
use bully.Db.Tx.{begin, commit_calls, finish, settle, transaction, transaction_calls}
use bully.Tables.{Db}

pub record Moves {ℓ} {A : Type ℓ} (R : Db → Db → Type 0) (m : DbM A) : Type ℓ where
  pub moves : (w : World) → R w.db (m w).1.db

pub record Preorder (R : Db → Db → Type 0) : Type 0 where
  pub same : (a : Db) → R a a
  pub then_so : (a b c : Db) → R a b → R b c → R a c

module _ {R : Db → Db → Type 0} (p : Preorder R) where
  pub Moves-pure {ℓ} : {A : Type ℓ} (a : A) → Moves R (pure a)
  unfolding pure
  Moves-pure a = record { moves = λ w. p.same w.db }

  pub Moves-raise {ℓ} : {A : Type ℓ} (e : Error) → Moves R (raise {A = A} e)
  unfolding raise
  Moves-raise e = record { moves = λ w. p.same w.db }

  answer-moves {ℓ} :
      {A : Type ℓ} (fate : Fate) (r : Reply A × Db) (db : Db) → R db r.1 → R db (answer fate r db).1
  unfolding answer
  answer-moves refused r db h = p.same db
  answer-moves done r db h = h
  answer-moves lost r db h = h

  issue-moves {ℓ} :
      {A : Type ℓ} (stmt : Call → Db → Reply A × Db) (db : Db) (calls : List Call)
      → ((c : Call) → R db (stmt c db).1)
      → R db (issue stmt db calls).1.db
  unfolding issue
  issue-moves stmt db [] h = p.same db
  issue-moves stmt db (c ∷ cs) h = answer-moves c.fate (stmt c db) db (h c)

  pub Moves-statement {ℓ} :
      {A : Type ℓ} (stmt : Call → Db → Reply A × Db)
      → ((c : Call) (db : Db) → R db (stmt c db).1)
      → Moves R (statement stmt)
  unfolding statement
  Moves-statement stmt h = record { moves = λ w. issue-moves stmt w.db w.calls (λ c. h c w.db) }

  continue-moves {ℓ κ} :
      {A : Type ℓ} {B : Type κ} (r : Reply A) (f : A → DbM B) (w : World)
      → ((a : A) → R w.db (f a w).1.db)
      → R w.db (continue r f w).1.db
  unfolding continue
  continue-moves (ok a) f w h = h a
  continue-moves (err e) f w h = p.same w.db

  pub Moves-bind {ℓ} :
      {A B : Type ℓ} (m : DbM A) (f : A → DbM B)
      → Moves R m
      → ((a : A) → Moves R (f a))
      → Moves R (m >>= f)
  unfolding ◌>>=◌
  Moves-bind m f km kf = record {
    moves = λ w.
        let (r, after) = m w in
        p.then_so w.db after.db _ (km.moves w) (continue-moves r f after (λ a. (kf a).moves after));
  }

  pub Moves-if {ℓ} :
      {A : Type ℓ} (b : Bool) (m n : DbM A) → Moves R m → Moves R n → Moves R (if b then m else n)
  Moves-if true m n km kn = km
  Moves-if false m n km kn = kn

  pub Moves-recover {ℓ} :
      {A B : Type ℓ} (f : Reply A → Reply B) (m : DbM A) → Moves R m → Moves R (recover f m)
  unfolding recover
  Moves-recover f m km = record { moves = km.moves }

  pub with_uuid-moves {ℓ} :
      {A : Type ℓ} (pg : Uuids) (text : String) (db : Db) (f : ℕ → Reply A × Db)
      → ((u : ℕ) → R db (f u).1)
      → R db (with_uuid pg text db f).1
  unfolding with_uuid
  with_uuid-moves pg text db f h = elim (Option-cases (pg.parse text)) [
    | inl e ↦ rw (e, with_uuid) (p.same db)
    | inr (u, e) ↦ rw (e, with_uuid) (h u)
  ]

  pub if-moves {ℓ} :
      {A : Type ℓ} (db : Db) (b : Bool) (x y : Reply A × Db)
      → R db x.1
      → R db y.1
      → R db (if b then x else y).1
  if-moves db true x y hx hy = hx
  if-moves db false x y hx hy = hy

  settle-moves : (fate : Fate) (old new : Db) → R old new → R old (settle fate old new)
  unfolding settle
  settle-moves refused old new h = p.same old
  settle-moves done old new h = h
  settle-moves lost old new h = h

  commit-moves {ℓ} :
      {A : Type ℓ} (a : A) (old new : Db) (calls : List Call)
      → R old new
      → R old (commit_calls a old new calls).1.db
  unfolding commit_calls
  commit-moves a old new [] h = p.same old
  commit-moves a old new (c ∷ cs) h = settle-moves c.fate old new h

  pub finish-moves {ℓ} :
      {A : Type ℓ} (old : Db) (r : Reply A) (w : World) → R old w.db → R old (finish old r w).1.db
  unfolding finish
  finish-moves old (ok a) w h = commit-moves a old w.db w.calls h
  finish-moves old (err e) w h = p.same old

  begin-moves {ℓ} :
      {A : Type ℓ} (fate : Fate) (m : DbM A) (w : World) → Moves R m → R w.db (begin fate m w).1.db
  unfolding begin
  begin-moves done m w h = finish-moves w.db (m w).0 (m w).1 (h.moves w)
  begin-moves refused m w h = p.same w.db
  begin-moves lost m w h = p.same w.db

  calls-moves {ℓ} :
      {A : Type ℓ} (m : DbM A) (db : Db) (calls : List Call)
      → Moves R m
      → R db (transaction_calls m db calls).1.db
  unfolding transaction_calls
  calls-moves m db [] h = p.same db
  calls-moves m db (c ∷ cs) h = begin-moves c.fate m (record { db = db; calls = cs }) h

  pub Moves-transaction {ℓ} : {A : Type ℓ} (m : DbM A) → Moves R m → Moves R (transaction m)
  unfolding transaction
  Moves-transaction m h = record { moves = λ w. calls-moves m w.db w.calls h }

  -- A handler that goes on with the answer and the world of its first call.
  pub handle-moves {ℓ κ} :
      {A : Type ℓ} {B : Type κ} (m : DbM A) (f : Reply A → World → B × World) (w : World)
      → Moves R m
      → ((r : Reply A) (v : World) → R v.db (f r v).1.db)
      → R w.db (f (m w).0 (m w).1).1.db
  handle-moves m f w km h =
      p.then_so w.db (m w).1.db (f (m w).0 (m w).1).1.db (km.moves w) (h (m w).0 (m w).1)
