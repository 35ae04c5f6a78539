-- ===== src/Db/Calls.antt =====
-- Laws of calls: what a statement gives for each fate, and a text parameter that is a UUID.
use bully.Prelude.{
  Bool, Bool-cases, List, Option-cases, String, [], arith, if◌then◌else◌, inl, inr, none, refl,
  some, ℕ, ◌∙◌, ◌∷◌, ◌≡◌, ◌⊎◌,
}
use bully.Db.{
  Call, DbM, Error, Reply, Uuids, World, answer, continue, db_failed, done, err, issue, ok,
  statement, with_uuid, ◌>>=◌,
}
use bully.Db.Moves.{Preorder}
use bully.Tables.{Db}
use bully.Ws.Hub.{holds}

module _ {ℓ} {A : Type ℓ} (stmt : Call → Db → Reply A × Db) where
  pub statement_done :
      (db : Db) (c : Call) (cs : List Call)
      → c.fate ≡ done
      → statement stmt (record { db = db; calls = c ∷ cs })
        ≡ ((stmt c db).0, record { db = (stmt c db).1; calls = cs })
  unfolding statement
  statement_done db c cs e = rw (e, answer)

  issue_ok :
      (db : Db) (calls : List Call) (a : A)
      → (issue stmt db calls).0 ≡ ok a
      → (c : Call) × (cs : List Call) × (calls ≡ c ∷ cs)
        × (c.fate ≡ done)
        × ((stmt c db).0 ≡ ok a)
        × ((issue stmt db calls).1 ≡ record { db = (stmt c db).1; calls = cs })
  unfolding issue
  issue_ok db [] a h = cc
  issue_ok db (c ∷ cs) a h = (c, cs, refl, ground arith, ground arith, ground arith)

  -- A statement that answers `ok` had a call, which was done.
  pub statement_ok :
      (w : World) (a : A)
      → (statement stmt w).0 ≡ ok a
      → (c : Call) × (cs : List Call) × (w.calls ≡ c ∷ cs)
        × (c.fate ≡ done)
        × ((stmt c w.db).0 ≡ ok a)
        × ((statement stmt w).1 ≡ record { db = (stmt c w.db).1; calls = cs })
  unfolding statement
  statement_ok w a h = issue_ok w.db w.calls a h

pub with_uuid-some {ℓ} :
    {A : Type ℓ} (pg : Uuids) (text : String) (db : Db) (f : ℕ → Reply A × Db) (u : ℕ)
    → pg.parse text ≡ some u
    → with_uuid pg text db f ≡ f u
unfolding with_uuid
with_uuid-some pg text db f u e = rw (e, with_uuid)

pub with_uuid-none {ℓ} :
    {A : Type ℓ} (pg : Uuids) (text : String) (db : Db) (f : ℕ → Reply A × Db)
    → pg.parse text ≡ none
    → with_uuid pg text db f ≡ (err db_failed, db)
unfolding with_uuid
with_uuid-none pg text db f e = rw (e, with_uuid)

-- A statement with a UUID parameter that answers `ok` was given one.
pub with_uuid_ok {ℓ} :
    {A : Type ℓ} (pg : Uuids) (text : String) (db : Db) (f : ℕ → Reply A × Db) (a : A)
    → (with_uuid pg text db f).0 ≡ ok a
    → (u : ℕ) × (pg.parse text ≡ some u) × ((f u).0 ≡ ok a) × (with_uuid pg text db f ≡ f u)
unfolding with_uuid
with_uuid_ok pg text db f a h = elim (Option-cases (pg.parse text)) [
  | inl e ↦ cc (rw (e, with_uuid) at h)
  | inr (u, e) ↦ (u, e, rw (← with_uuid-some pg text db f u e) h, with_uuid-some pg text db f u e)
]

module _ {ℓ κ} {A : Type ℓ} {B : Type κ} where
  continue_ok :
      (r : Reply A) (f : A → DbM B) (w : World) (b : B)
      → (continue r f w).0 ≡ ok b
      → (a : A) × (r ≡ ok a) × ((f a w).0 ≡ ok b) × (continue r f w ≡ f a w)
  unfolding continue
  continue_ok (ok a) f w b h = (a, refl, h, refl)
  continue_ok (err e) f w b h = cc

  -- A sequence that answers `ok` had a first part that did.
  pub bind_ok :
      (m : DbM A) (f : A → DbM B) (w : World) (b : B)
      → ((m >>= f) w).0 ≡ ok b
      → (a : A) × ((m w).0 ≡ ok a) × ((f a (m w).1).0 ≡ ok b) × ((m >>= f) w ≡ f a (m w).1)
  unfolding ◌>>=◌
  bind_ok m f w b h = continue_ok (m w).0 f (m w).1 b h

  -- A sequence whose first part fails ends there.
  pub bind_err :
      (m : DbM A) (f : A → DbM B) (w : World) (e : Error)
      → (m w).0 ≡ err e
      → (m >>= f) w ≡ (err e, (m w).1)
  unfolding ◌>>=◌
  bind_err m f w e h = rw (h, continue)

pub Reply-cases {ℓ} :
    {A : Type ℓ} (r : Reply A) → ((a : A) × (r ≡ ok a)) ⊎ ((e : Error) × (r ≡ err e))
Reply-cases (ok a) = inl (a, refl)
Reply-cases (err e) = inr (e, refl)

-- The relation of the tables that only reading keeps.
abbrev pub Unchanged : Db → Db → Type 0
Unchanged a b = b ≡ a

pub unchanged : Preorder Unchanged
unchanged = record { same = λ a. refl; then_so = λ a b c h k. k ∙ h }

pub reply_inj {ℓ} : {A : Type ℓ} (a b : A) → ok a ≡ ok b → a ≡ b
reply_inj a b h = cc

-- A statement under a condition that answers `ok` had the condition.
pub guarded_ok {ℓ} :
    {A : Type ℓ} (test : Bool) (good bad : Reply A × Db) (a : A)
    → bad.0 ≡ err db_failed
    → (if test then good else bad).0 ≡ ok a
    → (good.0 ≡ ok a) × ((if test then good else bad) ≡ good)
guarded_ok test good bad a fails h = elim (Bool-cases test) [
  | inl holds ↦ rw holds (rw holds at h, refl)
  | inr misses ↦ cc (fails, rw misses at h)
]
