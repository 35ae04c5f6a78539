-- ===== src/Db/Committed.antt =====
-- The ways in which a transaction ends: nothing has happened, or the whole of it.
use bully.Prelude.{List, [], ap, inl, inr, refl, sym, ◌∙◌, ◌∷◌, ◌≡◌, ◌⊎◌}
use bully.Db.{Call, DbM, Error, Fate, Reply, World, db_failed, done, err, lost, ok, refused}
use bully.Db.Tx.{begin, commit_calls, finish, settle, settled, transaction, transaction_calls}
use bully.Tables.{Db}

module _ {ℓ} {A : Type ℓ} where
  -- An answer of the program that arrived, or an error in its place.
  abbrev pub Arrives : A → Reply A → Type ℓ
  Arrives a r = (r ≡ ok a) ⊎ ((e : Error) × (r ≡ err e))

  -- An error and no change, or the tables that the program left.
  abbrev pub AllOrNothing : DbM A → World → Reply A × World → Type ℓ
  AllOrNothing m w t =
      ((e : Error) × (t.0 ≡ err e) × (t.1.db ≡ w.db))
      ⊎ ((cs : List Call) × (a : A) × ((m (record { db = w.db; calls = cs })).0 ≡ ok a)
          × (t.1.db ≡ (m (record { db = w.db; calls = cs })).1.db)
          × Arrives a t.0)

  calls_end :
      (a : A) (old new : Db) (calls : List Call)
      → let t = commit_calls a old new calls in
        ((e : Error) × (t.0 ≡ err e) × (t.1.db ≡ old)) ⊎ ((t.1.db ≡ new) × Arrives a t.0)
  unfolding commit_calls settle settled
  calls_end a old new [] = inl (db_failed, refl, refl)
  calls_end a old new (c ∷ cs) = of_fate c.fate
    where
      of_fate :
          (fate : Fate)
          → ((e : Error) × (settled fate a ≡ err e) × (settle fate old new ≡ old))
            ⊎ ((settle fate old new ≡ new) × Arrives a (settled fate a))
      of_fate refused = inl (db_failed, refl, refl)
      of_fate done = inr (refl, inl refl)
      of_fate lost = inr (refl, inr (db_failed, refl))

  finish_end :
      (m : DbM A) (w : World) (cs : List Call) (r : Reply A) (after : World)
      → m (record { db = w.db; calls = cs }) ≡ (r, after)
      → AllOrNothing m w (finish w.db r after)
  unfolding finish
  finish_end m w cs (err e) after same = inl (e, refl, refl)
  finish_end m w cs (ok a) after same = elim (calls_end a w.db after.db after.calls) [
    | inl nothing_done ↦ inl nothing_done
    | inr (all_done, arrives) ↦
        inr (cs, a, ap (λ p. p.0) same, all_done ∙ sym (ap (λ p. p.1.db) same), arrives)
  ]

  begin_end :
      (m : DbM A) (w : World) (fate : Fate) (cs : List Call)
      → AllOrNothing m w (begin fate m (record { db = w.db; calls = cs }))
  unfolding begin
  begin_end m w refused cs = inl (db_failed, refl, refl)
  begin_end m w lost cs = inl (db_failed, refl, refl)
  begin_end m w done cs = finish_end m w cs _ _ refl

  transaction_end :
      (m : DbM A) (w : World) (calls : List Call)
      → AllOrNothing m w (transaction_calls m w.db calls)
  unfolding transaction_calls
  transaction_end m w [] = inl (db_failed, refl, refl)
  transaction_end m w (c ∷ cs) = begin_end m w c.fate cs

  pub transaction-AllOrNothing : (m : DbM A) (w : World) → AllOrNothing m w (transaction m w)
  unfolding transaction
  transaction-AllOrNothing m w = transaction_end m w w.calls
