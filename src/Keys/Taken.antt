-- ===== src/Keys/Taken.antt =====
-- The transaction of `Bundle`, whatever happens to its calls.
use bully.Prelude.{
  Bool, List, Option, String, [], ap, false, if◌then◌else◌, inl, inr, nat_beq, none, refl, some,
  subst, sym, true, ℕ, ◌&&◌, ◌==◌, ◌∙◌, ◌∷◌, ◌≡◌, ◌≢◌, ◌⊎◌,
}
use bully.Auth.{write_err}
use bully.Db.{
  Call, Error, Fate, Reply, Uuids, World, answer, db_failed, done, err, lost, no_rows, ok, refused,
  rotate, select, statement,
}
use bully.Db.Calls.{statement_done, with_uuid-some}
use bully.Db.Tx.{commit_calls, finish, settle}
use bully.Keys.{OneTimeKey}
use bully.Keys.Bundling.{
  Bundle, bundle_begun, bundled, commit_quietly, failed, mark_used, scan_signed, select_one_time,
  take_found, take_one_time,
}
use bully.Keys.Settled.{found_row, handed, mark}
use bully.Tables.{Db, PrekeyRow}

-- One of the first three calls is not done, or not made.
abbrev pub ThreeNotDone : List Call → Type 0
ThreeNotDone [] = Unit
ThreeNotDone (a ∷ []) = Unit
ThreeNotDone (a ∷ b ∷ []) = Unit
ThreeNotDone (a ∷ b ∷ c ∷ cs) = (a.fate ≢ done) ⊎ ((b.fate ≢ done) ⊎ (c.fate ≢ done))

abbrev pub is_done : Fate → Bool
is_done refused = false
is_done done = true
is_done lost = false

abbrev pub reaches : Fate → Bool
reaches refused = false
reaches done = true
reaches lost = true

-- Of the calls after the third, the UPDATE is done and the commit reaches the database.
abbrev pub was_committed : List Call → Bool
was_committed [] = false
was_committed (d ∷ []) = false
was_committed (d ∷ e ∷ cs) = is_done d.fate && reaches e.fate

Fate-cases : (f : Fate) → (f ≡ done) ⊎ (((f ≢ done) × (f ≡ refused)) ⊎ ((f ≢ done) × (f ≡ lost)))
Fate-cases done = inl refl
Fate-cases refused = inr (inl (λ h. cc, refl))
Fate-cases lost = inr (inr (λ h. cc, refl))

-- A statement that changes nothing and is not done gives an error, and changes nothing.
pub missed {ℓ} :
    {A : Type ℓ} (stmt : Call → Db → Reply A × Db) (db : Db) (c : Call) (cs : List Call)
    → ((stmt c db).1 ≡ db)
    → c.fate ≢ done
    → statement stmt (record { db = db; calls = c ∷ cs })
      ≡ (err db_failed, record { db = db; calls = cs })
unfolding statement answer
missed {A} stmt db c cs reads h =
    let given = λ (f : Fate). answer {A = A} f (stmt c db) db in
    elim (Fate-cases c.fate) [
      | inl d ↦ absurd (h d)
      | inr (inl (n, e)) ↦ ap (λ f. ((given f).0, record { db = (given f).1; calls = cs })) e
      | inr (inr (n, e)) ↦
          ap (λ f. ((given f).0, record { db = (given f).1; calls = cs })) e
          ∙ ap (λ d. (err db_failed, record { db = d; calls = cs })) reads
    ]

second_missed : (a b : Call) (cs : List Call) → b.fate ≢ done → ThreeNotDone (a ∷ b ∷ cs)
second_missed a b [] n = tt
second_missed a b (c ∷ cs) n = inr (inl n)

pub first_missed : (a : Call) (cs : List Call) → a.fate ≢ done → ThreeNotDone (a ∷ cs)
first_missed a [] n = tt
first_missed a (b ∷ []) n = tt
first_missed a (b ∷ c ∷ cs) n = inl n

pub done_or_not : (f : Fate) → (f ≡ done) ⊎ (f ≢ done)
done_or_not f = elim (Fate-cases f) [
  | inl d ↦ inl d
  | inr (inl (n, e)) ↦ inr n
  | inr (inr (n, e)) ↦ inr n
]

module _ (pg : Uuids) (locked : PrekeyRow → Bool) (target : String) (db : Db) where
  -- The signed rows of a user, in the order in which the database finds them.
  abbrev pub signed_rows : ℕ → ℕ → List PrekeyRow
  signed_rows u n = rotate n (select (λ r. nat_beq r.user_id u && r.is_signed) db.prekeys)

  -- Why no one-time key is handed out.
  abbrev pub WhyNone : List Call → Type 0
  WhyNone calls =
      ((target == "") ≡ true)
      ⊎ ((pg.parse target ≡ none)
          ⊎ (ThreeNotDone calls
              ⊎ ((u : ℕ) × (pg.parse target ≡ some u)
                  × (((a : Call) × (cs : List Call) × (e : Error) × (calls ≡ a ∷ cs)
                        × (scan_signed (signed_rows u a.pick) ≡ err e)
                        × (e ≢ no_rows))
                      ⊎ ((e : Error) × (found_row pg locked target u db ≡ err e))))))

  abbrev pub IsMarked : ℕ → PrekeyRow → List Call → Db → Type 0
  IsMarked u row rest new = new ≡ (if was_committed rest then mark u row.key_id db else db)

  abbrev pub BundleEnds : List Call → Bundle × World → Type 0
  BundleEnds calls t =
      ((handed pg target t.0 ≡ []) × (t.1.db ≡ db) × WhyNone calls)
      ⊎ ((u : ℕ) × (row : PrekeyRow) × (a b c : Call) × (rest : List Call) × (calls
            ≡ a ∷ b ∷ c ∷ rest)
          × ((a.fate ≡ done) × (b.fate ≡ done) × (c.fate ≡ done))
          × (pg.parse target ≡ some u)
          × (found_row pg locked target u db ≡ ok row)
          × (handed pg target t.0 ≡ (u, row.key_id) ∷ [])
          × IsMarked u row rest t.1.db)

  module _ (u : ℕ) (eu : pg.parse target ≡ some u) where
    key-IsMarked :
        (row : PrekeyRow) (rest : List Call)
        → IsMarked u row rest
            (take_found pg target db (ok row) (record { db = db; calls = rest })).1.db
    unfolding take_found mark_used commit_quietly finish commit_calls settle statement answer
    key-IsMarked row [] = refl
    key-IsMarked row (d ∷ []) = elim (Fate-cases d.fate) [
      | inl e ↦ rw (e, with_uuid-some pg target db _ u eu) refl
      | inr (inl (n, e)) ↦ rw e refl
      | inr (inr (n, e)) ↦ rw e refl
    ]
    key-IsMarked row (d ∷ e ∷ cs) = elim (Fate-cases d.fate) [
      | inr (inl (n, ed)) ↦ rw ed refl
      | inr (inr (n, ed)) ↦ rw ed refl
      | inl ed ↦ elim (Fate-cases e.fate) [
        | inl ee ↦ rw (ed, ee, with_uuid-some pg target db _ u eu) refl
        | inr (inl (n, ee)) ↦ rw (ed, ee, with_uuid-some pg target db _ u eu) refl
        | inr (inr (n, ee)) ↦ rw (ed, ee, with_uuid-some pg target db _ u eu) refl
      ]
    ]

    abbrev answered_with : String × String → Option OneTimeKey × World → Bundle × World
    answered_with signed t = (
      bundled (record { signed_public_key = signed.0; signature = signed.1; one_time = t.0 }),
      t.1,
    )

    read_ends :
        (signed : String × String) (a b c : Call) (rest : List Call) (r : Reply PrekeyRow)
        → (a.fate ≡ done) × (b.fate ≡ done) × (c.fate ≡ done)
        → found_row pg locked target u db ≡ r
        → BundleEnds
            (a ∷ b ∷ c ∷ rest)
            (answered_with signed (take_found pg target db r (record { db = db; calls = rest })))
    unfolding take_found
    read_ends signed a b c rest (err e) three gone =
        inl (rw eu refl, refl, inr (inr (inr (u, eu, inr (e, gone)))))
    read_ends signed a b c rest (ok row) three there =
        inr (u, row, a, b, c, rest, refl, three, eu, there, rw eu refl, key-IsMarked row rest)

    no_read :
        (signed : String × String) (calls left : List Call)
        → ThreeNotDone calls
        → BundleEnds calls (
            answered_with signed
              (take_found pg target db (err db_failed) (record { db = db; calls = left })))
    unfolding take_found
    no_read signed calls left why = inl (rw eu refl, refl, inr (inr (inl why)))

    one_time_read :
        (c : Call) → select_one_time pg locked target c db ≡ (found_row pg locked target u db, db)
    unfolding select_one_time
    one_time_read c = with_uuid-some pg target db _ u eu

    taken_ends :
        (signed : String × String) (a b : Call) (cs : List Call)
        → a.fate ≡ done
        → b.fate ≡ done
        → BundleEnds
            (a ∷ b ∷ cs)
            (answered_with signed (take_one_time pg locked target (record { db = db; calls = cs })))
    unfolding take_one_time statement
    taken_ends signed a b [] fa fb = no_read signed (a ∷ b ∷ []) [] tt
    taken_ends signed a b (c ∷ rest) fa fb =
        let stmt = select_one_time pg locked target in
        let named : stmt c db ≡ (found_row pg locked target u db, db) = one_time_read c in
        elim (done_or_not c.fate) [
          | inl fc ↦
              subst
                (λ (x : Reply PrekeyRow × World).
                  BundleEnds (a ∷ b ∷ c ∷ rest)
                    (answered_with signed (take_found pg target db x.0 x.1)))
                (sym (
                  statement_done stmt db c rest fc
                  ∙ ap (λ (x : Reply PrekeyRow × Db). (x.0, record { db = x.1; calls = rest }))
                      named))
                (read_ends signed a b c rest _ (fa, fb, fc) refl)
          | inr n ↦
              subst
                (λ (x : Reply PrekeyRow × World).
                  BundleEnds (a ∷ b ∷ c ∷ rest)
                    (answered_with signed (take_found pg target db x.0 x.1)))
                (sym (missed stmt db c rest (ap (λ (x : Reply PrekeyRow × Db). x.1) named) n))
                (no_read signed (a ∷ b ∷ c ∷ rest) rest (inr (inr n)))
        ]

    begun_done :
        (signed : String × String) (b : Call) (cs : List Call)
        → b.fate ≡ done
        → bundle_begun pg locked target signed db (b ∷ cs)
          ≡ answered_with signed (take_one_time pg locked target (record { db = db; calls = cs }))
    unfolding bundle_begun
    begun_done signed b cs h = rw h refl

    begun_missed :
        (signed : String × String) (b : Call) (cs : List Call)
        → b.fate ≢ done
        → bundle_begun pg locked target signed db (b ∷ cs)
          ≡ (failed (write_err 500 "db error"), record { db = db; calls = cs })
    unfolding bundle_begun
    begun_missed signed b cs h = elim (Fate-cases b.fate) [
      | inl d ↦ absurd (h d)
      | inr (inl (n, e)) ↦ rw e refl
      | inr (inr (n, e)) ↦ rw e refl
    ]

    pub begun_ends :
        (signed : String × String) (a : Call) (cs : List Call)
        → a.fate ≡ done
        → BundleEnds (a ∷ cs) (bundle_begun pg locked target signed db cs)
    unfolding bundle_begun
    begun_ends signed a [] fa = inl (refl, refl, inr (inr (inl tt)))
    begun_ends signed a (b ∷ cs) fa = elim (done_or_not b.fate) [
      | inl fb ↦
          subst (BundleEnds (a ∷ b ∷ cs)) (sym (begun_done signed b cs fb))
            (taken_ends signed a b cs fa fb)
      | inr n ↦
          subst (BundleEnds (a ∷ b ∷ cs)) (sym (begun_missed signed b cs n))
            (inl (refl, refl, inr (inr (inl (second_missed a b cs n)))))
    ]
