-- ===== src/Keys/Settled.antt =====
-- What `Bundle` gives and changes when its calls are done.
use bully.Prelude.{
  All, Bool, Bool-cases, List, Option, Option-cases, String, [], arith, inl, inr, length, none, not,
  refl, some, true, ℕ, ◌&&◌, ◌==◌, ◌∷◌, ◌≡◌, ◌≤◌, ◌⊎◌,
}
use bully.Db.{
  Call, Reply, Uuids, World, db_failed, done, err, invalid_policy, no_rows, ok, select,
  session_too_new, update_where,
}
use bully.Db.Calls.{statement_done, with_uuid-none, with_uuid-some}
use bully.Db.Tx.{commit_calls, finish, settle}
use bully.Keys.{OneTimeKey, is_key}
use bully.Keys.Bundling.{
  Bundle, bundle, bundle_begun, bundle_signed, bundled, commit_quietly, failed, is_free, mark_used,
  oldest_of, select_one_time, select_signed, take_found, take_one_time,
}
use bully.Prelude.Int.{ℤ}
use bully.Tables.{Db, PrekeyRow}

abbrev numbered : Option ℕ → Option OneTimeKey → List (ℕ × ℤ)
numbered none k = []
numbered (some u) none = []
numbered (some u) (some k) = (u, k.key_id) ∷ []

-- The one-time key of an answer, with its user.
abbrev pub handed : Uuids → String → Bundle → List (ℕ × ℤ)
handed pg target (failed r) = []
handed pg target (bundled r) = numbered (pg.parse target) r.one_time

abbrev pub AllDone : List Call → Type 0
AllDone = All (λ c. c.fate ≡ done)

-- A `Bundle` whose calls are all done; it makes five at most.
abbrev pub IsSettled : List Call → Type 0
IsSettled calls = AllDone calls × (5 ≤ length calls)

abbrev pub mark : ℕ → ℤ → Db → Db
mark u k db = record db {
  prekeys = update_where (is_key u k) (λ r. record r { used = true }) db.prekeys;
}

module _ (pg : Uuids) (locked : PrekeyRow → Bool) (target : String) where
  abbrev pub found_row : ℕ → Db → Reply PrekeyRow
  found_row u db = oldest_of (select (λ r. is_free u r && not (locked r)) db.prekeys)

  -- What the transaction of `Bundle` gives: no key and no change, or the row that it found, marked.
  abbrev Taken : ℕ → Db → Option OneTimeKey × World → Type 0
  Taken u db t =
      ((t.0 ≡ none) × (t.1.db ≡ db))
      ⊎ ((row : PrekeyRow) × (found_row u db ≡ ok row)
          × (t.0 ≡ some (record { key_id = row.key_id; public_key = row.public_key }))
          × (t.1.db ≡ mark u row.key_id db))

  found_Taken :
      (u : ℕ) (db : Db) (d e : Call) (cs : List Call) (row : PrekeyRow)
      → pg.parse target ≡ some u
      → d.fate ≡ done
      → e.fate ≡ done
      → found_row u db ≡ ok row
      → Taken u db (take_found pg target db (ok row) (record { db = db; calls = d ∷ e ∷ cs }))
  unfolding take_found mark_used commit_quietly finish commit_calls settle
  found_Taken u db d e cs row eu fd fe found =
      rw
        (
          statement_done (mark_used pg target row.key_id) db d (e ∷ cs) fd,
          with_uuid-some pg target db _ u eu,
          fe,
        )
        (inr (row, found, refl, refl))

  read_Taken :
      (u : ℕ) (db : Db) (d e : Call) (cs : List Call) (r : Reply PrekeyRow)
      → pg.parse target ≡ some u
      → d.fate ≡ done
      → e.fate ≡ done
      → found_row u db ≡ r
      → Taken u db (take_found pg target db r (record { db = db; calls = d ∷ e ∷ cs }))
  unfolding take_found
  read_Taken u db d e cs (ok row) eu fd fe found = found_Taken u db d e cs row eu fd fe found
  read_Taken u db d e cs (err x) eu fd fe found = inl (refl, refl)

  take_Taken :
      (u : ℕ) (db : Db) (c d e : Call) (cs : List Call)
      → pg.parse target ≡ some u
      → c.fate ≡ done
      → d.fate ≡ done
      → e.fate ≡ done
      → Taken u db (take_one_time pg locked target (record { db = db; calls = c ∷ d ∷ e ∷ cs }))
  unfolding take_one_time take_found select_one_time
  take_Taken u db c d e cs eu fc fd fe =
      rw
        (
          statement_done (select_one_time pg locked target) db c (d ∷ e ∷ cs) fc,
          with_uuid-some pg target db _ u eu,
        )
        (read_Taken u db d e cs _ eu fd fe refl)

  -- The same of a whole answer.
  abbrev pub Given : Db → Bundle × World → Type 0
  Given db b =
      ((handed pg target b.0 ≡ []) × (b.1.db ≡ db))
      ⊎ ((u : ℕ) × (row : PrekeyRow) × (found_row u db ≡ ok row)
          × (handed pg target b.0 ≡ (u, row.key_id) ∷ [])
          × (b.1.db ≡ mark u row.key_id db))

  begun_Given :
      (u : ℕ) (signed : String × String) (db : Db) (b c d e : Call) (cs : List Call)
      → pg.parse target ≡ some u
      → b.fate ≡ done
      → c.fate ≡ done
      → d.fate ≡ done
      → e.fate ≡ done
      → Given db (bundle_begun pg locked target signed db (b ∷ c ∷ d ∷ e ∷ cs))
  unfolding bundle_begun
  begun_Given u signed db b c d e cs eu fb fc fd fe =
      rw (fb, eu)
        (elim (take_Taken u db c d e cs eu fc fd fe) [
          | inl (no_key, same) ↦ inl (rw no_key, same)
          | inr (row, found, key, marked) ↦ inr (u, row, found, rw key, marked)
        ])

  signed_Given :
      (u : ℕ) (r : Reply (String × String)) (db : Db) (b c d e : Call) (cs : List Call)
      → pg.parse target ≡ some u
      → b.fate ≡ done
      → c.fate ≡ done
      → d.fate ≡ done
      → e.fate ≡ done
      → Given db (bundle_signed pg locked target r (record { db = db; calls = b ∷ c ∷ d ∷ e ∷ cs }))
  unfolding bundle_signed
  signed_Given u (ok signed) db b c d e cs eu fb fc fd fe =
      begun_Given u signed db b c d e cs eu fb fc fd fe
  signed_Given u (err no_rows) db b c d e cs eu fb fc fd fe =
      begun_Given u ("", "") db b c d e cs eu fb fc fd fe
  signed_Given u (err db_failed) db b c d e cs eu fb fc fd fe = inl (refl, refl)
  signed_Given u (err session_too_new) db b c d e cs eu fb fc fd fe = inl (refl, refl)
  signed_Given u (err invalid_policy) db b c d e cs eu fb fc fd fe = inl (refl, refl)

  pub bundle-Given :
      (db : Db) (calls : List Call)
      → IsSettled calls
      → Given db (bundle pg locked target (record { db = db; calls = calls }))
  unfolding bundle select_signed bundle_signed
  bundle-Given db [] h = absurd (omega arith)
  bundle-Given db (a ∷ []) h = absurd (omega arith)
  bundle-Given db (a ∷ b ∷ []) h = absurd (omega arith)
  bundle-Given db (a ∷ b ∷ c ∷ []) h = absurd (omega arith)
  bundle-Given db (a ∷ b ∷ c ∷ d ∷ []) h = absurd (omega arith)
  bundle-Given db (a ∷ b ∷ c ∷ d ∷ e ∷ cs) ((fa, (fb, (fc, (fd, (fe, rest))))), n) =
      elim (Bool-cases (target == "")) [
        | inl no_target ↦ rw no_target (inl (refl, refl))
        | inr some_target ↦ elim (Option-cases (pg.parse target)) [
          | inl no_uuid ↦
              rw
                (
                  some_target,
                  statement_done (select_signed pg target) db a (b ∷ c ∷ d ∷ e ∷ cs) fa,
                  with_uuid-none pg target db _ no_uuid,
                )
                (inl (refl, refl))
          | inr (u, eu) ↦
              rw
                (
                  some_target,
                  statement_done (select_signed pg target) db a (b ∷ c ∷ d ∷ e ∷ cs) fa,
                  with_uuid-some pg target db _ u eu,
                )
                (signed_Given u _ db b c d e cs eu fb fc fd fe)
        ]
      ]
