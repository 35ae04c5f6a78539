-- ===== src/Session/Validity.antt =====
-- When `IsValid` says yes.
use bully.Prelude.{
  Bool, List, Option, String, [], ap, arith, false, map, not, refl, some, sym, true, ℕ, ◌&&◌, ◌∙◌,
  ◌∷◌, ◌≡◌,
}
use bully.Db.{
  Call, Reply, Uuids, World, db_failed, done, err, first_row, invalid_policy, no_rows, ok, select,
  session_too_new, ◌>>=◌,
}
use bully.Db.Calls.{bind_ok, reply_inj, statement_done, statement_ok, with_uuid-some, with_uuid_ok}
use bully.Db.Rows.{select-head, select-update_where}
use bully.Session.{
  inactivity_of, is_inactive, is_null, is_session, is_valid, is_valid_answer, revoke_at,
  sweep_inactive, sweep_rows, touch,
}
use bully.Tables.{Db, SessionRow}

-- A row that is neither revoked nor inactive at an instant.
abbrev pub is_live : Option ℕ → ℕ → SessionRow → Bool
is_live seconds now r = is_null r.revoked_at && not (is_inactive seconds now r)

abbrev pub head_is_live : Option ℕ → ℕ → List SessionRow → Bool
head_is_live seconds now [] = false
head_is_live seconds now (r ∷ rows) = is_live seconds now r

-- The tables say that the session is the user's, not revoked, and was seen recently enough.
unfoldable pub verdict : ℕ → ℕ → ℕ → Db → Bool
verdict s u now db =
    head_is_live (inactivity_of u db.users) now (select (is_session s u) db.sessions)

revoked_head :
    (s u : ℕ) (seconds : Option ℕ) (now : ℕ) (rows selected : List SessionRow)
    → select (is_session s u) rows ≡ selected
    → is_valid_answer
        (first_row (map (λ r. not (is_null r.revoked_at)) (sweep_rows u seconds now selected)))
      ≡ ok (head_is_live seconds now selected)
unfolding is_valid_answer first_row sweep_rows
revoked_head s u seconds now rows [] e = refl
revoked_head s u seconds now rows (r ∷ selected) e =
    ground (arith, select-head (is_session s u) rows r selected e)

module _ (pg : Uuids) (session_id user_id : String) (s u : ℕ) (es : pg.parse session_id ≡ some s)
    (eu : pg.parse user_id ≡ some u) where
  sweep_done :
      (db : Db) (c : Call) (cs : List Call)
      → c.fate ≡ done
      → sweep_inactive pg user_id (record { db = db; calls = c ∷ cs }) ≡ (
        ok tt,
        record {
          db = record db { sessions = sweep_rows u (inactivity_of u db.users) c.now db.sessions };
          calls = cs;
        },
      )
  unfolding sweep_inactive
  sweep_done db c cs fc =
      statement_done _ db c cs fc
      ∙ ap (λ r. (r.0, record { db = r.1; calls = cs })) (with_uuid-some pg user_id db _ u eu)

  touch_some :
      (db : Db) (c : Call)
      → (touch pg session_id user_id c db).0
        ≡ first_row (map (λ r. not (is_null r.revoked_at)) (select (is_session s u) db.sessions))
  unfolding touch
  touch_some db c =
      ap (λ r. r.0) (with_uuid-some pg session_id db _ s es ∙ with_uuid-some pg user_id db _ u eu)

  swept_select :
      (db : Db) (now : ℕ)
      → select (is_session s u) (sweep_rows u (inactivity_of u db.users) now db.sessions)
        ≡ sweep_rows u (inactivity_of u db.users) now (select (is_session s u) db.sessions)
  unfolding sweep_rows
  swept_select db now =
      select-update_where (is_session s u) _ (revoke_at now) db.sessions (λ r. refl)

  -- For two texts that are UUIDs, and with both calls done, `IsValid` answers what the tables say
  -- at the time of its first call: whether the session is the user's, not revoked and not inactive.
  pub is_valid-verdict :
      (db : Db) (c d : Call) (cs : List Call)
      → c.fate ≡ done
      → d.fate ≡ done
      → (is_valid pg session_id user_id (record { db = db; calls = c ∷ d ∷ cs })).0
        ≡ ok (verdict s u c.now db)
  unfolding is_valid verdict ◌>>=◌
  is_valid-verdict db c d cs fc fd =
      rw
        (
          sweep_done db c (d ∷ cs) fc,
          statement_done (touch pg session_id user_id) _ d cs fd,
          touch_some _ d,
          swept_select db c.now,
        )
        (revoked_head s u (inactivity_of u db.users) c.now db.sessions
          (select (is_session s u) db.sessions) refl)

answer_true : (r : Reply Bool) → is_valid_answer r ≡ ok true → r ≡ ok false
unfolding is_valid_answer
answer_true (ok true) h = cc
answer_true (ok false) h = refl
answer_true (err no_rows) h = cc
answer_true (err db_failed) h = cc
answer_true (err session_too_new) h = cc
answer_true (err invalid_policy) h = cc

-- `IsValid` fails closed: it says yes only if the two texts are UUIDs, both of its calls were done, and
-- at the time of the first the tables had the session as the user's, not revoked and not inactive.
pub is_valid_sound :
    (pg : Uuids) (session_id user_id : String) (w : World)
    → (is_valid pg session_id user_id w).0 ≡ ok true
    → (s u : ℕ) × (c d : Call) × (cs : List Call) × (pg.parse session_id ≡ some s)
      × (pg.parse user_id ≡ some u)
      × (w.calls ≡ c ∷ d ∷ cs)
      × (c.fate ≡ done)
      × (d.fate ≡ done)
      × (verdict s u c.now w.db ≡ true)
unfolding is_valid sweep_inactive touch
is_valid_sound pg session_id user_id w h =
    let (a, h1, h2, same) = bind_ok (sweep_inactive pg user_id) _ w true h in
    let (c, cs, calls_c, fc, hc, after_c) = statement_ok _ w tt h1 in
    let (u, eu, hu, same_u) = with_uuid_ok pg user_id w.db _ tt hc in
    let (d, ds, calls_d, fd, hd, after_d) =
      statement_ok (touch pg session_id user_id) (sweep_inactive pg user_id w).1 false
        (answer_true _ h2) in
    let (s, es, hs, same_s) = with_uuid_ok pg session_id _ _ false hd in
    let calls : w.calls ≡ c ∷ d ∷ ds =
      calls_c ∙ ap (◌∷◌ c) (sym (ap (λ x. x.calls) after_c) ∙ calls_d) in
    let yes_here : ok (verdict s u c.now w.db) ≡ ok true =
      sym (is_valid-verdict pg session_id user_id s u es eu w.db c d ds fc fd)
      ∙ ap (λ cs. (is_valid pg session_id user_id (record { db = w.db; calls = cs })).0) (sym calls)
      ∙ h in
    (s, u, c, d, ds, es, eu, calls, fc, fd, reply_inj _ _ yes_here)
