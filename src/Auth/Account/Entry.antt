-- ===== src/Auth/Account/Entry.antt =====
-- Who `Login` lets in.
use bully.Prelude.{
  Bool, Bool-cases, List, Option, String, [], ap, ap₂, false, inl, inr, map, nat_beq, none, refl,
  some, subst, sym, true, ℕ, ◌++◌, ◌==◌, ◌∙◌, ◌∷◌, ◌≡◌,
}
use bully.Auth.{device_label}
use bully.Auth.Account.{
  AuthResponse, RegisterRequest, Signing, answer_session, answer_token, entered, issue_token,
  open_session, select_user,
}
use bully.Auth.Account.Handlers.{after_user, after_verify, login}
use bully.Auth.Password.{Hashing, verify_password}
use bully.Db.{
  Call, Reply, Uuids, World, any_row, db_failed, err, first_row, invalid_policy, no_rows, ok,
  select, session_too_new,
}
use bully.Db.Calls.{reply_inj, statement_ok, with_uuid_ok}
use bully.Session.{create, insert_session}
use bully.Tables.{Db, SessionRow, UserRow}

-- A session that has just been opened.
abbrev pub new_session : ℕ → RegisterRequest → ℕ → ℕ → SessionRow
new_session u req id now = record {
  id = id;
  user_id = u;
  device_name = device_label req.device_name;
  platform = device_label req.platform;
  created_at = now;
  last_seen_at = now;
  revoked_at = none;
}

abbrev pub with_session : SessionRow → Db → Db
with_session s db = record db { sessions = db.sessions ++ s ∷ [] }

entered_inj : (a b : ℕ) (x y : AuthResponse) → entered a x ≡ entered b y → (a ≡ b) × (x ≡ y)
entered_inj a b x y h = (cc, cc)

answer_token_entered :
    (st : ℕ) (user_id username : String) (token : Option String) (status : ℕ) (resp : AuthResponse)
    → answer_token st user_id username token ≡ entered status resp
    → (st ≡ status)
      × (token ≡ some resp.token)
      × (user_id ≡ resp.user_id)
      × (username ≡ resp.username)
unfolding answer_token
answer_token_entered st user_id username none status resp h = cc
answer_token_entered st user_id username (some token) status resp h =
    let (code, body) = entered_inj st status _ resp h in
    (
      code,
      ap some (ap (λ (r : AuthResponse). r.token) body),
      ap (λ (r : AuthResponse). r.user_id) body,
      ap (λ (r : AuthResponse). r.username) body,
    )

answer_session_entered :
    (sign : Signing) (st : ℕ) (user_id username : String) (r : Reply String) (status : ℕ)
    (resp : AuthResponse)
    → answer_session sign st user_id username r ≡ entered status resp
    → (session_id : String) × (r ≡ ok session_id)
      × (answer_token st user_id username (issue_token sign user_id username session_id)
          ≡ entered status resp)
unfolding answer_session
answer_session_entered sign st user_id username (ok s) status resp h = (s, refl, h)
answer_session_entered sign st user_id username (err e) status resp h = cc

module _ (pg : Uuids) (hs : Hashing) (sign : Signing) (req : RegisterRequest) where
  after_verify_entered :
      (user_id : String) (v : Option Bool) (w : World) (status : ℕ) (resp : AuthResponse)
      → (after_verify pg sign req user_id v w).0 ≡ entered status resp
      → (v ≡ some true)
        × (after_verify pg sign req user_id v w
            ≡ open_session pg sign 200 req user_id req.username w)
  unfolding after_verify
  after_verify_entered user_id (some true) w status resp h = (refl, refl)
  after_verify_entered user_id (some false) w status resp h = cc
  after_verify_entered user_id none w status resp h = cc

  after_user_entered :
      (r : Reply (String × String)) (w : World) (status : ℕ) (resp : AuthResponse)
      → (after_user pg hs sign req r w).0 ≡ entered status resp
      → (user_id hash : String) × (r ≡ ok (user_id, hash))
        × (verify_password hs req.password hash ≡ some true)
        × (after_user pg hs sign req r w ≡ open_session pg sign 200 req user_id req.username w)
  unfolding after_user
  after_user_entered (ok (user_id, hash)) w status resp h =
      let (verified, opens) = after_verify_entered user_id _ w status resp h in
      (user_id, hash, refl, verified, opens)
  after_user_entered (err no_rows) w status resp h = cc
  after_user_entered (err db_failed) w status resp h = cc
  after_user_entered (err session_too_new) w status resp h = cc
  after_user_entered (err invalid_policy) w status resp h = cc

  -- A session that was opened stands in the tables.
  opened_session :
      (user_id : String) (w : World) (session_id : String)
      → (create pg user_id (device_label req.device_name) (device_label req.platform) w).0
        ≡ ok session_id
      → (u : ℕ) × (c : Call) × (cs : List Call) × (pg.parse user_id ≡ some u)
        × (w.calls ≡ c ∷ cs)
        × (session_id ≡ pg.print c.fresh)
        × (any_row (λ s. nat_beq s.id c.fresh) w.db.sessions ≡ false)
        × ((create pg user_id (device_label req.device_name) (device_label req.platform) w).1.db
            ≡ with_session (new_session u req c.fresh c.now) w.db)
  unfolding create insert_session
  opened_session user_id w session_id h =
      let stmt =
        insert_session pg user_id (device_label req.device_name) (device_label req.platform) in
      let (c, cs, calls, fc, row, after) = statement_ok stmt w session_id h in
      let (u, eu, hu, same) = with_uuid_ok pg user_id w.db _ session_id row in
      elim (Bool-cases (any_row (λ r. nat_beq r.id u) w.db.users)) [
        | inr unknown ↦ cc (rw unknown at hu)
        | inl known ↦ elim (Bool-cases (any_row (λ s. nat_beq s.id c.fresh) w.db.sessions)) [
          | inl taken ↦ cc (rw (known, taken) at hu)
          | inr free ↦ (
            u,
            c,
            cs,
            eu,
            calls,
            sym (reply_inj _ _ (rw (known, free) at hu)),
            free,
            ap (λ x. x.db) after ∙ ap (λ r. r.1) same ∙ rw (known, free) refl,
          )
        ]
      ]

  opened_entry :
      (user_id : String) (w : World) (status : ℕ) (resp : AuthResponse)
      → (open_session pg sign 200 req user_id req.username w).0 ≡ entered status resp
      → (u : ℕ) × (c : Call) × (cs : List Call) × (pg.parse user_id ≡ some u)
        × (w.calls ≡ c ∷ cs)
        × (any_row (λ s. nat_beq s.id c.fresh) w.db.sessions ≡ false)
        × ((open_session pg sign 200 req user_id req.username w).1.db
            ≡ with_session (new_session u req c.fresh c.now) w.db)
        × (status ≡ 200)
        × (sign
              (record { user_id = user_id; username = req.username; session_id = pg.print c.fresh })
            ≡ some resp.token)
        × (user_id ≡ resp.user_id)
        × (req.username ≡ resp.username)
  unfolding open_session issue_token
  opened_entry user_id w status resp h =
      let (session_id, made, tok) =
        answer_session_entered sign 200 user_id req.username _ status resp h in
      let (u, c, cs, eu, calls, sid, free, grown) = opened_session user_id w session_id made in
      let (code, signed, id, name) =
        answer_token_entered 200 user_id req.username _ status resp tok in
      (
        u,
        c,
        cs,
        eu,
        calls,
        free,
        grown,
        sym code,
        ap (λ x. sign (record { user_id = user_id; username = req.username; session_id = x }))
              (sym sid)
            ∙ signed,
        id,
        name,
      )

first_user :
    (pg : Uuids) (rows : List UserRow) (user_id hash : String)
    → first_row {A = String × String} (map (λ r. (pg.print r.id, r.password_hash)) rows)
      ≡ ok (user_id, hash)
    → (r : UserRow) × (rest : List UserRow) × (rows ≡ r ∷ rest)
      × (pg.print r.id ≡ user_id)
      × (r.password_hash ≡ hash)
unfolding first_row
first_user pg [] user_id hash h = cc
first_user pg (r ∷ rest) user_id hash h =
    let same = reply_inj _ _ h in (r, rest, refl, ap (λ p. p.0) same, ap (λ p. p.1) same)

same_user : (a b : ℕ) → some a ≡ some b → a ≡ b
same_user a b h = cc

-- `Login` lets in only who has the password: if it answers with a token, then its first call found a
-- user of that name whose stored text the password fits, and the token is signed for the claims of that
-- user and of a new session, which is all that has changed in the tables.
pub login_sound :
    (pg : Uuids) (hs : Hashing) (sign : Signing) (req : RegisterRequest) (w : World) (status : ℕ)
    (resp : AuthResponse)
    → (login pg hs sign (some req) w).0 ≡ entered status resp
    → (r : UserRow) × (rest : List UserRow) × (first second : Call) × (cs : List Call) × (w.calls
        ≡ first ∷ second ∷ cs)
      × (select (λ q. q.username == req.username) w.db.users ≡ r ∷ rest)
      × (verify_password hs req.password r.password_hash ≡ some true)
      × (status ≡ 200)
      × (sign (record {
        user_id = pg.print r.id;
        username = req.username;
        session_id = pg.print second.fresh;
      })
          ≡ some resp.token)
      × (resp.user_id ≡ pg.print r.id)
      × (any_row (λ s. nat_beq s.id second.fresh) w.db.sessions ≡ false)
      × ((login pg hs sign (some req) w).1.db
          ≡ with_session (new_session r.id req second.fresh second.now) w.db)
unfolding login select_user first_row
login_sound pg hs sign req w status resp h =
    let (user_id, hash, found, verified, opens) =
      after_user_entered pg hs sign req _ _ status resp h in
    let (c, cs, calls, fc, row, after) = statement_ok (select_user pg req.username) w _ found in
    let (u, d, ds, eu, calls_d, free, grown, code, signed, id, name) =
      opened_entry pg hs sign req user_id _ status resp (rw opens at h) in
    let (r, rest, chosen, same_id, same_hash) = first_user pg _ user_id hash row in
    let same_db = ap (λ x. x.db) after in
    let owner = same_user u r.id (sym eu ∙ ap pg.parse (sym same_id) ∙ pg.parse-print r.id) in
    (
      r,
      rest,
      c,
      d,
      ds,
      calls ∙ ap (λ rest. c ∷ rest) (sym (ap (λ x. x.calls) after) ∙ calls_d),
      chosen,
      subst (λ x. verify_password hs req.password x ≡ some true) (sym same_hash) verified,
      code,
      ap
            (λ x.
              sign (record { user_id = x; username = req.username; session_id = pg.print d.fresh }))
            same_id
          ∙ signed,
      sym id ∙ sym same_id,
      subst (λ (x : Db). any_row (λ s. nat_beq s.id d.fresh) x.sessions ≡ false) same_db free,
      ap (λ x. x.1.db) opens
          ∙ grown
          ∙ ap₂ (λ x y. with_session (new_session x req d.fresh d.now) y) owner same_db,
    )
