-- ===== src/Auth/Account/Trip.antt =====
-- From `Login` to the middleware.
use Prim.Native.String.{slice, len}
use Prim.Native.String
use text.Mathlib.TextPositions.{starts_with-append, slice-append_right, len-append}
use bully.Prelude.{
  List, String, [], ap, ap₂, arith, false, nat_beq, refl, some, subst, sym, true, ℕ, ◌*◌, ◌++◌, ◌+◌,
  ◌∙◌, ◌∷◌, ◌≡◌, ◌≤◌,
}
use bully.Auth.{Claims, Tokens, check_token, check_validity, middleware, passed}
use bully.Auth.Account.{AuthResponse, RegisterRequest, Signing, entered}
use bully.Auth.Account.Entry.{login_sound, new_session, with_session}
use bully.Auth.Account.Handlers.{login}
use bully.Auth.Password.{Hashing}
use bully.Db.{Call, Uuids, any_row, done, second, select}
use bully.Session.{inactivity_of, is_inactive, is_session}
use bully.Session.Validity.{is_valid-verdict, verdict}
use bully.Tables.{Db, SessionRow}

select_last :
    (s u : ℕ) (rows : List SessionRow) (row : SessionRow)
    → any_row (λ r. nat_beq r.id s) rows ≡ false
    → is_session s u row ≡ true
    → select (is_session s u) (rows ++ row ∷ []) ≡ row ∷ []
unfolding select any_row
select_last s u [] row h k = rw k refl
select_last s u (r ∷ rows) row h k = ground (arith, select_last s u rows row)

-- The new session is live as long as the policy of its user allows.
new_live :
    (u id seen now seconds : ℕ) (req : RegisterRequest) (db : Db)
    → any_row (λ r. nat_beq r.id id) db.sessions ≡ false
    → inactivity_of u db.users ≡ some seconds
    → now ≤ seen + seconds * second
    → verdict id u now (with_session (new_session u req id seen) db) ≡ true
unfolding verdict is_inactive
new_live u id seen now seconds req db free policy timely =
    rw (select_last id u db.sessions (new_session u req id seen) free (ground arith), policy)
      (ground arith)

-- The header of a request with a token.
abbrev pub bearer : String → String
bearer token = String.◌++◌ "Bearer " token

second_call : (a b x y : Call) (later cs : List Call) → (a ∷ b ∷ later) ≡ x ∷ y ∷ cs → y ≡ b
second_call a b x y later cs h = cc

same_id : (a b : ℕ) → some a ≡ some b → a ≡ b
same_id a b h = cc

-- What the middleware does with the token of a session that is live.
module _ (pg : Uuids) (parse_token : Tokens) (claims : Claims) (token : String) (s u : ℕ)
    (es : pg.parse claims.session_id ≡ some s) (eu : pg.parse claims.user_id ≡ some u) where
  live_passes :
      (db : Db) (c d : Call) (rest : List Call)
      → parse_token token ≡ some claims
      → c.fate ≡ done
      → d.fate ≡ done
      → verdict s u c.now db ≡ true
      → (middleware pg parse_token (bearer token) (record { db = db; calls = c ∷ d ∷ rest })).0
        ≡ passed claims
  unfolding middleware check_token check_validity
  live_passes db c d rest reads fc fd live =
      let cut =
        ap (slice (bearer token) (len "Bearer ")) (len-append "Bearer " token)
        ∙ slice-append_right "Bearer " token in
      rw
        (
          starts_with-append "Bearer " token,
          cut,
          reads,
          is_valid-verdict pg claims.session_id claims.user_id s u es eu db c d rest fc fd,
          live,
        )
        refl

-- A request with the token that `Login` gave passes the middleware, with the claims of the user and of
-- the new session, if golang-jwt reads what it signed, both of its calls are done, the first no later
-- than the inactivity of the user after the session was opened.
pub middleware-login :
    (pg : Uuids) (hs : Hashing) (sign : Signing) (parse_token : Tokens) (req : RegisterRequest)
    (db : Db) (a b c d : Call) (later rest : List Call) (u : ℕ) (status seconds : ℕ)
    (resp : AuthResponse)
    → ((cl : Claims) (t : String) → sign cl ≡ some t → parse_token t ≡ some cl)
    → (login pg hs sign (some req) (record { db = db; calls = a ∷ b ∷ later })).0
      ≡ entered status resp
    → (pg.parse resp.user_id ≡ some u)
    → inactivity_of u db.users ≡ some seconds
    → c.fate ≡ done
    → d.fate ≡ done
    → c.now ≤ b.now + seconds * second
    → let after = (login pg hs sign (some req) (record { db = db; calls = a ∷ b ∷ later })).1.db in
      (middleware pg parse_token
        (bearer resp.token)
        (record { db = after; calls = c ∷ d ∷ rest })).0
      ≡ passed (record {
        user_id = resp.user_id;
        username = req.username;
        session_id = pg.print b.fresh;
      })
middleware-login pg hs sign parse_token req db a b c d later rest u status seconds resp reads h eu
      policy fc fd timely =
    let (r, others, first, next, cs, calls, chosen, verified, code, signed, id, free, grown) =
      login_sound pg hs sign req _ status resp h in
    let same_b = second_call a b first next later cs calls in
    let owner = same_id r.id u (sym (pg.parse-print r.id) ∙ ap pg.parse (sym id) ∙ eu) in
    let named =
      reads _ resp.token signed
      ∙ ap₂
          (λ x (y : Call).
            some (record { user_id = x; username = req.username; session_id = pg.print y.fresh }))
          (sym id) same_b in
    let after =
      grown
      ∙ ap₂ (λ x (y : Call). with_session (new_session x req y.fresh y.now) db) owner same_b in
    live_passes pg parse_token
      (record { user_id = resp.user_id; username = req.username; session_id = pg.print b.fresh })
      resp.token b.fresh u (pg.parse-print b.fresh) eu _ c d rest named fc fd
      (subst (λ x. verdict b.fresh u c.now x ≡ true) (sym after)
        (new_live u b.fresh b.now c.now seconds req db
          (subst (λ (y : Call). any_row (λ q. nat_beq q.id y.fresh) db.sessions ≡ false) same_b
            free)
          policy timely))
