-- ===== src/Server/Permanent.antt =====
-- What any request does to the rows of `sessions`.
use text.Mathlib.Text.{starts_with}
use bully.Prelude.{Bool-cases, List, Option, String, [], inl, inr, none, some, ℕ, ◌∷◌}
use bully.Auth.{Claims, Passage, answered, check_token, middleware, passed}
use bully.Auth.Account.Trip.{bearer}
use bully.Convo.Direct.{create_dm}
use bully.Convo.Grouping.{create_group}
use bully.Convo.Listing.{list_conversations, list_members}
use bully.Db.{Call, World, statement}
use bully.Db.Moves.{Moves-bind, Moves-pure}
use bully.Keys.{upload}
use bully.Keys.Bundling.{bundle}
use bully.Prelude.Int.{ℤ}
use bully.Server.{
  AuthRoute, GuardedRoute, Libraries, Served, after_middleware, auth_login, auth_register,
  conversation_members, conversations_dm, conversations_group, conversations_list, dispatch,
  enter_account, keys_bundle, keys_upload, serve_guarded, sessions_id, sessions_list,
  sessions_policy, sessions_revoke_all, users_id, users_me, users_search,
}
use bully.Server.Chats.{listed_conversations, listed_members, made_group, opened_dm}
use bully.Server.Doors.{login-Evolves, register-Evolves}
use bully.Server.Kept.{KeepsAccounts-Evolves}
use bully.Server.Others.{bundled_from, get-KeepsAccounts, searched, uploaded}
use bully.Session.{get_policy, list}
use bully.Session.Http.{
  change_policy, list_http, policy_http, read_list, revoke_all_http, revoke_http,
}
use bully.Session.Permanent.{
  op_get_policy, op_is_valid, op_list, op_revoke, op_revoke_all_others, op_set_policy, perform,
  perform-Evolves,
}
use bully.Session.Rows.{Evolves, Evolves-refl, EvolvesDb, evolution}
use bully.Tables.{Db}
use bully.User.{get, search, select_info}

-- A request on one of the two groups of routes; the second is past the rate limit.
pub data Request : Type 0 where
  behind_middleware : String → GuardedRoute → Request
  at_door : AuthRoute → Request

unfoldable pub handle : Libraries → Request → World → Served × World
handle lib (behind_middleware hdr route) w = serve_guarded lib hdr route w
handle lib (at_door route) w = enter_account lib route w

-- A request, with the calls that it brings to the database.
pub record Visit : Type 0 where
  pub request : Request
  pub calls : List Call

-- The tables after a series of requests.
unfoldable pub handle_all : Libraries → List Visit → Db → Db
unfolding handle
handle_all lib [] db = db
handle_all lib (t ∷ ts) db =
    handle_all lib ts (handle lib t.request (record { db = db; calls = t.calls })).1.db

module _ (lib : Libraries) where
  listed_sessions :
      (claims : Claims) (w : World) → EvolvesDb w.db (list_http lib.pg (some claims) w).1.db
  unfolding list_http read_list perform
  listed_sessions claims w =
      (Moves-bind evolution (list lib.pg claims.user_id claims.session_id) _
          (record { moves = perform-Evolves lib.pg (op_list claims.user_id claims.session_id) })
          λ infos.
            Moves-bind evolution (get_policy lib.pg claims.user_id) _
              (record { moves = perform-Evolves lib.pg (op_get_policy claims.user_id) })
              λ policy. Moves-pure evolution _).moves
        w

  changed_policy :
      (claims : Claims) (decoded : Option ℤ) (w : World)
      → EvolvesDb w.db (policy_http lib.pg (some claims) decoded w).1.db
  unfolding policy_http change_policy perform
  changed_policy claims none w = Evolves-refl w.db.sessions
  changed_policy claims (some seconds) w =
      perform-Evolves lib.pg (op_set_policy claims.user_id seconds) w

  revoked_one :
      (clock : ℕ) (claims : Claims) (id : String) (w : World)
      → EvolvesDb w.db (revoke_http lib.pg clock (some claims) id w).1.db
  unfolding revoke_http perform
  revoked_one clock claims id w =
      perform-Evolves lib.pg (op_revoke clock claims.user_id claims.session_id id) w

  revoked_all :
      (clock : ℕ) (claims : Claims) (w : World)
      → EvolvesDb w.db (revoke_all_http lib.pg clock (some claims) w).1.db
  unfolding revoke_all_http perform
  revoked_all clock claims w =
      perform-Evolves lib.pg (op_revoke_all_others clock claims.user_id claims.session_id) w

  dispatch-Evolves :
      (route : GuardedRoute) (claims : Claims) (w : World)
      → EvolvesDb w.db (dispatch lib route claims w).1.db
  unfolding dispatch get
  dispatch-Evolves (users_search q) claims w =
      KeepsAccounts-Evolves w.db (search lib.pg lib.ilike q w).1.db (searched lib.pg lib.ilike q w)
  dispatch-Evolves users_me claims w = Evolves-refl w.db.sessions
  dispatch-Evolves (users_id id) claims w =
      KeepsAccounts-Evolves w.db (statement (select_info lib.pg id) w).1.db
        ((get-KeepsAccounts lib.pg id).moves w)
  dispatch-Evolves (keys_upload req) claims w =
      KeepsAccounts-Evolves w.db (upload lib.pg (some claims) req w).1.db
        (uploaded lib.pg claims req w)
  dispatch-Evolves (keys_bundle locked target) claims w =
      KeepsAccounts-Evolves w.db (bundle lib.pg locked target w).1.db
        (bundled_from lib.pg locked target w)
  dispatch-Evolves (conversations_dm peer) claims w =
      KeepsAccounts-Evolves w.db (create_dm lib.pg (some claims) peer w).1.db
        (opened_dm lib.pg claims peer w)
  dispatch-Evolves (conversations_group req) claims w =
      KeepsAccounts-Evolves w.db (create_group lib.pg (some claims) req w).1.db
        (made_group lib.pg claims req w)
  dispatch-Evolves conversations_list claims w =
      KeepsAccounts-Evolves w.db (list_conversations lib.pg (some claims) w).1.db
        (listed_conversations lib.pg claims w)
  dispatch-Evolves (conversation_members id) claims w =
      KeepsAccounts-Evolves w.db (list_members lib.pg (some claims) id w).1.db
        (listed_members lib.pg claims id w)
  dispatch-Evolves sessions_list claims w = listed_sessions claims w
  dispatch-Evolves (sessions_id clock id) claims w = revoked_one clock claims id w
  dispatch-Evolves (sessions_revoke_all clock) claims w = revoked_all clock claims w
  dispatch-Evolves (sessions_policy seconds) claims w = changed_policy claims seconds w

  after-Evolves :
      (route : GuardedRoute) (p : Passage) (w : World)
      → EvolvesDb w.db (after_middleware lib route p w).1.db
  unfolding after_middleware
  after-Evolves route (answered r) w = Evolves-refl w.db.sessions
  after-Evolves route (passed claims) w = dispatch-Evolves route claims w

  check-Evolves :
      (parsed : Option Claims) (w : World) → EvolvesDb w.db (check_token lib.pg parsed w).1.db
  unfolding check_token perform
  check-Evolves none w = Evolves-refl w.db.sessions
  check-Evolves (some claims) w =
      perform-Evolves lib.pg (op_is_valid claims.session_id claims.user_id) w

  middleware-Evolves :
      (hdr : String) (w : World) → EvolvesDb w.db (middleware lib.pg lib.parse_token hdr w).1.db
  unfolding middleware
  middleware-Evolves hdr w = elim (Bool-cases (starts_with hdr "Bearer ")) [
    | inl bearer ↦ rw bearer (check-Evolves _ w)
    | inr other ↦ rw other (Evolves-refl w.db.sessions)
  ]

  handle-Evolves : (r : Request) (w : World) → EvolvesDb w.db (handle lib r w).1.db
  unfolding handle serve_guarded enter_account
  handle-Evolves (behind_middleware hdr route) w =
      let (p, after) = middleware lib.pg lib.parse_token hdr w in
      evolution.then_so w.db after.db (after_middleware lib route p after).1.db
        (middleware-Evolves hdr w) (after-Evolves route p after)
  handle-Evolves (at_door (auth_register salt req)) w = register-Evolves lib salt req w
  handle-Evolves (at_door (auth_login req)) w = login-Evolves lib req w

  -- Over any series of requests on the routes behind the middleware and, past their rate limit, on those
  -- of /auth, whatever the fates of their calls: every row of `sessions` stays, with its id, its user and
  -- its time of creation, and a row that was revoked is revoked still, since the same instant.
  pub handle_all-Evolves :
      (vs : List Visit) (db : Db) → Evolves db.sessions (handle_all lib vs db).sessions
  unfolding handle_all
  handle_all-Evolves [] db = Evolves-refl db.sessions
  handle_all-Evolves (v ∷ vs) db =
      let after = (handle lib v.request (record { db = db; calls = v.calls })).1.db in
      evolution.then_so db after (handle_all lib vs after)
        (handle-Evolves v.request (record { db = db; calls = v.calls }))
        (handle_all-Evolves vs after)
