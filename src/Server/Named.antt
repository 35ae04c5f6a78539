-- ===== src/Server/Named.antt =====
-- What any request does to the names of the users.
use text.Mathlib.Text.{starts_with}
use bully.Prelude.{
  Bool, Bool-cases, List, Option, String, [], false, inl, inr, nat_beq, none, refl, some, subst,
  sym, true, ℕ, ◌==◌, ◌∙◌, ◌∷◌, ◌≡◌, ◌≢◌,
}
use bully.Auth.{Claims, Passage, answered, check_token, middleware, passed}
use bully.Auth.Account.{RegisterRequest, select_user}
use bully.Auth.Account.Handlers.{after_user, after_verify, login}
use bully.Auth.Account.Names.{IsNamed, KeepsNames, keeps_names, open-names, register-IsNamed}
use bully.Auth.Account.Trip.{bearer}
use bully.Convo.Direct.{create_dm}
use bully.Convo.Grouping.{create_group}
use bully.Convo.Listing.{list_conversations, list_members}
use bully.Db.{
  Reply, World, any_row, db_failed, err, invalid_policy, no_rows, ok, session_too_new, statement,
  update_where,
}
use bully.Db.Moves.{
  Moves, Moves-bind, Moves-if, Moves-pure, Moves-raise, Moves-statement, handle-moves,
  with_uuid-moves,
}
use bully.Keys.{upload}
use bully.Keys.Bundling.{bundle}
use bully.Prelude.Int.{ℤ}
use bully.Server.{
  GuardedRoute, Libraries, after_middleware, auth_login, auth_register, conversation_members,
  conversations_dm, conversations_group, conversations_list, dispatch, enter_account, keys_bundle,
  keys_upload, serve_guarded, sessions_id, sessions_list, sessions_policy, sessions_revoke_all,
  users_id, users_me, users_search,
}
use bully.Server.Chats.{listed_conversations, listed_members, made_group, opened_dm}
use bully.Server.Kept.{KeepsAccounts-IsNamed}
use bully.Server.Others.{bundled_from, get-KeepsAccounts, searched, uploaded}
use bully.Server.Permanent.{Request, Visit, at_door, behind_middleware, handle, handle_all}
use bully.Session.{get_policy, list, set_policy, update_policy}
use bully.Session.Http.{
  change_policy, list_http, policy_http, read_list, revoke_all_http, revoke_http,
}
use bully.Session.Permanent.{
  Op, op_get_policy, op_is_valid, op_list, op_revoke, op_revoke_all_others, op_set_policy, perform,
}
use bully.Session.Policy.{users-perform}
use bully.Tables.{Db, UserRow}
use bully.User.{get, search, select_info}

module _ (test : UserRow → Bool) (n : ℕ) where
  name_later :
      (name : String) (rows : List UserRow)
      → any_row
          (λ q. q.username == name)
          (update_where test (λ r. record r { session_inactivity_seconds = n }) rows)
        ≡ any_row (λ q. q.username == name) rows
  unfolding any_row update_where
  name_later name [] = refl
  name_later name (r ∷ rows) = elim (Bool-cases (test r)) [
    | inl hit ↦ rw (hit, name_later name rows) refl
    | inr miss ↦ rw (miss, name_later name rows) refl
  ]

  -- A change of the policy keeps the names.
  update_where-IsNamed :
      (rows : List UserRow)
      → IsNamed rows
      → IsNamed (update_where test (λ r. record r { session_inactivity_seconds = n }) rows)
  unfolding update_where
  update_where-IsNamed [] h = tt
  update_where-IsNamed (r ∷ rows) (fits, single, h) = elim (Bool-cases (test r)) [
    | inl hit ↦ rw hit (fits, name_later r.username rows ∙ single, update_where-IsNamed rows h)
    | inr miss ↦ rw miss (fits, name_later r.username rows ∙ single, update_where-IsNamed rows h)
  ]

module _ (lib : Libraries) where
  policy-names : (u : String) (n : ℤ) → Moves KeepsNames (set_policy lib.pg u n)
  unfolding set_policy update_policy
  policy-names u n = Moves-if keeps_names _ _ _ (Moves-raise keeps_names invalid_policy) (
      Moves-statement keeps_names _ λ c db.
        with_uuid-moves keeps_names lib.pg u db _
          λ uid. update_where-IsNamed (λ r. nat_beq r.id uid) _ db.users)

  others-names :
      (op : Op) (w : World)
      → ((u : String) (n : ℤ) → op ≢ op_set_policy u n)
      → KeepsNames w.db (perform lib.pg op w).db
  others-names op w other = subst IsNamed (sym (users-perform lib.pg op w other))

  listed-names :
      (claims : Claims) (w : World) → KeepsNames w.db (list_http lib.pg (some claims) w).1.db
  unfolding list_http read_list perform
  listed-names claims w =
      (Moves-bind keeps_names (list lib.pg claims.user_id claims.session_id) _
          (record {
            moves = λ v. others-names (op_list claims.user_id claims.session_id) v (λ u n e. cc);
          })
          λ infos.
            Moves-bind keeps_names (get_policy lib.pg claims.user_id) _
              (record { moves = λ v. others-names (op_get_policy claims.user_id) v (λ u n e. cc) })
              λ policy. Moves-pure keeps_names _).moves
        w

  changed-names :
      (claims : Claims) (decoded : Option ℤ) (w : World)
      → KeepsNames w.db (policy_http lib.pg (some claims) decoded w).1.db
  unfolding policy_http change_policy
  changed-names claims none w = λ h. h
  changed-names claims (some seconds) w = (policy-names claims.user_id seconds).moves w

  revoked-names :
      (clock : ℕ) (claims : Claims) (id : String) (w : World)
      → KeepsNames w.db (revoke_http lib.pg clock (some claims) id w).1.db
  unfolding revoke_http perform
  revoked-names clock claims id w =
      others-names (op_revoke clock claims.user_id claims.session_id id) w (λ u n e. cc)

  revoked_all-names :
      (clock : ℕ) (claims : Claims) (w : World)
      → KeepsNames w.db (revoke_all_http lib.pg clock (some claims) w).1.db
  unfolding revoke_all_http perform
  revoked_all-names clock claims w =
      others-names (op_revoke_all_others clock claims.user_id claims.session_id) w (λ u n e. cc)

  dispatch-names :
      (route : GuardedRoute) (claims : Claims) (w : World)
      → KeepsNames w.db (dispatch lib route claims w).1.db
  unfolding dispatch get
  dispatch-names (users_search q) claims w =
      KeepsAccounts-IsNamed w.db (search lib.pg lib.ilike q w).1.db (searched lib.pg lib.ilike q w)
  dispatch-names users_me claims w = λ h. h
  dispatch-names (users_id id) claims w =
      KeepsAccounts-IsNamed w.db (statement (select_info lib.pg id) w).1.db
        ((get-KeepsAccounts lib.pg id).moves w)
  dispatch-names (keys_upload req) claims w =
      KeepsAccounts-IsNamed w.db (upload lib.pg (some claims) req w).1.db
        (uploaded lib.pg claims req w)
  dispatch-names (keys_bundle locked target) claims w =
      KeepsAccounts-IsNamed w.db (bundle lib.pg locked target w).1.db
        (bundled_from lib.pg locked target w)
  dispatch-names (conversations_dm peer) claims w =
      KeepsAccounts-IsNamed w.db (create_dm lib.pg (some claims) peer w).1.db
        (opened_dm lib.pg claims peer w)
  dispatch-names (conversations_group req) claims w =
      KeepsAccounts-IsNamed w.db (create_group lib.pg (some claims) req w).1.db
        (made_group lib.pg claims req w)
  dispatch-names conversations_list claims w =
      KeepsAccounts-IsNamed w.db (list_conversations lib.pg (some claims) w).1.db
        (listed_conversations lib.pg claims w)
  dispatch-names (conversation_members id) claims w =
      KeepsAccounts-IsNamed w.db (list_members lib.pg (some claims) id w).1.db
        (listed_members lib.pg claims id w)
  dispatch-names sessions_list claims w = listed-names claims w
  dispatch-names (sessions_id clock id) claims w = revoked-names clock claims id w
  dispatch-names (sessions_revoke_all clock) claims w = revoked_all-names clock claims w
  dispatch-names (sessions_policy seconds) claims w = changed-names claims seconds w

  after-names :
      (route : GuardedRoute) (p : Passage) (w : World)
      → KeepsNames w.db (after_middleware lib route p w).1.db
  unfolding after_middleware
  after-names route (answered r) w = λ h. h
  after-names route (passed claims) w = dispatch-names route claims w

  check-names :
      (parsed : Option Claims) (w : World) → KeepsNames w.db (check_token lib.pg parsed w).1.db
  unfolding check_token perform
  check-names none w = λ h. h
  check-names (some claims) w =
      others-names (op_is_valid claims.session_id claims.user_id) w (λ u n e. cc)

  middleware-names :
      (hdr : String) (w : World) → KeepsNames w.db (middleware lib.pg lib.parse_token hdr w).1.db
  unfolding middleware
  middleware-names hdr w = elim (Bool-cases (starts_with hdr "Bearer ")) [
    | inl bearer ↦ rw bearer (check-names _ w)
    | inr other ↦ rw other λ h. h
  ]

  verified-names :
      (req : RegisterRequest) (user_id : String) (v : Option Bool) (w : World)
      → KeepsNames w.db (after_verify lib.pg lib.sign req user_id v w).1.db
  unfolding after_verify
  verified-names req user_id (some true) w =
      open-names lib.pg lib.sign 200 req user_id req.username w
  verified-names req user_id (some false) w = λ h. h
  verified-names req user_id none w = λ h. h

  user-names :
      (req : RegisterRequest) (r : Reply (String × String)) (w : World)
      → KeepsNames w.db (after_user lib.pg lib.hashing lib.sign req r w).1.db
  unfolding after_user
  user-names req (ok (user_id, hash)) w = verified-names req user_id _ w
  user-names req (err no_rows) w = λ h. h
  user-names req (err db_failed) w = λ h. h
  user-names req (err session_too_new) w = λ h. h
  user-names req (err invalid_policy) w = λ h. h

  select_user-names :
      (username : String) → Moves KeepsNames (statement (select_user lib.pg username))
  unfolding select_user
  select_user-names username = Moves-statement keeps_names _ λ c db h. h

  login-names :
      (decoded : Option RegisterRequest) (w : World)
      → KeepsNames w.db (login lib.pg lib.hashing lib.sign decoded w).1.db
  unfolding login
  login-names none w = λ h. h
  login-names (some req) w =
      handle-moves keeps_names (statement (select_user lib.pg req.username))
        (after_user lib.pg lib.hashing lib.sign req) w (select_user-names req.username)
        (user-names req)

  handle-names : (r : Request) (w : World) → KeepsNames w.db (handle lib r w).1.db
  unfolding handle serve_guarded enter_account
  handle-names (behind_middleware hdr route) w =
      let (p, after) = middleware lib.pg lib.parse_token hdr w in
      keeps_names.then_so w.db after.db (after_middleware lib route p after).1.db
        (middleware-names hdr w) (after-names route p after)
  handle-names (at_door (auth_register salt req)) w =
      register-IsNamed lib.pg lib.hashing lib.sign salt req w
  handle-names (at_door (auth_login req)) w = login-names req w

  -- Over any series of requests on the routes behind the middleware and, past their rate limit, on those
  -- of /auth, whatever they are sent and however their calls end: if the name of each user fits the
  -- pattern of 3 to 32 letters, digits and underscores and no two are the same, that is so afterwards.
  pub handle_all-IsNamed :
      (vs : List Visit) (db : Db) → IsNamed db.users → IsNamed (handle_all lib vs db).users
  unfolding handle_all
  handle_all-IsNamed [] db h = h
  handle_all-IsNamed (v ∷ vs) db h =
      handle_all-IsNamed vs (handle lib v.request (record { db = db; calls = v.calls })).1.db
        (handle-names v.request (record { db = db; calls = v.calls }) h)
