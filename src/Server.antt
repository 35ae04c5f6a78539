-- ===== src/Server.antt =====
-- cmd/server/main.go: the routes. A route's constructor has what the request brings to its handler:
-- the decoded body, if it decodes, or the parameter of the path or of the query.
pub mod Guarded
pub mod Kept
pub mod Others
pub mod Chats
pub mod Doors
pub mod Permanent
pub mod Named
use bully.Prelude.{Bool, Option, String, some, ℕ}
use bully.Auth.{Claims, Passage, Response, Tokens, answered, middleware, passed, write_err}
use bully.Auth.Account.{Entered, RegisterRequest, Signing}
use bully.Auth.Account.Handlers.{login, register}
use bully.Auth.Password.{Hashing}
use bully.Convo.Direct.{Opened, create_dm}
use bully.Convo.Grouping.{CreateGroupRequest, Grouped, create_group}
use bully.Convo.Listing.{ConversationListItem, Shown, list_conversations, list_members}
use bully.Db.{Fate, Uuids, World}
use bully.Keys.{UploadRequest, upload}
use bully.Keys.Bundling.{Bundle, bundle}
use bully.Prelude.Int.{ℤ}
use bully.Ratelimit.{Counters, Turn, limit_key, next_handler, per_ip, rate_limited}
use bully.Session.Http.{Answer, list_http, policy_http, revoke_all_http, revoke_http}
use bully.Tables.{PrekeyRow}
use bully.User.{Found, Ilike, UserInfo, get, me, search}
use bully.Ws.Padding.{Bytes}

-- What the handlers are built with: Postgres, golang-jwt and Argon2.
pub record Libraries : Type 0 where
  pub pg : Uuids
  pub ilike : Ilike
  pub hashing : Hashing
  pub sign : Signing
  pub parse_token : Tokens

-- The routes of the group behind `Middleware`, less `/ice-servers`, which keeps no state. The number is
-- the clock of the node; the test says which keys other transactions hold.
pub data GuardedRoute : Type 0 where
  users_search users_id conversation_members : String → GuardedRoute
  users_me conversations_list sessions_list : GuardedRoute
  keys_upload : Option UploadRequest → GuardedRoute
  keys_bundle : (PrekeyRow → Bool) → String → GuardedRoute
  conversations_dm : Option String → GuardedRoute
  conversations_group : Option CreateGroupRequest → GuardedRoute
  sessions_id : ℕ → String → GuardedRoute
  sessions_revoke_all : ℕ → GuardedRoute
  sessions_policy : Option ℤ → GuardedRoute

-- What a route answers, in the type of its handler.
pub data Served : Type 0 where
  plain : Response → Served
  users : Shown UserInfo → Served
  user : Found UserInfo → Served
  key_bundle : Bundle → Served
  direct : Opened → Served
  new_group : Grouped → Served
  conversation_list : Shown ConversationListItem → Served
  member_list : Shown String → Served
  session_list : Answer → Served
  account : Entered → Served

unfoldable pub dispatch : Libraries → GuardedRoute → Claims → World → Served × World
dispatch lib (users_search q) cl w =
    let (r, after) = search lib.pg lib.ilike q w in (users r, after)
dispatch lib users_me cl w = (user (me (some cl)), w)
dispatch lib (users_id id) cl w = let (r, after) = get lib.pg id w in (user r, after)
dispatch lib (keys_upload req) cl w =
    let (r, after) = upload lib.pg (some cl) req w in (plain r, after)
dispatch lib (keys_bundle locked target) cl w =
    let (r, after) = bundle lib.pg locked target w in (key_bundle r, after)
dispatch lib (conversations_dm peer) cl w =
    let (r, after) = create_dm lib.pg (some cl) peer w in (direct r, after)
dispatch lib (conversations_group req) cl w =
    let (r, after) = create_group lib.pg (some cl) req w in (new_group r, after)
dispatch lib conversations_list cl w =
    let (r, after) = list_conversations lib.pg (some cl) w in (conversation_list r, after)
dispatch lib (conversation_members id) cl w =
    let (r, after) = list_members lib.pg (some cl) id w in (member_list r, after)
dispatch lib sessions_list cl w =
    let (r, after) = list_http lib.pg (some cl) w in (session_list r, after)
dispatch lib (sessions_id clock id) cl w =
    let (r, after) = revoke_http lib.pg clock (some cl) id w in (plain r, after)
dispatch lib (sessions_revoke_all clock) cl w =
    let (r, after) = revoke_all_http lib.pg clock (some cl) w in (plain r, after)
dispatch lib (sessions_policy seconds) cl w =
    let (r, after) = policy_http lib.pg (some cl) seconds w in (plain r, after)

unfoldable pub after_middleware : Libraries → GuardedRoute → Passage → World → Served × World
unfolding dispatch
after_middleware lib route (answered r) w = (plain r, w)
after_middleware lib route (passed cl) w = dispatch lib route cl w

-- `r.Group` with `r.Use(authHandler.Middleware)`; the text is the header `Authorization`.
unfoldable pub serve_guarded : Libraries → String → GuardedRoute → World → Served × World
unfolding after_middleware
serve_guarded lib hdr route w =
    let (p, after) = middleware lib.pg lib.parse_token hdr w in after_middleware lib route p after

-- The routes of `/auth`, with the salt that `rand.Read` gives to the first.
pub data AuthRoute : Type 0 where
  auth_register : Option Bytes → Option RegisterRequest → AuthRoute
  auth_login : Option RegisterRequest → AuthRoute

unfoldable pub enter_account : Libraries → AuthRoute → World → Served × World
enter_account lib (auth_register salt req) w =
    let (r, after) = register lib.pg lib.hashing lib.sign salt req w in (account r, after)
enter_account lib (auth_login req) w =
    let (r, after) = login lib.pg lib.hashing lib.sign req w in (account r, after)

module _ (counters : Counters) where
  unfoldable pub after_turn :
      Libraries → AuthRoute → Turn × counters.Store → World → Served × counters.Store × World
  unfolding enter_account
  after_turn lib route (rate_limited, s) w = (plain (write_err 429 "rate_limited"), s, w)
  after_turn lib route (next_handler, s) w =
      let (r, after) = enter_account lib route w in (r, s, after)

  -- `r.With(authRateLimit)`; the fate is that of the command `Incr`.
  unfoldable pub serve_auth :
      Libraries
      → String
      → AuthRoute
      → Fate
      → counters.Store
      → World
      → Served × counters.Store × World
  unfolding after_turn
  serve_auth lib ip route fate s w =
      after_turn lib route (per_ip counters 20 60 (limit_key "auth" ip) fate s) w
