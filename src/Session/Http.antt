-- ===== src/Session/Http.antt =====
-- session/handlers.go: the routes of the sessions. The claims are what `auth.FromContext` finds in the
-- request; the middleware has put them there.
pub mod Answers
use bully.Prelude.{List, Option, String, none, some, ℕ}
use bully.Auth.{Claims, Response, nothing, write_err}
use bully.Db.{DbM, Reply, Uuids, World, err, invalid_policy, ok, pure, session_too_new, ◌>>=◌, ◌>>◌}
use bully.Prelude.Int.{ℤ}
use bully.Session.{Info, get_policy, list, set_policy}
use bully.Session.Revoking.{revoke, revoke_all_others}

-- A response with an error or an empty body, or the two values that `ListHTTP` encodes.
pub data Answer : Type 0 where
  response : Response → Answer
  listing : List Info → ℕ → Answer

-- `WriteHeader(http.StatusNoContent)`
abbrev pub no_content : Response
no_content = record { status = 204; body = nothing }

unfoldable pub answer_list : Reply (List Info × ℕ) → Answer
answer_list (ok (infos, policy)) = listing infos policy
answer_list (err e) = response (write_err 500 "db_error")

unfoldable pub read_list : Uuids → Claims → DbM (List Info × ℕ)
read_list pg claims = do
  infos ← list pg claims.user_id claims.session_id
  policy ← get_policy pg claims.user_id
  pure (infos, policy)

-- `Handler.ListHTTP`
unfoldable pub list_http : Uuids → Option Claims → World → Answer × World
unfolding answer_list read_list
list_http pg none w = (response (write_err 401 "unauthorized"), w)
list_http pg (some claims) w = let (r, after) = read_list pg claims w in (answer_list r, after)

unfoldable pub answer_policy : Reply (Unit {0}) → Response
answer_policy (ok t) = no_content
answer_policy (err invalid_policy) = write_err 400 "invalid_policy"
answer_policy (err e) = write_err 500 "db_error"

unfoldable pub change_policy : Uuids → Claims → Option ℤ → World → Response × World
unfolding answer_policy
change_policy pg claims none w = (write_err 400 "invalid_body", w)
change_policy pg claims (some seconds) w =
    let (r, after) = set_policy pg claims.user_id seconds w in (answer_policy r, after)

-- `Handler.PolicyHTTP`; the number is what the body decodes to, if it does.
unfoldable pub policy_http : Uuids → Option Claims → Option ℤ → World → Response × World
unfolding change_policy
policy_http pg none decoded w = (write_err 401 "unauthorized", w)
policy_http pg (some claims) decoded w = change_policy pg claims decoded w

-- The end of the two handlers that revoke.
unfoldable pub answer_kick : Reply (Unit {0}) → Response
answer_kick (ok t) = no_content
answer_kick (err session_too_new) = write_err 403 "session_too_new"
answer_kick (err e) = write_err 500 "db_error"

-- `Handler.RevokeHTTP`; `target` is the parameter `id` of the route.
unfoldable pub revoke_http : Uuids → ℕ → Option Claims → String → World → Response × World
unfolding answer_kick
revoke_http pg clock none target w = (write_err 401 "unauthorized", w)
revoke_http pg clock (some claims) target w =
    let (r, after) = revoke pg clock claims.user_id claims.session_id target w in
    (answer_kick r, after)

-- `Handler.RevokeAllHTTP`
unfoldable pub revoke_all_http : Uuids → ℕ → Option Claims → World → Response × World
unfolding answer_kick
revoke_all_http pg clock none w = (write_err 401 "unauthorized", w)
revoke_all_http pg clock (some claims) w =
    let (r, after) = revoke_all_others pg clock claims.user_id claims.session_id w in
    (answer_kick r, after)
