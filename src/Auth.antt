-- ===== src/Auth.antt =====
-- auth/jwt.go and auth/handlers.go: who a request comes from. Parsing and checking a token is
-- golang-jwt's, and a parameter.
use Prim.Native.String.{slice, len}
use text.Mathlib.Text.{starts_with}
pub mod Middleware
pub mod Password
pub mod Account
use bully.Prelude.{Bool, Option, String, false, if◌then◌else◌, none, not, some, true, ℕ, ◌==◌}
use bully.Db.{Reply, Uuids, World, err, ok}
use bully.Session.{is_valid}

pub record Claims : Type 0 where
  pub user_id : String
  pub username : String
  pub session_id : String

-- `ParseToken` with the secret of the node: the claims of a token that is signed with it by HS256 and
-- has not run out, or an error.
abbrev pub Tokens : Type 0
Tokens = String → Option Claims

-- What the handlers write: the status, and what stands in the body.
pub data Body : Type 0 where
  nothing : Body
  error_text : String → Body

pub record Response : Type 0 where
  pub status : ℕ
  pub body : Body

-- `writeErr`
abbrev pub write_err : ℕ → String → Response
write_err status text = record { status = status; body = error_text text }

-- `deviceLabel`
unfoldable pub device_label : String → String
device_label v = if v == "" then "Unknown" else v

-- What `Middleware` decides: to answer itself, or to let the request through with its claims.
pub data Passage : Type 0 where
  answered : Response → Passage
  passed : Claims → Passage

unfoldable pub check_validity : Claims → Reply Bool → Passage
check_validity claims (err e) = answered (write_err 500 "session check failed")
check_validity claims (ok false) = answered (write_err 401 "session revoked")
check_validity claims (ok true) = passed claims

unfoldable pub check_token : Uuids → Option Claims → World → Passage × World
unfolding check_validity
check_token pg none w = (answered (write_err 401 "invalid token"), w)
check_token pg (some claims) w =
    let (r, after) = is_valid pg claims.session_id claims.user_id w in
    (check_validity claims r, after)

-- `Handler.Middleware`; the text is the header `Authorization`.
unfoldable pub middleware : Uuids → Tokens → String → World → Passage × World
unfolding check_token
middleware pg parse_token hdr w =
    if not (starts_with hdr "Bearer ")
    then (answered (write_err 401 "missing token"), w)
    else check_token pg (parse_token (slice hdr (len "Bearer ") (len hdr))) w
