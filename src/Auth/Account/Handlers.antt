-- ===== src/Auth/Account/Handlers.antt =====
-- auth/handlers.go: the handlers `Register` and `Login`.
use Prim.Native.String.{len}
use bully.Prelude.{Bool, Option, String, false, if◌then◌else◌, ltb, none, not, some, true}
use bully.Auth.{write_err}
use bully.Auth.Account.{
  Entered, RegisterRequest, Signing, insert_user, match_username, open_session, select_user,
  trim_space, turned_away,
}
use bully.Auth.Password.{Hashing, hash_password, verify_password}
use bully.Db.{Reply, Uuids, World, err, no_rows, ok, statement}
use bully.Ws.Padding.{Bytes}

unfoldable pub after_insert :
    Uuids → Signing → RegisterRequest → String → Reply String → World → Entered × World
unfolding open_session
after_insert pg sign req username (err e) w =
    (turned_away (write_err 409 "username already taken"), w)
after_insert pg sign req username (ok user_id) w = open_session pg sign 201 req user_id username w

unfoldable pub after_hash :
    Uuids → Signing → RegisterRequest → String → Option String → World → Entered × World
unfolding after_insert
after_hash pg sign req username none w = (turned_away (write_err 500 "hash error"), w)
after_hash pg sign req username (some hash) w =
    let (r, after) = statement (insert_user pg username hash) w in
    after_insert pg sign req username r after

-- `Handler.Register`; the request is what the body decodes to, if it does, and the salt what
-- `rand.Read` gives.
unfoldable pub register :
    Uuids → Hashing → Signing → Option Bytes → Option RegisterRequest → World → Entered × World
unfolding after_hash
register pg hs sign salt none w = (turned_away (write_err 400 "invalid body"), w)
register pg hs sign salt (some req) w =
    let username = trim_space req.username in
    if not (match_username username)
    then (turned_away (write_err 400 "username must be 3-32 chars, alphanumeric/underscore"), w)
    else if ltb (len req.password) 8
    then (turned_away (write_err 400 "password must be at least 8 characters"), w)
    else after_hash pg sign req username (hash_password hs salt req.password) w

unfoldable pub after_verify :
    Uuids → Signing → RegisterRequest → String → Option Bool → World → Entered × World
unfolding open_session
after_verify pg sign req user_id (some true) w = open_session pg sign 200 req user_id req.username w
after_verify pg sign req user_id (some false) w =
    (turned_away (write_err 401 "invalid credentials"), w)
after_verify pg sign req user_id none w = (turned_away (write_err 401 "invalid credentials"), w)

unfoldable pub after_user :
    Uuids → Hashing → Signing → RegisterRequest → Reply (String × String) → World → Entered × World
unfolding after_verify
after_user pg hs sign req (ok (user_id, hash)) w =
    after_verify pg sign req user_id (verify_password hs req.password hash) w
after_user pg hs sign req (err no_rows) w = (turned_away (write_err 401 "invalid credentials"), w)
after_user pg hs sign req (err e) w = (turned_away (write_err 500 "db error"), w)

-- `Handler.Login`
unfoldable pub login : Uuids → Hashing → Signing → Option RegisterRequest → World → Entered × World
unfolding after_user
login pg hs sign none w = (turned_away (write_err 400 "invalid body"), w)
login pg hs sign (some req) w =
    let (r, after) = statement (select_user pg req.username) w in after_user pg hs sign req r after
