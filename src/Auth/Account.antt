-- ===== src/Auth/Account.antt =====
-- auth/handlers.go, `Register` and `Login`, and `IssueToken` of auth/jwt.go. Signing a token is
-- golang-jwt's, and a parameter.
use Prim.Native.Char.{Char, code}
use Prim.Native.String.{len}
pub mod Names
pub mod Handlers
pub mod Entry
pub mod Trip
use bully.Prelude.{
  Bool, Option, String, [], if◌then◌else◌, leb, map, nat_beq, none, some, suc, true, ℕ, ◌&&◌, ◌++◌,
  ◌==◌, ◌||◌, ◌∷◌,
}
use bully.Auth.{Claims, Response, device_label, write_err}
use bully.Db.{Call, Reply, Uuids, World, any_row, db_failed, err, first_row, ok, select}
use bully.Session.{create}
use bully.Tables.{Db}

-- `registerRequest`
pub record RegisterRequest : Type 0 where
  pub username : String
  pub password : String
  pub device_name : String
  pub platform : String

-- `authResponse`
pub record AuthResponse : Type 0 where
  pub token : String
  pub user_id : String
  pub username : String

-- `unicode.IsSpace`
abbrev pub is_space : ℕ → Bool
is_space c =
    (leb 9 c && leb c 13)
    || nat_beq c 32
    || nat_beq c 133
    || nat_beq c 160
    || nat_beq c 5760
    || (leb 8192 c && leb c 8202)
    || nat_beq c 8232
    || nat_beq c 8233
    || nat_beq c 8239
    || nat_beq c 8287
    || nat_beq c 12288

unfoldable pub trim_left : String → String
trim_left String.[] = ""
trim_left (String.◌∷◌ c s) =
    let rest = trim_left s in if is_space (code c) then rest else String.◌∷◌ c s

-- A space at the end goes if nothing is left after it.
unfoldable pub before_trimmed : Char → String → String
before_trimmed c String.[] = if is_space (code c) then "" else String.◌∷◌ c ""
before_trimmed c (String.◌∷◌ d s) = String.◌∷◌ c (String.◌∷◌ d s)

unfoldable pub trim_right : String → String
unfolding before_trimmed
trim_right String.[] = ""
trim_right (String.◌∷◌ c s) = before_trimmed c (trim_right s)

-- `strings.TrimSpace`
unfoldable pub trim_space : String → String
unfolding trim_left trim_right
trim_space s = trim_right (trim_left s)

-- The class of `usernameRe`.
abbrev pub is_name_char : ℕ → Bool
is_name_char c =
    (leb 97 c && leb c 122) || (leb 65 c && leb c 90) || (leb 48 c && leb c 57) || nat_beq c 95

unfoldable pub all_name_chars : String → Bool
all_name_chars String.[] = true
all_name_chars (String.◌∷◌ c s) = is_name_char (code c) && all_name_chars s

unfoldable pub count_chars : String → ℕ
count_chars String.[] = 0
count_chars (String.◌∷◌ c s) = suc (count_chars s)

-- `usernameRe.MatchString`
unfoldable pub match_username : String → Bool
unfolding all_name_chars count_chars
match_username s = all_name_chars s && leb 3 (count_chars s) && leb (count_chars s) 32

-- The column's default.
abbrev pub default_inactivity_seconds : ℕ
default_inactivity_seconds = 2592000

-- `INSERT INTO users (username, password_hash) VALUES ($1, $2) RETURNING id`
unfoldable pub insert_user : Uuids → String → String → Call → Db → Reply String × Db
insert_user pg username hash c db =
    if any_row (λ r. r.username == username) db.users
      || any_row (λ r. nat_beq r.id c.fresh) db.users
    then (err db_failed, db)
    else (
      ok (pg.print c.fresh),
      record db {
        users =
            db.users
            ++ record {
              id = c.fresh;
              username = username;
              password_hash = hash;
              session_inactivity_seconds = default_inactivity_seconds;
            }
              ∷ [];
      },
    )

-- `SELECT id, password_hash FROM users WHERE username = $1`
unfoldable pub select_user : Uuids → String → Call → Db → Reply (String × String) × Db
select_user pg username c db = (
  first_row
      (map (λ r. (pg.print r.id, r.password_hash)) (select (λ r. r.username == username) db.users)),
  db,
)

-- `IssueToken`: the claims, signed with the secret of the node, with the times of issue and expiry.
abbrev pub Signing : Type 0
Signing = Claims → Option String

unfoldable pub issue_token : Signing → String → String → String → Option String
issue_token sign user_id username session_id =
    sign (record { user_id = user_id; username = username; session_id = session_id })

-- The answer of both handlers: an error, or a status with the `authResponse`.
pub data Entered : Type 0 where
  turned_away : Response → Entered
  entered : ℕ → AuthResponse → Entered

unfoldable pub answer_token : ℕ → String → String → Option String → Entered
answer_token status user_id username none = turned_away (write_err 500 "token error")
answer_token status user_id username (some token) =
    entered status (record { token = token; user_id = user_id; username = username })

unfoldable pub answer_session : Signing → ℕ → String → String → Reply String → Entered
unfolding answer_token issue_token
answer_session sign status user_id username (err e) = turned_away (write_err 500 "session error")
answer_session sign status user_id username (ok session_id) =
    answer_token status user_id username (issue_token sign user_id username session_id)

-- What both handlers end with: a session, and a token of it.
unfoldable pub open_session :
    Uuids → Signing → ℕ → RegisterRequest → String → String → World → Entered × World
unfolding answer_session
open_session pg sign status req user_id username w =
    let (r, after) =
      create pg user_id (device_label req.device_name) (device_label req.platform) w in
    (answer_session sign status user_id username r, after)
