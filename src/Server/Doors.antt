-- ===== src/Server/Doors.antt =====
-- What `Register` and `Login` do to the rows of `sessions`.
use Prim.Native.String.{len}
use bully.Prelude.{Bool, Bool-cases, Option, String, false, inl, inr, ltb, none, some, true, ℕ}
use bully.Auth.{device_label}
use bully.Auth.Account.{
  RegisterRequest, insert_user, match_username, open_session, select_user, trim_space,
}
use bully.Auth.Account.Handlers.{
  after_hash, after_insert, after_user, after_verify, login, register,
}
use bully.Db.{Reply, World, db_failed, err, invalid_policy, no_rows, ok, session_too_new, statement}
use bully.Db.Moves.{Moves, Moves-statement, handle-moves, if-moves}
use bully.Server.{Libraries}
use bully.Session.Permanent.{op_create, perform, perform-Evolves}
use bully.Session.Rows.{Evolves-refl, EvolvesDb, evolution}
use bully.Ws.Padding.{Bytes}

module _ (lib : Libraries) where
  open_session-Evolves :
      (status : ℕ) (req : RegisterRequest) (user_id username : String) (w : World)
      → EvolvesDb w.db (open_session lib.pg lib.sign status req user_id username w).1.db
  unfolding open_session perform
  open_session-Evolves status req user_id username w =
      perform-Evolves lib.pg
        (op_create user_id (device_label req.device_name) (device_label req.platform)) w

  select_user-Evolves :
      (username : String) → Moves EvolvesDb (statement (select_user lib.pg username))
  unfolding select_user
  select_user-Evolves username = Moves-statement evolution _ λ c db. Evolves-refl db.sessions

  insert_user-Evolves :
      (username hash : String) → Moves EvolvesDb (statement (insert_user lib.pg username hash))
  unfolding insert_user
  insert_user-Evolves username hash =
      Moves-statement evolution _
        λ c db. if-moves evolution db _ _ _ (Evolves-refl db.sessions) (Evolves-refl db.sessions)

  verified-Evolves :
      (req : RegisterRequest) (user_id : String) (v : Option Bool) (w : World)
      → EvolvesDb w.db (after_verify lib.pg lib.sign req user_id v w).1.db
  unfolding after_verify
  verified-Evolves req user_id (some true) w = open_session-Evolves 200 req user_id req.username w
  verified-Evolves req user_id (some false) w = Evolves-refl w.db.sessions
  verified-Evolves req user_id none w = Evolves-refl w.db.sessions

  user-Evolves :
      (req : RegisterRequest) (r : Reply (String × String)) (w : World)
      → EvolvesDb w.db (after_user lib.pg lib.hashing lib.sign req r w).1.db
  unfolding after_user
  user-Evolves req (ok (user_id, hash)) w = verified-Evolves req user_id _ w
  user-Evolves req (err no_rows) w = Evolves-refl w.db.sessions
  user-Evolves req (err db_failed) w = Evolves-refl w.db.sessions
  user-Evolves req (err session_too_new) w = Evolves-refl w.db.sessions
  user-Evolves req (err invalid_policy) w = Evolves-refl w.db.sessions

  pub login-Evolves :
      (decoded : Option RegisterRequest) (w : World)
      → EvolvesDb w.db (login lib.pg lib.hashing lib.sign decoded w).1.db
  unfolding login
  login-Evolves none w = Evolves-refl w.db.sessions
  login-Evolves (some req) w =
      handle-moves evolution (statement (select_user lib.pg req.username))
        (after_user lib.pg lib.hashing lib.sign req) w (select_user-Evolves req.username)
        (user-Evolves req)

  inserted-Evolves :
      (req : RegisterRequest) (username : String) (r : Reply String) (w : World)
      → EvolvesDb w.db (after_insert lib.pg lib.sign req username r w).1.db
  unfolding after_insert
  inserted-Evolves req username (err e) w = Evolves-refl w.db.sessions
  inserted-Evolves req username (ok user_id) w = open_session-Evolves 201 req user_id username w

  hashed-Evolves :
      (req : RegisterRequest) (username : String) (hash : Option String) (w : World)
      → EvolvesDb w.db (after_hash lib.pg lib.sign req username hash w).1.db
  unfolding after_hash
  hashed-Evolves req username none w = Evolves-refl w.db.sessions
  hashed-Evolves req username (some hash) w =
      handle-moves evolution (statement (insert_user lib.pg username hash))
        (after_insert lib.pg lib.sign req username) w (insert_user-Evolves username hash)
        (inserted-Evolves req username)

  pub register-Evolves :
      (salt : Option Bytes) (decoded : Option RegisterRequest) (w : World)
      → EvolvesDb w.db (register lib.pg lib.hashing lib.sign salt decoded w).1.db
  unfolding register
  register-Evolves salt none w = Evolves-refl w.db.sessions
  register-Evolves salt (some req) w =
      elim (Bool-cases (match_username (trim_space req.username))) [
        | inr bad ↦ rw bad (Evolves-refl w.db.sessions)
        | inl fits ↦ elim (Bool-cases (ltb (len req.password) 8)) [
          | inl short ↦ rw (fits, short) (Evolves-refl w.db.sessions)
          | inr long ↦ rw (fits, long) (hashed-Evolves req _ _ w)
        ]
      ]
