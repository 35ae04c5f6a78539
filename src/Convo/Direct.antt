-- ===== src/Convo/Direct.antt =====
-- convo/handlers.go, `CreateDM`: the conversation of two users, found or made.
pub mod Rows
pub mod Picked
pub mod Again
pub mod Self
use bully.Prelude.{
  Bool, List, Option, String, [], false, if◌then◌else◌, map, nat_beq, none, not, some, true, ℕ,
  ◌&&◌, ◌++◌, ◌==◌, ◌∷◌,
}
use bully.Auth.{Claims, Response, write_err}
use bully.Convo.{is_member_row}
use bully.Db.{
  Call, DbM, Reply, Uuids, World, any_row, db_failed, err, first_row, ok, pure, rotate, select,
  statement, with_uuid, ◌>>=◌, ◌>>◌,
}
use bully.Db.Tx.{transaction}
use bully.Tables.{ConversationRow, Db, Kind, MemberRow, dm, group}

abbrev pub is_dm : Kind → Bool
is_dm dm = true
is_dm group = false

-- What both JOINs and the WHERE ask of a conversation.
abbrev pub is_direct : ℕ → ℕ → List MemberRow → ConversationRow → Bool
is_direct u v members r =
    is_dm r.kind && any_row (is_member_row r.id u) members && any_row (is_member_row r.id v) members

-- LIMIT 1 has no order: the database takes any of the rows.
unfoldable pub select_direct : Uuids → String → String → Call → Db → Reply String × Db
select_direct pg user_id peer_id c db = with_uuid pg user_id db λ u. with_uuid pg peer_id db λ v.
    let rows = rotate c.pick (select (is_direct u v db.members) db.conversations) in
    (first_row (map (λ r. pg.print r.id) rows), db)

-- `INSERT INTO conversations … RETURNING id`
unfoldable pub insert_conversation : Uuids → Kind → Option ℕ → Call → Db → Reply String × Db
insert_conversation pg kind group_id c db =
    if any_row (λ r. nat_beq r.id c.fresh) db.conversations then (err db_failed, db) else (
      ok (pg.print c.fresh),
      record db {
        conversations =
            db.conversations
            ++ record { id = c.fresh; kind = kind; group_id = group_id; created_at = c.now } ∷ [];
      },
    )

-- What the foreign keys and the primary key of conversation_members ask of a new row.
unfoldable pub may_join : ℕ → ℕ → Db → Bool
may_join k u db =
    any_row (λ r. nat_beq r.id k) db.conversations
    && any_row (λ r. nat_beq r.id u) db.users
    && not (any_row (is_member_row k u) db.members)

abbrev pub member : ℕ → ℕ → MemberRow
member k u = record { conversation_id = k; user_id = u }

-- The INSERT of two rows; they must differ from each other too.
unfoldable pub insert_pair : Uuids → String → String → String → Call → Db → Reply (Unit {0}) × Db
insert_pair pg convo_id user_id peer_id c db = with_uuid pg convo_id db λ k.
    with_uuid pg user_id db λ u. with_uuid pg peer_id db λ v.
      if may_join k u db && may_join k v db && not (nat_beq u v)
      then (ok tt, record db { members = db.members ++ member k u ∷ member k v ∷ [] })
      else (err db_failed, db)

unfoldable pub make_direct : Uuids → String → String → DbM String
make_direct pg user_id peer_id = do
  convo_id ← statement (insert_conversation pg dm none)
  statement (insert_pair pg convo_id user_id peer_id)
  pure convo_id

-- An error, or the id of the `conversationResponse`, whose kind is "dm".
pub data Opened : Type 0 where
  not_opened : Response → Opened
  opened : String → Opened

unfoldable pub answer_direct : Reply String → Opened
answer_direct (ok id) = opened id
answer_direct (err e) = not_opened (write_err 500 "db error")

-- Any error of the SELECT, not only the missing row, leads on to a new conversation.
unfoldable pub after_select : Uuids → String → String → Reply String → World → Opened × World
unfolding answer_direct
after_select pg user_id peer_id (ok existing) w = (opened existing, w)
after_select pg user_id peer_id (err e) w =
    let (r, after) = transaction (make_direct pg user_id peer_id) w in (answer_direct r, after)

unfoldable pub direct_with : Uuids → Claims → Option String → World → Opened × World
unfolding after_select
direct_with pg claims none w = (not_opened (write_err 400 "invalid body"), w)
direct_with pg claims (some peer) w =
    if peer == ""
    then (not_opened (write_err 400 "invalid body"), w)
    else let (r, after) = statement (select_direct pg claims.user_id peer) w in
      after_select pg claims.user_id peer r after

-- `Handler.CreateDM`; the text is the field of the decoded body, if it decodes.
unfoldable pub create_dm : Uuids → Option Claims → Option String → World → Opened × World
unfolding direct_with
create_dm pg none decoded w = (not_opened (write_err 401 "unauthorized"), w)
create_dm pg (some claims) decoded w = direct_with pg claims decoded w
