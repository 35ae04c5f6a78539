-- ===== src/Convo/Grouping.antt =====
-- convo/handlers.go, `CreateGroup`: a group, its conversation and their members.
pub mod Joined
pub mod Parts
pub mod Whole
use bully.Prelude.{
  Bool, List, Option, String, [], if◌then◌else◌, nat_beq, none, not, some, ℕ, ◌&&◌, ◌++◌, ◌==◌, ◌∷◌,
}
use bully.Auth.{Claims, Response, write_err}
use bully.Convo.Direct.{insert_conversation, may_join, member}
use bully.Db.{
  Call, DbM, Reply, Uuids, World, any_row, db_failed, err, ok, pure, statement, with_uuid, ◌>>=◌,
  ◌>>◌,
}
use bully.Db.Tx.{transaction}
use bully.Tables.{Db, GroupMemberRow, group}

-- `createGroupRequest`
pub record CreateGroupRequest : Type 0 where
  pub name : String
  pub member_user_ids : List String

-- `groupResponse`
pub record GroupResponse : Type 0 where
  pub id : String
  pub name : String
  pub conversation_id : String

unfoldable pub insert_group : Uuids → String → String → Call → Db → Reply String × Db
insert_group pg name owner_id c db = with_uuid pg owner_id db λ u.
    if any_row (λ r. nat_beq r.id u) db.users && not (any_row (λ r. nat_beq r.id c.fresh) db.groups)
    then (
      ok (pg.print c.fresh),
      record db { groups = db.groups ++ record { id = c.fresh; name = name; owner_id = u } ∷ [] },
    )
    else (err db_failed, db)

-- `INSERT INTO conversations (kind, group_id) VALUES ('group', $1) RETURNING id`
unfoldable pub insert_group_conversation : Uuids → String → Call → Db → Reply String × Db
unfolding insert_conversation
insert_group_conversation pg group_id c db = with_uuid pg group_id db λ g.
    if any_row (λ r. nat_beq r.id g) db.groups
    then insert_conversation pg group (some g) c db
    else (err db_failed, db)

abbrev pub is_group_member_row : ℕ → ℕ → GroupMemberRow → Bool
is_group_member_row g u r = nat_beq r.group_id g && nat_beq r.user_id u

abbrev pub in_group : ℕ → String → ℕ → GroupMemberRow
in_group g role u = record { group_id = g; user_id = u; role = role }

-- What the foreign keys and the primary key of group_members ask of a new row.
unfoldable pub may_join_group : ℕ → ℕ → Db → Bool
may_join_group g u db =
    any_row (λ r. nat_beq r.id g) db.groups
    && any_row (λ r. nat_beq r.id u) db.users
    && not (any_row (is_group_member_row g u) db.group_members)

unfoldable pub insert_group_member :
    Uuids → String → String → String → Call → Db → Reply (Unit {0}) × Db
insert_group_member pg group_id user_id role c db = with_uuid pg group_id db λ g.
    with_uuid pg user_id db λ u.
      if may_join_group g u db
      then (ok tt, record db { group_members = db.group_members ++ in_group g role u ∷ [] })
      else (err db_failed, db)

-- The INSERT of one row of conversation_members.
unfoldable pub insert_member : Uuids → String → String → Call → Db → Reply (Unit {0}) × Db
insert_member pg convo_id user_id c db = with_uuid pg convo_id db λ k. with_uuid pg user_id db λ u.
    if may_join k u db
    then (ok tt, record db { members = db.members ++ member k u ∷ [] })
    else (err db_failed, db)

unfoldable pub insert_both : Uuids → String → String → String → String → DbM (Unit {0})
insert_both pg group_id convo_id role user_id =
    statement (insert_group_member pg group_id user_id role) >>= λ _.
    statement (insert_member pg convo_id user_id)

-- The loop over the members of the request, which passes over the text of the owner.
unfoldable pub insert_members : Uuids → String → String → String → List String → DbM (Unit {0})
insert_members pg group_id convo_id owner_id [] = pure tt
insert_members pg group_id convo_id owner_id (member_id ∷ rest) =
    let others = insert_members pg group_id convo_id owner_id rest in
    if member_id == owner_id
    then others
    else insert_both pg group_id convo_id "member" member_id >>= λ _. others

unfoldable pub make_group : Uuids → String → CreateGroupRequest → DbM GroupResponse
make_group pg owner_id req = do
  group_id ← statement (insert_group pg req.name owner_id)
  convo_id ← statement (insert_group_conversation pg group_id)
  insert_both pg group_id convo_id "owner" owner_id
  insert_members pg group_id convo_id owner_id req.member_user_ids
  pure (record { id = group_id; name = req.name; conversation_id = convo_id })

-- An error, or the `groupResponse`.
pub data Grouped : Type 0 where
  not_grouped : Response → Grouped
  grouped : GroupResponse → Grouped

unfoldable pub answer_group : Reply GroupResponse → Grouped
answer_group (ok made) = grouped made
answer_group (err e) = not_grouped (write_err 500 "db error")

unfoldable pub group_for : Uuids → Claims → Option CreateGroupRequest → World → Grouped × World
unfolding answer_group
group_for pg claims none w = (not_grouped (write_err 400 "invalid body"), w)
group_for pg claims (some req) w =
    if req.name == ""
    then (not_grouped (write_err 400 "invalid body"), w)
    else let (r, after) = transaction (make_group pg claims.user_id req) w in
      (answer_group r, after)

-- `Handler.CreateGroup`; the request is what the body decodes to, if it does.
unfoldable pub create_group :
    Uuids → Option Claims → Option CreateGroupRequest → World → Grouped × World
unfolding group_for
create_group pg none decoded w = (not_grouped (write_err 401 "unauthorized"), w)
create_group pg (some claims) decoded w = group_for pg claims decoded w
