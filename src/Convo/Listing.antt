-- ===== src/Convo/Listing.antt =====
-- convo/handlers.go, `List` and `Members`: what a user may see of the conversations.
pub mod Visible
use bully.Prelude.{
  Bool, List, Option, String, [], false, if◌then◌else◌, leb, map, nat_beq, none, some, true, ℕ,
  ◌++◌, ◌∷◌,
}
use bully.Auth.{Claims, Response, write_err}
use bully.Convo.{is_member, is_member_row, member_ids}
use bully.Db.{Call, Reply, Uuids, World, arrived, err, ok, select, statement, with_uuid}
use bully.Tables.{ConversationRow, Db, GroupRow, Kind, MemberRow}

-- `conversationListItem`
pub record ConversationListItem : Type 0 where
  pub id : String
  pub kind : Kind
  pub group_id : Option String
  pub group_name : Option String

-- JOIN conversation_members: a conversation stands once for each row of the user.
unfoldable pub joined : ℕ → List MemberRow → List ConversationRow → List ConversationRow
joined u members [] = []
joined u members (r ∷ rows) =
    map (λ m. r) (select (is_member_row r.id u) members) ++ joined u members rows

-- ORDER BY created_at; SQL leaves the order of equal times open.
unfoldable pub insert_by_created : ConversationRow → List ConversationRow → List ConversationRow
insert_by_created s [] = s ∷ []
insert_by_created s (r ∷ rows) =
    if leb s.created_at r.created_at then s ∷ r ∷ rows else r ∷ insert_by_created s rows

unfoldable pub order_by_created : List ConversationRow → List ConversationRow
order_by_created [] = []
order_by_created (r ∷ rows) = insert_by_created r (order_by_created rows)

-- LEFT JOIN groups; `groups.id` is a primary key.
unfoldable pub name_of : ℕ → List GroupRow → Option String
name_of g [] = none
name_of g (r ∷ rows) = let rest = name_of g rows in if nat_beq r.id g then some r.name else rest

unfoldable pub group_name_of : Option ℕ → List GroupRow → Option String
unfolding name_of
group_name_of none groups = none
group_name_of (some g) groups = name_of g groups

unfoldable pub print_group : Uuids → Option ℕ → Option String
print_group pg none = none
print_group pg (some g) = some (pg.print g)

-- A scanned row.
unfoldable pub item_of : Uuids → List GroupRow → ConversationRow → ConversationListItem
item_of pg groups r = record {
  id = pg.print r.id;
  kind = r.kind;
  group_id = print_group pg r.group_id;
  group_name = group_name_of r.group_id groups;
}

unfoldable pub select_conversations :
    Uuids → String → Call → Db → Reply (List ConversationListItem) × Db
select_conversations pg user_id c db = with_uuid pg user_id db λ u. (
  ok (
      map (item_of pg db.groups)
        (arrived c.break_after (order_by_created (joined u db.members db.conversations)))),
  db,
)

-- An error, or the array of the body.
pub data Shown {ℓ} (A : Type ℓ) : Type ℓ where
  not_shown : Response → Shown A
  shown : List A → Shown A

unfoldable pub answer_rows {ℓ} : {A : Type ℓ} → Reply (List A) → Shown A
answer_rows (ok items) = shown items
answer_rows (err e) = not_shown (write_err 500 "db error")

-- `Handler.List`
unfoldable pub list_conversations :
    Uuids → Option Claims → World → Shown ConversationListItem × World
unfolding answer_rows
list_conversations pg none w = (not_shown (write_err 401 "unauthorized"), w)
list_conversations pg (some claims) w =
    let (r, after) = statement (select_conversations pg claims.user_id) w in (answer_rows r, after)

unfoldable pub members_allowed : Uuids → String → Reply Bool → World → Shown String × World
unfolding answer_rows
members_allowed pg conversation_id (err e) w = (not_shown (write_err 500 "db error"), w)
members_allowed pg conversation_id (ok false) w = (not_shown (write_err 403 "forbidden"), w)
members_allowed pg conversation_id (ok true) w =
    let (r, after) = member_ids pg conversation_id w in (answer_rows r, after)

-- `Handler.Members`; the text is the URL parameter `id`.
unfoldable pub list_members : Uuids → Option Claims → String → World → Shown String × World
unfolding members_allowed
list_members pg none conversation_id w = (not_shown (write_err 401 "unauthorized"), w)
list_members pg (some claims) conversation_id w =
    let (r, after) = is_member pg conversation_id claims.user_id w in
    members_allowed pg conversation_id r after
